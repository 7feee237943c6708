-- ===== src/Coroutine/System.antt =====
-- Any number of coroutines over one shared state, on one executor: each runs up to its next await
-- and is then resumed, in any order and with any reply.
use hacpp.Base.{◌≡◌, List, [], ◌∷◌, ◌++◌, subst, All, All_at, All-replace}
use hacpp.Coroutine.{Coroutine, done, wait}
use hacpp.Coroutine.Logic.{Steps, Steps-at, at}

pub record System {R : Type 0} (Reply : R → Type 0) (S : Type 0) : Type 0 where
  pub shared : S
  pub tasks : List (Coroutine Reply S (Unit {0}))

module _ {R : Type 0} {Reply : R → Type 0} {S : Type 0} where
  -- A task that is suspended relates the two ends of each of its segments to come by `G`.
  abbrev Ready : (S → S → Type 0) → Coroutine Reply S (Unit {0}) → Type 0
  Ready G (done o c) = Unit
  Ready G (wait c r k) = (p : Reply r) (e : S) → Steps G e (k p e)

  Steps-Ready :
      (G : S → S → Type 0) (c : S) (m : Coroutine Reply S (Unit {0})) → Steps G c m → Ready G m
  Steps-Ready G c (done o d) h = tt
  Steps-Ready G c (wait d r k) h = h.1

-- The tasks that the program can start, and the state that it starts in.
module _ {R : Type 0} {Reply : R → Type 0} {S : Type 0} {Call : Type 0}
    (task : Call → S → Coroutine Reply S (Unit {0})) (initial : S) where
  -- A step makes one of the calls that `Q` allows, or resumes one suspended task.
  pub data Step (Q : Call → Type 0) (s t : System Reply S) : Type 0 where
    spawn :
        (call : Call)
        → Q call
        → t.shared ≡ at (task call s.shared)
        → t.tasks ≡ task call s.shared ∷ s.tasks
        → Step Q s t
    resume :
        (before after : List (Coroutine Reply S (Unit {0}))) (c : S) (r : R)
        (k : Reply r → S → Coroutine Reply S (Unit {0})) (p : Reply r)
        → s.tasks ≡ before ++ wait c r k ∷ after
        → t.shared ≡ at (k p s.shared)
        → t.tasks ≡ before ++ k p s.shared ∷ after
        → Step Q s t

  pub data Reach (Q : Call → Type 0) : System Reply S → Type 0 where
    start : Reach Q (record { shared = initial; tasks = [] })
    next : {s t : System Reply S} → Reach Q s → Step Q s t → Reach Q t

  module _ (Q : Call → Type 0) (G : S → S → Type 0)
      (sound : (call : Call) → Q call → (c : S) → Steps G c (task call c)) where
    Step-Ready : {s t : System Reply S} → Step Q s t → All (Ready G) s.tasks → All (Ready G) t.tasks
    Step-Ready {s} (spawn call q e f) h = rw f (Steps-Ready G s.shared _ (sound call q s.shared), h)
    Step-Ready {s} (resume before after c r k p e f g) h =
        let all = subst (All (Ready G)) e h in
        rw g (
          All-replace (Ready G) before after _ _ all
            (Steps-Ready G s.shared _ (All_at (Ready G) before after _ all p s.shared)))

    Reach-Ready : {s : System Reply S} → Reach Q s → All (Ready G) s.tasks
    Reach-Ready start = tt
    Reach-Ready (next r st) = Step-Ready st (Reach-Ready r)

    -- What holds of every segment of every call holds of every step of the system.
    pub Step-related : {s t : System Reply S} → Reach Q s → Step Q s t → G s.shared t.shared
    Step-related {s} {t} r (spawn call q e f) = rw e (Steps-at G s.shared _ (sound call q s.shared))
    Step-related {s} {t} r (resume before after c w k p e f g) =
        let all = subst (All (Ready G)) e (Reach-Ready r) in
        rw f (Steps-at G s.shared _ (All_at (Ready G) before after _ all p s.shared))

  -- Any number of further steps.
  pub data Later (Q : Call → Type 0) (s : System Reply S) : System Reply S → Type 0 where
    here : Later Q s s
    further : {t u : System Reply S} → Later Q s t → Step Q t u → Later Q s u

  pub Later-Reach : (Q : Call → Type 0) {s t : System Reply S} → Reach Q s → Later Q s t → Reach Q t
  Later-Reach Q r here = r
  Later-Reach Q r (further l st) = next (Later-Reach Q r l) st

  pub Later-related :
      (Q : Call → Type 0) (G : S → S → Type 0)
      → ((call : Call) → Q call → (c : S) → Steps G c (task call c))
      → ((c : S) → G c c)
      → ((c d e : S) → G c d → G d e → G c e)
      → {s t : System Reply S} → Reach Q s
      → Later Q s t
      → G s.shared t.shared
  Later-related Q G sound same trans r here = same _
  Later-related Q G sound same trans r (further l st) =
      trans _ _ _ (Later-related Q G sound same trans r l)
        (Step-related Q G sound (Later-Reach Q r l) st)

  -- An invariant of the state, kept by every segment of every call.
  pub Reach-invariant :
      (Q : Call → Type 0) (Inv : S → Type 0)
      → ((call : Call) → Q call → (c : S) → Steps (λ a b. Inv a → Inv b) c (task call c))
      → Inv initial
      → {s : System Reply S} → Reach Q s
      → Inv s.shared
  Reach-invariant Q Inv sound h start = h
  Reach-invariant Q Inv sound h (next r st) =
      Step-related Q (λ a b. Inv a → Inv b) sound r st (Reach-invariant Q Inv sound h r)
