-- ===== src/Coroutine/Refinement.antt =====
-- A coroutine of the code against one of a specification, whose state forgets part of the code's.
use hacpp.Base.{
  ◌≡◌, refl, sym, ap, ◌∙◌, subst, List, [], ◌∷◌, ◌++◌, returned, threw, exhausted, Outcome,
}
use hacpp.Coroutine.{Coroutine, done, wait, bind}
use hacpp.Coroutine.Logic.{Steps, at}
use hacpp.Coroutine.System.{System, Step, spawn, resume, Reach, start, next, Reach-invariant}

module _ {R : Type 0} {Reply : R → Type 0} {T : Type 0} {A : Type 0} {b c : T} where
  pub done-ap : {o : Outcome A} → b ≡ c → ◌≡◌ {A = Coroutine Reply T A} (done o b) (done o c)
  done-ap e = rw e refl

  pub wait-ap : {r : R} {l : Reply r → T → Coroutine Reply T A} → b ≡ c → wait b r l ≡ wait c r l
  wait-ap e = rw e refl

-- `view` is what the specification sees of a state that meets the invariant.
module _ {R : Type 0} {Reply : R → Type 0} {S T : Type 0} (view : S → T) (Inv : S → Type 0) where
  -- The code ends where the specification ends, with the same outcome, or awaits the same request,
  -- and so again whatever the reply and wherever both are resumed.
  abbrev pub Implements : {A : Type 0} → Coroutine Reply S A → Coroutine Reply T A → Type 0
  Implements (done o s) n = n ≡ done o (view s)
  Implements {A} (wait s r k) n =
      (l : Reply r → T → Coroutine Reply T A) × (n ≡ wait (view s) r l)
      × ((p : Reply r) (t : S) → Inv t → Implements (k p t) (l p (view t)))

  pub Implements-bind :
      {A B : Type 0} (c : S) (m : Coroutine Reply S A) (n : Coroutine Reply T A)
      (f : A → S → Coroutine Reply S B) (g : A → T → Coroutine Reply T B)
      → Inv c
      → Steps (λ a b. Inv a → Inv b) c m
      → Implements m n
      → ((a : A) (s : S) → Inv s → Implements (f a s) (g a (view s)))
      → Implements (bind m f) (bind n g)
  unfolding bind
  Implements-bind c (done (returned a) s) n f g v keeps h go = rw h (go a s (keeps v))
  Implements-bind c (done (threw x) s) n f g v keeps h go = rw h refl
  Implements-bind c (done exhausted s) n f g v keeps h go = rw h refl
  Implements-bind c (wait s r k) n f g v keeps (l, e, h) go = rw e (
    λ p t. bind (l p t) g,
    refl,
    λ p t i. Implements-bind t (k p t) (l p (view t)) f g i (keeps.1 p t) (h p t i) go,
  )

  pub at-Implements :
      {A : Type 0} (m : Coroutine Reply S A) (n : Coroutine Reply T A)
      → Implements m n
      → at n ≡ view (at m)
  at-Implements (done o s) n h = rw h refl
  at-Implements (wait s r k) n (l, e, h) = rw e refl

  -- The tasks of the code and those of the specification, one by one.
  abbrev pub Pairwise :
      List (Coroutine Reply S (Unit {0})) → List (Coroutine Reply T (Unit {0})) → Type 0
  Pairwise [] [] = Unit
  Pairwise (m ∷ ms) (n ∷ ns) = Implements m n × Pairwise ms ns
  Pairwise ms ns = ⊥

  -- The task of the specification at the place of one of the code's.
  record Place (before after : List (Coroutine Reply S (Unit {0})))
      (m : Coroutine Reply S (Unit {0})) (ns : List (Coroutine Reply T (Unit {0}))) : Type 0 where
    prefix : List (Coroutine Reply T (Unit {0}))
    suffix : List (Coroutine Reply T (Unit {0}))
    found : Coroutine Reply T (Unit {0})
    splits : ns ≡ prefix ++ found ∷ suffix
    implements : Implements m found
    replace :
        (m' : Coroutine Reply S (Unit {0})) (n' : Coroutine Reply T (Unit {0}))
        → Implements m' n'
        → Pairwise (before ++ m' ∷ after) (prefix ++ n' ∷ suffix)

  place :
      (before after : List (Coroutine Reply S (Unit {0}))) (m : Coroutine Reply S (Unit {0}))
      (ns : List (Coroutine Reply T (Unit {0})))
      → Pairwise (before ++ m ∷ after) ns
      → Place before after m ns
  place [] after m [] h = absurd h
  place [] after m (n ∷ ns) h = record {
    prefix = [];
    suffix = ns;
    found = n;
    splits = refl;
    implements = h.0;
    replace = λ m' n' i. (i, h.1);
  }
  place (b ∷ before) after m [] h = absurd h
  place (b ∷ before) after m (n ∷ ns) h =
      let rest = place before after m ns h.1 in
      record {
        prefix = n ∷ rest.prefix;
        suffix = rest.suffix;
        found = rest.found;
        splits = ap (λ l. n ∷ l) rest.splits;
        implements = rest.implements;
        replace = λ m' n' i. (h.0, rest.replace m' n' i);
      }

  module _ {Call : Type 0} (spec : Call → T → Coroutine Reply T (Unit {0})) (initial : S)
      (Q : Call → Type 0) where
    -- A state of the specification that the code's state implements, reached by the same steps.
    abbrev pub Refined : System Reply S → Type 0
    Refined s =
        (t : System Reply T) × Reach spec (view initial) Q t
        × (t.shared ≡ view s.shared)
        × Pairwise s.tasks t.tasks

  module _ {Call : Type 0} (task : Call → S → Coroutine Reply S (Unit {0}))
      (spec : Call → T → Coroutine Reply T (Unit {0})) (initial : S) (Q : Call → Type 0)
      (keeps : (call : Call) → Q call → (c : S) → Steps (λ a b. Inv a → Inv b) c (task call c))
      (refines : (call : Call)
        → Q call
        → (c : S) → Inv c
        → Implements (task call c) (spec call (view c)))
      (begins : Inv initial) where
    Step-Refined :
        {s t : System Reply S}
        → Inv s.shared
        → Step task initial Q s t
        → Refined spec initial Q s
        → Refined spec initial Q t
    Step-Refined {s} {t} v (spawn call q e f) (u, reached, same, pairs) =
        let i = refines call q s.shared v in
        let n = spec call (view s.shared) in
        (
          record { shared = at n; tasks = n ∷ u.tasks },
          next reached (spawn call q (rw same refl) (rw same refl)),
          at-Implements (task call s.shared) n i ∙ ap view (sym e),
          rw f (i, pairs),
        )
    Step-Refined {s} {t} v (resume before after c r k p e f g) (u, reached, same, pairs) =
        let here =
          place before after (wait c r k) u.tasks (subst (λ l. Pairwise l u.tasks) e pairs) in
        let (l, awaits, go) = here.implements in
        let i = go p s.shared v in
        let n = l p (view s.shared) in
        (
          record { shared = at n; tasks = here.prefix ++ n ∷ here.suffix },
          next reached (
              resume here.prefix here.suffix (view c) r l p (here.splits ∙ rw awaits refl)
                (rw same refl) (rw same refl)),
          at-Implements (k p s.shared) n i ∙ ap view (sym f),
          rw g (here.replace (k p s.shared) n i),
        )

    -- Every state that the code reaches is implemented from one that the specification reaches.
    pub Reach-Refined : {s : System Reply S} → Reach task initial Q s → Refined spec initial Q s
    Reach-Refined start = (record { shared = view initial; tasks = [] }, start, refl, tt)
    Reach-Refined (next r st) =
        Step-Refined (Reach-invariant task initial Q Inv keeps begins r) st (Reach-Refined r)
