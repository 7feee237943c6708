-- ===== src/Program/Refinement.antt =====
-- A whole program over the specification of a shared connection.
use hacpp.Base.{refl, ℕ, []}
use hacpp.Coroutine.{Coroutine, done, wait}
use hacpp.Coroutine.Compose.{Layered, on_inner, over, on_inner-Steps, Both}
use hacpp.Coroutine.Logic.{Steps, Steps-mono}
use hacpp.Coroutine.Refinement.{Implements, Implements-bind, Refined, Reach-Refined}
use hacpp.Coroutine.System.{System, Reach}
use hacpp.Error.{Platform}
use hacpp.Client
use hacpp.Shared
use hacpp.Shared.{SharedConnection}
use hacpp.Shared.Invariant.{Inv, initial-Inv}
use hacpp.Shared.Broker
use hacpp.Shared.Broker.{Broker, nobody}
use hacpp.Shared.Broker.View.{view}
use hacpp.Shared.Broker.Refinement.{task-Meets, serve-Meets}
use hacpp.Entity.{Spawned}
use hacpp.Program.{Call, connection, entity, task_of}
use hacpp.Program.Steady.{AnyOne, task_of-Outer, Outer, serve_shared-Preserves}

-- The object that is held implements its specification, and so do the calls of the other one.
module _ {S B T : Type 0} (view : S → B) (Inv : S → Type 0) where
  abbrev pub seen : Layered S T → Layered B T
  seen u = record { inner = view u.inner; outer = u.outer }

  abbrev pub Keeps : Layered S T → Type 0
  Keeps u = Inv u.inner

  module _ {Q : Type 0} {Reply : Q → Type 0} where
    on_inner-Implements :
        {A : Type 0} (m : Coroutine Reply S A) (n : Coroutine Reply B A) (t : T)
        → Implements view Inv m n
        → Implements seen Keeps (on_inner m t) (on_inner n t)
    unfolding on_inner
    on_inner-Implements (done o s) n t h = rw h refl
    on_inner-Implements (wait s q k) n t (l, e, h) = rw e (
      λ p u. on_inner (l p u.inner) u.outer,
      refl,
      λ p u v. on_inner-Implements (k p u.inner) (l p (view u.inner)) u.outer (h p u.inner v),
    )

    module _ {R : Type 0} {Result : R → Type 0} (serve : (r : R) → S → Coroutine Reply S (Result r))
        (spec : (r : R) → B → Coroutine Reply B (Result r))
        (keeps : (r : R) (s : S) → Steps (λ a b. Inv a → Inv b) s (serve r s))
        (meets : (r : R) (s : S) → Implements view Inv (serve r s) (spec r (view s))) where
      pub over-Implements :
          {A : Type 0} (m : Coroutine Result T A) (s : S)
          → Inv s
          → Implements seen Keeps (over serve m s) (over spec m (view s))
      unfolding over
      over-Implements (done o t) s v = refl
      over-Implements (wait t r k) s v =
          let u : Layered S T = record { inner = s; outer = t } in
          Implements-bind seen Keeps u (on_inner (serve r s) t) (on_inner (spec r (view s)) t) _ _ v
            (Steps-mono (Both (λ a b. Inv a → Inv b) (λ a b. Unit {0})) (λ a b. Keeps a → Keeps b)
              (λ a b g. g.0) u _
              (on_inner-Steps (λ a b. Inv a → Inv b) (λ a b. Unit {0}) (λ x. tt) u (serve r s)
                (keeps r s)))
            (on_inner-Implements (serve r s) (spec r (view s)) t (meets r s))
            (λ p w i. over-Implements (k p w.outer) w.inner i)

-- The same program over the specification.
unfoldable pub spec_of :
    Platform
    → Call
    → Layered Broker Spawned
    → Coroutine Shared.Reply (Layered Broker Spawned) (Unit {0})
unfolding on_inner over
spec_of P (connection call) b = on_inner (Broker.spec P call b.inner) b.outer
spec_of P (entity id m) b = over (Broker.serve P id) (m b.outer) b.inner

abbrev pub begun : Layered SharedConnection Spawned
begun = record { inner = Shared.initial; outer = [] }

module _ (P : Platform) (fuel : ℕ) (config : Client.Config) where
  task_of-Implements :
      (call : Call)
      → AnyOne call
      → (u : Layered SharedConnection Spawned) → Inv u.inner
      → Implements
          (seen view Inv)
          (Keeps view Inv)
          (task_of P fuel config call u)
          (spec_of P call (seen view Inv u))
  unfolding task_of spec_of
  task_of-Implements (connection call) q u v =
      on_inner-Implements view Inv _ _ u.outer (task-Meets P call tt u.inner v)
  task_of-Implements (entity id m) q u v =
      over-Implements view Inv (Shared.serve P id) (Broker.serve P id) (serve_shared-Preserves P id)
        (serve-Meets P id) (m u.outer) u.inner v

  task_of-Keeps :
      (call : Call)
      → AnyOne call
      → (u : Layered SharedConnection Spawned)
      → Steps (λ a b. Keeps view Inv a → Keeps view Inv b) u (task_of P fuel config call u)
  task_of-Keeps call q u =
      Steps-mono (Outer P) _ (λ a b g. g.0.0) u _ (task_of-Outer P fuel config call u)

-- In every interleaving of the calls of a shared connection and of any coroutines over its logical
-- clients, such as entities, with any replies of the physical client and of the timers, the program
-- is in a state that some interleaving leads the same program over the specification to: with the
-- same handlers started, the mailboxes, options and attached clients that the specification sees of
-- the connection, and each coroutine awaiting the same request and going on so, whatever the
-- replies, or ended with the same outcome.
pub program_refines :
    (P : Platform) (fuel : ℕ) (config : Client.Config)
    {s : System Shared.Reply (Layered SharedConnection Spawned)}
    → Reach (task_of P fuel config) begun AnyOne s
    → Refined (seen view Inv) (Keeps view Inv) (spec_of P) begun AnyOne s
program_refines P fuel config r =
    Reach-Refined (seen view Inv) (Keeps view Inv) (task_of P fuel config) (spec_of P) begun AnyOne
      (task_of-Keeps P fuel config) (task_of-Implements P fuel config) initial-Inv r
