-- ===== src/Program/Isolation.antt =====
-- A whole program: what an entity can do to the other logical clients of a shared connection.
use hacpp.Base.{ℕ}
use hacpp.Coroutine.Logic.{Steps, Steps-mono, Steps-any}
use hacpp.Coroutine.Compose.{Both, over-Steps}
use hacpp.Error.{Platform}
use hacpp.Client
use hacpp.Shared
use hacpp.Shared.Locality.{IsLocal, IsLocal-refl, IsLocal-trans, serve-IsLocal}
use hacpp.Entity
use hacpp.Program.{State, entity, serve, task_of, task}

abbrev Free : {A : Type 0} → A → A → Type 0
Free a b = Unit

-- Every segment of a coroutine over the logical client `id`, an entity's or any other, leaves the
-- queue, the topics and the place in the list of every other logical client as they were, whatever
-- the network replies and whatever the rest of the program does at its awaits.
pub entity-IsLocal :
    (P : Platform) (fuel : ℕ) (config : Client.Config) (id : ℕ) (m : Entity.M (Unit {0}))
    (s : State)
    → Steps (λ a b. IsLocal id a.outer.inner b.outer.inner) s (task P fuel config (entity id m) s)
unfolding task task_of
entity-IsLocal P fuel config id m s =
    let local =
      over-Steps (IsLocal id) Free (Shared.serve P id) (IsLocal-refl id) (λ t. tt)
        (IsLocal-trans id) (λ a b c g h. tt) (serve-IsLocal id P) s.outer (m s.outer.outer)
        (Steps-any s.outer.outer (m s.outer.outer)) in
    Steps-mono (Both Free (Both (IsLocal id) Free)) _ (λ a b g. g.1.0) s _
      (over-Steps Free (Both (IsLocal id) Free) (serve P fuel config) (λ c. tt)
        (λ t. (IsLocal-refl id t.inner, tt)) (λ a b c g h. tt)
        (λ a b c g h. (IsLocal-trans id a.inner b.inner c.inner g.0 h.0, tt))
        (λ r c. Steps-any c (serve P fuel config r c)) s _ local)
