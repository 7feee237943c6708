-- ===== src/Program/Steady.antt =====
-- A whole program, interleaved in any way: what its parts keep when they are put together.
use hacpp.Base.{◌∙◌, ℕ, ◌≡◌, ◌≢◌, ◌<◌, refl, [], some, subst}
use hacpp.Api.{Operation, publishing, subscribing, receiving, closing}
use hacpp.Coroutine.{bind}
use hacpp.Coroutine.Logic.{Steps, Steps-mono, Steps-both, Steps-any}
use hacpp.Coroutine.System.{System, Step, Reach, Step-related, Reach-invariant}
use hacpp.Coroutine.Compose.{Both, Layered, on_inner-Steps, over-Steps, relabel-Steps}
use hacpp.Error.{Platform}
use hacpp.Client
use hacpp.Client.{Connection, default_max_autoreconnect_attempts}
use hacpp.Client.Serving.{serve as serve_client, serve-Keeps}
use hacpp.Client.Wakeups.{IsArmed, Keeps, Keeps-refl, Keeps-trans, async_connect-Keeps}
use hacpp.Shared
use hacpp.Shared.{SharedConnection, SharedClientState}
use hacpp.Shared.Interleaving.{
  task as shared_task, Preserves, Preserves-trans, recv-Preserves, subscribe-Preserves,
  task-Preserves,
}
use hacpp.Shared.Invariant.{Inv, initial-Inv, erase_if-Inv}
use hacpp.Shared.Wakeups.{Woken, Wakes, Wakes-refl, Wakes-trans, same_heap-Wakes}
use hacpp.Shared.Waking.{recv-Wakes, subscribe-Wakes, task-Wakes, below_of-Inv}
use hacpp.Entity.{Spawned}
use hacpp.Program.{network, Reply, State, Call, connection, entity, serve, task_of, task, initial}

abbrev pub AnyOne : Call → Type 0
AnyOne call = Unit

-- A segment on the shared connection keeps its invariant and wakes the queues that it fills.
abbrev pub Sound : SharedConnection → SharedConnection → Type 0
Sound s t = Preserves s t × Wakes s t

Sound-refl : (s : SharedConnection) → Sound s s
Sound-refl s = (λ v. v, Wakes-refl s)

Sound-trans : (s t u : SharedConnection) → Sound s t → Sound t u → Sound s u
Sound-trans s t u g h = (Preserves-trans s t u g.0 h.0, Wakes-trans s t u g.1 h.1)

-- Nothing is claimed here of the handlers.
abbrev pub Free : Spawned → Spawned → Type 0
Free s t = Unit

module _ (P : Platform) where
  pub serve_shared-Preserves :
      (id : ℕ) (op : Operation) (s : SharedConnection) → Steps Preserves s (Shared.serve P id op s)
  unfolding Shared.serve Shared.async_publish Shared.async_detach bind
  serve_shared-Preserves id (publishing topic payload qos retain) s = (λ v. v, λ p t v. v)
  serve_shared-Preserves id (subscribing topics) s = subscribe-Preserves id topics s
  serve_shared-Preserves id receiving s = recv-Preserves P id s
  serve_shared-Preserves id closing s = erase_if-Inv _ s

  serve_shared-Wakes :
      (id : ℕ) (op : Operation) (s : SharedConnection) → Steps Wakes s (Shared.serve P id op s)
  unfolding Shared.serve Shared.async_publish Shared.async_detach bind
  serve_shared-Wakes id (publishing topic payload qos retain) s =
      (Wakes-refl s, λ p t. Wakes-refl t)
  serve_shared-Wakes id (subscribing topics) s = subscribe-Wakes id topics s
  serve_shared-Wakes id receiving s = recv-Wakes P id s
  serve_shared-Wakes id closing s = same_heap-Wakes s _ refl refl

  abbrev pub Outer : Layered SharedConnection Spawned → Layered SharedConnection Spawned → Type 0
  Outer = Both Sound Free

  Outer-refl : (s : Layered SharedConnection Spawned) → Outer s s
  Outer-refl s = (Sound-refl s.inner, tt)

  Outer-trans : (s t u : Layered SharedConnection Spawned) → Outer s t → Outer t u → Outer s u
  Outer-trans s t u g h = (Sound-trans s.inner t.inner u.inner g.0 h.0, tt)

  module _ (fuel : ℕ) (config : Client.Config) where
    pub task_of-Outer :
        (call : Call) (s : Layered SharedConnection Spawned)
        → Steps Outer s (task_of P fuel config call s)
    unfolding task_of
    task_of-Outer (connection call) s =
        on_inner-Steps Sound Free (λ t. tt) s (shared_task P call s.inner)
          (Steps-both Preserves Wakes s.inner _ (task-Preserves P call tt s.inner)
            (task-Wakes P call tt s.inner))
    task_of-Outer (entity id m) s =
        over-Steps Sound Free (Shared.serve P id) Sound-refl (λ t. tt) Sound-trans (λ a b c g h. tt)
          (λ op t.
            Steps-both Preserves Wakes t _ (serve_shared-Preserves id op t)
              (serve_shared-Wakes id op t))
          s (m s.outer) (Steps-any s.outer (m s.outer))

    serve-Keeps_program :
        (r : Shared.Request) (c : Connection) → Steps Keeps c (serve P fuel config r c)
    unfolding serve
    serve-Keeps_program (Shared.client op) c =
        relabel-Steps Reply network Keeps c (serve_client P fuel config op c)
          (serve-Keeps P fuel config op c)
    serve-Keeps_program Shared.connect_client c =
        relabel-Steps Reply network Keeps c (Client.async_connect P config c)
          (async_connect-Keeps P config c)
    serve-Keeps_program (Shared.queue_timer id) c = (Keeps-refl c, λ p d. Keeps-refl d)

    task-Steady :
        (call : Call)
        → AnyOne call
        → (s : State) → Steps (Both Keeps Outer) s (task P fuel config call s)
    unfolding task
    task-Steady call q s =
        over-Steps Keeps Outer (serve P fuel config) Keeps-refl Outer-refl Keeps-trans Outer-trans
          serve-Keeps_program s (task_of P fuel config call s.outer) (task_of-Outer call s.outer)

-- In every interleaving of the calls of a shared connection and of any coroutines over its logical
-- clients, such as entities, all over one `AsyncMqttClient`, with any replies of the network and of
-- the timers: while that client is reconnecting its wait timer never expires, it may make the
-- default number of attempts, and the shared connection keeps its invariant (no client is listed
-- twice, none is listed or alive that was never made, and none has a topic registered twice).
pub program_keeps :
    (P : Platform) (fuel : ℕ) (config : Client.Config) {s : System Reply State}
    → Reach (task P fuel config) initial AnyOne s
    → IsArmed s.shared.inner
      × (s.shared.inner.max_attempts ≡ default_max_autoreconnect_attempts)
      × Inv s.shared.outer.inner
program_keeps P fuel config r =
    Reach-invariant (task P fuel config) initial AnyOne
      (λ (s : State).
        IsArmed s.inner
        × (s.inner.max_attempts ≡ default_max_autoreconnect_attempts)
        × Inv s.outer.inner)
      (λ call q c.
        Steps-mono (Both Keeps (Outer P)) _
          (λ a b g v. (g.0.armed v.0, g.0.same_max ∙ v.1, g.1.0.0 v.2)) c _
          (task-Steady P fuel config call q c))
      (λ e. cc, refl, initial-Inv) r

-- In every interleaving of such a program, with any replies: a step after which the queue of a
-- logical client has a result, where it had none, cancels the queue's timer in that same step, so
-- that a receive of an entity that waits on the queue is resumed.
pub program_queue_filled-wakes :
    (P : Platform) (fuel : ℕ) (config : Client.Config) {s t : System Reply State} (id : ℕ)
    (c d : SharedClientState)
    → Reach (task P fuel config) initial AnyOne s
    → Step (task P fuel config) initial AnyOne s t
    → s.shared.outer.inner.heap id ≡ some c
    → t.shared.outer.inner.heap id ≡ some d
    → c.queue.queue ≡ []
    → d.queue.queue ≢ []
    → c.queue.cancels < d.queue.cancels
program_queue_filled-wakes P fuel config {s} {t} id c d r st was now empty filled =
    let step =
      Step-related (task P fuel config) initial AnyOne (Both Keeps (Outer P))
        (task-Steady P fuel config) r st in
    let valid = (program_keeps P fuel config r).2 in
    let below = below_of-Inv s.shared.outer.inner id c valid was in
    let woken : Woken (some c) (some d) =
      subst (λ o. Woken o (some d)) was
        (subst (λ o. Woken (s.shared.outer.inner.heap id) o) now (step.1.0.1.object id below)) in
    woken.1 empty filled
