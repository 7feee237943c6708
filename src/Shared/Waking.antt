-- ===== src/Shared/Waking.antt =====
-- lib/include/hacpp/shared_mqtt_client.h: whoever waits on a queue is woken when it gets a result.
use hacpp.Base.{
  ℕ, zero, suc, ◌<◌, ◌≡◌, ◌≢◌, refl, subst, none, some, List, [], ◌∷◌, arith, inl, inr, Bool-cases,
}
use hacpp.Coroutine.{bind}
use hacpp.Coroutine.Logic.{Steps, Steps-bind, Steps-from}
use hacpp.Coroutine.System.{System, Step, Reach, Step-related}
use hacpp.Error.{Platform, Error, failed, no_error}
use hacpp.Mqtt.{RecvResult, TopicSubopts}
use hacpp.Shared.{
  is_nil, pump_error, SharedConnection, SharedClientState, Reply, initial, async_connect,
  async_close, async_publish, async_detach, async_subscribe, async_recv, async_run, async_pump_one,
  make_client, destroy, take_front, drop_front, register_client, register_topics, pump_result,
  remove_expired_clients, lock, items_of, update,
}
use hacpp.Shared.Interleaving.{
  Call, connects, closes, makes, pumps, publishes, subscribes, receives, detaches, destroys, runs,
  task, AnyCall, Reach-Inv,
}
use hacpp.Shared.Invariant.{Inv}
use hacpp.Shared.Wakeups.{
  Woken, Wakes, Wakes-refl, Wakes-trans, update-Wakes, pump_result-Wakes, same_heap-Wakes,
  register_client-Wakes, put-Wakes,
}

removed-Wakes : (s : SharedConnection) → Wakes s (remove_expired_clients s)
unfolding remove_expired_clients
removed-Wakes s = same_heap-Wakes s _ refl refl

run-Wakes : (fuel : ℕ) (s : SharedConnection) → Steps Wakes s (async_run fuel s)
unfolding async_run bind
run-Wakes zero s = Wakes-refl s
run-Wakes (suc fuel) s = (
  removed-Wakes s,
  λ r t. elim (Bool-cases (failed (pump_error r))) [
    | inl bad ↦ rw bad (pump_result-Wakes r t)
    | inr fine ↦ rw fine (
        Steps-from Wakes Wakes-trans t (pump_result r t) _ (pump_result-Wakes r t)
          (run-Wakes fuel (pump_result r t)))
  ],
)

-- Dropping the front leaves a queue empty or as it was, but for that result.
drop_front-Woken : (c : SharedClientState) → Woken (some c) (some (drop_front c))
drop_front-Woken c = (omega arith, λ was now. absurd (now (ground arith)))

take_front-Wakes :
    (P : Platform) (id : ℕ) (ec : Error) (items : List RecvResult) (s : SharedConnection)
    → Steps Wakes s (take_front P id ec items s)
unfolding bind
take_front-Wakes P id ec [] s = Wakes-refl s
take_front-Wakes P id ec (r ∷ rs) s = update-Wakes drop_front drop_front-Woken id s

pub recv-Wakes : (P : Platform) (id : ℕ) (s : SharedConnection) → Steps Wakes s (async_recv P id s)
unfolding async_recv bind
recv-Wakes P id s =
    let registered = register_client id s in
    elim (Bool-cases (is_nil (items_of (lock registered id)))) [
      | inl empty ↦
          rw empty
            (register_client-Wakes id s, λ ec t. take_front-Wakes P id ec (items_of (lock t id)) t)
      | inr ready ↦ rw ready (
          Steps-from Wakes Wakes-trans s registered _ (register_client-Wakes id s)
            (take_front-Wakes P id (no_error P) (items_of (lock registered id)) registered))
    ]

pub subscribe-Wakes :
    (id : ℕ) (topics : List TopicSubopts) (s : SharedConnection)
    → Steps Wakes s (async_subscribe id topics s)
unfolding async_subscribe bind
subscribe-Wakes id topics s = (
  Wakes-refl s,
  λ err t. elim (Bool-cases (failed err)) [
    | inl bad ↦ rw bad (Wakes-refl t)
    | inr fine ↦ rw fine (
        let f = λ (c : SharedClientState). record c { topics = register_topics topics c.topics } in
        Wakes-trans t (update id f t) _
          (update-Wakes f (λ c. (omega arith, λ was now. absurd (now was))) id t)
          (register_client-Wakes id (update id f t)))
  ],
)

pub task-Wakes :
    (P : Platform) (call : Call)
    → AnyCall call
    → (s : SharedConnection) → Steps Wakes s (task P call s)
unfolding task async_connect async_close async_publish async_detach make_client destroy
    async_pump_one bind
task-Wakes P connects q s = (Wakes-refl s, λ p t. Wakes-refl t)
task-Wakes P closes q s = (Wakes-refl s, λ p t. Wakes-refl t)
task-Wakes P makes q s =
    put-Wakes s s.fresh _ _ (omega arith) (λ below. absurd (omega (arith, below)))
task-Wakes P pumps q s = (removed-Wakes s, pump_result-Wakes)
task-Wakes P (publishes topic payload qos retain) q s = (Wakes-refl s, λ p t. Wakes-refl t)
task-Wakes P (subscribes id topics) q s =
    Steps-bind Wakes Wakes-trans s _ _ (subscribe-Wakes id topics s) (λ err t. Wakes-refl t)
task-Wakes P (receives id) q s =
    Steps-bind Wakes Wakes-trans s _ _ (recv-Wakes P id s) (λ r t. Wakes-refl t)
task-Wakes P (detaches id) q s = same_heap-Wakes s _ refl refl
task-Wakes P (destroys id) q s = put-Wakes s id s.fresh none (omega arith) (λ below. tt)
task-Wakes P (runs fuel) q s = run-Wakes fuel s

pub below_of-Inv :
    (s : SharedConnection) (id : ℕ) (c : SharedClientState)
    → Inv s
    → s.heap id ≡ some c
    → id < s.fresh
below_of-Inv s id c v alive = ground (arith, v.dead id)

-- In every interleaving of any calls, with any replies: a step after which a client's queue has a
-- result, where it had none, cancels the queue's timer in that same step, so that a receive that
-- waits on the queue is resumed.
pub queue_filled-wakes :
    (P : Platform) {s t : System Reply SharedConnection} (id : ℕ) (c d : SharedClientState)
    → Reach (task P) initial AnyCall s
    → Step (task P) initial AnyCall s t
    → s.shared.heap id ≡ some c
    → t.shared.heap id ≡ some d
    → c.queue.queue ≡ []
    → d.queue.queue ≢ []
    → c.queue.cancels < d.queue.cancels
queue_filled-wakes P {s} {t} id c d r st was now empty filled =
    let wakes = Step-related (task P) initial AnyCall Wakes (task-Wakes P) r st in
    let below = below_of-Inv s.shared id c (Reach-Inv P r) was in
    let woken : Woken (some c) (some d) =
      subst (λ o. Woken o (some d)) was
        (subst (λ o. Woken (s.shared.heap id) o) now (wakes.object id below)) in
    woken.1 empty filled
