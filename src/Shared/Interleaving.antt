-- ===== src/Shared/Interleaving.antt =====
-- lib/include/hacpp/shared_mqtt_client.h: any number of coroutines over one shared connection,
-- interleaved.
use hacpp.Base.{ℕ, zero, suc, String, Bool, List, [], ◌∷◌, Bool-cases, inl, inr}
use hacpp.Coroutine.{bind}
use hacpp.Coroutine.Logic.{Steps, Steps-bind, Steps-from}
use hacpp.Coroutine.System.{System, Reach, Reach-invariant}
use hacpp.Error.{Platform, Error, failed, no_error}
use hacpp.Mqtt.{QoS, TopicSubopts, RecvResult}
use hacpp.Shared.{
  is_nil, pump_error, SharedConnection, Reply, M, co_return, ◌>>=◌, initial, async_connect,
  async_close, async_publish, async_detach, async_subscribe, async_recv, async_run, async_pump_one,
  make_client, destroy, take_front, drop_front, register_client, register_topics, pump_result,
  remove_expired_clients, lock, items_of,
}
use hacpp.Shared.Topics.{register_topics-AreDistinct}
use hacpp.Shared.Invariant.{
  make-Inv, destroy-Inv, Inv, initial-Inv, erase_if-Inv, register_client-Inv, update-Inv,
  pump_result-Inv,
}

-- The calls on a shared connection, and on its logical clients by the number of their state.
pub data Call : Type 0 where
  connects closes makes pumps : Call
  publishes : String → String → QoS → Bool → Call
  subscribes : ℕ → List TopicSubopts → Call
  receives detaches destroys : ℕ → Call
  runs : ℕ → Call

abbrev forget : {A : Type 0} → M A → M (Unit {0})
unfolding bind
forget m = m >>= λ _. co_return tt

unfoldable pub task : Platform → Call → M (Unit {0})
unfolding bind
task P connects = forget async_connect
task P closes = forget async_close
task P makes = forget make_client
task P pumps = async_pump_one
task P (publishes topic payload qos retain) = forget (async_publish topic payload qos retain)
task P (subscribes id topics) = forget (async_subscribe id topics)
task P (receives id) = forget (async_recv P id)
task P (detaches id) = forget (async_detach P id)
task P (destroys id) = destroy id
task P (runs fuel) = async_run fuel

abbrev pub AnyCall : Call → Type 0
AnyCall call = Unit

abbrev pub Preserves : SharedConnection → SharedConnection → Type 0
Preserves s t = Inv s → Inv t

pub Preserves-trans : (s t u : SharedConnection) → Preserves s t → Preserves t u → Preserves s u
Preserves-trans s t u f g v = g (f v)

run-Preserves : (fuel : ℕ) (s : SharedConnection) → Steps Preserves s (async_run fuel s)
unfolding async_run remove_expired_clients bind
run-Preserves zero s = λ v. v
run-Preserves (suc fuel) s = (
  erase_if-Inv _ s,
  λ r t. elim (Bool-cases (failed (pump_error r))) [
    | inl bad ↦ rw bad (pump_result-Inv r t)
    | inr fine ↦ rw fine (
        Steps-from Preserves Preserves-trans t (pump_result r t) _ (pump_result-Inv r t)
          (run-Preserves fuel (pump_result r t)))
  ],
)

take_front-Preserves :
    (P : Platform) (id : ℕ) (ec : Error) (items : List RecvResult) (s : SharedConnection)
    → Steps Preserves s (take_front P id ec items s)
unfolding bind
take_front-Preserves P id ec [] s = λ v. v
take_front-Preserves P id ec (r ∷ rs) s = update-Inv drop_front (λ c d. d) id s

pub recv-Preserves :
    (P : Platform) (id : ℕ) (s : SharedConnection) → Steps Preserves s (async_recv P id s)
unfolding async_recv bind
recv-Preserves P id s =
    let registered = register_client id s in
    elim (Bool-cases (is_nil (items_of (lock registered id)))) [
      | inl empty ↦
          rw empty (
            register_client-Inv id s,
            λ ec t. take_front-Preserves P id ec (items_of (lock t id)) t,
          )
      | inr ready ↦ rw ready (
          Steps-from Preserves Preserves-trans s registered _ (register_client-Inv id s)
            (take_front-Preserves P id (no_error P) (items_of (lock registered id)) registered))
    ]

pub subscribe-Preserves :
    (id : ℕ) (topics : List TopicSubopts) (s : SharedConnection)
    → Steps Preserves s (async_subscribe id topics s)
unfolding async_subscribe bind
subscribe-Preserves id topics s = (
  λ v. v,
  λ err t. elim (Bool-cases (failed err)) [
    | inl bad ↦ rw bad (λ v. v)
    | inr fine ↦ rw fine (λ v. register_client-Inv id _ (
        update-Inv (λ c. record c { topics = register_topics topics c.topics })
          (λ c d. register_topics-AreDistinct topics c.topics d) id t v))
  ],
)

pub task-Preserves :
    (P : Platform) (call : Call)
    → AnyCall call
    → (s : SharedConnection) → Steps Preserves s (task P call s)
unfolding task async_connect async_close async_publish async_detach make_client destroy
    async_pump_one remove_expired_clients bind
task-Preserves P connects q s = (λ v. v, λ p t v. v)
task-Preserves P closes q s = (λ v. v, λ p t v. v)
task-Preserves P makes q s = make-Inv s
task-Preserves P pumps q s = (erase_if-Inv _ s, λ r t. pump_result-Inv r t)
task-Preserves P (publishes topic payload qos retain) q s = (λ v. v, λ p t v. v)
task-Preserves P (subscribes id topics) q s =
    Steps-bind Preserves Preserves-trans s _ _ (subscribe-Preserves id topics s) (λ err t v. v)
task-Preserves P (receives id) q s =
    Steps-bind Preserves Preserves-trans s _ _ (recv-Preserves P id s) (λ r t v. v)
task-Preserves P (detaches id) q s = erase_if-Inv _ s
task-Preserves P (destroys id) q s = destroy-Inv id s
task-Preserves P (runs fuel) q s = run-Preserves fuel s

-- In every interleaving of any calls, with any replies: no client is listed twice, none is listed
-- that was never made, and no client has a topic registered twice.
pub Reach-Inv :
    (P : Platform) {s : System Reply SharedConnection}
    → Reach (task P) initial AnyCall s
    → Inv s.shared
Reach-Inv P r = Reach-invariant (task P) initial AnyCall Inv (task-Preserves P) initial-Inv r
