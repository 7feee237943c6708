-- ===== src/Client/Interleaving.antt =====
-- lib/include/hacpp/async_mqtt_client.h: any number of coroutines over one client, interleaved.
use hacpp.Base.{ℕ, String, ◌<◌, ◌≡◌, ◌≢◌, refl, Bool, List, ◌∙◌}
use hacpp.Error.{Platform}
use hacpp.Mqtt.{QoS, TopicSubopts}
use hacpp.Client.{
  Connection, Reply, Config, M, initial, reconnecting, async_connect, async_close, async_disconnect,
  async_publish, async_subscribe, async_recv, co_return, ◌>>=◌, bind,
  default_max_autoreconnect_attempts,
}
use hacpp.Coroutine.Logic.{Steps, Steps-bind, Steps-mono}
use hacpp.Coroutine.System.{System, Step, Reach, start, next, Step-related}
use hacpp.Client.Wakeups.{
  IsArmed, Keeps, Wakes, Keeps-refl, Keeps-trans, Wakes-refl, Wakes-trans, async_connect-Keeps,
  async_close-Wakes, async_disconnect-Wakes, async_publish-Wakes, async_subscribe-Wakes,
  async_recv-Wakes,
}

-- The calls that a user makes.
pub data Call : Type 0 where
  connects disconnects closes receives : Call
  publishes : String → String → QoS → Bool → Call
  subscribes : List TopicSubopts → Call

abbrev forget : {A : Type 0} → M A → M (Unit {0})
unfolding bind
forget m = m >>= λ _. co_return tt

module _ (P : Platform) (fuel : ℕ) (config : Config) where
  unfoldable pub task : Call → M (Unit {0})
  unfolding bind
  task connects = forget (async_connect P config)
  task disconnects = forget (async_disconnect P)
  task closes = forget (async_close P)
  task receives = forget (async_recv P fuel config)
  task (publishes topic payload qos retain) = forget (async_publish P topic payload qos retain)
  task (subscribes topics) = forget (async_subscribe P topics)

abbrev pub AnyCall : Call → Type 0
AnyCall call = Unit

-- Every call but a direct `async_connect`.
abbrev pub NotConnect : Call → Type 0
NotConnect connects = ⊥
NotConnect _ = Unit

module _ (P : Platform) (fuel : ℕ) (config : Config) where
  task-Wakes :
      (call : Call) → NotConnect call → (c : Connection) → Steps Wakes c (task P fuel config call c)
  unfolding task
  task-Wakes connects q c = absurd q
  task-Wakes disconnects q c =
      Steps-bind Wakes Wakes-trans c _ _ (async_disconnect-Wakes P c) (λ _. Wakes-refl)
  task-Wakes closes q c =
      Steps-bind Wakes Wakes-trans c _ _ (async_close-Wakes P c) (λ _. Wakes-refl)
  task-Wakes receives q c =
      Steps-bind Wakes Wakes-trans c _ _ (async_recv-Wakes P fuel config c) (λ _. Wakes-refl)
  task-Wakes (publishes topic payload qos retain) q c =
      Steps-bind Wakes Wakes-trans c _ _ (async_publish-Wakes P topic payload qos retain c)
        (λ _. Wakes-refl)
  task-Wakes (subscribes topics) q c =
      Steps-bind Wakes Wakes-trans c _ _ (async_subscribe-Wakes P topics c) (λ _. Wakes-refl)

  task-Keeps :
      (call : Call) → AnyCall call → (c : Connection) → Steps Keeps c (task P fuel config call c)
  unfolding task
  task-Keeps connects q c =
      Steps-bind Keeps Keeps-trans c _ _ (async_connect-Keeps P config c) (λ _. Keeps-refl)
  task-Keeps disconnects q c =
      Steps-mono Wakes Keeps (λ d e w. w.keeps) c _ (task-Wakes disconnects tt c)
  task-Keeps closes q c = Steps-mono Wakes Keeps (λ d e w. w.keeps) c _ (task-Wakes closes tt c)
  task-Keeps receives q c = Steps-mono Wakes Keeps (λ d e w. w.keeps) c _ (task-Wakes receives tt c)
  task-Keeps (publishes topic payload qos retain) q c =
      Steps-mono Wakes Keeps (λ d e w. w.keeps) c _
        (task-Wakes (publishes topic payload qos retain) tt c)
  task-Keeps (subscribes topics) q c =
      Steps-mono Wakes Keeps (λ d e w. w.keeps) c _ (task-Wakes (subscribes topics) tt c)

-- From any state, connected or not, and in every interleaving of calls other than a direct
-- `async_connect`, with any replies: a step that takes the client out of `Reconnecting` cancels
-- the wait timer in that same step.
pub reconnecting-wakes :
    (P : Platform) (fuel : ℕ) (config : Config) (c : Connection) {s t : System Reply Connection}
    → Reach (task P fuel config) c NotConnect s
    → Step (task P fuel config) c NotConnect s t
    → s.shared.state ≡ reconnecting
    → t.shared.state ≢ reconnecting
    → s.shared.autorec_wait_timer.cancels < t.shared.autorec_wait_timer.cancels
reconnecting-wakes P fuel config c {s} {t} r st was left =
    (Step-related (task P fuel config) c NotConnect Wakes (task-Wakes P fuel config) r st).woken was
      left

-- In every interleaving of any calls, with any replies: while the client is reconnecting its wait
-- timer is set never to expire, and the number of attempts allowed is still the default.
pub Reach-IsArmed :
    (P : Platform) (fuel : ℕ) (config : Config) {s : System Reply Connection}
    → Reach (task P fuel config) initial AnyCall s
    → IsArmed s.shared × (s.shared.max_attempts ≡ default_max_autoreconnect_attempts)
Reach-IsArmed P fuel config start = (λ e. cc, refl)
Reach-IsArmed P fuel config (next r st) =
    let kept =
      Step-related (task P fuel config) initial AnyCall Keeps (task-Keeps P fuel config) r st in
    let (armed, max) = Reach-IsArmed P fuel config r in (kept.armed armed, kept.same_max ∙ max)
