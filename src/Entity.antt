-- ===== src/Entity.antt =====
-- lib/include/hacpp/hacpp.h and the class `Entity` of lib/include/hacpp/entity.h.
pub mod Setup
pub mod Receiving
pub mod Serving
unfoldable pub use hacpp.Coroutine.{bind}
pub use hacpp.Coroutine.{done, wait, ◌>>=◌, ◌>>◌, co_return, throw, out_of_fuel, co_await, modify}
use hacpp.Base.{
  ℕ, zero, suc, String, ◌<>◌, Bool, true, Option, none, some, not, List, ◌∷◌, [], Outcome, returned,
  ◌>>=◌ as ◌>>=!◌, if◌then◌else◌,
}
use hacpp.Api.{Operation, publishing, subscribing, receiving, closing, Result}
use hacpp.Config.{
  Property, at, contains, availability_topic, availability_payload_available,
  availability_payload_not_available, default_payload_available, default_payload_not_available,
}
use hacpp.Coroutine.{Coroutine}
use hacpp.Error.{Error, failed, is_code, make_error_code, success, session_reset}
use hacpp.Json.{Json}
use hacpp.Mqtt.{QoS, TopicSubopts, RecvResult, packet, unexpected}

abbrev pub home_assistant_prefix : String
home_assistant_prefix = "homeassistant"

abbrev pub topic_of : String → String → String → String
topic_of component unique_id leaf =
    home_assistant_prefix <> "/" <> component <> "/" <> unique_id <> "/" <> leaf

abbrev pub default_component_discovery_topic : String → String → String
default_component_discovery_topic component unique_id = topic_of component unique_id "config"

abbrev pub default_component_state_topic : String → String → String
default_component_state_topic component unique_id = topic_of component unique_id "state"

abbrev pub default_component_command_topic : String → String → String
default_component_command_topic component unique_id = topic_of component unique_id "set"

abbrev pub default_component_availability_topic : String → String → String
default_component_availability_topic component unique_id =
    topic_of component unique_id "availability"

-- A user's handler, by its number: what it does is not modelled, only that `co_spawn` starts it.
abbrev pub Handler : Type 0
Handler = ℕ

-- The handlers started so far, the latest first.
abbrev pub Spawned : Type 0
Spawned = List Handler

abbrev pub Co : Type 0 → Type 0
Co A = Coroutine Result Spawned A

abbrev pub M : Type 0 → Type 0
M A = Spawned → Co A

-- A synchronous call, whose exception goes on through the coroutine.
abbrev pub lift : {A : Type 0} → Outcome A → M A
lift o s = done o s

abbrev pub spawn : Handler → M (Unit {0})
spawn handler = modify (λ s. handler ∷ s)

-- `if (handler)`: an empty handler starts nothing.
abbrev pub spawn_some : Option Handler → M (Unit {0})
spawn_some none = co_return tt
spawn_some (some handler) = spawn handler

-- What `Entity` calls on its `Impl`.
pub record Impl (J : Json) : Type 0 where
  pub async_discovery_impl : M Error
  pub async_subscribe_impl : M Error
  pub cfg : J.Object
  pub qos : QoS

-- The methods that pass their arguments on to the client.
abbrev pub async_publish : String → String → QoS → Bool → M Error
async_publish topic payload qos retain = co_await (publishing topic payload qos retain)

abbrev pub async_subscribe_to : List TopicSubopts → M Error
async_subscribe_to sub_entry = co_await (subscribing sub_entry)

abbrev pub async_close : M Error
async_close = co_await closing

module _ (J : Json) where
  abbrev pub async_discovery : Impl J → M Error
  async_discovery impl = impl.async_discovery_impl

  abbrev pub async_subscribe : Impl J → M Error
  async_subscribe impl = impl.async_subscribe_impl

  abbrev pub configured_or : Property → String → J.Object → Outcome String
  configured_or prop default cfg =
      contains J prop cfg >>=! λ configured. if configured then at J prop cfg else returned default

  -- The payload of `async_update_availability`, configured or by default.
  unfoldable pub availability_payload : J.Object → Bool → Outcome String
  availability_payload cfg state =
      if state
      then configured_or availability_payload_available default_payload_available cfg
      else configured_or availability_payload_not_available default_payload_not_available cfg

  unfoldable pub async_update_availability : Impl J → Bool → M Error
  unfolding availability_payload
  async_update_availability impl state = do
    known ← lift (contains J availability_topic impl.cfg)
    if not known then co_return (make_error_code success) else do
      val ← lift (availability_payload impl.cfg state)
      topic ← lift (at J availability_topic impl.cfg)
      async_publish topic val impl.qos true

  unfoldable pub async_setup : Impl J → M Error
  unfolding async_update_availability
  async_setup impl = do
    err ← async_discovery impl
    if failed err then co_return err else do
      err ← async_subscribe impl
      if failed err then co_return err else async_update_availability impl true

  unfoldable pub handle_err : Impl J → Error → M Error
  unfolding async_setup
  handle_err impl err = if is_code err session_reset then async_setup impl else co_return err

  -- What a round does with the result that it received; `again` is the next round.
  unfoldable pub after_recv : Impl J → M RecvResult → RecvResult → M RecvResult
  unfolding handle_err
  after_recv impl again (packet p) = co_return (packet p)
  after_recv impl again (unexpected e) = do
    err ← handle_err impl e
    if failed err then co_return (unexpected err) else again

  -- `while (true)`: the fuel bounds its rounds.
  unfoldable pub async_recv : ℕ → Impl J → M RecvResult
  unfolding after_recv
  async_recv zero impl = out_of_fuel
  async_recv (suc fuel) impl = do
    let again = async_recv fuel impl
    result ← co_await receiving
    after_recv impl again result
