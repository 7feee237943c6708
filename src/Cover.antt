-- ===== src/Cover.antt =====
-- lib/include/hacpp/cover.h.
pub mod Laws
pub mod Configured
pub mod Obeyed
pub mod Answered
pub mod Announced
pub mod Running
pub mod Commands
use hacpp.Base.{
  ℕ, zero, suc, String, Bool, true, List, [], ◌∷◌, Outcome, returned, Option, none, some, not,
  str_eq, if◌then◌else◌, ◌>>=◌ as ◌>>=!◌,
}
use hacpp.Config.{
  Property, property, Device, at, init, set as set_property, set_null as set_property_null,
  contains, json, availability_topic,
}
use hacpp.Entity.{
  M, Impl, Handler, spawn_some, async_subscribe_to, lift, bind, ◌>>=◌, ◌>>◌, co_return, out_of_fuel,
  async_publish, async_recv, default_component_discovery_topic, default_component_command_topic,
  default_component_state_topic, default_component_availability_topic,
}
use hacpp.Error.{Error, make_error_code, invalid_config}
use hacpp.Factory.{set as common_set, set_null as common_set_null, set_device as common_set_device}
use hacpp.Json.{Json}
use hacpp.Mqtt.{QoS, at_least_once, RecvResult, Packet, publish, other, packet, unexpected}

abbrev pub opt_command_topic : Property
opt_command_topic = property "command_topic"

abbrev pub opt_state_topic : Property
opt_state_topic = property "state_topic"

abbrev pub opt_payload_open : Property
opt_payload_open = property "payload_open"

abbrev pub opt_payload_close : Property
opt_payload_close = property "payload_close"

abbrev pub opt_payload_stop : Property
opt_payload_stop = property "payload_stop"

abbrev pub opt_state_open : Property
opt_state_open = property "state_open"

abbrev pub opt_state_closed : Property
opt_state_closed = property "state_closed"

abbrev pub opt_state_opening : Property
opt_state_opening = property "state_opening"

abbrev pub opt_state_closing : Property
opt_state_closing = property "state_closing"

abbrev pub opt_device : Property
opt_device = property "device"

abbrev pub component : String
component = "cover"

abbrev pub default_payload_open : String
default_payload_open = "OPEN"

abbrev pub default_payload_close : String
default_payload_close = "CLOSE"

abbrev pub default_payload_stop : String
default_payload_stop = "STOP"

abbrev pub default_state_open : String
default_state_open = "open"

abbrev pub default_state_closed : String
default_state_closed = "closed"

abbrev pub default_state_opening : String
default_state_opening = "opening"

abbrev pub default_state_closing : String
default_state_closing = "closing"

pub record Config (J : Json) : Type 0 where
  pub unique_id : String
  pub qos : QoS
  pub cfg : J.Object
  pub on_open : Option Handler
  pub on_close : Option Handler
  pub on_stop : Option Handler

module _ (J : Json) where
  unfoldable pub async_update_state : Config J → String → M Error
  async_update_state config state = do
    known ← lift (contains J opt_state_topic config.cfg)
    if not known then co_return (make_error_code invalid_config) else do
      topic ← lift (at J opt_state_topic config.cfg)
      async_publish topic state config.qos true

  unfoldable pub async_discovery_impl : Config J → M Error
  async_discovery_impl config =
      async_publish (default_component_discovery_topic component config.unique_id)
        (json J config.cfg) config.qos true

  unfoldable pub async_subscribe_impl : Config J → M Error
  async_subscribe_impl config = do
    topic ← lift (at J opt_command_topic config.cfg)
    async_subscribe_to (record { topic = topic; qos = config.qos } ∷ [])

  -- The `Entity` base of a cover.
  abbrev pub base : Config J → Impl J
  unfolding async_discovery_impl async_subscribe_impl
  base config = record {
    async_discovery_impl = async_discovery_impl config;
    async_subscribe_impl = async_subscribe_impl config;
    cfg = config.cfg;
    qos = config.qos;
  }

  -- The branches of `dispatch`, in order: the first payload that is the command's decides.
  unfoldable pub dispatch : Config J → String → M (Unit {0})
  dispatch config cmd = do
    payload_open ← lift (at J opt_payload_open config.cfg)
    if str_eq cmd payload_open then spawn_some config.on_open else do
      payload_close ← lift (at J opt_payload_close config.cfg)
      if str_eq cmd payload_close then spawn_some config.on_close else do
        payload_stop ← lift (at J opt_payload_stop config.cfg)
        if str_eq cmd payload_stop then spawn_some config.on_stop else co_return tt

  -- The visit of a received packet.
  unfoldable pub on_packet : Config J → Packet → M (Unit {0})
  unfolding dispatch
  on_packet config (other kind) = co_return tt
  on_packet config (publish p) = do
    topic ← lift (at J opt_command_topic config.cfg)
    if str_eq p.topic topic then dispatch config p.payload else co_return tt

  -- `while (true)`: the fuel bounds its rounds, and those of each receive.
  unfoldable pub async_run : ℕ → Config J → M Error
  unfolding on_packet
  async_run zero config = out_of_fuel
  async_run (suc fuel) config = do
    let again = async_run fuel config
    res ← async_recv J (suc fuel) (base config)
    elim res [ unexpected e ↦ co_return e | packet p ↦ on_packet config p >> again ]

-- The fields of `Factory<Cover>` but the client.
pub record Factory (J : Json) : Type 0 where
  pub unique_id : String
  pub cfg : J.Object
  pub qos : QoS
  pub on_open : Option Handler
  pub on_close : Option Handler
  pub on_stop : Option Handler

module _ (J : Json) where
  unfoldable pub factory : String → Outcome (Factory J)
  factory unique_id =
      init J
        ((property "unique_id", unique_id)
          ∷ (opt_command_topic, default_component_command_topic component unique_id)
          ∷ (opt_state_topic, default_component_state_topic component unique_id)
          ∷ (availability_topic, default_component_availability_topic component unique_id)
          ∷ [])
        J.empty
      >>=! λ cfg. returned (record {
        unique_id = unique_id;
        cfg = set_property_null J opt_payload_stop cfg;
        qos = at_least_once;
        on_open = none;
        on_close = none;
        on_stop = none;
      })

  unfoldable pub set_null : Property → Factory J → Outcome (Factory J)
  set_null key f = common_set_null J key f.cfg >>=! λ cfg. returned (record f { cfg = cfg })

  unfoldable pub set_device : Device → Factory J → Outcome (Factory J)
  set_device device f =
      common_set_device J device f.cfg >>=! λ cfg. returned (record f { cfg = cfg })

  unfoldable pub set : Property → String → Factory J → Outcome (Factory J)
  set key value f = common_set J key value f.cfg >>=! λ cfg. returned (record f { cfg = cfg })

  -- A payload is set to its default unless the configuration contains it.
  unfoldable pub set_default : Property → String → J.Object → Outcome J.Object
  set_default prop value cfg = contains J prop cfg >>=! λ known.
      if known then returned cfg else set_property J prop value cfg

  unfoldable pub on_open : Handler → Factory J → Outcome (Factory J)
  unfolding set_default
  on_open handler f = set_default opt_payload_open default_payload_open f.cfg >>=! λ cfg.
      returned (record f { cfg = cfg; on_open = some handler })

  unfoldable pub on_close : Handler → Factory J → Outcome (Factory J)
  unfolding set_default
  on_close handler f = set_default opt_payload_close default_payload_close f.cfg >>=! λ cfg.
      returned (record f { cfg = cfg; on_close = some handler })

  unfoldable pub on_stop : Handler → Factory J → Outcome (Factory J)
  unfolding set_default
  on_stop handler f = set_default opt_payload_stop default_payload_stop f.cfg >>=! λ cfg.
      returned (record f { cfg = cfg; on_stop = some handler })

  unfoldable pub create : Factory J → Config J
  create f = record {
    unique_id = f.unique_id;
    qos = f.qos;
    cfg = f.cfg;
    on_open = f.on_open;
    on_close = f.on_close;
    on_stop = f.on_stop;
  }
