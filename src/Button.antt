-- ===== src/Button.antt =====
-- lib/include/hacpp/button.h.
pub mod Laws
pub mod Running
pub mod Announced
pub mod Configured
use hacpp.Base.{
  ℕ, zero, suc, String, Bool, true, List, [], ◌∷◌, Outcome, returned, Option, none, some, not,
  str_eq, if◌then◌else◌, ◌>>=◌ as ◌>>=!◌,
}
use hacpp.Config.{
  Property, property, Device, at, init, set as set_property, set_device as set_property_device,
  json, availability_topic,
}
use hacpp.Entity.{
  M, Impl, Handler, spawn_some, async_subscribe_to, lift, bind, ◌>>=◌, ◌>>◌, co_return, out_of_fuel,
  async_publish, async_recv, default_component_discovery_topic, default_component_command_topic,
  default_component_availability_topic,
}
use hacpp.Error.{Error}
use hacpp.Json.{Json}
use hacpp.Mqtt.{QoS, at_least_once, RecvResult, Packet, publish, other, packet, unexpected}

abbrev pub opt_command_topic : Property
opt_command_topic = property "command_topic"

abbrev pub opt_payload_press : Property
opt_payload_press = property "payload_press"

abbrev pub opt_device : Property
opt_device = property "device"

abbrev pub component : String
component = "button"

abbrev pub default_payload_press : String
default_payload_press = "PRESS"

pub record Config (J : Json) : Type 0 where
  pub unique_id : String
  pub qos : QoS
  pub cfg : J.Object
  pub handler : Option Handler

module _ (J : Json) where
  unfoldable pub async_discovery_impl : Config J → M Error
  async_discovery_impl config =
      async_publish (default_component_discovery_topic component config.unique_id)
        (json J config.cfg) config.qos true

  unfoldable pub async_subscribe_impl : Config J → M Error
  async_subscribe_impl config = do
    topic ← lift (at J opt_command_topic config.cfg)
    async_subscribe_to (record { topic = topic; qos = config.qos } ∷ [])

  -- The `Entity` base of a button.
  abbrev pub base : Config J → Impl J
  unfolding async_discovery_impl async_subscribe_impl
  base config = record {
    async_discovery_impl = async_discovery_impl config;
    async_subscribe_impl = async_subscribe_impl config;
    cfg = config.cfg;
    qos = config.qos;
  }

  -- The visit of a received packet.
  unfoldable pub on_packet : Config J → Packet → M (Unit {0})
  on_packet config (other kind) = co_return tt
  on_packet config (publish p) = do
    topic ← lift (at J opt_command_topic config.cfg)
    if not (str_eq p.topic topic) then co_return tt else do
      payload ← lift (at J opt_payload_press config.cfg)
      if not (str_eq p.payload payload) then co_return tt else spawn_some config.handler

  -- `while (true)`: the fuel bounds its rounds, and those of each receive.
  unfoldable pub async_run : ℕ → Config J → M Error
  unfolding on_packet
  async_run zero config = out_of_fuel
  async_run (suc fuel) config = do
    let again = async_run fuel config
    res ← async_recv J (suc fuel) (base config)
    elim res [ unexpected e ↦ co_return e | packet p ↦ on_packet config p >> again ]

-- The fields of `Factory<Button>` but the client.
pub record Factory (J : Json) : Type 0 where
  pub unique_id : String
  pub cfg : J.Object
  pub qos : QoS
  pub handler : Option Handler

module _ (J : Json) where
  unfoldable pub factory : String → Outcome (Factory J)
  factory unique_id =
      init J
        ((property "unique_id", unique_id)
          ∷ (opt_payload_press, default_payload_press)
          ∷ (opt_command_topic, default_component_command_topic component unique_id)
          ∷ (availability_topic, default_component_availability_topic component unique_id)
          ∷ [])
        J.empty
      >>=! λ cfg.
          returned
            (record { unique_id = unique_id; cfg = cfg; qos = at_least_once; handler = none })

  unfoldable pub set_device : Device → Factory J → Outcome (Factory J)
  set_device device f = returned (record f { cfg = set_property_device J device f.cfg })

  unfoldable pub set : Property → String → Factory J → Outcome (Factory J)
  set key value f = set_property J key value f.cfg >>=! λ cfg. returned (record f { cfg = cfg })

  unfoldable pub on_press : Handler → Factory J → Factory J
  on_press handler f = record f { handler = some handler }

  unfoldable pub create : Factory J → Config J
  create f = record { unique_id = f.unique_id; qos = f.qos; cfg = f.cfg; handler = f.handler }
