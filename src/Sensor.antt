-- ===== src/Sensor.antt =====
-- lib/include/hacpp/sensor.h.
pub mod Laws
pub mod Running
use hacpp.Base.{ℕ, zero, suc, String, Bool, true, List, [], ◌∷◌, Outcome, returned, ◌>>=◌ as ◌>>=!◌}
use hacpp.Config.{
  Property, property, Device, at, init, set as set_property, set_device as set_property_device,
  json, availability_topic,
}
use hacpp.Entity.{
  M, Impl, lift, bind, ◌>>=◌, ◌>>◌, co_return, out_of_fuel, async_publish, async_recv,
  default_component_discovery_topic, default_component_state_topic,
  default_component_availability_topic,
}
use hacpp.Error.{Error, Platform, no_error}
use hacpp.Json.{Json}
use hacpp.Mqtt.{QoS, at_most_once, RecvResult, packet, unexpected}

abbrev pub opt_state_topic : Property
opt_state_topic = property "state_topic"

abbrev pub opt_device : Property
opt_device = property "device"

abbrev pub component : String
component = "sensor"

-- `Defs::StateTopic`, which nothing uses.
abbrev pub default_state_topic : String
default_state_topic = "state"

pub record Config (J : Json) : Type 0 where
  pub unique_id : String
  pub qos : QoS
  pub cfg : J.Object

module _ (P : Platform) (J : Json) where
  unfoldable pub async_update_state : Config J → String → M Error
  async_update_state config state = do
    topic ← lift (at J opt_state_topic config.cfg)
    async_publish topic state config.qos true

  unfoldable pub async_discovery_impl : Config J → M Error
  async_discovery_impl config =
      async_publish (default_component_discovery_topic component config.unique_id)
        (json J config.cfg) config.qos true

  unfoldable pub async_subscribe_impl : Config J → M Error
  async_subscribe_impl config = co_return (no_error P)

  -- The `Entity` base of a sensor.
  abbrev pub base : Config J → Impl J
  unfolding async_discovery_impl async_subscribe_impl
  base config = record {
    async_discovery_impl = async_discovery_impl config;
    async_subscribe_impl = async_subscribe_impl config;
    cfg = config.cfg;
    qos = config.qos;
  }

  -- `while (true)`: the fuel bounds its rounds, and those of each receive.
  unfoldable pub async_run : ℕ → Config J → M Error
  async_run zero config = out_of_fuel
  async_run (suc fuel) config = do
    let again = async_run fuel config
    recv_result ← async_recv J (suc fuel) (base config)
    elim recv_result [ unexpected e ↦ co_return e | packet p ↦ again ]

-- The fields of `Factory<Sensor>` but the client.
pub record Factory (J : Json) : Type 0 where
  pub unique_id : String
  pub cfg : J.Object
  pub qos : QoS

module _ (J : Json) where
  unfoldable pub factory : String → Outcome (Factory J)
  factory unique_id =
      init J
        ((property "unique_id", unique_id)
          ∷ (opt_state_topic, default_component_state_topic component unique_id)
          ∷ (availability_topic, default_component_availability_topic component unique_id)
          ∷ [])
        J.empty
      >>=! λ cfg. returned (record { unique_id = unique_id; cfg = cfg; qos = at_most_once })

  unfoldable pub set_device : Device → Factory J → Outcome (Factory J)
  set_device device f = returned (record f { cfg = set_property_device J device f.cfg })

  unfoldable pub set : Property → String → Factory J → Outcome (Factory J)
  set key value f = set_property J key value f.cfg >>=! λ cfg. returned (record f { cfg = cfg })

  unfoldable pub create : Factory J → Config J
  create f = record { unique_id = f.unique_id; qos = f.qos; cfg = f.cfg }
