-- ===== src/BinarySensor/Laws.antt =====
-- lib/include/hacpp/binary_sensor.h: the binary sensors that a factory makes.
use hacpp.Base.{
  ◌≡◌, refl, ◌∙◌, String, List, [], ◌∷◌, none, Outcome, returned, ◌>>=◌, true, false, Bool,
  is_empty, if◌then◌else◌,
}
use hacpp.Api.{Operation, publishing}
use hacpp.Config.{
  Property, at, Device, set as set_property, set_device as set_property_device, init, json,
}
use hacpp.Config.Settings.{
  Setting, AreFlat, latest, get_or, set_all, set_all-flat, assigned, find-unset, at-set,
}
use hacpp.Entity.{
  topic_of, Spawned, bind, async_publish, async_setup, async_update_availability,
  default_component_state_topic, default_component_availability_topic,
}
use hacpp.Entity.Setup.{Issues, setup_reports-Issues, available-eq}
use hacpp.Error.{Platform, Error, no_error}
use hacpp.Json.{Json, IsJson}
use hacpp.Mqtt.{at_most_once}
use hacpp.BinarySensor.{
  Factory, set_device, factory, set, create, component, base, async_discovery_impl,
  async_subscribe_impl, opt_state_topic, opt_payload_on, opt_payload_off, async_update_state,
}

-- The factory with the user's calls of `set`.
abbrev pub configured : (J : Json) → String → List Setting → Outcome (Factory J)
configured J unique_id ss = factory J unique_id >>= λ f. set_all (set J) (set_device J) ss f

-- What the user set last, or the default.
abbrev pub state_topic : String → List Setting → String
state_topic unique_id ss = get_or (topic_of component unique_id "state") (latest "state_topic" ss)

abbrev pub payload : List Setting → Bool → String
payload ss state =
    if state then get_or "ON" (latest "payload_on" ss) else get_or "OFF" (latest "payload_off" ss)

module _ (J : Json) (laws : IsJson J) (unique_id : String) where
  open J use {assign, null, string, object, empty}
  open laws use {find-empty, find-assign, as_string-string, as_string-null, as_object-object}

  -- The configuration that the factory starts with.
  abbrev pub factory_cfg : J.Object
  factory_cfg =
      let o = assign empty "unique_id" (string unique_id) in
      let o = assign o "payload_on" (string "ON") in
      let o = assign o "payload_off" (string "OFF") in
      let o = assign o "state_topic" (string (default_component_state_topic component unique_id)) in
      let o = assign o "availability" (object empty) in
      let o = assign o "availability" (
        object (
          assign empty "topic"
            (string (default_component_availability_topic component unique_id)))) in
      o

  abbrev pub made : Factory J
  made = record { unique_id = unique_id; qos = at_most_once; cfg = factory_cfg }

  factory-eq : factory J unique_id ≡ returned made
  unfolding factory init set_property
  factory-eq = simp (find-assign, find-empty, as_object-object)

module _ (P : Platform) (J : Json) (laws : IsJson J) (unique_id : String) (ss : List Setting) where
  open J use {assign, string, find}
  open laws use {find-empty, find-assign}

  abbrev pub configured_cfg : J.Object
  configured_cfg = assigned J ss (factory_cfg J laws unique_id)

  abbrev pub configured_factory : Factory J
  configured_factory = record { unique_id = unique_id; qos = at_most_once; cfg = configured_cfg }

  set_device-eq :
      (d : Device) (f : Factory J)
      → set_device J d f ≡ returned (record f { cfg = set_property_device J d f.cfg })
  unfolding set_device
  set_device-eq d f = refl

  set-eq :
      (p : Property) (v : String) (f : Factory J)
      → is_empty p.obj_key ≡ true
      → set J p v f ≡ returned (record f { cfg = assign f.cfg p.key (string v) })
  unfolding set set_property
  set-eq p v f flat = rw flat refl

  pub configured-eq : AreFlat ss → configured J unique_id ss ≡ returned configured_factory
  configured-eq flat = rw (factory-eq J laws unique_id) (
      set_all-flat J (set J) (set_device J) (λ o. record (made J laws unique_id) { cfg = o })
        (λ p v o. set-eq p v (record (made J laws unique_id) { cfg = o }))
        (λ d o. set_device-eq d (record (made J laws unique_id) { cfg = o })) ss
        (factory_cfg J laws unique_id) flat)

  at-state : at J opt_state_topic configured_cfg ≡ returned (state_topic unique_id ss)
  at-state =
      at-set J laws "state_topic" (topic_of component unique_id "state") ss
        (factory_cfg J laws unique_id) refl (simp (find-assign, find-empty))

  at-on : at J opt_payload_on configured_cfg ≡ returned (payload ss true)
  at-on =
      at-set J laws "payload_on" "ON" ss (factory_cfg J laws unique_id) refl
        (simp (find-assign, find-empty))

  at-off : at J opt_payload_off configured_cfg ≡ returned (payload ss false)
  at-off =
      at-set J laws "payload_off" "OFF" ss (factory_cfg J laws unique_id) refl
        (simp (find-assign, find-empty))

  abbrev pub setup_operations : List Operation
  setup_operations =
      publishing (topic_of component unique_id "config") (json J configured_cfg) at_most_once true
      ∷ publishing (topic_of component unique_id "availability") "online" at_most_once true
      ∷ []

  update-eq :
      latest "availability" ss ≡ none
      → (s : Spawned)
      → async_update_availability J (base P J (create J configured_factory)) true s
        ≡ async_publish (topic_of component unique_id "availability") "online" at_most_once true s
  unfolding base create
  update-eq reports s =
      available-eq J laws (base P J (create J configured_factory))
        (topic_of component unique_id "availability") s
        (find-unset J laws "availability" ss (factory_cfg J laws unique_id) refl reports
          ∙ simp (find-assign, find-empty))

  pub setup-Issues :
      latest "availability" ss ≡ none
      → (last : Error) (s : Spawned)
      → Issues last s setup_operations (async_setup J (base P J (create J configured_factory)) s)
  unfolding async_discovery_impl async_subscribe_impl base create
  setup-Issues reports =
      setup_reports-Issues P J (base P J (create J configured_factory))
        (topic_of component unique_id "config") (json J configured_cfg)
        (topic_of component unique_id "availability") "online" at_most_once (λ s. refl) (λ s. refl)
        (update-eq reports)

  state-eq :
      (state : Bool) (s : Spawned)
      → async_update_state P J (create J configured_factory) state s
        ≡ async_publish (state_topic unique_id ss) (payload ss state) at_most_once true s
  unfolding async_update_state create bind
  state-eq true s = rw (at-state, at-on) refl
  state-eq false s = rw (at-state, at-off) refl

-- With JSON as documented, the factory of a binary sensor returns, with any text and device settings that are not nested and
-- do not replace the availability. The setup of the sensor that it makes publishes its configuration to
-- `homeassistant/binary_sensor/<id>/config` and `online` to `homeassistant/binary_sensor/<id>/availability`, in
-- this order up to the first failure, whose error is returned; and a state is published to the state topic as the payload for on or off. Topic
-- and payloads are what was set last, or `homeassistant/binary_sensor/<id>/state`, `ON` and `OFF`. All are
-- retained and sent at most once.
pub binary_sensor_factory_publishes :
    (P : Platform) (J : Json) (unique_id : String) (ss : List Setting) (state : Bool) (s : Spawned)
    → IsJson J
    → AreFlat ss
    → latest "availability" ss ≡ none
    → (f : Factory J) × (configured J unique_id ss ≡ returned f)
      × Issues
          (no_error P)
          s
          (publishing (topic_of "binary_sensor" unique_id "config") (json J f.cfg) at_most_once true
            ∷ publishing
                (topic_of "binary_sensor" unique_id "availability")
                "online"
                at_most_once
                true
            ∷ [])
          (async_setup J (base P J (create J f)) s)
      × (async_update_state P J (create J f) state s
          ≡ async_publish (state_topic unique_id ss) (payload ss state) at_most_once true s)
binary_sensor_factory_publishes P J unique_id ss state s laws flat reports = (
  configured_factory P J laws unique_id ss,
  configured-eq P J laws unique_id ss flat,
  setup-Issues P J laws unique_id ss reports (no_error P) s,
  state-eq P J laws unique_id ss state s,
)
