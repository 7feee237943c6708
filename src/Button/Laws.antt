-- ===== src/Button/Laws.antt =====
-- lib/include/hacpp/button.h: the configuration that the factory of a button starts with.
use hacpp.Base.{◌≡◌, String, returned, none}
use hacpp.Config.{set, init}
use hacpp.Entity.{default_component_command_topic, default_component_availability_topic}
use hacpp.Json.{Json, IsJson}
use hacpp.Mqtt.{at_least_once}
use hacpp.Button.{Factory, factory, component}

module _ (J : Json) (laws : IsJson J) (unique_id : String) where
  open J use {assign, null, string, object, empty}
  open laws use {find-empty, find-assign, as_string-string, as_string-null, as_object-object}

  -- The configuration that the factory starts with.
  abbrev pub factory_cfg : J.Object
  factory_cfg =
      let o = assign empty "unique_id" (string unique_id) in
      let o = assign o "payload_press" (string "PRESS") in
      let o =
        assign o "command_topic" (string (default_component_command_topic component unique_id)) in
      let o = assign o "availability" (object empty) in
      let o = assign o "availability" (
        object (
          assign empty "topic"
            (string (default_component_availability_topic component unique_id)))) in
      o

  abbrev pub made : Factory J
  made = record { unique_id = unique_id; qos = at_least_once; cfg = factory_cfg; handler = none }

  pub factory-eq : factory J unique_id ≡ returned made
  unfolding factory init set
  factory-eq = simp (find-assign, find-empty, as_object-object)
