-- ===== src/Tests/Factories.antt =====
-- lib/include/hacpp/sensor.h, binary_sensor.h, button.h and cover.h: what the factories make, at
-- concrete inputs.
use hacpp.Base.{refl, List, ◌≡◌, true, [], ◌∷◌, returned, threw, wrong_kind}
use hacpp.Api.{publishing, subscribing}
use hacpp.Config.{json}
use hacpp.Entity.{topic_of, async_publish, async_setup, done}
use hacpp.Entity.Setup.{Issues}
use hacpp.Error.{no_error, make_error_code, success}
use hacpp.Error.Tests.{linux}
use hacpp.Mqtt.{publish, at_most_once, at_least_once}
use hacpp.Sensor
use hacpp.Sensor.Laws as Reading
use hacpp.Sensor.Laws.{sensor_factory_publishes}
use hacpp.BinarySensor
use hacpp.BinarySensor.Laws as Detecting
use hacpp.BinarySensor.Laws.{binary_sensor_factory_publishes}
use hacpp.Button
use hacpp.Button.Announced.{button_factory_publishes}
use hacpp.Button.Configured.{customised}
use hacpp.Cover
use hacpp.Cover.Announced.{cover_factory_publishes}
use hacpp.Cover.Configured as Moving
use hacpp.Config.{property}
use hacpp.Config.Settings.{Setting, sets_text, sets_device}
use hacpp.Cover.Configured.{configured}
use hacpp.Cover.Obeyed.{cover_obeys}
use hacpp.Tests.{lamp, sample, sample-IsJson, to}

-- The user sets a topic and a payload.
abbrev attic : List Setting
attic = sets_text (property "state_topic") "attic" ∷ sets_text (property "payload_on") "DARK" ∷ []

sensor_factory_publishes_example :
    (f : hacpp.Sensor.Factory sample) × (Reading.configured sample "s" attic ≡ returned f)
    × Issues
        (no_error linux)
        []
        (publishing (topic_of "sensor" "s" "config") (json sample f.cfg) at_most_once true
          ∷ publishing (topic_of "sensor" "s" "availability") "online" at_most_once true
          ∷ [])
        (async_setup sample (hacpp.Sensor.base linux sample (hacpp.Sensor.create sample f)) [])
    × (hacpp.Sensor.async_update_state linux sample (hacpp.Sensor.create sample f) "21.5" []
        ≡ async_publish "attic" "21.5" at_most_once true [])
sensor_factory_publishes_example =
    sensor_factory_publishes linux sample "s" attic "21.5" [] sample-IsJson (refl, (refl, tt)) refl

binary_sensor_factory_publishes_example :
    (f : hacpp.BinarySensor.Factory sample) × (Detecting.configured sample "s" attic ≡ returned f)
    × Issues
        (no_error linux)
        []
        (publishing (topic_of "binary_sensor" "s" "config") (json sample f.cfg) at_most_once true
          ∷ publishing (topic_of "binary_sensor" "s" "availability") "online" at_most_once true
          ∷ [])
        (async_setup sample
          (hacpp.BinarySensor.base linux sample (hacpp.BinarySensor.create sample f))
          [])
    × (hacpp.BinarySensor.async_update_state linux sample
          (hacpp.BinarySensor.create sample f)
          true
          []
        ≡ async_publish "attic" "DARK" at_most_once true [])
binary_sensor_factory_publishes_example =
    binary_sensor_factory_publishes linux sample "s" attic true [] sample-IsJson (refl, (refl, tt))
      refl

abbrev relay : List Setting
relay = sets_text (property "command_topic") "relay" ∷ sets_device lamp ∷ []

button_factory_publishes_example :
    (f : hacpp.Button.Factory sample) × (customised sample "b" relay ≡ returned f)
    × Issues
        (make_error_code success)
        []
        (publishing (topic_of "button" "b" "config") (json sample f.cfg) at_least_once true
          ∷ subscribing (record { topic = "relay"; qos = at_least_once } ∷ [])
          ∷ publishing (topic_of "button" "b" "availability") "online" at_least_once true
          ∷ [])
        (async_setup sample (hacpp.Button.base sample (hacpp.Button.create sample f)) [])
button_factory_publishes_example =
    button_factory_publishes sample "b" relay [] sample-IsJson (refl, (tt, tt)) refl

abbrev shade : List Setting
shade = sets_text (property "command_topic") "shade" ∷ []

cover_factory_publishes_example :
    (f : hacpp.Cover.Factory sample) × (Moving.customised sample "c" shade ≡ returned f)
    × Issues
        (make_error_code success)
        []
        (publishing (topic_of "cover" "c" "config") (json sample f.cfg) at_least_once true
          ∷ subscribing (record { topic = "shade"; qos = at_least_once } ∷ [])
          ∷ publishing (topic_of "cover" "c" "availability") "online" at_least_once true
          ∷ [])
        (async_setup sample (hacpp.Cover.base sample (hacpp.Cover.create sample f)) [])
    × (hacpp.Cover.async_update_state sample (hacpp.Cover.create sample f) "open" []
        ≡ async_publish (topic_of "cover" "c" "state") "open" at_least_once true [])
cover_factory_publishes_example =
    cover_factory_publishes sample "c" shade "open" [] sample-IsJson (refl, tt) refl

abbrev raised : List Setting
raised = sets_text (property "payload_open") "UP" ∷ []

cover_obeys_example :
    (f : hacpp.Cover.Factory sample) × (configured sample "c" raised 1 2 3 ≡ returned f)
    × (hacpp.Cover.on_packet sample
          (hacpp.Cover.create sample f)
          (publish (to (topic_of "cover" "c" "set") "STOP"))
          []
        ≡ done (threw wrong_kind) [])
cover_obeys_example =
    cover_obeys sample "c" raised 1 2 3 (to (topic_of "cover" "c" "set") "STOP") [] sample-IsJson
      (refl, tt)
