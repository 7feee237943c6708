-- ===== src/Program/Tests/Sensors.antt =====
-- A whole program at concrete inputs: runs of sensors.
use hacpp.Base.{◌≡◌, refl, [], ◌∷◌, ◌++◌, List, arith, returned}
use hacpp.Config.{json, property}
use hacpp.Config.Settings.{Setting, sets_text, sets_device}
use hacpp.Coroutine.{bind}
use hacpp.Coroutine.Run.{run}
use hacpp.Coroutine.Compose.{over}
use hacpp.Error.{Error, is_code, make_error_code, no_error}
use hacpp.Error.Tests.{linux, refused}
use hacpp.Mqtt.{publish}
use hacpp.Shared
use hacpp.Shared.{SharedConnection}
use hacpp.Shared.Invariant.{Inv}
use hacpp.Entity.{topic_of, async_setup}
use hacpp.Sensor
use hacpp.Sensor.Laws as Reading
use hacpp.BinarySensor
use hacpp.BinarySensor.Laws as Detecting
use hacpp.Tests.{lamp, sample, sample-IsJson, to}
use hacpp.Program.Own.{shared_pump}
use hacpp.Program.Series.{replayed}
use hacpp.Program.Served.{Event, arrives, resets, results}
use hacpp.Program.Reporting.{report_setup}
use hacpp.Program.Sensors.{sensor_served}
use hacpp.Program.BinarySensors.{binary_sensor_served}
use hacpp.Program.Tests.{idle}
use hacpp.Program.Tests.Runs.{ack, gone, two_clients, two_clients-Inv}

-- The first logical client is on the list.
abbrev listed : SharedConnection
listed = record two_clients { clients = 0 ∷ 1 ∷ [] }

listed-Inv : Inv listed
listed-Inv = record {
  dead = λ j h. ground arith;
  below = (omega arith, (omega arith, tt));
  distinct = (refl, (refl, tt));
  topics = λ j c e. ground arith;
}

abbrev news : List Event
news = arrives (publish (to "elsewhere" "21")) ∷ resets ∷ []

abbrev attic : List Setting
attic = sets_device lamp ∷ sets_text (property "state_topic") "attic" ∷ []

sensor_served_example :
    (f : hacpp.Sensor.Factory sample) × (Reading.configured sample "s" attic ≡ returned f)
    × let sensor = hacpp.Sensor.create sample f in
      let whole =
        bind
          (async_setup sample (hacpp.Sensor.base linux sample sensor) [])
          (λ (err : Error). hacpp.Sensor.async_run linux sample 4 sensor) in
      let (o, rest, t) =
        run (shared_pump linux refused ack) (over (Shared.serve linux 0) whole listed) (record {
          to_come = results ((resets ∷ []) ++ ([] ++ news)) gone;
          schedule = 1 ∷ 0 ∷ 1 ∷ [];
          asked = [];
        }) in
      (o ≡ returned gone)
      × (t.outer ≡ [])
      × (rest.asked
          ≡ replayed 3 (
              report_setup
                (topic_of "sensor" "s" "config")
                (json sample f.cfg)
                (topic_of "sensor" "s" "availability")))
unfolding is_code make_error_code no_error
sensor_served_example =
    sensor_served sample linux refused ack 0 "s" attic (resets ∷ []) [] news (1 ∷ []) gone 4 listed
      idle [] sample-IsJson (tt, (refl, tt)) refl (λ topic payload qos retain. refl, λ topics. refl)
      listed-Inv refl refl refl refl refl (omega arith)

binary_sensor_served_example :
    (f : hacpp.BinarySensor.Factory sample) × (Detecting.configured sample "b" attic ≡ returned f)
    × let sensor = hacpp.BinarySensor.create sample f in
      let whole =
        bind
          (async_setup sample (hacpp.BinarySensor.base linux sample sensor) [])
          (λ (err : Error). hacpp.BinarySensor.async_run linux sample 4 sensor) in
      let (o, rest, t) =
        run
          (shared_pump linux refused ack)
          (over (Shared.serve linux 0) whole two_clients)
          (record {
            to_come = results ((resets ∷ []) ++ ([] ++ news)) gone;
            schedule = 1 ∷ 0 ∷ 1 ∷ [];
            asked = [];
          }) in
      (o ≡ returned gone)
      × (t.outer ≡ [])
      × (rest.asked
          ≡ replayed 2 (
              report_setup
                (topic_of "binary_sensor" "b" "config")
                (json sample f.cfg)
                (topic_of "binary_sensor" "b" "availability")))
unfolding is_code make_error_code no_error
binary_sensor_served_example =
    binary_sensor_served sample linux refused ack 0 "b" attic (resets ∷ []) [] news (1 ∷ []) gone 4
      two_clients idle [] sample-IsJson (tt, (refl, tt)) refl
      (λ topic payload qos retain. refl, λ topics. refl) two_clients-Inv refl refl refl refl refl
      (omega arith)
