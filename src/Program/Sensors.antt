-- ===== src/Program/Sensors.antt =====
-- A whole program: a sensor over a logical client of a shared connection, while the pump runs.
use hacpp.Base.{
  ℕ, suc, ◌<◌, ◌≡◌, refl, String, true, false, none, some, List, [], ◌∷◌, ◌++◌, ◌+◌, length,
  returned,
}
use hacpp.Api.{Operation, Result}
use hacpp.Config.{json}
use hacpp.Config.Settings.{Setting, AreFlat, latest}
use hacpp.Coroutine.Compose.{over}
use hacpp.Coroutine.Run.{run}
use hacpp.Entity.{Spawned, bind, async_setup, topic_of}
use hacpp.Error.{Platform, Error, failed, is_code, session_reset, make_error_code, success}
use hacpp.Json.{Json, IsJson}
use hacpp.Shared
use hacpp.Shared.{SharedConnection, SharedClientState}
use hacpp.Shared.Heap.{is_in}
use hacpp.Shared.Invariant.{Inv}
use hacpp.Sensor.{Factory, create, base, async_run, component}
use hacpp.Sensor.Laws.{
  configured, configured_factory, configured-eq, setup_operations, setup-Issues,
}
use hacpp.Sensor.Running.{async_run-serving}
use hacpp.Program.Own.{Own, shared_pump}
use hacpp.Program.Series.{replayed}
use hacpp.Program.Served.{Event, results, resets_in}
use hacpp.Program.Missed.{caught}
use hacpp.Program.Setup.{Accepts, Completes, Issues-run}
use hacpp.Program.Reporting.{report_setup, reporting}

setup-Completes :
    (J : Json) (laws : IsJson J) (P : Platform) (ec : Error) (ack : (op : Operation) → Result op)
    (ok : Accepts ack) (unique_id : String) (ss : List Setting)
    (reports : latest "availability" ss ≡ none) (n : Own) (s : Spawned)
    → Completes P ec ack ok
        (setup_operations P J laws unique_id ss)
        n
        s
        (async_setup J (base P J (create J (configured_factory P J laws unique_id ss))) s)
unfolding make_error_code
setup-Completes J laws P ec ack ok unique_id ss reports n s =
    Issues-run P ec ack ok (make_error_code success) s (setup_operations P J laws unique_id ss) _ n
      refl (setup-Issues P J laws unique_id ss reports (make_error_code success) s)

-- With JSON as documented, and a physical client that acknowledges every publish: the factory of a
-- sensor returns, with any text and device settings that are not nested and do not replace the availability. On a
-- shared connection that meets the invariant and whose client `id` is alive with no topics and an
-- empty queue, whatever other clients there are, the sensor sets itself up and runs over that
-- client. The physical client yields any packets and any resets of the session, and then another
-- error, and the pump makes rounds at each await of the sensor by any schedule, and while the sensor
-- waits on its queue. Then given fuel for more rounds than these results `async_run` returns that
-- error, no handler was started, and the physical client was asked for the sensor's two publishes, its
-- configuration and `online`, once at first and once again after each reset, but for those before the
-- end of the setup if the sensor's client was not on the list yet, and for nothing else.
pub sensor_served :
    (J : Json) (P : Platform) (ec : Error) (ack : (op : Operation) → Result op) (id : ℕ)
    (unique_id : String) (ss : List Setting) (missed missed' vs : List Event) (schedule : List ℕ)
    (e : Error) (fuel : ℕ) (s : SharedConnection) (c : SharedClientState) (h : Spawned)
    → IsJson J
    → AreFlat ss
    → latest "availability" ss ≡ none
    → Accepts ack
    → Inv s
    → s.heap id ≡ some c
    → c.queue.queue ≡ []
    → c.topics ≡ []
    → failed e ≡ true
    → is_code e session_reset ≡ false
    → length missed + length missed' + length vs < fuel
    → (f : Factory J) × (configured J unique_id ss ≡ returned f)
      × let sensor = create J f in
        let whole =
          bind (async_setup J (base P J sensor) h) (λ (err : Error). async_run P J fuel sensor) in
        let (o, rest, t) = run (shared_pump P ec ack) (over (Shared.serve P id) whole s) (record {
          to_come = results (missed ++ (missed' ++ vs)) e;
          schedule = length missed ∷ length missed' ∷ schedule;
          asked = [];
        }) in
        (o ≡ returned e)
        × (t.outer ≡ h)
        × (rest.asked
            ≡ replayed (suc (caught (is_in id s.clients) (missed ++ missed') + resets_in vs)) (
                report_setup
                  (topic_of component unique_id "config")
                  (json J f.cfg)
                  (topic_of component unique_id "availability")))
sensor_served J P ec ack id unique_id ss missed missed' vs schedule e fuel s c h laws flat reports
      ok valid alive drained fresh bad no_reset enough =
    let sensor = create J (configured_factory P J laws unique_id ss) in
    (
      configured_factory P J laws unique_id ss,
      configured-eq P J laws unique_id ss flat,
      rw (async_run-serving P J fuel sensor) (
          reporting J (base P J sensor) P ec ack ok (topic_of component unique_id "config")
            (json J (configured_factory P J laws unique_id ss).cfg)
            (topic_of component unique_id "availability")
            (setup-Completes J laws P ec ack ok unique_id ss reports) e bad no_reset id missed
            missed' vs schedule fuel s c h valid alive drained fresh enough),
    )
