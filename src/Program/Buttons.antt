-- ===== src/Program/Buttons.antt =====
-- A whole program: a button, with any text and device settings, over a logical client of a shared connection, while the
-- pump runs.
use hacpp.Base.{
  suc, ℕ, ◌<◌, ◌≡◌, refl, String, true, false, none, some, List, [], ◌∷◌, ◌++◌, ◌+◌, length, All,
  returned, str_eq, Bool-cases, inl, inr,
}
use hacpp.Api.{Operation, Result}
use hacpp.Coroutine.Compose.{over}
use hacpp.Coroutine.Run.{run}
use hacpp.Entity.{Spawned, Handler, bind, async_setup, topic_of}
use hacpp.Entity.Serving.{steps}
use hacpp.Config.{json}
use hacpp.Config.Settings.{Setting, AreFlat, latest}
use hacpp.Error.{Platform, Error, failed, is_code, session_reset, make_error_code, success}
use hacpp.Json.{Json, IsJson}
use hacpp.Mqtt.{Packet, publish, other}
use hacpp.Shared
use hacpp.Shared.{SharedConnection, SharedClientState}
use hacpp.Shared.Invariant.{Inv}
use hacpp.Shared.Heap.{is_in}
use hacpp.Button.{Factory, create, base, async_run, on_packet, component}
use hacpp.Button.Announced.{button, announced_operations, announced-Issues}
use hacpp.Button.Configured.{
  configured, configured_cfg, configured_factory, configured-eq, command_topic, answered,
  packet-answered,
}
use hacpp.Button.Running.{async_run-serving}
use hacpp.Program.Listening.{Listens, command_setup, clash, listening}
use hacpp.Program.Own.{Own, shared_pump}
use hacpp.Program.Served.{Event, results, packets, resets_in, Visited}
use hacpp.Program.Series.{replayed}
use hacpp.Program.Missed.{caught}
use hacpp.Program.Setup.{Accepts, Completes, Issues-run}

module _ (J : Json) (laws : IsJson J) (P : Platform) (ec : Error)
    (ack : (op : Operation) → Result op) (ok : Accepts ack) (unique_id : String) (ss : List Setting)
    (reports : latest "availability" ss ≡ none) (handler : Handler) where
  abbrev command : String
  command = command_topic unique_id ss

  abbrev served_button : hacpp.Button.Config J
  served_button = button J laws unique_id ss reports (some handler)

  setup-Completes :
      (n : Own) (s : Spawned)
      → Completes P ec ack ok
          (announced_operations J laws unique_id ss reports (some handler))
          n
          s
          (async_setup J (base J served_button) s)
  unfolding make_error_code
  setup-Completes n s =
      Issues-run P ec ack ok (make_error_code success) s
        (announced_operations J laws unique_id ss reports (some handler)) _ n refl
        (announced-Issues J laws unique_id ss reports (some handler) (make_error_code success) s)

  abbrev IsVisited : Packet → Type 0
  IsVisited p =
      Visited J (base J served_button) (on_packet J served_button) P ec ack (Listens command)
        (answered unique_id ss handler) p

  packet-IsVisited : (p : Packet) → IsVisited p
  packet-IsVisited (publish p) = (
    λ s. packet-answered J laws unique_id ss handler (publish p) s,
    λ topics s listens unwanted. elim (Bool-cases (str_eq p.topic command)) [
      | inl hit ↦ absurd (clash command p.topic topics hit listens unwanted)
      | inr miss ↦ rw miss refl
    ],
  )
  packet-IsVisited (other kind) = (
    λ s. packet-answered J laws unique_id ss handler (other kind) s,
    λ topics s listens unwanted. refl,
  )

  packets-IsVisited : (ps : List Packet) → All IsVisited ps
  packets-IsVisited [] = tt
  packets-IsVisited (p ∷ ps) = (packet-IsVisited p, packets-IsVisited ps)

-- With JSON as documented, and a physical client that acknowledges every publish and subscription:
-- the factory of a button, any calls of `set` with a device or with texts, for no nested property and none of which replaces
-- `availability`, and then a handler. On a shared connection that meets the invariant and whose client
-- `id` is alive with no topics and an empty queue, whatever other clients there are, the button sets
-- itself up and runs over that client. The physical client yields any packets, for this button or not,
-- and any resets of the session, and then another error, and the pump makes rounds at each await of the
-- button by any schedule, and while the button waits on its queue. Then given fuel for more rounds than
-- these results `async_run` returns that error, and has started the handler once for each publish of
-- the payload on the topic that were set last, or of `PRESS` on `homeassistant/button/<id>/set`, in
-- order, and for nothing else, from the end of the subscription on: what came until then, in the rounds
-- of the two first awaits, is missed, and no later press is lost, before or after a reset. And the
-- physical client was asked for the button's setup, its configuration, the subscription to that topic
-- and `online`, once at first and once again after each reset, but for those before the end of the
-- subscription if the button's client was not on the list yet, and for nothing else.
pub button_served :
    (J : Json) (P : Platform) (ec : Error) (ack : (op : Operation) → Result op) (id : ℕ)
    (unique_id : String) (ss : List Setting) (handler : Handler) (missed missed' vs : List Event)
    (schedule : List ℕ) (e : Error) (fuel : ℕ) (s : SharedConnection) (c : SharedClientState)
    (h : Spawned)
    → IsJson J
    → Accepts ack
    → AreFlat ss
    → latest "availability" ss ≡ none
    → Inv s
    → s.heap id ≡ some c
    → c.queue.queue ≡ []
    → c.topics ≡ []
    → failed e ≡ true
    → is_code e session_reset ≡ false
    → length missed + length missed' + length vs < fuel
    → (f : Factory J) × (configured J unique_id ss handler ≡ returned f)
      × let button = create J f in
        let whole =
          bind (async_setup J (base J button) h) (λ (err : Error). async_run J fuel button) in
        let (o, rest, t) = run (shared_pump P ec ack) (over (Shared.serve P id) whole s) (record {
          to_come = results (missed ++ (missed' ++ vs)) e;
          schedule = length missed ∷ length missed' ∷ schedule;
          asked = [];
        }) in
        (o ≡ returned e)
        × (t.outer ≡ steps (answered unique_id ss handler) (packets vs) h)
        × (rest.asked
            ≡ replayed (suc (caught (is_in id s.clients) (missed ++ missed') + resets_in vs)) (
                command_setup
                  (topic_of component unique_id "config")
                  (json J f.cfg)
                  (command_topic unique_id ss)
                  (topic_of component unique_id "availability")))
button_served J P ec ack id unique_id ss handler missed missed' vs schedule e fuel s c h laws ok
      flat reports valid alive drained fresh bad no_reset enough =
    let b = button J laws unique_id ss reports (some handler) in
    (
      configured_factory J laws unique_id ss handler,
      configured-eq J laws unique_id ss handler flat,
      rw (async_run-serving J fuel b) (
          listening J (base J b) (on_packet J b) (answered unique_id ss handler) P ec ack ok
            (topic_of component unique_id "config") (json J (configured_cfg J laws unique_id ss))
            (command_topic unique_id ss) (topic_of component unique_id "availability")
            (setup-Completes J laws P ec ack ok unique_id ss reports handler) e bad no_reset id
            missed missed' vs schedule fuel s c h
            (packets-IsVisited J laws P ec ack ok unique_id ss reports handler (packets vs)) valid
            alive drained fresh enough),
    )
