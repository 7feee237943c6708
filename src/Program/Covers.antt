-- ===== src/Program/Covers.antt =====
-- A whole program: a cover, with any text and device settings, over a logical client of a shared connection, while the
-- pump runs.
use hacpp.Base.{
  suc, ℕ, ◌<◌, ◌≡◌, refl, String, true, false, none, some, List, [], ◌∷◌, ◌++◌, ◌+◌, length, All,
  returned, str_eq, Bool-cases, inl, inr,
}
use hacpp.Api.{Operation, Result}
use hacpp.Coroutine.Compose.{over}
use hacpp.Coroutine.Run.{run}
use hacpp.Entity.{Spawned, Handler, bind, async_setup, topic_of}
use hacpp.Entity.Serving.{steps}
use hacpp.Config.{json}
use hacpp.Config.Settings.{Setting, AreFlat, latest}
use hacpp.Error.{Platform, Error, failed, is_code, session_reset, make_error_code, success}
use hacpp.Json.{Json, IsJson}
use hacpp.Mqtt.{Packet, publish, other}
use hacpp.Shared
use hacpp.Shared.{SharedConnection, SharedClientState}
use hacpp.Shared.Invariant.{Inv}
use hacpp.Shared.Heap.{is_in}
use hacpp.Cover.{Factory, create, base, async_run, on_packet, component}
use hacpp.Cover.Configured.{configured, configured_cfg, configured_factory, configured-eq, commands}
use hacpp.Cover.Announced.{cover, announced_operations, announced-Issues}
use hacpp.Cover.Answered.{IsAnswered, answered, packet-answered}
use hacpp.Cover.Running.{async_run-serving}
use hacpp.Program.Listening.{Listens, command_setup, clash, listening}
use hacpp.Program.Own.{Own, shared_pump}
use hacpp.Program.Served.{Event, results, packets, resets_in, Visited}
use hacpp.Program.Series.{replayed}
use hacpp.Program.Missed.{caught}
use hacpp.Program.Setup.{Accepts, Completes, Issues-run}

module _ (J : Json) (laws : IsJson J) (P : Platform) (ec : Error)
    (ack : (op : Operation) → Result op) (ok : Accepts ack) (unique_id : String) (ss : List Setting)
    (reports : latest "availability" ss ≡ none) (opens closes stops : Handler) where
  abbrev command : String
  command = (commands unique_id ss).topic

  abbrev served_cover : hacpp.Cover.Config J
  served_cover = cover J laws unique_id ss reports opens closes stops

  setup-Completes :
      (n : Own) (s : Spawned)
      → Completes P ec ack ok
          (announced_operations J laws unique_id ss reports opens closes stops)
          n
          s
          (async_setup J (base J served_cover) s)
  unfolding make_error_code
  setup-Completes n s =
      Issues-run P ec ack ok (make_error_code success) s
        (announced_operations J laws unique_id ss reports opens closes stops) _ n refl
        (announced-Issues J laws unique_id ss reports opens closes stops (make_error_code success)
          s)

  abbrev IsVisited : Packet → Type 0
  IsVisited p =
      Visited J (base J served_cover) (on_packet J served_cover) P ec ack (Listens command)
        (answered (commands unique_id ss) opens closes stops) p

  packet-IsVisited : (p : Packet) → IsAnswered (commands unique_id ss) p → IsVisited p
  packet-IsVisited (publish p) known = (
    λ s. packet-answered opens closes stops J laws unique_id ss (publish p) s known,
    λ topics s listens unwanted. elim (Bool-cases (str_eq p.topic command)) [
      | inl hit ↦ absurd (clash command p.topic topics hit listens unwanted)
      | inr miss ↦ rw miss refl
    ],
  )
  packet-IsVisited (other kind) known = (
    λ s. packet-answered opens closes stops J laws unique_id ss (other kind) s known,
    λ topics s listens unwanted. refl,
  )

  packets-IsVisited :
      (ps : List Packet) → All (IsAnswered (commands unique_id ss)) ps → All IsVisited ps
  packets-IsVisited [] known = tt
  packets-IsVisited (p ∷ ps) known = (packet-IsVisited p known.0, packets-IsVisited ps known.1)

-- With JSON as documented, and a physical client that acknowledges every publish and subscription:
-- the factory of a cover, any calls of `set` with a device or with texts, for no nested property and none of which replaces
-- `availability`, and then handlers for all three commands. On a shared connection that meets the
-- invariant and whose client `id` is alive with no topics and an empty queue, whatever other clients
-- there are, the cover sets itself up and runs over that client. The physical client yields any
-- packets and any resets of the session, and then another error, and the pump makes rounds at each
-- await of the cover by any schedule, and while the cover waits on its queue. If no payload to stop is
-- set, then from the end of the subscription on no packet is a command to the cover but those to open
-- and to close. Then given fuel for more rounds than these results `async_run` returns that error, and
-- each publish on the cover's topic that came from then on has started the handler of the first
-- command with its payload, if there is one, in order, before and after each reset, and nothing else
-- was started; the topic and the payloads are those that were set last, or
-- `homeassistant/cover/<id>/set`, `OPEN` and `CLOSE`. And the physical client was asked for the
-- cover's setup, its configuration, the subscription to that topic and `online`, once at first and
-- once again after each reset, but for those before the end of the subscription if the cover's client
-- was not on the list yet, and for nothing else.
pub cover_served :
    (J : Json) (P : Platform) (ec : Error) (ack : (op : Operation) → Result op) (id : ℕ)
    (unique_id : String) (ss : List Setting) (opens closes stops : Handler)
    (missed missed' vs : List Event) (schedule : List ℕ) (e : Error) (fuel : ℕ)
    (s : SharedConnection) (c : SharedClientState) (h : Spawned)
    → IsJson J
    → Accepts ack
    → AreFlat ss
    → latest "availability" ss ≡ none
    → All (IsAnswered (commands unique_id ss)) (packets vs)
    → Inv s
    → s.heap id ≡ some c
    → c.queue.queue ≡ []
    → c.topics ≡ []
    → failed e ≡ true
    → is_code e session_reset ≡ false
    → length missed + length missed' + length vs < fuel
    → (f : Factory J) × (configured J unique_id ss opens closes stops ≡ returned f)
      × let cover = create J f in
        let whole =
          bind (async_setup J (base J cover) h) (λ (err : Error). async_run J fuel cover) in
        let (o, rest, t) = run (shared_pump P ec ack) (over (Shared.serve P id) whole s) (record {
          to_come = results (missed ++ (missed' ++ vs)) e;
          schedule = length missed ∷ length missed' ∷ schedule;
          asked = [];
        }) in
        (o ≡ returned e)
        × (t.outer ≡ steps (answered (commands unique_id ss) opens closes stops) (packets vs) h)
        × (rest.asked
            ≡ replayed (suc (caught (is_in id s.clients) (missed ++ missed') + resets_in vs)) (
                command_setup
                  (topic_of component unique_id "config")
                  (json J f.cfg)
                  (commands unique_id ss).topic
                  (topic_of component unique_id "availability")))
cover_served J P ec ack id unique_id ss opens closes stops missed missed' vs schedule e fuel s c h
      laws ok flat reports known valid alive drained fresh bad no_reset enough =
    let b = cover J laws unique_id ss reports opens closes stops in
    (
      configured_factory J laws unique_id ss opens closes stops,
      configured-eq J laws unique_id ss opens closes stops flat,
      rw (async_run-serving J fuel b) (
          listening J (base J b) (on_packet J b)
            (answered (commands unique_id ss) opens closes stops) P ec ack ok
            (topic_of component unique_id "config") (json J (configured_cfg J laws unique_id ss))
            (commands unique_id ss).topic (topic_of component unique_id "availability")
            (setup-Completes J laws P ec ack ok unique_id ss reports opens closes stops) e bad
            no_reset id missed missed' vs schedule fuel s c h
            (packets-IsVisited J laws P ec ack ok unique_id ss reports opens closes stops
              (packets vs) known)
            valid alive drained fresh enough),
    )
