-- ===== src/Cover/Commands.antt =====
-- lib/include/hacpp/cover.h: what a cover that the factory made, with a handler for each command and no
-- settings of the user, does with a command.
use hacpp.Base.{◌≡◌, String, [], ◌∷◌, returned, threw, wrong_kind, Outcome, if◌then◌else◌, str_eq}
use hacpp.Entity.{topic_of, Spawned, Co, Handler, done}
use hacpp.Json.{Json, IsJson}
use hacpp.Mqtt.{PublishPacket, publish}
use hacpp.Cover.{Factory, create, component, on_packet}
use hacpp.Cover.Configured.{configured}
use hacpp.Cover.Obeyed.{cover_obeys}

-- With a handler for each command.
abbrev pub handled : (J : Json) → String → Handler → Handler → Handler → Outcome (Factory J)
handled J unique_id opens closes stops = configured J unique_id [] opens closes stops

-- What a publish does to such a cover: it starts a handler, nothing, or it throws.
abbrev pub commanded : String → Handler → Handler → PublishPacket → Spawned → Co (Unit {0})
commanded unique_id opens closes p s =
    if str_eq p.topic (topic_of component unique_id "set")
    then (if str_eq p.payload "OPEN"
        then done (returned tt) (opens ∷ s)
        else if str_eq p.payload "CLOSE"
        then done (returned tt) (closes ∷ s)
        else done (threw wrong_kind) s)
    else done (returned tt) s

-- A cover made by the factory with handlers for all three commands, on a publish to
-- `homeassistant/cover/<id>/set`, starts the open handler for `OPEN` and the close handler for
-- `CLOSE`; for every other payload, `STOP` included, it throws, since the factory stores null as
-- the stop payload. A publish to another topic starts nothing.
pub cover_commands :
    (J : Json) (unique_id : String) (opens closes stops : Handler) (p : PublishPacket) (s : Spawned)
    → IsJson J
    → (f : Factory J) × (handled J unique_id opens closes stops ≡ returned f)
      × (on_packet J (create J f) (publish p) s ≡ commanded unique_id opens closes p s)
cover_commands J unique_id opens closes stops p s laws =
    cover_obeys J unique_id [] opens closes stops p s laws tt
