-- ===== src/Cover/Obeyed.antt =====
-- lib/include/hacpp/cover.h: what a cover does with a command that the user configured with settings
-- and a handler for each command.
use hacpp.Base.{
  ◌≡◌, refl, String, Option, none, some, List, ◌∷◌, returned, threw, wrong_kind, str_eq,
  if◌then◌else◌, Bool-cases, inl, inr,
}
use hacpp.Config.Settings.{Setting, AreFlat, latest}
use hacpp.Entity.{Spawned, Co, Handler, done, bind, lift, spawn_some, co_return}
use hacpp.Json.{Json, IsJson}
use hacpp.Mqtt.{PublishPacket, publish}
use hacpp.Cover.{Factory, create, dispatch, on_packet}
use hacpp.Cover.Configured.{
  configured, Commands, commands, stop_text, configured_factory, configured-eq, at-command, at-open,
  at-close, at-stop,
}

-- A payload that is neither to open nor to close.
abbrev pub stopping : Option String → Handler → String → Spawned → Co (Unit {0})
stopping none stops payload s = done (threw wrong_kind) s
stopping (some stop) stops payload s =
    if str_eq payload stop then done (returned tt) (stops ∷ s) else done (returned tt) s

-- What a publish does: it starts the handler of the first command with this payload, or nothing, or,
-- where no payload to stop was set, it throws.
abbrev pub obeyed : Commands → Handler → Handler → Handler → PublishPacket → Spawned → Co (Unit {0})
obeyed c opens closes stops p s =
    if str_eq p.topic c.topic
    then (if str_eq p.payload c.open_payload
        then done (returned tt) (opens ∷ s)
        else if str_eq p.payload c.close_payload
        then done (returned tt) (closes ∷ s)
        else stopping c.stop_payload stops p.payload s)
    else done (returned tt) s

module _ (J : Json) (laws : IsJson J) (unique_id : String) (ss : List Setting) where
  pub packet-eq :
      (opens closes stops : Handler) (p : PublishPacket) (s : Spawned)
      → on_packet J
          (create J (configured_factory J laws unique_id ss opens closes stops))
          (publish p)
          s
        ≡ obeyed (commands unique_id ss) opens closes stops p s
  unfolding on_packet dispatch create bind
  packet-eq opens closes stops p s =
      let c = commands unique_id ss in
      rw (at-command J laws unique_id ss) (elim (Bool-cases (str_eq p.topic c.topic)) [
        | inl hit ↦
            rw (hit, at-open J laws unique_id ss)
              (elim (Bool-cases (str_eq p.payload c.open_payload)) [
                | inl opening ↦ rw opening refl
                | inr differ ↦
                    rw (differ, at-close J laws unique_id ss)
                      (elim (Bool-cases (str_eq p.payload c.close_payload)) [
                        | inl closing ↦ rw closing refl
                        | inr neither ↦
                            rw (neither, at-stop J laws unique_id ss)
                              (stopped (latest "payload_stop" ss))
                      ])
              ])
        | inr miss ↦ rw miss refl
      ])
    where
      stopped :
          (l : Option String)
          → bind
              (lift (stop_text l) s)
              (λ stop. if str_eq p.payload stop then spawn_some (some stops) else co_return tt)
            ≡ stopping l stops p.payload s
      stopped none = refl
      stopped (some stop) = elim (Bool-cases (str_eq p.payload stop)) [
        | inl hit ↦ rw hit refl
        | inr miss ↦ rw miss refl
      ]

-- With JSON as documented: the factory of a cover, any calls of `set` with a device or with texts for properties that are not
-- nested, and then handlers for all three commands. On a publish to the command topic that was set
-- last, or to `homeassistant/cover/<id>/set`, the cover that it makes starts the handler of the first
-- of the commands open, close and stop with this payload, and no handler if there is none. The payload
-- of a command is the one that was set last, or `OPEN` or `CLOSE`. There is none to stop unless it was
-- set, since the factory stores null as the stop payload: then every payload that is neither to open
-- nor to close throws, `STOP` included. A publish to another topic starts nothing.
pub cover_obeys :
    (J : Json) (unique_id : String) (ss : List Setting) (opens closes stops : Handler)
    (p : PublishPacket) (s : Spawned)
    → IsJson J
    → AreFlat ss
    → (f : Factory J) × (configured J unique_id ss opens closes stops ≡ returned f)
      × (on_packet J (create J f) (publish p) s
          ≡ obeyed (commands unique_id ss) opens closes stops p s)
cover_obeys J unique_id ss opens closes stops p s laws flat = (
  configured_factory J laws unique_id ss opens closes stops,
  configured-eq J laws unique_id ss opens closes stops flat,
  packet-eq J laws unique_id ss opens closes stops p s,
)
