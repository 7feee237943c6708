-- ===== src/Cover/Answered.antt =====
-- lib/include/hacpp/cover.h: the handlers that a configured cover starts for its commands.
use hacpp.Base.{
  ◌≡◌, refl, ◌∙◌, String, true, false, Option, none, some, is_some, List, ◌∷◌, returned, str_eq,
  if◌then◌else◌, ◌⊎◌, inl, inr, Bool-cases,
}
use hacpp.Config.Settings.{Setting}
use hacpp.Entity.{Spawned, Handler, done}
use hacpp.Json.{Json, IsJson}
use hacpp.Mqtt.{Packet, PublishPacket, publish, other}
use hacpp.Cover.{create, on_packet}
use hacpp.Cover.Configured.{Commands, commands, configured_factory}
use hacpp.Cover.Obeyed.{stopping, obeyed, packet-eq}

-- The packet does not make such a cover throw: it is no command, or one to open or to close, or a
-- payload to stop is configured.
abbrev pub IsAnswered : Commands → Packet → Type 0
IsAnswered c (other kind) = Unit
IsAnswered c (publish p) =
    (str_eq p.topic c.topic ≡ false)
    ⊎ (str_eq p.payload c.open_payload ≡ true)
    ⊎ (str_eq p.payload c.close_payload ≡ true)
    ⊎ (is_some c.stop_payload ≡ true)

abbrev pub stopped : Option String → Handler → String → Spawned → Spawned
stopped none stops payload s = s
stopped (some stop) stops payload s = if str_eq payload stop then stops ∷ s else s

-- What such a packet does to the handlers started.
abbrev pub answered : Commands → Handler → Handler → Handler → Packet → Spawned → Spawned
answered c opens closes stops (other kind) s = s
answered c opens closes stops (publish p) s =
    if str_eq p.topic c.topic
    then (if str_eq p.payload c.open_payload
        then opens ∷ s
        else if str_eq p.payload c.close_payload
        then closes ∷ s
        else stopped c.stop_payload stops p.payload s)
    else s

module _ (opens closes stops : Handler) where
  stopping-stopped :
      (l : Option String) (payload : String) (s : Spawned)
      → is_some l ≡ true
      → stopping l stops payload s ≡ done (returned tt) (stopped l stops payload s)
  stopping-stopped none payload s known = absurd (cc)
  stopping-stopped (some stop) payload s known = elim (Bool-cases (str_eq payload stop)) [
    | inl hit ↦ rw hit refl
    | inr miss ↦ rw miss refl
  ]

  neither :
      (c : Commands) (p : PublishPacket)
      → IsAnswered c (publish p)
      → str_eq p.topic c.topic ≡ true
      → str_eq p.payload c.open_payload ≡ false
      → str_eq p.payload c.close_payload ≡ false
      → is_some c.stop_payload ≡ true
  neither c p (inl miss) hit no_open no_close = absurd (cc)
  neither c p (inr (inl opening)) hit no_open no_close = absurd (cc)
  neither c p (inr (inr (inl closing))) hit no_open no_close = absurd (cc)
  neither c p (inr (inr (inr known))) hit no_open no_close = known

  obeyed-answered :
      (c : Commands) (p : PublishPacket) (s : Spawned)
      → IsAnswered c (publish p)
      → obeyed c opens closes stops p s
        ≡ done (returned tt) (answered c opens closes stops (publish p) s)
  obeyed-answered c p s h = elim (Bool-cases (str_eq p.topic c.topic)) [
    | inl hit ↦ elim (Bool-cases (str_eq p.payload c.open_payload)) [
      | inl opening ↦ rw (hit, opening) refl
      | inr no_open ↦ elim (Bool-cases (str_eq p.payload c.close_payload)) [
        | inl closing ↦ rw (hit, no_open, closing) refl
        | inr no_close ↦
            rw (hit, no_open, no_close)
              (stopping-stopped c.stop_payload p.payload s (neither c p h hit no_open no_close))
      ]
    ]
    | inr miss ↦ rw miss refl
  ]

  pub packet-answered :
      (J : Json) (laws : IsJson J) (unique_id : String) (ss : List Setting) (p : Packet)
      (s : Spawned)
      → IsAnswered (commands unique_id ss) p
      → on_packet J (create J (configured_factory J laws unique_id ss opens closes stops)) p s
        ≡ done (returned tt) (answered (commands unique_id ss) opens closes stops p s)
  unfolding on_packet
  packet-answered J laws unique_id ss (publish p) s h =
      packet-eq J laws unique_id ss opens closes stops p s
      ∙ obeyed-answered (commands unique_id ss) p s h
  packet-answered J laws unique_id ss (other kind) s h = refl
