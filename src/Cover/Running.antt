-- ===== src/Cover/Running.antt =====
-- lib/include/hacpp/cover.h: the handlers that a cover starts over a whole run.
use hacpp.Base.{
  ℕ, zero, suc, ◌<◌, ◌≡◌, refl, ap, String, true, false, List, [], ◌∷◌, ◌++◌, length, map, returned,
  All, none, threw, wrong_kind, str_eq, ◌∙◌,
}
use hacpp.Api.{Result}
use hacpp.Config.Settings.{Setting, AreFlat}
use hacpp.Coroutine.Run.{Env, run}
use hacpp.Entity.{Spawned, Handler, done}
use hacpp.Entity.Serving.{Yields, Visits, steps, round, serving, serving-steps, serving-throws}
use hacpp.Error.{Error, failed, is_code, session_reset}
use hacpp.Json.{Json, IsJson}
use hacpp.Mqtt.{Packet, PublishPacket, packet, publish, unexpected}
use hacpp.Cover.{Config, Factory, create, on_packet, base, async_run}
use hacpp.Cover.Answered.{IsAnswered, answered, packet-answered}
use hacpp.Cover.Configured.{configured, Commands, commands, configured_factory, configured-eq}
use hacpp.Cover.Obeyed.{packet-eq}

pub async_run-serving :
    (J : Json) (fuel : ℕ) (config : Config J)
    → async_run J fuel config ≡ serving J (base J config) (on_packet J config) fuel
unfolding async_run serving
async_run-serving J zero config = refl
async_run-serving J (suc fuel) config =
    ap (round J (base J config) (on_packet J config) fuel) (async_run-serving J fuel config)

-- A command of none of the three payloads, where no payload to stop is configured.
abbrev pub IsUnanswered : Commands → PublishPacket → Type 0
IsUnanswered c p =
    (str_eq p.topic c.topic ≡ true)
    × (str_eq p.payload c.open_payload ≡ false)
    × (str_eq p.payload c.close_payload ≡ false)
    × (c.stop_payload ≡ none)

module _ (J : Json) (laws : IsJson J) (env : Env Result Spawned) (unique_id : String)
    (ss : List Setting) (opens closes stops : Handler) where
  abbrev config : Config J
  config = create J (configured_factory J laws unique_id ss opens closes stops)

  packets-Visits :
      (ps : List Packet)
      → All (IsAnswered (commands unique_id ss)) ps
      → All
          (Visits J
            (base J config)
            (on_packet J config)
            env
            (answered (commands unique_id ss) opens closes stops))
          ps
  packets-Visits [] known = tt
  packets-Visits (p ∷ ps) known = (
    λ s. packet-answered opens closes stops J laws unique_id ss p s known.0,
    packets-Visits ps known.1,
  )

  packet-throws :
      (p : PublishPacket)
      → IsUnanswered (commands unique_id ss) p
      → (s : Spawned) → on_packet J config (publish p) s ≡ done (threw wrong_kind) s
  packet-throws p (addressed, no_open, no_close, no_stop) s =
      packet-eq J laws unique_id ss opens closes stops p s
      ∙ rw (addressed, no_open, no_close, no_stop) refl

-- With JSON as documented: let the client of a cover that the factory made, with any text and device settings that
-- are not nested and with handlers for all three commands, yield packets, none of which is a command
-- that makes it throw, and then an error that is no session reset. Then given fuel for more rounds
-- than packets `async_run` returns that error, and has started for each publish on the command topic,
-- in order, the handler of the first of the commands open, close and stop whose payload it has, and
-- no other handler.
pub cover_runs :
    (J : Json) (env : Env Result Spawned) (unique_id : String) (ss : List Setting)
    (opens closes stops : Handler) (ps : List Packet) (e : Error) (fuel : ℕ) (n : env.Net)
    (s : Spawned)
    → IsJson J
    → AreFlat ss
    → All (IsAnswered (commands unique_id ss)) ps
    → Yields env n (map packet ps ++ unexpected e ∷ [])
    → failed e ≡ true
    → is_code e session_reset ≡ false
    → length ps < fuel
    → (f : Factory J) × (configured J unique_id ss opens closes stops ≡ returned f)
      × let (o, n', t) = run env (async_run J fuel (create J f) s) n in
        (o ≡ returned e) × (t ≡ steps (answered (commands unique_id ss) opens closes stops) ps s)
cover_runs J env unique_id ss opens closes stops ps e fuel n s laws flat known yields bad no_reset
      enough =
    let c = config J laws env unique_id ss opens closes stops in
    (
      configured_factory J laws unique_id ss opens closes stops,
      configured-eq J laws unique_id ss opens closes stops flat,
      rw (async_run-serving J fuel c) (
          serving-steps J (base J c) (on_packet J c) env
            (answered (commands unique_id ss) opens closes stops) ps e fuel n s yields
            (packets-Visits J laws env unique_id ss opens closes stops ps known) bad no_reset
            enough),
    )

-- With JSON as documented: let the client of a cover that the factory made, with any text and device settings that are
-- not nested and with handlers for all three commands, yield packets that do not make it throw, and
-- then a publish on the command topic whose payload is neither to open nor to close, where no payload
-- to stop was set. Then given fuel for more rounds than the packets before it, `async_run` throws, and
-- has started the handlers of the commands before it, in order, and no other.
pub cover_throws :
    (J : Json) (env : Env Result Spawned) (unique_id : String) (ss : List Setting)
    (opens closes stops : Handler) (ps : List Packet) (p : PublishPacket) (fuel : ℕ) (n : env.Net)
    (s : Spawned)
    → IsJson J
    → AreFlat ss
    → All (IsAnswered (commands unique_id ss)) ps
    → IsUnanswered (commands unique_id ss) p
    → Yields env n (map packet ps ++ packet (publish p) ∷ [])
    → length ps < fuel
    → (f : Factory J) × (configured J unique_id ss opens closes stops ≡ returned f)
      × let (o, n', t) = run env (async_run J fuel (create J f) s) n in
        (o ≡ threw wrong_kind)
        × (t ≡ steps (answered (commands unique_id ss) opens closes stops) ps s)
cover_throws J env unique_id ss opens closes stops ps p fuel n s laws flat known unanswered yields
      enough =
    let c = config J laws env unique_id ss opens closes stops in
    (
      configured_factory J laws unique_id ss opens closes stops,
      configured-eq J laws unique_id ss opens closes stops flat,
      rw (async_run-serving J fuel c) (
          serving-throws J (base J c) (on_packet J c) env
            (answered (commands unique_id ss) opens closes stops) ps (publish p) wrong_kind fuel n s
            yields (packets-Visits J laws env unique_id ss opens closes stops ps known)
            (packet-throws J laws env unique_id ss opens closes stops p unanswered) enough),
    )
