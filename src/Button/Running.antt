-- ===== src/Button/Running.antt =====
-- lib/include/hacpp/button.h: the handlers that a button starts over a whole run.
use hacpp.Base.{
  ℕ, zero, suc, ◌<◌, ◌≡◌, refl, ap, String, true, false, List, [], ◌∷◌, ◌++◌, length, map, returned,
  All,
}
use hacpp.Api.{Result}
use hacpp.Config.Settings.{Setting, AreFlat}
use hacpp.Coroutine.Run.{Env, run}
use hacpp.Entity.{Spawned, Handler}
use hacpp.Entity.Serving.{Yields, round, Visits, steps, serving, serving-steps}
use hacpp.Error.{Error, failed, is_code, session_reset}
use hacpp.Json.{Json, IsJson}
use hacpp.Mqtt.{Packet, packet, unexpected}
use hacpp.Button.{Config, Factory, create, on_packet, base, async_run}
use hacpp.Button.Configured.{
  configured, configured_factory, configured-eq, answered, packet-answered,
}

pub async_run-serving :
    (J : Json) (fuel : ℕ) (config : Config J)
    → async_run J fuel config ≡ serving J (base J config) (on_packet J config) fuel
unfolding async_run serving
async_run-serving J zero config = refl
async_run-serving J (suc fuel) config =
    ap (round J (base J config) (on_packet J config) fuel) (async_run-serving J fuel config)

-- With JSON as documented: let the client of a button that the factory made, with any text and device settings that
-- are not nested and with a handler, yield packets and then an error that is no session reset. Then
-- given fuel for more rounds than packets `async_run` returns that error, and has started the handler
-- once for each packet that is a publish of the press payload on the command topic, in order, and for
-- no other packet. Both are what was set last, or `PRESS` and `homeassistant/button/<id>/set`.
pub button_runs :
    (J : Json) (env : Env Result Spawned) (unique_id : String) (ss : List Setting)
    (handler : Handler) (ps : List Packet) (e : Error) (fuel : ℕ) (n : env.Net) (s : Spawned)
    → IsJson J
    → AreFlat ss
    → Yields env n (map packet ps ++ unexpected e ∷ [])
    → failed e ≡ true
    → is_code e session_reset ≡ false
    → length ps < fuel
    → (f : Factory J) × (configured J unique_id ss handler ≡ returned f)
      × let (o, n', t) = run env (async_run J fuel (create J f) s) n in
        (o ≡ returned e) × (t ≡ steps (answered unique_id ss handler) ps s)
button_runs J env unique_id ss handler ps e fuel n s laws flat yields bad no_reset enough =
    let c = create J (configured_factory J laws unique_id ss handler) in
    (
      configured_factory J laws unique_id ss handler,
      configured-eq J laws unique_id ss handler flat,
      rw (async_run-serving J fuel c) (
          serving-steps J (base J c) (on_packet J c) env (answered unique_id ss handler) ps e fuel n
            s yields (all-visited ps) bad no_reset enough),
    )
  where
    all-visited :
        (ps : List Packet)
        → let c = create J (configured_factory J laws unique_id ss handler) in
          All (Visits J (base J c) (on_packet J c) env (answered unique_id ss handler)) ps
    all-visited [] = tt
    all-visited (p ∷ ps) = (packet-answered J laws unique_id ss handler p, all-visited ps)
