-- ===== src/Sensor/Running.antt =====
-- lib/include/hacpp/sensor.h: a whole run of a sensor.
use hacpp.Base.{
  ℕ, zero, suc, ◌<◌, ◌≡◌, refl, ap, true, false, List, [], ◌∷◌, ◌++◌, length, map, returned,
}
use hacpp.Api.{Result}
use hacpp.Coroutine.Run.{Env, run}
use hacpp.Entity.{Spawned, bind}
use hacpp.Entity.Serving.{Yields, ignore, round, serving, serving-ignores}
use hacpp.Error.{Platform, Error, failed, is_code, session_reset}
use hacpp.Json.{Json}
use hacpp.Mqtt.{Packet, packet, unexpected}
use hacpp.Sensor.{Config, base, async_run}

pub async_run-serving :
    (P : Platform) (J : Json) (fuel : ℕ) (config : Config J)
    → async_run P J fuel config ≡ serving J (base P J config) ignore fuel
unfolding async_run serving bind
async_run-serving P J zero config = refl
async_run-serving P J (suc fuel) config =
    ap (round J (base P J config) ignore fuel) (async_run-serving P J fuel config)

-- If the client of a sensor, of any configuration, yields packets and then an error that is no
-- session reset, then given fuel for more rounds than packets `async_run` returns that error, and
-- has started no handler.
pub sensor_runs :
    (P : Platform) (J : Json) (env : Env Result Spawned) (config : Config J) (ps : List Packet)
    (e : Error) (fuel : ℕ) (n : env.Net) (s : Spawned)
    → Yields env n (map packet ps ++ unexpected e ∷ [])
    → failed e ≡ true
    → is_code e session_reset ≡ false
    → length ps < fuel
    → let (o, n', t) = run env (async_run P J fuel config s) n in (o ≡ returned e) × (t ≡ s)
sensor_runs P J env config ps e fuel n s yields bad no_reset enough =
    rw (async_run-serving P J fuel config)
      (serving-ignores J (base P J config) env ps e fuel n s yields bad no_reset enough)
