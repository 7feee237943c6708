-- ===== src/Tests/Running.antt =====
-- lib/include/hacpp/button.h and cover.h: runs at concrete inputs.
use hacpp.Base.{map, ◌++◌, inr, ◌≡◌, refl, List, [], ◌∷◌, returned, threw, wrong_kind, inl, arith}
use hacpp.Api.{Operation, publishing, subscribing, receiving, closing, Result}
use hacpp.Config.{property}
use hacpp.Config.Settings.{Setting, sets_text}
use hacpp.Coroutine.Run.{Env, run}
use hacpp.Entity.{topic_of, Spawned}
use hacpp.Error.{no_error, make_error_code, disconnected, is_code}
use hacpp.Error.Tests.{linux}
use hacpp.Mqtt.{Packet, RecvResult, packet, publish, unexpected}
use hacpp.Button
use hacpp.Button.Configured as Pressing
use hacpp.Cover
use hacpp.Cover.Configured as Moving
use hacpp.Button.Running.{button_runs}
use hacpp.Cover.Running.{cover_runs, cover_throws}
use hacpp.Tests.{sample, sample-IsJson, to}

-- The client yields these results, and then that it is disconnected.
abbrev stream_reply : (op : Operation) → List RecvResult → Result op × List RecvResult
stream_reply receiving [] = (unexpected (make_error_code disconnected), [])
stream_reply receiving (r ∷ rs) = (r, rs)
stream_reply closing rs = (no_error linux, rs)
stream_reply (subscribing topics) rs = (no_error linux, rs)
stream_reply (publishing topic payload qos retain) rs = (no_error linux, rs)

abbrev stream : Env Result Spawned
stream = record {
  Net = List RecvResult;
  answer = λ op rs s. let (p, rest) = stream_reply op rs in (p, rest, s);
}

abbrev disconnection : RecvResult
disconnection = unexpected (make_error_code disconnected)

-- The user sets the payload twice.
abbrev shift : List Setting
shift =
    sets_text (property "payload_press") "GO" ∷ sets_text (property "payload_press") "SHIFT" ∷ []

abbrev clicks : List Packet
clicks =
    publish (to (topic_of "button" "b" "set") "SHIFT")
    ∷ publish (to "elsewhere" "SHIFT")
    ∷ publish (to (topic_of "button" "b" "set") "SHIFT")
    ∷ []

button_runs_example :
    (f : hacpp.Button.Factory sample) × (Pressing.configured sample "b" shift 7 ≡ returned f)
    × let (o, n', t) =
        run stream
          (hacpp.Button.async_run sample 4 (hacpp.Button.create sample f) [])
          (map packet clicks ++ disconnection ∷ []) in
      (o ≡ returned (make_error_code disconnected)) × (t ≡ 7 ∷ 7 ∷ [])
unfolding make_error_code is_code
button_runs_example =
    button_runs sample stream "b" shift 7 clicks (make_error_code disconnected) 4
      (map packet clicks ++ disconnection ∷ []) [] sample-IsJson (refl, (refl, tt))
      (λ s. (refl, refl, λ s. (refl, refl, λ s. (refl, refl, λ s. (refl, refl, tt))))) refl refl
      (omega arith)

-- The user sets another topic, and a payload to stop.
abbrev settings : List Setting
settings =
    sets_text (property "command_topic") "shade" ∷ sets_text (property "payload_stop") "HALT" ∷ []

abbrev moves : List Packet
moves =
    publish (to "shade" "OPEN") ∷ publish (to "elsewhere" "STOP") ∷ publish (to "shade" "HALT") ∷ []

cover_runs_example :
    (f : hacpp.Cover.Factory sample) × (Moving.configured sample "c" settings 1 2 3 ≡ returned f)
    × let (o, n', t) =
        run stream
          (hacpp.Cover.async_run sample 4 (hacpp.Cover.create sample f) [])
          (map packet moves ++ disconnection ∷ []) in
      (o ≡ returned (make_error_code disconnected)) × (t ≡ 3 ∷ 1 ∷ [])
unfolding make_error_code is_code
cover_runs_example =
    cover_runs sample stream "c" settings 1 2 3 moves (make_error_code disconnected) 4
      (map packet moves ++ disconnection ∷ []) [] sample-IsJson (refl, (refl, tt))
      (inr (inl refl), (inl refl, (inr (inr (inr refl)), tt)))
      (λ s. (refl, refl, λ s. (refl, refl, λ s. (refl, refl, λ s. (refl, refl, tt))))) refl refl
      (omega arith)

-- No payload to stop is set.
abbrev upward : List Setting
upward = sets_text (property "payload_open") "UP" ∷ []

cover_throws_example :
    (f : hacpp.Cover.Factory sample) × (Moving.configured sample "c" upward 1 2 3 ≡ returned f)
    × let (o, n', t) =
        run stream (hacpp.Cover.async_run sample 4 (hacpp.Cover.create sample f) []) (
          packet (publish (to (topic_of "cover" "c" "set") "UP"))
          ∷ packet (publish (to (topic_of "cover" "c" "set") "STOP"))
          ∷ []) in
      (o ≡ threw wrong_kind) × (t ≡ 1 ∷ [])
cover_throws_example =
    cover_throws sample stream "c" upward 1 2 3
      (publish (to (topic_of "cover" "c" "set") "UP") ∷ []) (to (topic_of "cover" "c" "set") "STOP")
      4
      (packet (publish (to (topic_of "cover" "c" "set") "UP"))
        ∷ packet (publish (to (topic_of "cover" "c" "set") "STOP"))
        ∷ [])
      [] sample-IsJson (refl, tt) (inr (inl refl), tt) (refl, refl, refl, refl)
      (λ s. (refl, refl, λ s. (refl, refl, tt))) (omega arith)
