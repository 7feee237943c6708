-- ===== src/Client/Recovery.antt =====
-- lib/include/hacpp/async_mqtt_client.h: how a receive ends, the reconnect included.
use hacpp.Base.{
  if◌then◌else◌, ℕ, zero, suc, ◌+◌, ◌-◌, ◌≤◌, ◌<◌, ◌≡◌, refl, ◌∙◌, ◌⊎◌, inl, inr, true, false,
  Option, Outcome, returned, arith, ltb, Bool-cases,
}
use hacpp.Error.{
  Platform, Error, failed, map_err, make_error_code, session_reset, disconnected, internal_error,
  no_error,
}
use hacpp.Error.Mapping.{failed-map_err}
use hacpp.Mqtt.{RecvResult, unexpected, Packet}
use hacpp.Client.{
  received, ◌>>=◌, State, Connection, Config, M, Reply, wait, bind, closed, connected, reconnecting,
  recv, cancel, expires_at_max, next_delay, reconnect_attempt, reconnect_loop, co_return,
  async_handle_reconnect, async_recv,
}
use hacpp.Client.Attempt.{restored, reconnect_attempt-eq, after_handshake-rule, after_start-rule}
use hacpp.Coroutine.Run.{
  Env, IsQuiet, run, run-done, run-wait, run-wait_reply, run-map, map_outcome,
}

-- The connection of a client that has given up: every attempt allowed has been made.
abbrev pub given_up : Connection → Connection
given_up c = cancel (record c { state = closed; attempt = suc c.max_attempts })

-- A reconnect ends connected, with `SessionReset`, or closed, with an error of the last attempt.
abbrev pub Reconnects : Connection → Outcome Error → Connection → Type 0
Reconnects c o d =
    ((o ≡ returned (make_error_code session_reset)) × (d ≡ restored c))
    ⊎ ((err : Error) × (o ≡ returned err) × (failed err ≡ true) × (d ≡ given_up c))

module _ (P : Platform) (env : Env Reply Connection) (config : Config) (quiet : IsQuiet env) where
  abbrev Ends : Connection → Outcome Error × env.Net × Connection → Type 0
  Ends c (o, n, d) = Reconnects c o d

  reconnect_attempt-Reconnects :
      (delay : ℕ) (again : Error → M Error) (c : Connection) (n : env.Net)
      → ((err : Error) (n : env.Net) → failed err ≡ true → Ends c (run env (again err c) n))
      → Ends c (run env (reconnect_attempt P config delay again c) n)
  reconnect_attempt-Reconnects delay again c n h =
      rw (reconnect_attempt-eq P config again delay c) (
        run-wait env (Ends c) c _ _ n quiet λ _ n₁. run-wait env (Ends c) c _ _ n₁ quiet λ p n₂.
          after_handshake-rule P config again (λ m. Ends c (run env m n₂)) p c
            (λ bad. h (map_err P p) n₂ (failed-map_err P p ∙ bad))
            (λ _. run-wait env (Ends c) c _ _ n₂ quiet λ q n₃.
              after_start-rule P config again (λ m. Ends c (run env m n₃)) q c
                (λ bad. h (map_err P q) n₃ (failed-map_err P q ∙ bad))
                (λ _. rw (run-done env _ (restored c) n₃) (inl (refl, refl)))))

  reconnect_loop-Reconnects :
      (fuel delay : ℕ) (last : Error) (c : Connection) (n : env.Net)
      → c.attempt ≤ c.max_attempts
      → c.max_attempts - c.attempt < fuel
      → (failed last ≡ true) ⊎ (c.attempt < c.max_attempts)
      → Ends c (run env (reconnect_loop P fuel config delay last c) n)
  unfolding reconnect_loop bind run
  reconnect_loop-Reconnects zero delay last c n le enough some_try = absurd (omega arith)
  reconnect_loop-Reconnects (suc fuel) delay last c n le enough some_try =
      elim (Bool-cases (ltb c.attempt c.max_attempts)) [
        | inl more ↦ rw more (
            reconnect_attempt-Reconnects delay _ (record c { attempt = c.attempt + 1 }) n
              (λ err n' bad.
                reconnect_loop-Reconnects fuel (next_delay delay) err
                  (record c { attempt = c.attempt + 1 }) n' (ground arith) (ground arith)
                  (inl bad)))
        | inr over ↦ rw over (inr (last, refl, ground arith, ground arith))
      ]

  async_handle_reconnect-Reconnects :
      (fuel : ℕ) (c : Connection) (n : env.Net)
      → c.state ≡ connected
      → c.attempt < c.max_attempts
      → c.max_attempts < fuel
      → Ends (expires_at_max c) (run env (async_handle_reconnect P fuel config c) n)
  unfolding async_handle_reconnect bind
  async_handle_reconnect-Reconnects fuel c n up room enough = rw up (
      reconnect_loop-Reconnects fuel 1 (no_error P)
        (expires_at_max (record c { state = reconnecting })) n (omega arith) (omega arith)
        (inr room))

-- How a receive ends from the connection `c`, by the reply of the network.
abbrev pub Receives : Connection → Error × Option Packet → Outcome RecvResult → Connection → Type 0
Receives c (err, packet_opt) o d =
    ((failed err ≡ false) × (o ≡ returned (received packet_opt)) × (d ≡ c))
    ⊎ ((failed err ≡ true)
        × (c.state ≡ closed)
        × (o ≡ returned (unexpected (make_error_code disconnected)))
        × (d ≡ c))
    ⊎ ((failed err ≡ true)
        × (c.state ≡ reconnecting)
        × (o ≡ returned (unexpected (make_error_code internal_error)))
        × (d ≡ c))
    ⊎ ((failed err ≡ true)
        × (c.state ≡ connected)
        × (e : Error) × (o ≡ returned (unexpected e))
        × Reconnects (expires_at_max c) (returned e) d)

State-cases : (s : State) → (s ≡ closed) ⊎ (s ≡ reconnecting) ⊎ (s ≡ connected)
State-cases closed = inl refl
State-cases connected = inr (inr refl)
State-cases reconnecting = inr (inl refl)

module _ (P : Platform) (env : Env Reply Connection) (fuel : ℕ) (config : Config) (c : Connection)
    (quiet : IsQuiet env) (room : c.attempt < c.max_attempts) (enough : c.max_attempts < fuel) where
  after_recv : Error × Option Packet → M RecvResult
  unfolding bind
  after_recv p =
      if failed p.0
      then (do err_rc ← async_handle_reconnect P fuel config; co_return (unexpected err_rc))
      else co_return (received p.1)

  abbrev Ended : Error × Option Packet → Outcome Error × env.Net × Connection → Type 0
  Ended p (o, n, d) = Receives c p (map_outcome unexpected o) d

  handle_closed :
      (n : env.Net)
      → c.state ≡ closed
      → run env (async_handle_reconnect P fuel config c) n
        ≡ (returned (make_error_code disconnected), n, c)
  unfolding async_handle_reconnect bind run
  handle_closed n e = rw e

  handle_reconnecting :
      (n : env.Net)
      → c.state ≡ reconnecting
      → run env (async_handle_reconnect P fuel config c) n
        ≡ (returned (make_error_code internal_error), n, c)
  unfolding async_handle_reconnect bind run
  handle_reconnecting n e = rw e

  handled_connected :
      (p : Error × Option Packet) (r : Outcome Error × env.Net × Connection)
      → failed p.0 ≡ true
      → c.state ≡ connected
      → Ends P env config quiet (expires_at_max c) r
      → Ended p r
  handled_connected p r bad up (inl (e, f)) =
      inr (inr (inr (bad, up, make_error_code session_reset, rw e, inl (refl, f))))
  handled_connected p r bad up (inr (err, e, fails, f)) =
      inr (inr (inr (bad, up, err, rw e, inr (err, refl, fails, f))))

  handled :
      (p : Error × Option Packet) (n : env.Net)
      → failed p.0 ≡ true
      → Ended p (run env (async_handle_reconnect P fuel config c) n)
  handled p n bad = elim (State-cases c.state) [
    | inl down ↦ rw (handle_closed n down) (inr (inl (bad, down, refl, refl)))
    | inr (inl busy) ↦ rw (handle_reconnecting n busy) (inr (inr (inl (bad, busy, refl, refl))))
    | inr (inr up) ↦
        handled_connected p (run env (async_handle_reconnect P fuel config c) n) bad up
          (async_handle_reconnect-Reconnects P env config quiet fuel c n up room enough)
  ]

  async_recv-eq : async_recv P fuel config c ≡ wait c recv after_recv
  unfolding async_recv after_recv bind
  async_recv-eq = refl

  after_recv-Receives :
      (p : Error × Option Packet) (n : env.Net)
      → let (o, n', d) = run env (after_recv p c) n in Receives c p o d
  unfolding after_recv
  after_recv-Receives p n = elim (Bool-cases (failed p.0)) [
    | inl bad ↦ rw bad (
        rw (run-map env unexpected (async_handle_reconnect P fuel config c) n)
          (rw bad at (handled p n bad)))
    | inr fine ↦ rw fine (rw (run-done env (returned (received p.1)) c n) (inl (refl, refl, refl)))
  ]

-- With no other coroutine at work, for a client that has an attempt left, and with fuel for one
-- round more than `max_attempts`, a receive ends, and ends thus: without an error, with the packet
-- or with `InvalidPacket` if there is none; with an error, on a closed client with `Disconnected`
-- and on one that is reconnecting with `InternalError`, and the connection is left as it was; on a
-- connected one either with `SessionReset`, connected again and with its attempts reset, or with a
-- failing error, closed after `max_attempts` attempts.
pub async_recv-Receives :
    (P : Platform) (env : Env Reply Connection) (fuel : ℕ) (config : Config) (c : Connection)
    (n : env.Net)
    → IsQuiet env
    → c.attempt < c.max_attempts
    → c.max_attempts < fuel
    → let (o, n', d) = run env (async_recv P fuel config c) n in
      Receives c (env.answer recv n c).0 o d
async_recv-Receives P env fuel config c n quiet room enough =
    let Result = Outcome RecvResult × env.Net × Connection in
    rw (async_recv-eq P env fuel config c quiet room enough) (
      run-wait_reply env (λ (r : Result). Receives c (env.answer recv n c).0 r.0 r.2) c _ _ n quiet
        (after_recv-Receives P env fuel config c quiet room enough _ _))
