-- ===== src/Client/Attempt.antt =====
-- lib/include/hacpp/async_mqtt_client.h: one attempt to reconnect, taken apart at its awaits. The
-- rules prove a property of what follows a reply by the two cases of that reply.
use hacpp.Base.{◌≡◌, refl, ◌∙◌, ℕ, true, false, inl, inr, Bool-cases, returned, if◌then◌else◌}
use hacpp.Error.{Platform, Error, failed, map_err, make_error_code, success, session_reset}
use hacpp.Error.Mapping.{failed-map_err}
use hacpp.Client.{
  Connection, Config, M, Co, Request, done, wait, bind, connected, sleep, start,
  underlying_handshake, co_await, co_return, modify, cancel, ◌>>=◌, ◌>>◌, async_connect,
  reconnect_attempt,
}

abbrev pub start_request : Config → Request
start_request config =
    start config.clean_start config.keep_alive config.unique_id config.username config.password

-- The connection of a client that has just connected again.
abbrev pub restored : Connection → Connection
restored c = cancel (record c { state = connected; attempt = 0 })

module _ (P : Platform) (config : Config) (again : Error → M Error) where
  -- What an attempt does with the result of `async_connect`.
  finish : Error → M Error
  finish err = if failed err then again err else do
    modify (λ c. cancel (record c { state = connected }))
    co_return (make_error_code session_reset)

  pub after_start : Error → M Error
  unfolding bind
  after_start err =
      (if failed err then co_return (map_err P err) else do
        modify (λ c. record c { state = connected; attempt = 0 })
        co_return (make_error_code success))
      >>= finish

  pub after_handshake : Error → M Error
  unfolding bind
  after_handshake err =
      (if failed err then co_return (map_err P err) else do
        err ← co_await (start_request config)
        if failed err then co_return (map_err P err) else do
          modify (λ c. record c { state = connected; attempt = 0 })
          co_return (make_error_code success))
      >>= finish

  pub reconnect_attempt-eq :
      (delay : ℕ) (c : Connection)
      → reconnect_attempt P config delay again c
        ≡ wait c
            (sleep delay)
            (λ _ d. wait d (underlying_handshake config.host config.port) after_handshake)
  unfolding reconnect_attempt async_connect bind after_handshake finish
  reconnect_attempt-eq delay c = refl

  module _ (Q : Co Error → Type 0) (err : Error) (c : Connection)
      (retry : failed err ≡ true → Q (again (map_err P err) c)) where
    pub after_start-rule :
        (failed err ≡ false → Q (done (returned (make_error_code session_reset)) (restored c)))
        → Q (after_start err c)
    unfolding after_start finish bind make_error_code
    after_start-rule ends = elim (Bool-cases (failed err)) [
      | inl bad ↦ rw bad (rw (failed-map_err P err ∙ bad) (retry bad))
      | inr fine ↦ rw fine (ends fine)
    ]

    pub after_handshake-rule :
        (failed err ≡ false → Q (wait c (start_request config) after_start))
        → Q (after_handshake err c)
    unfolding after_handshake after_start finish bind
    after_handshake-rule goes = elim (Bool-cases (failed err)) [
      | inl bad ↦ rw bad (rw (failed-map_err P err ∙ bad) (retry bad))
      | inr fine ↦ rw fine (goes fine)
    ]
