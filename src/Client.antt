-- ===== src/Client.antt =====
-- lib/include/hacpp/async_mqtt_client.h: the operations of `AsyncMqttClient`.
mod Shapes
pub mod Attempt
pub mod Wakeups
pub mod Sending
pub mod Reconnect
pub mod Recovery
pub mod Closing
pub mod Interleaving
pub mod Serving
mod Tests
pub use Shapes.*
unfoldable pub use hacpp.Coroutine.{bind}
pub use hacpp.Coroutine.{
  done, wait, ◌>>=◌, ◌>>◌, co_return, throw, out_of_fuel, co_await, gets, modify,
}
use hacpp.Base.{
  ℕ, zero, suc, ◌+◌, ◌*◌, min, String, Bool, not, true, false, Option, none, some, List, ltb,
  await_failed, if◌then◌else◌,
}
use hacpp.Error.{
  Error, Platform, failed, make_error_code, map_err, success, not_connected, disconnected,
  internal_error, invalid_packet, session_reset, no_error,
}
use hacpp.Mqtt.{QoS, above_at_most_once, TopicSubopts, Packet, RecvResult, packet, unexpected}

pub record Config : Type 0 where
  pub host : String
  pub port : String
  pub username : String
  pub password : String
  pub unique_id : String
  pub keep_alive : ℕ
  pub clean_start : Bool

abbrev pub default_config : Config
default_config = record {
  host = "localhost";
  port = "1883";
  username = "";
  password = "";
  unique_id = "";
  keep_alive = 0;
  clean_start = true;
}

-- `DefaultMaxAutoreconnectAttempts`.
abbrev pub default_max_autoreconnect_attempts : ℕ
default_max_autoreconnect_attempts = 10

abbrev pub initial : Connection
initial = record {
  state = closed;
  attempt = 0;
  max_attempts = default_max_autoreconnect_attempts;
  autorec_wait_timer = record { expires_at_max = false; cancels = 0 };
}

abbrev pub is_connected : State → Bool
is_connected connected = true
is_connected _ = false

abbrev pub is_reconnecting : State → Bool
is_reconnecting reconnecting = true
is_reconnecting _ = false

abbrev pub is_closed : State → Bool
is_closed closed = true
is_closed _ = false

-- `autorec_wait_timer.cancel()`.
abbrev pub cancel : Connection → Connection
cancel c = record c {
  autorec_wait_timer = record (c.autorec_wait_timer) { cancels = suc c.autorec_wait_timer.cancels };
}

-- `autorec_wait_timer.expires_at(max)`, which cancels the pending waits too.
abbrev pub expires_at_max : Connection → Connection
expires_at_max c = record c {
  autorec_wait_timer = record { expires_at_max = true; cancels = suc c.autorec_wait_timer.cancels };
}

module _ (P : Platform) where
  unfoldable pub async_connect : Config → M Error
  async_connect config = do
    err ← co_await (underlying_handshake config.host config.port)
    if failed err then co_return (map_err P err) else do
      err ← co_await (
          start config.clean_start config.keep_alive config.unique_id config.username
            config.password)
      if failed err then co_return (map_err P err) else do
        modify (λ c. record c { state = connected; attempt = 0 })
        co_return (make_error_code success)

  unfoldable pub async_disconnect : M Error
  async_disconnect = do
    err ← co_await disconnect
    modify (λ c. cancel (record c { state = closed }))
    co_return (map_err P err)

  unfoldable pub async_close : M Error
  async_close = do
    err ← co_await close
    modify (λ c. cancel (record c { state = closed }))
    co_return (map_err P err)

-- How the wait ended is only logged.
unfoldable pub async_wait_autoreconnect : M (Unit {0})
async_wait_autoreconnect = do co_await wait_autoreconnect; co_return tt

-- The await has no `redirect_error`: a failure is thrown.
unfoldable pub async_acquire_unique_packet_id : M ℕ
async_acquire_unique_packet_id = do
  pid_opt ← co_await acquire_unique_packet_id
  elim pid_opt [ none ↦ throw await_failed | some pid ↦ co_return pid ]

-- The wait with which a publish and a subscribe begin.
unfoldable pub wait_while_reconnecting : M (Unit {0})
unfolding async_wait_autoreconnect
wait_while_reconnecting = do
  state ← gets (λ c. c.state)
  if is_reconnecting state then async_wait_autoreconnect else co_return tt

-- The doubling of the delay between two attempts, in seconds.
abbrev pub next_delay : ℕ → ℕ
next_delay delay = min (delay * 2) 30

-- A receive without an error may still hold no packet.
abbrev pub received : Option Packet → RecvResult
received none = unexpected (make_error_code invalid_packet)
received (some p) = packet p

module _ (P : Platform) where
  unfoldable pub async_publish : String → String → QoS → Bool → M Error
  unfolding wait_while_reconnecting async_acquire_unique_packet_id
  async_publish topic payload qos retain = do
    wait_while_reconnecting
    state ← gets (λ c. c.state)
    if not (is_connected state) then co_return (make_error_code not_connected) else do
      pid ← if above_at_most_once qos then async_acquire_unique_packet_id else co_return 0
      err ← co_await (
          publish (record {
            packet_id = pid;
            topic = topic;
            payload = payload;
            qos = qos;
            retain = retain;
          }))
      co_return (if failed err then map_err P err else make_error_code success)

  unfoldable pub async_subscribe : List TopicSubopts → M Error
  unfolding wait_while_reconnecting async_acquire_unique_packet_id
  async_subscribe sub_entry = do
    wait_while_reconnecting
    state ← gets (λ c. c.state)
    if not (is_connected state) then co_return (make_error_code not_connected) else do
      pid_sub ← async_acquire_unique_packet_id
      err ← co_await (subscribe pid_sub sub_entry)
      co_return (if failed err then map_err P err else make_error_code success)

  -- The body of the `while` of `async_handle_reconnect`; `again` is the next test of its condition.
  unfoldable pub reconnect_attempt : Config → ℕ → (Error → M Error) → M Error
  reconnect_attempt config delay again = do
    co_await (sleep delay)
    err ← async_connect P config
    if failed err then again err else do
      modify (λ c. cancel (record c { state = connected }))
      co_return (make_error_code session_reset)

  -- The `while`, and what follows it. The fuel bounds its rounds.
  unfoldable pub reconnect_loop : ℕ → Config → ℕ → Error → M Error
  unfolding reconnect_attempt
  reconnect_loop zero config delay err = out_of_fuel
  reconnect_loop (suc fuel) config delay err = do
    attempt ← gets (λ c. c.attempt)
    max_attempts ← gets (λ c. c.max_attempts)
    modify (λ c. record c { attempt = attempt + 1 })
    let again = reconnect_loop fuel config (next_delay delay)
    if ltb attempt max_attempts
        then reconnect_attempt config delay again
        else do modify (λ c. cancel (record c { state = closed })); co_return err

  unfoldable pub async_handle_reconnect : ℕ → Config → M Error
  unfolding reconnect_loop
  async_handle_reconnect fuel config = do
    state ← gets (λ c. c.state)
    if is_closed state
        then co_return (make_error_code disconnected)
        else if is_reconnecting state
        then co_return (make_error_code internal_error)
        else do
          modify (λ c. expires_at_max (record c { state = reconnecting }))
          reconnect_loop fuel config 1 (no_error P)

  unfoldable pub async_recv : ℕ → Config → M RecvResult
  unfolding async_handle_reconnect
  async_recv fuel config = do
    (err, packet_opt) ← co_await recv
    if failed err
        then (do err_rc ← async_handle_reconnect fuel config; co_return (unexpected err_rc))
        else co_return (received packet_opt)
