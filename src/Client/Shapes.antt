-- ===== src/Client/Shapes.antt =====
-- lib/include/hacpp/async_mqtt_client.h: the state that the coroutines of a client share, and what
-- they await.
use hacpp.Base.{ℕ, String, Bool, Option, List}
use hacpp.Coroutine.{Coroutine}
use hacpp.Error.{Error}
use hacpp.Mqtt.{TopicSubopts, PublishPacket, Packet}

pub data State : Type 0 where
  closed connected reconnecting : State

-- `cancels` counts the calls of `cancel()`, each of which wakes all who wait on the timer.
pub record Timer : Type 0 where
  pub expires_at_max : Bool
  pub cancels : ℕ

pub record Connection : Type 0 where
  pub state : State
  pub attempt : ℕ
  pub max_attempts : ℕ
  pub autorec_wait_timer : Timer

-- What a coroutine awaits: the calls of `impl_`, and its two timers.
pub data Request : Type 0 where
  underlying_handshake : String → String → Request
  start : Bool → ℕ → String → String → String → Request
  disconnect close recv acquire_unique_packet_id : Request
  publish : PublishPacket → Request
  subscribe : ℕ → List TopicSubopts → Request
  sleep : ℕ → Request
  wait_autoreconnect : Request

-- The acknowledgements of `start`, `publish` and `subscribe` are only logged. No packet id stands
-- for the exception that the await throws then.
abbrev pub Reply : Request → Type 0
Reply recv = Error × Option Packet
Reply acquire_unique_packet_id = Option ℕ
Reply (sleep seconds) = Unit
Reply _ = Error

abbrev pub Co : Type 0 → Type 0
Co A = Coroutine Reply Connection A

abbrev pub M : Type 0 → Type 0
M A = Connection → Co A
