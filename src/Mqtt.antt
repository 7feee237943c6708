-- ===== src/Mqtt.antt =====
-- The async_mqtt values that lib/include/hacpp/async_mqtt_client.h names and the library builds
-- or reads: what else a packet holds is not modelled.
use hacpp.Base.{ℕ, String, Bool, true, false}
use hacpp.Error.{Error}

pub data QoS : Type 0 where
  at_most_once at_least_once exactly_once : QoS

-- `qos > QoS::at_most_once`.
abbrev pub above_at_most_once : QoS → Bool
above_at_most_once at_most_once = false
above_at_most_once at_least_once = true
above_at_most_once exactly_once = true

pub record TopicSubopts : Type 0 where
  pub topic : String
  pub qos : QoS

pub record PublishPacket : Type 0 where
  pub packet_id : ℕ
  pub topic : String
  pub payload : String
  pub qos : QoS
  pub retain : Bool

-- `packet_variant`: a publish packet, or one of another kind.
pub data Packet : Type 0 where
  publish : PublishPacket → Packet
  other : ℕ → Packet

-- `std::expected<packet_variant, Error>`.
pub data RecvResult : Type 0 where
  packet : Packet → RecvResult
  unexpected : Error → RecvResult
