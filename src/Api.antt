-- ===== src/Api.antt =====
-- The four operations that `Entity` and `SharedAsyncMqttConnection` call on a client: the template
-- parameter `Client` of lib/include/hacpp/entity.h, which `AsyncMqttClient` and
-- `SharedAsyncMqttClient` fill.
use hacpp.Base.{String, Bool, List}
use hacpp.Error.{Error}
use hacpp.Mqtt.{QoS, TopicSubopts, RecvResult}

pub data Operation : Type 0 where
  publishing : String → String → QoS → Bool → Operation
  subscribing : List TopicSubopts → Operation
  receiving closing : Operation

abbrev pub Result : Operation → Type 0
Result receiving = RecvResult
Result _ = Error
