-- ===== src/Client/Serving.antt =====
-- lib/include/hacpp/async_mqtt_client.h: `AsyncMqttClient` as the client of an entity and of a shared
-- connection, which call four of its operations.
use hacpp.Base.{ℕ}
use hacpp.Api.{Operation, publishing, subscribing, receiving, closing, Result}
use hacpp.Coroutine.Logic.{Steps, Steps-mono}
use hacpp.Error.{Platform}
use hacpp.Client.{Connection, Config, M, async_publish, async_subscribe, async_recv, async_close}
use hacpp.Client.Wakeups.{
  Keeps, Wakes, async_publish-Wakes, async_subscribe-Wakes, async_recv-Wakes, async_close-Wakes,
}

module _ (P : Platform) (fuel : ℕ) (config : Config) where
  unfoldable pub serve : (op : Operation) → M (Result op)
  serve (publishing topic payload qos retain) = async_publish P topic payload qos retain
  serve (subscribing topics) = async_subscribe P topics
  serve receiving = async_recv P fuel config
  serve closing = async_close P

  pub serve-Wakes : (op : Operation) (c : Connection) → Steps Wakes c (serve op c)
  unfolding serve
  serve-Wakes (publishing topic payload qos retain) c =
      async_publish-Wakes P topic payload qos retain c
  serve-Wakes (subscribing topics) c = async_subscribe-Wakes P topics c
  serve-Wakes receiving c = async_recv-Wakes P fuel config c
  serve-Wakes closing c = async_close-Wakes P c

  pub serve-Keeps : (op : Operation) (c : Connection) → Steps Keeps c (serve op c)
  serve-Keeps op c = Steps-mono Wakes Keeps (λ d e w. w.keeps) c (serve op c) (serve-Wakes op c)
