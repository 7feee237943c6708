-- ===== src/Lib.antt =====
-- Verification of hacpp, a header-only C++ library of Home Assistant entities over MQTT.
--
-- The program. `AsyncMqttClient` (lib/include/hacpp/async_mqtt_client.h) is one physical MQTT
-- connection that reconnects by itself when a receive fails. `SharedAsyncMqttConnection`
-- (lib/include/hacpp/shared_mqtt_client.h) owns such a client, pumps what it receives, and hands it
-- out to logical clients, `SharedAsyncMqttClient`. An entity (lib/include/hacpp/entity.h, and
-- sensor.h, binary_sensor.h, button.h and cover.h beside it) works over a client of either kind: it
-- publishes its configuration, subscribes to its commands, reports its availability, sets itself up
-- again after a session reset, and starts the user's handlers. A factory (factory.h, and a
-- specialisation for each entity) collects its configuration. Errors are the codes of error.h.
--
-- The files:
--   Base, Base/*        names and lemmas that the others share; how a call ends (Outcome)
--   Coroutine, Coroutine/*   `boost::asio::awaitable`: trees of awaits, reasoning about one segment
--                       at a time, runs against an environment, interleavings of any number of tasks,
--                       coroutines that call those of another object, refinement of a specification
--   Error, Error/*      error.h: ErrorCode, the category, map_err
--   Mqtt, Api           the values of async_mqtt, and the interface between an entity and its client
--   Client, Client/*    async_mqtt_client.h: async_connect, async_disconnect, async_close,
--                       async_publish, async_subscribe, async_recv and async_handle_reconnect are the
--                       definitions of the same names; the `while` of the last is reconnect_loop
--   Shared, Shared/*    shared_mqtt_client.h: the methods by their names; pop_front and push_back are
--                       RecvResultQueue's, pump_result and pump_error the second half of
--                       async_pump_one_impl, serve the methods of SharedAsyncMqttClient
--   Shared/Broker, Shared/Broker/*   what a shared connection promises, as an abstract broker
--   Json, Config, Config/*   EntityCfg of entity.h, over a record that stands for Boost.JSON
--   Entity, Entity/*    the topics of hacpp.h and the class Entity of entity.h
--   Factory             CommonFactory of factory.h
--   Sensor, BinarySensor, Button, Cover, each with its children: the entity of that header, and its
--                       factory; on_packet is the visit of a received packet in async_run
--   Logger              logger.h
--   Program, Program/*  all of it put together: entities over logical clients of one shared connection
--                       over one AsyncMqttClient, where `client_`, `shared_connection_` and `state_`
--                       are called; an entity over a logical client next to one over its own client
--   Tests, and a Tests in some components: runs and instances at concrete inputs
--
-- State and concurrency. The code is single threaded: a coroutine runs until its next await, and the
-- others run meanwhile. A coroutine is therefore a tree with a node for each await, whose
-- continuation takes the reply and the state as it is then: a property of all such trees holds
-- whatever the others do. Where a theorem speaks of a run, an environment answers the awaits.
-- Objects behind `shared_ptr` and `weak_ptr` are numbers on a heap; an expired pointer is a number
-- under which the heap holds nothing.
--
-- Parameters. The numbers and identities of foreign errors are the record Error.Platform, with
-- Error.Mapping.IsPlatform as what their documentation says; Boost.JSON is the record
-- Json.Json, with Json.IsJson; spdlog is Logger.Spdlog, with Logger.IsSpdlog. Replies of
-- async_mqtt and of the timers are arbitrary, or an environment's.
--
-- Fuel. A `while` recurses on fuel, which stands for no behaviour of the code: a reconnect needs one
-- round more than `max_attempts`, the pump more rounds than it receives results, and the receive of
-- an entity more rounds than the session is reset. The schedule of a whole program is no fuel: it
-- says how many rounds the pump makes at each await of the entity, and none after its end but those
-- that fill the queue on which the entity waits.
--
-- Settings. Where a theorem speaks of a factory with any settings, they are calls of its `set` with a
-- text for a property that is not nested or with a device. `set(prop, nullptr)` is a definition, but
-- no such setting.
--
-- Not modelled: what is written to the log; what acknowledgements hold, since they are only
-- logged; what a handler does once it is started; the clock; `executor()`; the moves of C++
-- objects. Exceptions are those of reading a configuration and of acquiring a packet id.
pub mod Base
pub mod Error
pub mod Coroutine
pub mod Mqtt
pub mod Api
pub mod Json
pub mod Config
pub mod Client
pub mod Shared
pub mod Entity
pub mod Factory
pub mod Sensor
pub mod BinarySensor
pub mod Button
pub mod Cover
pub mod Logger
pub mod Program
pub mod Tests
