-- ===== src/Program.antt =====
-- A whole program: entities (lib/include/hacpp/entity.h) over the logical clients of one shared
-- connection (shared_mqtt_client.h), which is over one `AsyncMqttClient` (async_mqtt_client.h). The
-- members `client_`, `shared_connection_` and `state_` are called where the code calls them.
pub mod Steady
pub mod Isolation
pub mod Own
pub mod Calls
pub mod Alone
pub mod Series
pub mod Pending
pub mod Served
pub mod Setup
pub mod Mailbox
pub mod Missed
pub mod Life
pub mod Listening
pub mod Reporting
pub mod Sensors
pub mod BinarySensors
pub mod Buttons
pub mod Covers
pub mod Refinement
pub mod Rounds
pub mod Wire
pub mod Setups
mod Tests
use hacpp.Base.{ℕ, [], returned}
use hacpp.Coroutine.{Coroutine, done, wait}
use hacpp.Coroutine.Compose.{Layered, on_inner, over, relabel}
use hacpp.Error.{Error, Platform}
use hacpp.Client.{Connection, initial as initial_connection, async_connect}
use hacpp.Client
use hacpp.Client.Serving.{serve as serve_client}
use hacpp.Shared.{SharedConnection, client, connect_client, initial as initial_shared}
use hacpp.Shared
use hacpp.Shared.Interleaving.{task as shared_task}
use hacpp.Shared.Interleaving
use hacpp.Entity.{Spawned}
use hacpp.Entity

-- What the program awaits: the underlying client and its timers, and the timers of the queues.
pub data Request : Type 0 where
  network : Client.Request → Request
  queue_timer : ℕ → Request

abbrev pub Reply : Request → Type 0
Reply (network r) = Client.Reply r
Reply (queue_timer id) = Error

-- The client's connection, the shared connection, and the handlers started.
abbrev pub State : Type 0
State = Layered Connection (Layered SharedConnection Spawned)

abbrev pub initial : State
initial = record {
  inner = initial_connection;
  outer = record { inner = initial_shared; outer = [] };
}

-- The calls of a shared connection, and any coroutine that calls a logical client, by the number of
-- its state: the setup and the run of an entity, its updates, and what a user writes over them.
pub data Call : Type 0 where
  connection : Interleaving.Call → Call
  entity : ℕ → Entity.M (Unit {0}) → Call

module _ (P : Platform) (fuel : ℕ) (config : Client.Config) where
  -- The calls that a shared connection makes of `client_`; a queue's timer is its own.
  unfoldable pub serve :
      (r : Shared.Request) → Connection → Coroutine Reply Connection (Shared.Reply r)
  unfolding relabel serve_client
  serve (client op) c = relabel Reply network (serve_client P fuel config op c)
  serve connect_client c = relabel Reply network (async_connect P config c)
  serve (Shared.queue_timer id) c = wait c (queue_timer id) (λ ec d. done (returned ec) d)

  unfoldable pub task_of :
      Call
      → Layered SharedConnection Spawned
      → Coroutine Shared.Reply (Layered SharedConnection Spawned) (Unit {0})
  unfolding on_inner over
  task_of (connection call) s = on_inner (shared_task P call s.inner) s.outer
  task_of (entity id m) s = over (Shared.serve P id) (m s.outer) s.inner

  unfoldable pub task : Call → State → Coroutine Reply State (Unit {0})
  unfolding serve task_of over
  task call s = over serve (task_of call s.outer) s.inner
