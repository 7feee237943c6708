-- ===== src/Program/Tests.antt =====
-- A whole program at concrete inputs: a button over a logical client, the pump, and the network.
mod Runs
mod Sensors
use hacpp.Base.{
  ℕ, ◌<◌, ◌≡◌, refl, Bool, true, false, none, some, List, [], ◌∷◌, ltb, arith, if◌then◌else◌,
  returned,
}
use hacpp.Coroutine.{Coroutine, done, wait, bind}
use hacpp.Coroutine.Logic.{at, Steps}
use hacpp.Coroutine.Run.{Env, run}
use hacpp.Coroutine.System.{System, Step, spawn, resume, Reach, start, next}
use hacpp.Coroutine.Compose.{Layered, on_inner, over, relabel}
use hacpp.Error.{no_error, make_error_code, disconnected, Error, is_code}
use hacpp.Error.Tests.{linux, refused}
use hacpp.Api.{Operation, Result, publishing, subscribing, receiving, closing}
use hacpp.Mqtt.{RecvResult, unexpected, publish}
use hacpp.Client
use hacpp.Client.Serving.{serve as serve_client}
use hacpp.Client.{default_config, default_max_autoreconnect_attempts}
use hacpp.Client.Wakeups.{IsArmed}
use hacpp.Shared
use hacpp.Shared.{SharedConnection, SharedClientState}
use hacpp.Shared.Interleaving
use hacpp.Shared.Interleaving.{connects, makes, pumps}
use hacpp.Shared.Invariant.{Inv}
use hacpp.Entity
use hacpp.Entity.{Spawned, topic_of, async_setup}
use hacpp.Button
use hacpp.Button.Laws.{made}
use hacpp.Tests.{sample, sample-IsJson, to}
use hacpp.Program.{
  Request, network, queue_timer, Reply, State, initial, Call, connection, entity, serve, task_of,
  task,
}
use hacpp.Program.Own.{shared_pump, own_connection}
use hacpp.Program.Alone.{entity_alone}
use hacpp.Program.Refinement.{seen, Keeps, spec_of, begun, program_refines}
use hacpp.Coroutine.Refinement.{Refined}
use hacpp.Shared.Broker.View.{view}
use hacpp.Program.Rounds.{pump_round-gives}
use hacpp.Client.Recovery.{Receives}
use hacpp.Shared.Delivery.{give}
use hacpp.Shared.Heap.{is_in}
use hacpp.Program.Served.{Event, arrives, resets, results}
use hacpp.Program.Buttons.{button_served}
use hacpp.Program.Steady.{AnyOne, program_keeps, program_queue_filled-wakes}
use hacpp.Shared.Locality.{IsLocal}
use hacpp.Program.Isolation.{entity-IsLocal}

abbrev pub button : hacpp.Button.Config sample
button = hacpp.Button.create sample (hacpp.Button.on_press sample 7 (made sample sample-IsJson "b"))

-- The run of a button, whose error the user ignores.
abbrev pub running : Entity.M (Unit {0})
unfolding Entity.bind
running s = Entity.bind (hacpp.Button.async_run sample 3 button s) (λ e. Entity.co_return tt)

abbrev pub call : Call → State → Coroutine Reply State (Unit {0})
call = task linux 11 default_config

-- The network refuses everything, or accepts all but a receive.
abbrev pub client_reply : Bool → (r : Client.Request) → Client.Reply r
client_reply up Client.recv = (refused, none)
client_reply up Client.acquire_unique_packet_id = some 1
client_reply up (Client.sleep seconds) = tt
client_reply true r = no_error linux
client_reply false r = refused

abbrev pub reply : Bool → (r : Request) → Reply r
reply up (network r) = client_reply up r
reply up (queue_timer id) = refused

abbrev resumed : Bool → Coroutine Reply State (Unit {0}) → State → Coroutine Reply State (Unit {0})
resumed up (done o s) t = done o s
resumed up (wait s r k) t = k (reply up r) t

entity-IsLocal_example :
    Steps (λ a b. IsLocal 0 a.outer.inner b.outer.inner) initial (call (entity 0 running) initial)
entity-IsLocal_example = entity-IsLocal linux 11 default_config 0 running initial

-- The client connects, and the pump's receive is then refused.
abbrev connecting : Coroutine Reply State (Unit {0})
connecting = call (connection connects) initial

abbrev shaken : Coroutine Reply State (Unit {0})
shaken = resumed true connecting initial

abbrev opened : Coroutine Reply State (Unit {0})
opened = resumed true shaken initial

abbrev pumping : Coroutine Reply State (Unit {0})
pumping = call (connection pumps) (at opened)

abbrev refused_receive : Coroutine Reply State (Unit {0})
refused_receive = resumed false pumping (at pumping)

abbrev reconnecting_system : System Reply State
reconnecting_system = record { shared = at refused_receive; tasks = refused_receive ∷ opened ∷ [] }

connecting-Reach :
    Reach call initial AnyOne (record { shared = at connecting; tasks = connecting ∷ [] })
connecting-Reach = next start (spawn (connection connects) tt refl refl)

shaken-Reach : Reach call initial AnyOne (record { shared = at shaken; tasks = shaken ∷ [] })
unfolding task task_of serve over on_inner relabel bind Interleaving.task Shared.async_connect
    Client.async_connect no_error
shaken-Reach = next connecting-Reach (
    resume [] [] _ (network (Client.underlying_handshake "localhost" "1883")) _ (no_error linux)
      refl refl refl)

opened-Reach : Reach call initial AnyOne (record { shared = at opened; tasks = opened ∷ [] })
unfolding task task_of serve over on_inner relabel bind Interleaving.task Shared.async_connect
    Client.async_connect no_error
opened-Reach =
    next shaken-Reach
      (resume [] [] _ (network (Client.start true 0 "" "" "")) _ (no_error linux) refl refl refl)

pumping-Reach :
    Reach call initial AnyOne (record { shared = at pumping; tasks = pumping ∷ opened ∷ [] })
pumping-Reach = next opened-Reach (spawn (connection pumps) tt refl refl)

reconnecting-Reach : Reach call initial AnyOne reconnecting_system
unfolding task task_of serve over on_inner relabel bind Interleaving.task Shared.async_connect
    Client.async_connect no_error Shared.async_pump_one Shared.async_pump_one_impl serve_client
    Client.async_recv
reconnecting-Reach =
    next pumping-Reach
      (resume [] (opened ∷ []) _ (network Client.recv) _ (refused, none) refl refl refl)

program_keeps_example :
    IsArmed reconnecting_system.shared.inner
    × (reconnecting_system.shared.inner.max_attempts ≡ default_max_autoreconnect_attempts)
    × Inv reconnecting_system.shared.outer.inner
program_keeps_example = program_keeps linux 11 default_config reconnecting-Reach

-- The client is closed: the pump's receive fails, and wakes the button.
abbrev with_client : Coroutine Reply State (Unit {0})
with_client = call (connection makes) initial

abbrev with_button : Coroutine Reply State (Unit {0})
with_button = call (entity 0 running) (at with_client)

abbrev with_pump : Coroutine Reply State (Unit {0})
with_pump = call (connection pumps) (at with_button)

abbrev failed_receive : Coroutine Reply State (Unit {0})
failed_receive = resumed false with_pump (at with_pump)

abbrev before : System Reply State
before = record { shared = at with_pump; tasks = with_pump ∷ with_button ∷ with_client ∷ [] }

abbrev after : System Reply State
after = record {
  shared = at failed_receive;
  tasks = failed_receive ∷ with_button ∷ with_client ∷ [];
}

before-Reach : Reach call initial AnyOne before
before-Reach =
    next
      (next (next start (spawn (connection makes) tt refl refl))
        (spawn (entity 0 running) tt refl refl))
      (spawn (connection pumps) tt refl refl)

after-Step : Step call initial AnyOne before after
unfolding task task_of serve over on_inner relabel bind Interleaving.task Shared.async_pump_one
    Shared.async_pump_one_impl serve_client Client.async_recv
after-Step =
    resume [] (with_button ∷ with_client ∷ []) _ (network Client.recv) _ (refused, none) refl refl
      refl

abbrev pub idle : SharedClientState
idle = record { queue = record { queue = []; cancels = 0 }; topics = [] }

abbrev notified : SharedClientState
notified = record {
  queue = record { queue = unexpected (make_error_code disconnected) ∷ []; cancels = 1 };
  topics = [];
}

program_queue_filled-wakes_example : idle.queue.cancels < notified.queue.cancels
unfolding task task_of serve over on_inner relabel bind Interleaving.task make_error_code
    Shared.async_pump_one Shared.async_pump_one_impl Shared.make_client
    Shared.remove_expired_clients Shared.register_client Shared.pump_result Shared.pump_error
    Shared.forward_error Shared.push_back Shared.async_recv Shared.pop_front Shared.serve
    serve_client Client.async_recv Client.async_handle_reconnect hacpp.Button.async_run
    Entity.async_recv
program_queue_filled-wakes_example =
    program_queue_filled-wakes linux 11 default_config 0 idle notified before-Reach after-Step refl
      refl refl (λ e. cc)

-- A client is made, and a button waits for a result of it.
abbrev above :
    Call
    → Layered SharedConnection Spawned
    → Coroutine Shared.Reply (Layered SharedConnection Spawned) (Unit {0})
above = task_of linux 11 default_config

abbrev served_system : System Shared.Reply (Layered SharedConnection Spawned)
served_system =
    let made = above (connection makes) begun in
    let waiting = above (entity 0 running) (at made) in
    record { shared = at waiting; tasks = waiting ∷ made ∷ [] }

program_refines_example :
    Refined (seen view Inv) (Keeps view Inv) (spec_of linux) begun AnyOne served_system
program_refines_example = program_refines linux 11 default_config (
    next (next start (spawn (connection makes) tt refl refl))
      (spawn (entity 0 running) tt refl refl))
