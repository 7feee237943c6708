-- ===== src/Shared.antt =====
-- lib/include/hacpp/shared_mqtt_client.h: the shared connection and its logical clients.
mod Shapes
pub mod Topics
pub mod Heap
pub mod Invariant
pub mod Wakeups
pub mod Interleaving
pub mod Waking
pub mod Delivery
pub mod Pump
pub mod Clients
pub mod Subscriptions
pub mod Locality
pub mod Detaching
pub mod Broker
mod Tests
pub use Shapes.*
pub use hacpp.Coroutine.{done, wait, ◌>>=◌, ◌>>◌, co_return, out_of_fuel, co_await, gets, modify}
use mathlib.Core.List.{tail}
use hacpp.Base.{
  ℕ, zero, suc, String, Bool, true, false, not, Option, none, some, is_some, List, [], ◌∷◌, ◌++◌,
  any_of, ◌||◌, erase_if, ◌==◌, str_eq, if◌then◌else◌,
}
use hacpp.Coroutine.{bind}
use hacpp.Error.{
  Error, Platform, failed, is_code, make_error_code, map_err, no_error, success, session_reset,
  internal_error,
}
use hacpp.Mqtt.{QoS, TopicSubopts, PublishPacket, publish, other, RecvResult, packet, unexpected}
use hacpp.Api.{Operation, publishing, subscribing, receiving, closing, Result}

-- `RecvResultQueue::push_back`.
unfoldable pub push_back : RecvResult → RecvResultQueue → RecvResultQueue
push_back result q = record q { queue = q.queue ++ result ∷ []; cancels = suc q.cancels }

abbrev pub push_to : RecvResult → SharedClientState → SharedClientState
unfolding push_back
push_to result c = record c { queue = push_back result c.queue }

abbrev pub is_nil : List RecvResult → Bool
is_nil [] = true
is_nil (r ∷ rs) = false

-- `queue_.pop_front()`.
abbrev pub drop_front : SharedClientState → SharedClientState
drop_front c = record c { queue = record (c.queue) { queue = tail c.queue.queue } }

-- What `pop_front` does after its wait: the front, or the error of the wait.
abbrev pub take_front : Platform → ℕ → Error → List RecvResult → M RecvResult
take_front P id ec [] =
    co_return (unexpected (if failed ec then map_err P ec else make_error_code internal_error))
take_front P id ec (result ∷ rest) = do modify (update id drop_front); co_return result

-- `RecvResultQueue::pop_front`, on the queue of the state `id`.
unfoldable pub pop_front : Platform → ℕ → M RecvResult
pop_front P id = do
  before ← gets (λ s. items_of (lock s id))
  ec ← if is_nil before then co_await (queue_timer id) else co_return (no_error P)
  after ← gets (λ s. items_of (lock s id))
  take_front P id ec after

-- `find_if` and what follows it: an entry for the same topic is replaced, else one is appended.
unfoldable pub register_topic : TopicSubopts → List TopicSubopts → List TopicSubopts
register_topic topic [] = topic ∷ []
register_topic topic (r ∷ rs) =
    if str_eq r.topic topic.topic then topic ∷ rs else r ∷ register_topic topic rs

unfoldable pub register_topics : List TopicSubopts → List TopicSubopts → List TopicSubopts
unfolding register_topic
register_topics [] registered = registered
register_topics (topic ∷ topics) registered =
    register_topics topics (register_topic topic registered)

-- `if (!registered_client) clients_.push_back(state)`. The caller holds the object, so the case in
-- which it is gone cannot be.
unfoldable pub register_client : ℕ → SharedConnection → SharedConnection
register_client id s =
    if not (is_some (lock s id)) || any_of (locks_to s id) s.clients
    then s
    else record s { clients = s.clients ++ id ∷ [] }

-- The loop that forwards a failed result: one copy to each client that is alive.
unfoldable pub forward_error : RecvResult → List ℕ → SharedConnection → SharedConnection
unfolding push_back
forward_error result [] s = s
forward_error result (weak ∷ rest) s = forward_error result rest (update weak (push_to result) s)

-- The loop over one client's topics: one copy for each topic that is the packet's.
unfoldable pub push_matching :
    RecvResult → String → List TopicSubopts → SharedClientState → SharedClientState
unfolding push_back
push_matching result topic [] c = c
push_matching result topic (t ∷ ts) c =
    push_matching result topic ts (if str_eq t.topic topic then push_to result c else c)

unfoldable pub dispatch : RecvResult → String → List ℕ → SharedConnection → SharedConnection
unfolding push_matching
dispatch result topic [] s = s
dispatch result topic (weak ∷ rest) s =
    dispatch result topic rest (update weak (λ c. push_matching result topic c.topics c) s)

unfoldable pub remove_expired_clients : SharedConnection → SharedConnection
remove_expired_clients s = record s {
  clients = erase_if (λ weak. not (is_some (lock s weak))) s.clients;
}

-- What `async_pump_one_impl` does with the result that it received, and the error it returns.
unfoldable pub pump_result : RecvResult → SharedConnection → SharedConnection
unfolding forward_error dispatch
pump_result (unexpected err) s = forward_error (unexpected err) s.clients s
pump_result (packet (publish p)) s = dispatch (packet (publish p)) p.topic s.clients s
pump_result (packet (other kind)) s = s

unfoldable pub pump_error : RecvResult → Error
pump_error (unexpected err) = if is_code err session_reset then make_error_code success else err
pump_error (packet p) = make_error_code success

unfoldable pub async_pump_one_impl : M Error
unfolding remove_expired_clients pump_result pump_error
async_pump_one_impl = do
  modify remove_expired_clients
  result ← co_await (client receiving)
  modify (pump_result result)
  co_return (pump_error result)

unfoldable pub async_pump_one : M (Unit {0})
unfolding async_pump_one_impl
async_pump_one = do async_pump_one_impl; co_return tt

-- `while (true)`: the fuel bounds its rounds.
unfoldable pub async_run : ℕ → M (Unit {0})
unfolding async_pump_one_impl
async_run zero = out_of_fuel
async_run (suc fuel) = do
  let again = async_run fuel
  err ← async_pump_one_impl
  if failed err then co_return tt else again

unfoldable pub async_connect : M Error
async_connect = co_await connect_client

unfoldable pub async_close : M Error
async_close = co_await (client closing)

unfoldable pub async_publish : String → String → QoS → Bool → M Error
async_publish topic payload qos retain = co_await (client (publishing topic payload qos retain))

unfoldable pub async_detach : Platform → ℕ → M Error
async_detach P id = do
  modify (λ s. record s { clients = erase_if (locks_to s id) s.clients })
  co_return (no_error P)

unfoldable pub async_subscribe : ℕ → List TopicSubopts → M Error
unfolding register_topics register_client
async_subscribe id topics = do
  err ← co_await (client (subscribing topics))
  if failed err then co_return err else do
    modify (update id (λ c. record c { topics = register_topics topics c.topics }))
    modify (register_client id)
    co_return err

unfoldable pub async_recv : Platform → ℕ → M RecvResult
unfolding register_client pop_front
async_recv P id = do modify (register_client id); pop_front P id

-- `SharedAsyncMqttConnection::create`.
abbrev pub initial : SharedConnection
initial = record { clients = []; heap = λ _. none; fresh = 0 }

-- `make_client`: a new object, known to the connection only once it subscribes or receives.
unfoldable pub make_client : M ℕ
make_client = do
  id ← gets (λ s. s.fresh)
  modify (λ s. record s {
    heap =
        put s.heap id (some (record { queue = record { queue = []; cancels = 0 }; topics = [] }));
    fresh = suc id;
  })
  co_return id

-- The last `shared_ptr` to the object goes away.
unfoldable pub destroy : ℕ → M (Unit {0})
destroy id = do modify (λ s. record s { heap = put s.heap id none })

-- The methods of `SharedAsyncMqttClient`, each of which passes its own state on.
unfoldable pub serve : Platform → ℕ → (op : Operation) → M (Result op)
unfolding async_publish async_subscribe async_recv async_detach
serve P id (publishing topic payload qos retain) = async_publish topic payload qos retain
serve P id (subscribing topics) = async_subscribe id topics
serve P id receiving = async_recv P id
serve P id closing = async_detach P id
