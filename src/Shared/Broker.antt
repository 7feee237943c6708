-- ===== src/Shared/Broker.antt =====
-- lib/include/hacpp/shared_mqtt_client.h: a shared connection as its users may think of it. Each
-- client has a mailbox and the options of its topics, and is attached or not. There is no list of
-- clients and hence no order among them, no client that expired, no list of topics and no timer.
pub mod View
pub mod Listing
pub mod Refinement
use hacpp.Base.{
  ℕ, zero, suc, String, Bool, true, false, Option, none, some, is_some, List, [], ◌∷◌, ◌++◌, ◌==◌,
  if◌then◌else◌,
}
use hacpp.Coroutine.{Coroutine, ◌>>=◌, ◌>>◌, bind, co_return, out_of_fuel, co_await, gets, modify}
use hacpp.Error.{Error, Platform, failed, make_error_code, no_error, success}
use hacpp.Mqtt.{TopicSubopts, RecvResult, packet, unexpected, publish, other}
use hacpp.Api.{Operation, Result, publishing, subscribing, receiving, closing}
use hacpp.Shared.{Request, client, connect_client, queue_timer, Reply, is_nil, pump_error}
use hacpp.Shared.Topics.{overridden}
use hacpp.Shared.Clients.{front}
use hacpp.Shared.Interleaving.{
  Call, connects, closes, makes, pumps, publishes, subscribes, receives, detaches, destroys, runs,
}

pub record Mailbox : Type 0 where
  pub results : List RecvResult
  pub options : String → Option TopicSubopts

pub record Broker : Type 0 where
  pub mailbox : ℕ → Option Mailbox
  pub attached : ℕ → Bool
  -- The clients made so far, which are numbered in this order.
  pub made : ℕ

abbrev pub M : Type 0 → Type 0
M A = Broker → Coroutine Reply Broker A

abbrev pub on_mailbox : (Mailbox → Mailbox) → Option Mailbox → Option Mailbox
on_mailbox f none = none
on_mailbox f (some m) = some (f m)

-- A client is to be given every error, and the packets of the topics that it has options for.
abbrev pub is_for : RecvResult → (String → Option TopicSubopts) → Bool
is_for (unexpected err) options = true
is_for (packet (publish p)) options = is_some (options p.topic)
is_for (packet (other kind)) options = false

abbrev pub post : RecvResult → Mailbox → Mailbox
post r m = if is_for r m.options then record m { results = m.results ++ r ∷ [] } else m

abbrev pub deliver : RecvResult → Broker → Broker
deliver r b = record b {
  mailbox = λ j. if b.attached j then on_mailbox (post r) (b.mailbox j) else b.mailbox j;
}

abbrev pub at_mailbox : ℕ → (Mailbox → Mailbox) → Broker → Broker
at_mailbox id f b = record b {
  mailbox = λ j. if id == j then on_mailbox f (b.mailbox j) else b.mailbox j;
}

-- A client can be attached while it exists.
abbrev pub attach : ℕ → Broker → Broker
attach id b = record b { attached = λ j. if id == j then is_some (b.mailbox j) else b.attached j }

abbrev pub detach : ℕ → Broker → Broker
detach id b = record b { attached = λ j. if id == j then false else b.attached j }

abbrev pub enroll : List TopicSubopts → Mailbox → Mailbox
enroll topics m = record m { options = λ topic. overridden (m.options topic) topic topics }

abbrev pub results_of : Option Mailbox → List RecvResult
results_of none = []
results_of (some m) = m.results

abbrev pub rest_of : List RecvResult → List RecvResult
rest_of [] = []
rest_of (r ∷ rs) = rs

abbrev pub drop_result : Mailbox → Mailbox
drop_result m = record m { results = rest_of m.results }

abbrev pub new_mailbox : Mailbox
new_mailbox = record { results = []; options = λ topic. none }

abbrev pub new_client : Broker → Broker
new_client b = record b {
  mailbox = λ j. if b.made == j then some new_mailbox else b.mailbox j;
  made = suc b.made;
}

abbrev pub remove_client : ℕ → Broker → Broker
remove_client id b = record {
  mailbox = λ j. if id == j then none else b.mailbox j;
  attached = λ j. if id == j then false else b.attached j;
  made = b.made;
}

abbrev pub nobody : Broker
nobody = record { mailbox = λ j. none; attached = λ j. false; made = 0 }

module _ (P : Platform) where
  -- The first result, which is dropped, or if there is none the error of the wait.
  unfoldable pub take_result : ℕ → Error → M RecvResult
  take_result id ec = do
    results ← gets (λ b. results_of (b.mailbox id))
    modify (at_mailbox id drop_result)
    co_return (front P ec results)

  unfoldable pub receive : ℕ → M RecvResult
  unfolding take_result
  receive id = do
    modify (attach id)
    before ← gets (λ b. results_of (b.mailbox id))
    if is_nil before
        then (do ec ← co_await (queue_timer id); take_result id ec)
        else take_result id (no_error P)

unfoldable pub subscribe : ℕ → List TopicSubopts → M Error
subscribe id topics = do
  err ← co_await (client (subscribing topics))
  if failed err
      then co_return err
      else do modify (at_mailbox id (enroll topics)); modify (attach id); co_return err

unfoldable pub pump : M Error
pump = do
  result ← co_await (client receiving)
  modify (deliver result)
  co_return (pump_error result)

unfoldable pub keep_pumping : ℕ → M (Unit {0})
unfolding pump
keep_pumping zero = out_of_fuel
keep_pumping (suc fuel) = do
  let again = keep_pumping fuel
  err ← pump
  if failed err then co_return tt else again

abbrev ignore : {A : Type 0} → M A → M (Unit {0})
unfolding bind
ignore m = m >>= λ _. co_return tt

unfoldable pub spec : Platform → Call → M (Unit {0})
unfolding bind
spec P connects = ignore (co_await connect_client)
spec P closes = ignore (co_await (client closing))
spec P makes = modify new_client
spec P pumps = ignore pump
spec P (publishes topic payload qos retain) =
    ignore (co_await (client (publishing topic payload qos retain)))
spec P (subscribes id topics) = ignore (subscribe id topics)
spec P (receives id) = ignore (receive P id)
spec P (detaches id) = modify (detach id)
spec P (destroys id) = modify (remove_client id)
spec P (runs fuel) = keep_pumping fuel

-- The methods of a client.
unfoldable pub serve : Platform → ℕ → (op : Operation) → M (Result op)
unfolding subscribe receive
serve P id (publishing topic payload qos retain) =
    co_await (client (publishing topic payload qos retain))
serve P id (subscribing topics) = subscribe id topics
serve P id receiving = receive P id
serve P id closing = do modify (detach id); co_return (no_error P)
