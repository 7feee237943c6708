-- ===== src/Shared/Tests.antt =====
-- lib/include/hacpp/shared_mqtt_client.h at concrete inputs: two clients, one of which is detached.
use hacpp.Base.{
  inl, ◌≢◌, String, ◌<◌, ◌≡◌, refl, false, none, some, List, [], ◌∷◌, ◌++◌, arith, returned,
}
use hacpp.Coroutine.{bind}
use hacpp.Coroutine.Logic.{at}
use hacpp.Coroutine.Run.{Env, run}
use hacpp.Coroutine.System.{System, Step, spawn, resume, Reach, start, next, Later, here, further}
use hacpp.Error.{no_error, make_error_code, session_reset, disconnected}
use hacpp.Error.Mapping.{make_error_code-injective}
use hacpp.Error.Tests.{linux}
use hacpp.Mqtt.{
  TopicSubopts, at_least_once, exactly_once, RecvResult, packet, unexpected, publish, other,
}
use hacpp.Api.{receiving, subscribing, publishing, closing}
use hacpp.Shared.{
  SharedConnection, SharedClientState, Request, Co, done, wait, client, connect_client, queue_timer,
  Reply, initial, put, make_client, async_subscribe, async_recv, async_detach, async_run,
  pump_result, pump_error, async_pump_one, async_pump_one_impl, pop_front, remove_expired_clients,
  forward_error, push_back, register_client,
}
use hacpp.Shared.Waking.{queue_filled-wakes}
use hacpp.Shared.Invariant.{Inv, make-Inv, initial-Inv, register_client-Inv}
use hacpp.Shared.Interleaving.{makes, pumps, task, AnyCall, Reach-Inv, receives, detaches}
use hacpp.Shared.Pump.{async_run-delivers, wanted}
use hacpp.Shared.Detaching.{Spares, Detached, detaching, async_detach-Detaches}
use hacpp.Shared.Heap.{is_in}
use hacpp.Shared.Broker.{nobody, spec}
use hacpp.Shared.Broker.View.{view}
use hacpp.Shared.Broker.Refinement.{shared_refines}
use hacpp.Coroutine.Refinement.{Refined}
use hacpp.Shared.Subscriptions.{Subscribes, async_subscribe-Subscribes}

abbrev topic : String
topic = "homeassistant/button/b/set"

abbrev subopts : TopicSubopts
subopts = record { topic = topic; qos = at_least_once }

abbrev again : TopicSubopts
again = record { topic = topic; qos = exactly_once }

abbrev press : RecvResult
press = packet (
    publish (record {
      packet_id = 0;
      topic = topic;
      payload = "PRESS";
      qos = at_least_once;
      retain = false;
    }))

abbrev stray : RecvResult
stray = packet (
    publish (record {
      packet_id = 0;
      topic = "elsewhere";
      payload = "PRESS";
      qos = at_least_once;
      retain = false;
    }))

abbrev reset : RecvResult
reset = unexpected (make_error_code session_reset)

abbrev lost : RecvResult
lost = unexpected (make_error_code disconnected)

abbrev made : SharedConnection
made = record initial {
  heap =
      put initial.heap 0
        (some (record { queue = record { queue = []; cancels = 0 }; topics = [] }));
  fresh = 1;
}

abbrev listed : SharedConnection
listed = register_client 0 made

listed-Inv : Inv listed
listed-Inv = register_client-Inv 0 made (make-Inv initial initial-Inv)

-- A client that has subscribed to the topic.
abbrev subscriber : SharedClientState
subscriber = record { queue = record { queue = []; cancels = 0 }; topics = subopts ∷ [] }

abbrev subscribed : SharedConnection
subscribed = record { clients = 0 ∷ []; heap = put (λ _. none) 0 (some subscriber); fresh = 1 }

subscribed-Inv : Inv subscribed
subscribed-Inv = record {
  dead = λ id h. ground arith;
  below = (omega arith, tt);
  distinct = (refl, tt);
  topics = λ id c e. ground arith;
}

abbrev quiet_reply : List RecvResult → (r : Request) → Reply r × List RecvResult
quiet_reply [] (client receiving) = (lost, [])
quiet_reply (r ∷ rs) (client receiving) = (r, rs)
quiet_reply rs (client (publishing t p q k)) = (no_error linux, rs)
quiet_reply rs (client (subscribing ts)) = (no_error linux, rs)
quiet_reply rs (client closing) = (no_error linux, rs)
quiet_reply rs connect_client = (no_error linux, rs)
quiet_reply rs (queue_timer id) = (no_error linux, rs)

abbrev broker : Env Reply SharedConnection
broker = record {
  Net = List RecvResult;
  answer = λ r n s. let (p, n') = quiet_reply n r in (p, n', s);
}

abbrev traffic : List RecvResult
traffic = press ∷ stray ∷ reset ∷ packet (other 4) ∷ press ∷ []

differs : make_error_code disconnected ≢ make_error_code session_reset
differs e = absurd (cc (make_error_code-injective disconnected session_reset e))

async_run-delivers_example :
    let (o, n', t) = run broker (async_run 6 subscribed) (traffic ++ lost ∷ []) in
    (o ≡ returned tt)
    × ((d : SharedClientState) × (t.heap 0 ≡ some d)
        × (d.topics ≡ subopts ∷ [])
        × (d.queue.queue ≡ [] ++ wanted (subopts ∷ []) (traffic ++ lost ∷ [])))
unfolding make_error_code
async_run-delivers_example =
    async_run-delivers broker traffic lost 6 (traffic ++ lost ∷ []) subscribed 0 subscriber
      (λ r n s. refl)
      (λ s. (refl, λ s. (refl, λ s. (refl, λ s. (refl, λ s. (refl, λ s. (refl, tt)))))))
      (tt, (tt, (inl refl, (tt, (tt, tt))))) (differs, refl) (omega arith) subscribed-Inv refl refl

wanted-traffic : wanted (subopts ∷ []) (traffic ++ lost ∷ []) ≡ press ∷ reset ∷ press ∷ lost ∷ []
wanted-traffic = refl

async_subscribe-Subscribes_example :
    Subscribes 0 (again ∷ []) subscribed (async_subscribe 0 (again ∷ []) subscribed)
async_subscribe-Subscribes_example = async_subscribe-Subscribes 0 (again ∷ []) subscribed

-- A client is made, and then waits for a result, which lists it.
makes-Reach :
    Reach
      (task linux)
      initial
      AnyCall
      (record { shared = made; tasks = task linux makes initial ∷ [] })
unfolding task make_client bind
makes-Reach = next start (spawn makes tt refl refl)

abbrev waiting : System Reply SharedConnection
waiting = record {
  shared = at (task linux (receives 0) made);
  tasks = task linux (receives 0) made ∷ task linux makes initial ∷ [];
}

Reach-Inv_example : Inv waiting.shared
Reach-Inv_example = Reach-Inv linux (next makes-Reach (spawn (receives 0) tt refl refl))

shared_refines_example :
    (view initial ≡ nobody) × Refined view Inv (spec linux) initial AnyCall waiting
shared_refines_example = shared_refines linux (next makes-Reach (spawn (receives 0) tt refl refl))

-- The pump starts while the client waits, and receives an error.
abbrev pumping : System Reply SharedConnection
pumping = record {
  shared = at (task linux pumps waiting.shared);
  tasks = task linux pumps waiting.shared ∷ waiting.tasks;
}

abbrev replied : RecvResult → Co (Unit {0}) → SharedConnection → Co (Unit {0})
replied r (done o s) t = done o s
replied r (wait s (client receiving) k) t = k r t
replied r (wait s q k) t = wait s q k

abbrev forwarded : System Reply SharedConnection
forwarded = record {
  shared = at (replied lost (task linux pumps waiting.shared) pumping.shared);
  tasks = replied lost (task linux pumps waiting.shared) pumping.shared ∷ waiting.tasks;
}

pumping-Reach : Reach (task linux) initial AnyCall pumping
pumping-Reach = next (next makes-Reach (spawn (receives 0) tt refl refl)) (spawn pumps tt refl refl)

forwarded-Step : Step (task linux) initial AnyCall pumping forwarded
unfolding task async_pump_one async_pump_one_impl bind
forwarded-Step = resume [] waiting.tasks _ (client receiving) _ lost refl refl refl

abbrev idle : SharedClientState
idle = record { queue = record { queue = []; cancels = 0 }; topics = [] }

abbrev notified : SharedClientState
notified = record { queue = record { queue = lost ∷ []; cancels = 1 }; topics = [] }

queue_filled-wakes_example : idle.queue.cancels < notified.queue.cancels
unfolding task async_pump_one async_pump_one_impl async_recv pop_front make_client
    remove_expired_clients register_client pump_result pump_error forward_error push_back bind
queue_filled-wakes_example =
    queue_filled-wakes linux 0 idle notified pumping-Reach forwarded-Step refl refl refl (λ e. cc)

-- The pump waits for a packet while the client is detached, and then receives one of its topic.
abbrev listening : System Reply SharedConnection
listening = record {
  shared = at (task linux pumps subscribed);
  tasks = task linux pumps subscribed ∷ [];
}

abbrev missed : System Reply SharedConnection
missed = record {
  shared = at (replied press (task linux pumps subscribed) (detaching linux 0 listening).shared);
  tasks =
      task linux (detaches 0) listening.shared
      ∷ replied press (task linux pumps subscribed) (detaching linux 0 listening).shared
      ∷ [];
}

missed-Later : Later (task linux) subscribed (Spares 0) (detaching linux 0 listening) missed
unfolding task async_pump_one async_pump_one_impl bind
missed-Later = further here (
    resume (task linux (detaches 0) listening.shared ∷ []) [] _ (client receiving) _ press refl refl
      refl)

async_detach-Detaches_example :
    Detached linux 0 listening.shared (async_detach linux 0 listening.shared)
    × (missed.shared.heap 0 ≡ listening.shared.heap 0)
    × (is_in 0 missed.shared.clients ≡ false)
async_detach-Detaches_example =
    async_detach-Detaches linux 0 subscribed subscribed-Inv refl
      (next start (spawn pumps tt refl refl)) missed-Later
