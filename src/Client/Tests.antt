-- ===== src/Client/Tests.antt =====
-- lib/include/hacpp/async_mqtt_client.h at concrete inputs.
use hacpp.Base.{
  ℕ, zero, suc, ◌-◌, ◌≡◌, refl, ◌<◌, Bool, true, false, none, some, List, [], ◌∷◌, arith, returned,
}
use hacpp.Coroutine.{Coroutine}
use hacpp.Coroutine.Logic.{at}
use hacpp.Coroutine.Run.{Env, run}
use hacpp.Coroutine.System.{System, Step, spawn, resume, Reach, start, next}
use hacpp.Error.{no_error, make_error_code, map_err, map_code, session_reset}
use hacpp.Error.Tests.{linux, refused}
use hacpp.Mqtt.{TopicSubopts, at_least_once, unexpected}
use hacpp.Client.{
  Connection, Request, Reply, M, done, wait, bind, default_config, initial, closed, connected, recv,
  acquire_unique_packet_id, sleep, close, start as starting, underlying_handshake, publish,
  subscribe, default_max_autoreconnect_attempts, async_connect, async_close, async_publish,
  async_subscribe, async_handle_reconnect, reconnect_loop, reconnect_attempt, async_recv,
}
use hacpp.Client.Sending.{Follows, async_publish-Follows, async_subscribe-Follows}
use hacpp.Client.Recovery.{Receives, async_recv-Receives}
use hacpp.Client.Closing.{async_recv-revives}
use hacpp.Client.Interleaving.{
  Call, connects, receives, closes, task, NotConnect, AnyCall, reconnecting-wakes, Reach-IsArmed,
}
use hacpp.Client.Wakeups.{IsArmed}

abbrev online : Connection
online = record initial { state = connected }

abbrev topics : List TopicSubopts
topics = record { topic = "homeassistant/button/b/set"; qos = at_least_once } ∷ []

async_publish-Follows_example :
    Follows linux true
      (λ pid. publish (record {
        packet_id = pid;
        topic = "t";
        payload = "p";
        qos = at_least_once;
        retain = true;
      }))
      (async_publish linux "t" "p" at_least_once true online)
async_publish-Follows_example = async_publish-Follows linux "t" "p" at_least_once true online

async_subscribe-Follows_example :
    Follows linux true (λ pid. subscribe pid topics) (async_subscribe linux topics online)
async_subscribe-Follows_example = async_subscribe-Follows linux topics online

-- Every receive and every attempt is refused, up to the `n`th await, from which all succeed.
abbrev outage_reply : (r : Request) → Bool → Reply r
outage_reply recv up = (refused, none)
outage_reply acquire_unique_packet_id up = some 1
outage_reply (sleep seconds) up = tt
outage_reply r true = no_error linux
outage_reply r false = refused

abbrev is_over : ℕ → Bool
is_over zero = true
is_over (suc n) = false

abbrev outage : Env Reply Connection
outage = record { Net = ℕ; answer = λ r n c. (outage_reply r (is_over n), n - 1, c) }

abbrev reopened : Connection
reopened = record {
  state = connected;
  attempt = 0;
  max_attempts = 10;
  autorec_wait_timer = record { expires_at_max = true; cancels = 1 };
}

run-outage :
    (run outage (async_recv linux 11 default_config online) 7).0
    ≡ returned (unexpected (make_error_code session_reset))
unfolding run async_recv async_handle_reconnect reconnect_loop reconnect_attempt async_connect
    map_err map_code make_error_code no_error bind
run-outage = refl

async_recv-Receives_example :
    let (o, n', d) = run outage (async_recv linux 11 default_config online) 7 in
    Receives online (outage.answer recv 7 online).0 o d
async_recv-Receives_example =
    async_recv-Receives linux outage 11 default_config online 7 (λ r n s. refl) (omega arith)
      (omega arith)

abbrev call : Call → M (Unit {0})
call = task linux 11 default_config

-- One receive fails and the client reconnects; it is closed meanwhile.
abbrev resumed :
    Coroutine Reply Connection (Unit {0}) → Connection → Coroutine Reply Connection (Unit {0})
resumed (done o c) d = done o c
resumed (wait c r k) d = k (outage_reply r false) d

abbrev receiving : Coroutine Reply Connection (Unit {0})
receiving = call receives online

abbrev waiting : Coroutine Reply Connection (Unit {0})
waiting = resumed receiving online

abbrev lost : Connection
lost = at waiting

abbrev shutting : Coroutine Reply Connection (Unit {0})
shutting = call closes lost

abbrev before_close : System Reply Connection
before_close = record { shared = lost; tasks = shutting ∷ waiting ∷ [] }

abbrev after_close : System Reply Connection
after_close = record {
  shared = at (resumed shutting lost);
  tasks = resumed shutting lost ∷ waiting ∷ [];
}

receives-Reach : Reach call online NotConnect (record { shared = online; tasks = receiving ∷ [] })
unfolding task async_recv bind
receives-Reach = next start (spawn receives tt refl refl)

lost-Reach : Reach call online NotConnect (record { shared = lost; tasks = waiting ∷ [] })
unfolding task async_recv bind
lost-Reach = next receives-Reach (resume [] [] _ recv _ (refused, none) refl refl refl)

close-Reach : Reach call online NotConnect before_close
unfolding task async_recv async_handle_reconnect reconnect_loop reconnect_attempt async_close bind
close-Reach = next lost-Reach (spawn closes tt refl refl)

close-step : Step call online NotConnect before_close after_close
unfolding task async_recv async_handle_reconnect reconnect_loop reconnect_attempt async_close bind
close-step = resume [] (waiting ∷ []) _ close _ refused refl refl refl

reconnecting-wakes_example :
    before_close.shared.autorec_wait_timer.cancels < after_close.shared.autorec_wait_timer.cancels
unfolding task async_recv async_handle_reconnect reconnect_loop reconnect_attempt async_close bind
reconnecting-wakes_example =
    reconnecting-wakes linux 11 default_config online close-Reach close-step refl (λ e. cc)

abbrev accepted :
    Coroutine Reply Connection (Unit {0}) → Connection → Coroutine Reply Connection (Unit {0})
accepted (done o c) d = done o c
accepted (wait c r k) d = k (outage_reply r true) d

abbrev connecting : Coroutine Reply Connection (Unit {0})
connecting = call connects initial

abbrev shaken : Coroutine Reply Connection (Unit {0})
shaken = accepted connecting initial

abbrev opened : Coroutine Reply Connection (Unit {0})
opened = accepted shaken initial

abbrev reconnecting_system : System Reply Connection
reconnecting_system = record {
  shared = at (resumed (call receives (at opened)) (at opened));
  tasks = resumed (call receives (at opened)) (at opened) ∷ opened ∷ [];
}

connecting-Reach : Reach call initial AnyCall (record { shared = at shaken; tasks = shaken ∷ [] })
unfolding task no_error async_connect bind
connecting-Reach =
    next (next start (spawn connects tt refl refl))
      (resume [] [] _ (underlying_handshake "localhost" "1883") _ (no_error linux) refl refl refl)

opened-Reach : Reach call initial AnyCall (record { shared = at opened; tasks = opened ∷ [] })
unfolding task no_error async_connect bind
opened-Reach =
    next connecting-Reach
      (resume [] [] _ (starting true 0 "" "" "") _ (no_error linux) refl refl refl)

receiving-Reach :
    Reach call initial AnyCall
      (record { shared = at opened; tasks = call receives (at opened) ∷ opened ∷ [] })
unfolding task no_error async_connect async_recv bind
receiving-Reach = next opened-Reach (spawn receives tt refl refl)

reconnecting-Reach : Reach call initial AnyCall reconnecting_system
unfolding task no_error async_connect async_recv bind
reconnecting-Reach =
    next receiving-Reach (resume [] (opened ∷ []) _ recv _ (refused, none) refl refl refl)

Reach-IsArmed_example :
    IsArmed reconnecting_system.shared
    × (reconnecting_system.shared.max_attempts ≡ default_max_autoreconnect_attempts)
Reach-IsArmed_example = Reach-IsArmed linux 11 default_config reconnecting-Reach

-- The client is closed while the reconnect sleeps.
abbrev closed_meanwhile : Env Reply Connection
closed_meanwhile = record {
  Net = Unit;
  answer = λ r n c.
      (outage_reply r true, n, elim r [ sleep seconds ↦ record c { state = closed } | _ ↦ c ]);
}

async_recv-revives_example :
    let (o, n', e) = run closed_meanwhile (async_recv linux 11 default_config online) tt in
    (o ≡ returned (unexpected (make_error_code session_reset))) × (e.state ≡ connected)
unfolding no_error
async_recv-revives_example =
    async_recv-revives linux closed_meanwhile 10 default_config online tt refl refl (omega arith)
      (λ host port m s. refl) (λ clean alive id user pass m s. refl)
