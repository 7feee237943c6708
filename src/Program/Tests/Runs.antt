-- ===== src/Program/Tests/Runs.antt =====
-- A whole program at concrete inputs: runs of a button and of the pump.
use hacpp.Base.{
  inl, inr, ℕ, zero, suc, ◌-◌, ◌≡◌, refl, Bool, true, false, none, some, List, [], ◌∷◌, ◌++◌, ltb,
  arith, if◌then◌else◌, returned,
}
use hacpp.Coroutine.{bind}
use hacpp.Coroutine.Run.{Env, run}
use hacpp.Coroutine.Compose.{over}
use hacpp.Error.{failed, no_error, make_error_code, disconnected, Error, is_code}
use hacpp.Error.Tests.{linux, refused}
use hacpp.Api.{Operation, Result, publishing, subscribing, receiving, closing}
use hacpp.Mqtt.{RecvResult, unexpected, publish, TopicSubopts, at_least_once}
use hacpp.Client
use hacpp.Client.{default_config, default_max_autoreconnect_attempts}
use hacpp.Shared
use hacpp.Shared.{SharedConnection, SharedClientState, register_topics}
use hacpp.Shared.Interleaving.{pumps}
use hacpp.Shared.Invariant.{Inv}
use hacpp.Entity.{topic_of, async_setup}
use hacpp.Button
use hacpp.Button.Configured
use hacpp.Tests.{sample, sample-IsJson, to}
use hacpp.Program.{Reply, State, initial, connection}
use hacpp.Program.Own.{Feed, shared_pump, own_connection}
use hacpp.Program.Alone.{entity_alone}
use hacpp.Program.Rounds.{pump_round-gives}
use hacpp.Client.Recovery.{Receives}
use hacpp.Shared.Delivery.{give}
use hacpp.Shared.Heap.{is_in}
use hacpp.Program.Wire.{Wire, accepting}
use hacpp.Program.Setups.{button_setup_sends}
use hacpp.Program.{serve}
use hacpp.Config.{json}
use hacpp.Program.Served.{Event, arrives, resets, results}
use hacpp.Cover
use hacpp.Config.{property}
use hacpp.Config.Settings.{Setting, sets_text}
use hacpp.Cover.Configured.{configured}
use hacpp.Program.Covers.{cover_served}
use hacpp.Program.Buttons.{button_served}
use hacpp.Program.Series.{replayed}
use hacpp.Program.Listening.{command_setup}
use hacpp.Program.Tests.{idle, reply, running, call}

-- The network accepts everything.
abbrev pub ack : (op : Operation) → Result op
ack receiving = unexpected refused
ack (publishing topic payload qos retain) = no_error linux
ack (subscribing topics) = no_error linux
ack closing = no_error linux

-- Two logical clients, of which the first is the button's.
abbrev pub two_clients : SharedConnection
two_clients = record {
  clients = 1 ∷ [];
  heap = λ j. if ltb j 2 then some idle else none;
  fresh = 2;
}

pub two_clients-Inv : Inv two_clients
two_clients-Inv = record {
  dead = λ j h. ground arith;
  below = (omega arith, tt);
  distinct = (refl, tt);
  topics = λ j c e. ground arith;
}

-- A press before the button has subscribed, and a reset meanwhile.
abbrev early : List Event
early = arrives (publish (to (topic_of "button" "b" "set") "SHIFT")) ∷ []

-- Presses before and after a reset of the session, and a packet for someone else.
abbrev events : List Event
events =
    arrives (publish (to (topic_of "button" "b" "set") "SHIFT"))
    ∷ arrives (publish (to "elsewhere" "SHIFT"))
    ∷ resets
    ∷ arrives (publish (to (topic_of "button" "b" "set") "SHIFT"))
    ∷ []

abbrev pub gone : Error
unfolding make_error_code
gone = make_error_code disconnected

-- The user sets the payload twice.
abbrev shift : List Setting
shift =
    sets_text (property "payload_press") "GO" ∷ sets_text (property "payload_press") "SHIFT" ∷ []

button_served_example :
    (f : hacpp.Button.Factory sample) × (hacpp.Button.Configured.configured sample "b" shift 7
      ≡ returned f)
    × let button = hacpp.Button.create sample f in
      let whole =
        bind
          (async_setup sample (hacpp.Button.base sample button) [])
          (λ (err : Error). hacpp.Button.async_run sample 7 button) in
      let (o, rest, t) =
        run
          (shared_pump linux refused ack)
          (over (Shared.serve linux 0) whole two_clients)
          (record {
            to_come = results (early ++ ((resets ∷ []) ++ events)) gone;
            schedule = 1 ∷ 1 ∷ 2 ∷ [];
            asked = [];
          }) in
      (o ≡ returned gone)
      × (t.outer ≡ 7 ∷ 7 ∷ [])
      × (rest.asked
          ≡ replayed 2 (
              command_setup
                (topic_of "button" "b" "config")
                (json sample f.cfg)
                (topic_of "button" "b" "set")
                (topic_of "button" "b" "availability")))
unfolding is_code make_error_code no_error
button_served_example =
    button_served sample linux refused ack 0 "b" shift 7 early (resets ∷ []) events (2 ∷ []) gone 7
      two_clients idle [] sample-IsJson (λ topic payload qos retain. refl, λ topics. refl)
      (refl, (refl, tt)) refl two_clients-Inv refl refl refl refl refl (omega arith)

abbrev feed : Feed
feed = record { to_come = results events gone; schedule = 1 ∷ 0 ∷ 2 ∷ []; asked = [] }

entity_alone_example :
    let (o, rest, t) =
      run
        (shared_pump linux refused ack)
        (over (Shared.serve linux 0) (running []) two_clients)
        feed in
    let (o', n, handlers) =
      run (own_connection linux refused ack) (running []) (record {
        mailbox = record { results = []; topics = []; attached = false };
        feed = feed;
      }) in
    (o ≡ o') × (rest ≡ n.feed) × (t.outer ≡ handlers)
entity_alone_example =
    entity_alone linux refused ack 0 (running []) two_clients idle feed two_clients-Inv refl

-- The client of a program with two clients is connected; its receive and two attempts are refused.
abbrev online : State
online = record {
  inner = record (initial.inner) { state = Client.connected };
  outer = record { inner = two_clients; outer = [] };
}

abbrev is_over : ℕ → Bool
is_over zero = true
is_over (suc n) = false

abbrev outage : Env Reply State
outage = record { Net = ℕ; answer = λ r n s. (reply (is_over n) r, n - 1, s) }

pump_round-gives_example :
    let (o, n', t) = run outage (call (connection pumps) online) 6 in
    (r : RecvResult) × (o ≡ returned tt)
    × Receives online.inner (refused, none) (returned r) t.inner
    × (t.outer.inner.heap 1 ≡ some (give r idle))
    × (is_in 1 t.outer.inner.clients ≡ true)
pump_round-gives_example =
    pump_round-gives linux 11 default_config outage online 6 1 idle (λ r n s. refl) (omega arith)
      (omega arith) two_clients-Inv refl refl

abbrev wire : Wire
wire = record { next = 1; sent = [] }

abbrev command : List TopicSubopts
command = record { topic = topic_of "button" "b" "set"; qos = at_least_once } ∷ []

button_setup_sends_example :
    (f : hacpp.Button.Factory sample) × (hacpp.Button.Configured.customised sample "b" shift
      ≡ returned f)
    × let setup = async_setup sample (hacpp.Button.base sample (hacpp.Button.create sample f)) [] in
      let (o, m, t) =
        run
          (accepting linux)
          (over
            (serve linux 11 default_config)
            (over (Shared.serve linux 0) setup two_clients)
            online.inner)
          wire in
      ((err : Error) × (o ≡ returned err) × (failed err ≡ false))
      × (m.sent
          ≡ Client.publish (record {
            packet_id = 1;
            topic = topic_of "button" "b" "config";
            payload = json sample f.cfg;
            qos = at_least_once;
            retain = true;
          })
            ∷ Client.subscribe 2 command
            ∷ Client.publish (record {
              packet_id = 3;
              topic = topic_of "button" "b" "availability";
              payload = "online";
              qos = at_least_once;
              retain = true;
            })
            ∷ [])
      × (t.outer.inner.heap 0 ≡ some (record idle { topics = register_topics command [] }))
      × (is_in 0 t.outer.inner.clients ≡ true)
      × (t.outer.outer ≡ [])
button_setup_sends_example =
    button_setup_sends sample linux 11 default_config 0 "b" shift wire online.inner two_clients idle
      [] sample-IsJson (refl, (refl, tt)) refl refl refl

-- The user sets another topic, and a payload to stop.
abbrev settings : List Setting
settings =
    sets_text (property "command_topic") "shade" ∷ sets_text (property "payload_stop") "HALT" ∷ []

abbrev moves : List Event
moves = arrives (publish (to "shade" "OPEN")) ∷ resets ∷ arrives (publish (to "shade" "HALT")) ∷ []

cover_served_example :
    (f : hacpp.Cover.Factory sample) × (configured sample "c" settings 1 2 3 ≡ returned f)
    × let cover = hacpp.Cover.create sample f in
      let whole =
        bind
          (async_setup sample (hacpp.Cover.base sample cover) [])
          (λ (err : Error). hacpp.Cover.async_run sample 4 cover) in
      let (o, rest, t) =
        run
          (shared_pump linux refused ack)
          (over (Shared.serve linux 0) whole two_clients)
          (record {
            to_come = results ([] ++ ([] ++ moves)) gone;
            schedule = 0 ∷ 0 ∷ 3 ∷ [];
            asked = [];
          }) in
      (o ≡ returned gone)
      × (t.outer ≡ 3 ∷ 1 ∷ [])
      × (rest.asked
          ≡ replayed 2 (
              command_setup
                (topic_of "cover" "c" "config")
                (json sample f.cfg)
                "shade"
                (topic_of "cover" "c" "availability")))
unfolding is_code make_error_code no_error
cover_served_example =
    cover_served sample linux refused ack 0 "c" settings 1 2 3 [] [] moves (3 ∷ []) gone 4
      two_clients idle [] sample-IsJson (λ topic payload qos retain. refl, λ topics. refl)
      (refl, (refl, tt)) refl (inr (inl refl), (inr (inr (inr refl)), tt)) two_clients-Inv refl refl
      refl refl refl (omega arith)
