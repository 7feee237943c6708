-- ===== src/Program/Listening.antt =====
-- A whole program: an entity that listens to a command topic, over a logical client of a shared
-- connection, while the pump runs.
use hacpp.Base.{
  ℕ, ◌<◌, ◌≡◌, refl, ◌∙◌, String, true, false, some, List, [], ◌∷◌, ◌++◌, ◌+◌, length, All,
  returned, eq_iff, str_eq,
}
use hacpp.Api.{Operation, publishing, subscribing, Result}
use hacpp.Coroutine.Compose.{over}
use hacpp.Coroutine.Run.{run}
use hacpp.Entity.{Spawned, M, Impl, bind, async_setup}
use hacpp.Entity.Serving.{steps, serving}
use hacpp.Error.{Platform, Error, failed, is_code, session_reset}
use hacpp.Json.{Json}
use hacpp.Mqtt.{at_least_once, QoS, Packet, TopicSubopts}
use hacpp.Shared
use hacpp.Shared.{SharedConnection, SharedClientState, register_topics}
use hacpp.Shared.Heap.{is_in}
use hacpp.Shared.Invariant.{Inv}
use hacpp.Shared.Topics.{has_topic, has_topic-register_topic}
use hacpp.Program.Own.{Own, own_ahead, shared_pump}
use hacpp.Program.Series.{Series, Reduces-trans, replayed}
use hacpp.Program.Pending.{pending, own_ahead-Kept}
use hacpp.Program.Served.{Event, results, packets, resets_in, Visited, skips, Serves, Keeps}
use hacpp.Program.Missed.{caught}
use hacpp.Program.Setup.{Accepts, enrolled, issued, Completes}
use hacpp.Program.Life.{Opens, lives}

-- The command topic is registered.
abbrev pub Listens : String → List TopicSubopts → Type 0
Listens command topics = has_topic command topics ≡ true

-- A packet that is not for the topics registered is not on the command topic.
pub clash :
    (command topic : String) (topics : List TopicSubopts)
    → str_eq topic command ≡ true
    → Listens command topics
    → has_topic topic topics ≡ false
    → ⊥
clash command topic topics hit listens unwanted =
    let missed = rw ((eq_iff topic command).0 hit) at unwanted in cc

pub register_topics-Listens :
    (command : String) (qos : QoS) (topics : List TopicSubopts)
    → Listens command (register_topics (record { topic = command; qos = qos } ∷ []) topics)
unfolding register_topics
register_topics-Listens command qos topics =
    has_topic-register_topic command _ topics ∙ rw ((eq_iff command command).1 refl) refl

-- What a setup of such an entity issues.
abbrev pub command_setup : String → String → String → String → List Operation
command_setup discovery payload command availability =
    publishing discovery payload at_least_once true
    ∷ subscribing (record { topic = command; qos = at_least_once } ∷ [])
    ∷ publishing availability "online" at_least_once true
    ∷ []

module _ (J : Json) (impl : Impl J) (visit : Packet → M (Unit {0}))
    (step : Packet → Spawned → Spawned) (P : Platform) (ec : Error)
    (ack : (op : Operation) → Result op) (ok : Accepts ack)
    (discovery payload command availability : String)
    (completes : (n : Own) (s : Spawned)
      → Completes P ec ack ok
          (command_setup discovery payload command availability)
          n
          s
          (async_setup J impl s))
    (e : Error) (bad : failed e ≡ true) (no_reset : is_code e session_reset ≡ false) where
  abbrev ops : List Operation
  ops = command_setup discovery payload command availability

  abbrev configures : Operation
  configures = publishing discovery payload at_least_once true

  abbrev topics : List TopicSubopts
  topics = record { topic = command; qos = at_least_once } ∷ []

  abbrev reports : Operation
  reports = publishing availability "online" at_least_once true

  abbrev IsVisited : Packet → Type 0
  IsVisited = Visited J impl visit P ec ack (Listens command) step

  abbrev set_up : Own → Own
  set_up = issued P ec ack ops

  abbrev IsServed : Own → Type 0
  IsServed = Serves J impl visit P ec ack (Listens command) step e ops

  abbrev IsKept : Own → Own → Type 0
  IsKept = Keeps J impl visit P ec ack (Listens command) step e ops

  ahead-IsKept : (op : Operation) (n : Own) → IsServed n → IsKept n (own_ahead P ec ack op n)
  ahead-IsKept op n due =
      own_ahead-Kept IsVisited e step (Listens command)
        (skips J impl visit P ec ack (Listens command) step e ops) P ec ack op n due

  enrolled-IsServed :
      (n : Own) → Series IsVisited e (pending n) → IsServed (enrolled P ec ack topics n)
  enrolled-IsServed n series = record {
    attached = refl;
    topics = register_topics-Listens command at_least_once n.mailbox.topics;
    series = series;
  }

  set_up-IsKept : (n : Own) → IsServed n → IsKept n (set_up n)
  set_up-IsKept n due =
      let n' = own_ahead P ec ack configures n in
      let n'' = own_ahead P ec ack (subscribing topics) n' in
      let (due', a) = ahead-IsKept configures n due in
      let (due'', b) = ahead-IsKept (subscribing topics) n' due' in
      let (kept, c) =
        ahead-IsKept reports (enrolled P ec ack topics n'') (enrolled-IsServed n'' due''.series) in
      (
        kept,
        Reduces-trans step (pending n) (pending n'') (pending (set_up n))
            (Reduces-trans step (pending n) (pending n') (pending n'') a b) c,
      )

  set_up-Opens :
      Opens J impl visit step P ec ack ok
        (Listens command)
        ops
        completes
        e
        bad
        no_reset
        configures
        (subscribing topics)
  set_up-Opens n no_topics series =
      let n' = own_ahead P ec ack (subscribing topics) (own_ahead P ec ack configures n) in
      let (due, a) =
        ahead-IsKept reports (enrolled P ec ack topics n') (enrolled-IsServed n' series) in
      (record { attached = refl; topics = due.topics; series = due.series }, a)

  -- It sets itself up, and again after each reset that it learns of, and visits each packet that is
  -- for it, in order, before and after each reset.
  pub listening :
      (id : ℕ) (lost lost' vs : List Event) (ks : List ℕ) (fuel : ℕ) (s : SharedConnection)
      (c : SharedClientState) (h : Spawned)
      → All (Visited J impl visit P ec ack (Listens command) step) (packets vs)
      → Inv s
      → s.heap id ≡ some c
      → c.queue.queue ≡ []
      → c.topics ≡ []
      → length lost + length lost' + length vs < fuel
      → let (o, rest, t) =
          run
            (shared_pump P ec ack)
            (over
              (Shared.serve P id)
              (bind (async_setup J impl h) (λ (err : Error). serving J impl visit fuel))
              s)
            (record {
              to_come = results (lost ++ (lost' ++ vs)) e;
              schedule = length lost ∷ length lost' ∷ ks;
              asked = [];
            }) in
        (o ≡ returned e)
        × (t.outer ≡ steps step (packets vs) h)
        × (rest.asked
            ≡ command_setup discovery payload command availability
              ++ replayed
                  (caught (is_in id s.clients) (lost ++ lost') + resets_in vs)
                  (command_setup discovery payload command availability))
  listening =
      lives J impl visit step P ec ack ok (Listens command) ops completes e bad no_reset configures
        (subscribing topics) set_up-Opens set_up-IsKept
