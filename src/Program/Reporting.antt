-- ===== src/Program/Reporting.antt =====
-- A whole program: an entity without commands, over a logical client of a shared connection, while
-- the pump runs.
use hacpp.Base.{
  ℕ, suc, ◌<◌, ◌≡◌, refl, ◌∙◌, String, true, false, some, List, [], ◌∷◌, ◌++◌, ◌+◌, length, All,
  returned,
}
use hacpp.Api.{Operation, publishing, Result}
use hacpp.Coroutine.Compose.{over}
use hacpp.Coroutine.Run.{run}
use hacpp.Entity.{Spawned, Impl, bind, async_setup}
use hacpp.Entity.Serving.{ignore, serving, steps-ignored}
use hacpp.Error.{Platform, Error, failed, is_code, session_reset}
use hacpp.Json.{Json}
use hacpp.Mqtt.{at_most_once, Packet, TopicSubopts}
use hacpp.Shared
use hacpp.Shared.{SharedConnection, SharedClientState}
use hacpp.Shared.Heap.{is_in}
use hacpp.Shared.Invariant.{Inv}
use hacpp.Program.Own.{Own, own_ahead, shared_pump}
use hacpp.Program.Series.{Reduces-refl, Reduces-trans, replayed}
use hacpp.Program.Pending.{pending, own_ahead-Kept}
use hacpp.Program.Served.{Event, results, packets, resets_in, Visited, skips, Serves, Keeps}
use hacpp.Program.Missed.{caught}
use hacpp.Program.Setup.{Accepts, issued, Completes}
use hacpp.Program.Life.{Opens, lives}

-- What a setup of such an entity issues.
abbrev pub report_setup : String → String → String → List Operation
report_setup discovery payload availability =
    publishing discovery payload at_most_once true
    ∷ publishing availability "online" at_most_once true
    ∷ []

-- It has no topics.
abbrev IsDeaf : List TopicSubopts → Type 0
IsDeaf topics = topics ≡ []

abbrev stays : Packet → Spawned → Spawned
stays p s = s

module _ (J : Json) (impl : Impl J) (P : Platform) (ec : Error) (ack : (op : Operation) → Result op)
    (ok : Accepts ack) (discovery payload availability : String)
    (completes : (n : Own) (s : Spawned)
      → Completes P ec ack ok
          (report_setup discovery payload availability)
          n
          s
          (async_setup J impl s))
    (e : Error) (bad : failed e ≡ true) (no_reset : is_code e session_reset ≡ false) where
  abbrev ops : List Operation
  ops = report_setup discovery payload availability

  abbrev configures : Operation
  configures = publishing discovery payload at_most_once true

  abbrev reports : Operation
  reports = publishing availability "online" at_most_once true

  abbrev IsVisited : Packet → Type 0
  IsVisited = Visited J impl ignore P ec ack IsDeaf stays

  abbrev IsServed : Own → Type 0
  IsServed = Serves J impl ignore P ec ack IsDeaf stays e ops

  abbrev IsKept : Own → Own → Type 0
  IsKept = Keeps J impl ignore P ec ack IsDeaf stays e ops

  ahead-IsKept : (op : Operation) (n : Own) → IsServed n → IsKept n (own_ahead P ec ack op n)
  ahead-IsKept op n due =
      own_ahead-Kept IsVisited e stays IsDeaf (skips J impl ignore P ec ack IsDeaf stays e ops) P ec
        ack op n due

  set_up-IsKept : (n : Own) → IsServed n → IsKept n (issued P ec ack ops n)
  set_up-IsKept n due =
      let n' = own_ahead P ec ack configures n in
      let (due', a) = ahead-IsKept configures n due in
      let (due'', b) = ahead-IsKept reports n' due' in
      (
        due'',
        Reduces-trans stays (pending n) (pending n') (pending (own_ahead P ec ack reports n')) a b,
      )

  set_up-Opens :
      Opens J impl ignore stays P ec ack ok IsDeaf ops completes e bad no_reset configures reports
  set_up-Opens n no_topics series = (
    record { attached = refl; topics = no_topics; series = series },
    Reduces-refl stays (pending (own_ahead P ec ack reports (own_ahead P ec ack configures n))),
  )

  packets-IsVisited : (ps : List Packet) → All IsVisited ps
  packets-IsVisited [] = tt
  packets-IsVisited (p ∷ ps) = ((λ s. refl, λ topics s k miss. refl), packets-IsVisited ps)

  -- It sets itself up, and again after each reset that it learns of, and does nothing else.
  pub reporting :
      (id : ℕ) (lost lost' vs : List Event) (ks : List ℕ) (fuel : ℕ) (s : SharedConnection)
      (c : SharedClientState) (h : Spawned)
      → Inv s
      → s.heap id ≡ some c
      → c.queue.queue ≡ []
      → c.topics ≡ []
      → length lost + length lost' + length vs < fuel
      → let (o, rest, t) =
          run
            (shared_pump P ec ack)
            (over
              (Shared.serve P id)
              (bind (async_setup J impl h) (λ (err : Error). serving J impl ignore fuel))
              s)
            (record {
              to_come = results (lost ++ (lost' ++ vs)) e;
              schedule = length lost ∷ length lost' ∷ ks;
              asked = [];
            }) in
        (o ≡ returned e)
        × (t.outer ≡ h)
        × (rest.asked
            ≡ replayed
                (suc (caught (is_in id s.clients) (lost ++ lost') + resets_in vs))
                (report_setup discovery payload availability))
  reporting id lost lost' vs ks fuel s c h valid alive drained fresh enough =
      let (ends, final, asked) =
        lives J impl ignore stays P ec ack ok IsDeaf ops completes e bad no_reset configures reports
          set_up-Opens set_up-IsKept id lost lost' vs ks fuel s c h (packets-IsVisited (packets vs))
          valid alive drained fresh enough in
      (ends, final ∙ steps-ignored (packets vs) h, asked)
