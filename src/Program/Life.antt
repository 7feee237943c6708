-- ===== src/Program/Life.antt =====
-- A whole program: an entity over a logical client of a shared connection, while the pump runs, from
-- its setup on.
use hacpp.Base.{
  ℕ, ◌<◌, ◌+◌, ◌≡◌, refl, sym, ap, ◌∙◌, true, false, some, List, [], ◌∷◌, ◌++◌, length, All,
  returned, arith, subst, Bool,
}
use hacpp.Api.{Operation, Result}
use hacpp.Coroutine.Compose.{over}
use hacpp.Coroutine.Run.{run, run-bind_returned}
use hacpp.Entity.{Spawned, Co, M, Impl, bind, async_setup}
use hacpp.Entity.Serving.{steps, serving}
use hacpp.Error.{Platform, Error, failed, is_code, session_reset}
use hacpp.Json.{Json}
use hacpp.Mqtt.{Packet, TopicSubopts}
use hacpp.Shared
use hacpp.Shared.{SharedConnection, SharedClientState}
use hacpp.Shared.Heap.{is_in}
use hacpp.Shared.Invariant.{Inv}
use hacpp.Program.Mailbox.{Mailbox, posts}
use hacpp.Program.Own.{Own, own_ahead, own_connection, attached_own, shared_pump}
use hacpp.Program.Alone.{entity_alone}
use hacpp.Program.Series.{Series, Reduces, resets_of, replayed}
use hacpp.Program.Pending.{pending}
use hacpp.Program.Served.{
  Event, results, packets, resets_in, Restores, Visited, Serves, Keeps, served,
}
use hacpp.Program.Missed.{
  Idle, caught, caught-few, caught-append, posts-Idle, Brings, resets-Brings,
}
use hacpp.Program.Setup.{Accepts, issued, issued-asked, Completes}

module _ (J : Json) (impl : Impl J) (visit : Packet → M (Unit {0}))
    (step : Packet → Spawned → Spawned) (P : Platform) (ec : Error)
    (ack : (op : Operation) → Result op) (ok : Accepts ack) (K : List TopicSubopts → Type 0)
    (ops : List Operation)
    (completes : (n : Own) (s : Spawned) → Completes P ec ack ok ops n s (async_setup J impl s))
    (e : Error) (bad : failed e ≡ true) (no_reset : is_code e session_reset ≡ false) where
  abbrev IsVisited : Packet → Type 0
  IsVisited = Visited J impl visit P ec ack K step

  abbrev set_up : Own → Own
  set_up = issued P ec ack ops

  abbrev IsServed : Own → Type 0
  IsServed = Serves J impl visit P ec ack K step e ops

  -- The connection after the two first awaits, where these operations are requested.
  abbrev pub begun : Operation → Operation → Own → Own
  begun op op' n = own_ahead P ec ack op' (own_ahead P ec ack op n)

  -- A setup of an entity with no topics loses nothing after its two first awaits.
  abbrev pub Opens : Operation → Operation → Type 0
  Opens op op' =
      (n : Own)
      → (begun op op' n).mailbox.topics ≡ []
      → Series IsVisited e (pending (begun op op' n))
      → IsServed (attached_own P ec ack (set_up n))
        × Reduces step (pending (begun op op' n)) (pending (set_up n))

  -- An entity whose mailbox is idle, and whose pump makes rounds at its two first awaits for the
  -- events that it misses.
  abbrev pub missing : Mailbox → List Event → List Event → List Event → List ℕ → Own
  missing b lost lost' vs ks = record {
    mailbox = b;
    feed = record {
      to_come = results (lost ++ (lost' ++ vs)) e;
      schedule = length lost ∷ length lost' ∷ ks;
      asked = [];
    };
  }

  module _ (op op' : Operation) (opens : Opens op op')
      (keeps : (n : Own) → IsServed n → Keeps J impl visit P ec ack K step e ops n (set_up n)) where
    setup-Restores : Restores J impl visit P ec ack K step e ops
    setup-Restores n s due =
        let (err, runs, fine) = completes n s in
        (err, set_up n, runs, fine, issued-asked P ec ack ops n, keeps n due)

    abbrev whole : ℕ → Spawned → Co Error
    whole fuel h = bind (async_setup J impl h) (λ (err : Error). serving J impl visit fuel)

    missing-Idle :
        (on : Bool) (b : Mailbox) (lost lost' vs : List Event) (ks : List ℕ)
        → Idle on 0 b
        → let n = begun op op' (missing b lost lost' vs ks) in
          (n.feed.to_come ≡ results vs e) × Idle on (0 + caught on lost + caught on lost') n.mailbox
    missing-Idle on b lost lost' vs ks idle =
        let (same, idle') = posts-Idle on 0 lost (lost' ++ vs) e b idle in
        let b' = (posts (length lost) (results (lost ++ (lost' ++ vs)) e) b).1 in
        subst
          (λ rs.
            let (rs', b'') = posts (length lost') rs b' in
            (rs' ≡ results vs e) × Idle on (0 + caught on lost + caught on lost') b'')
          (sym same) (posts-Idle on (0 + caught on lost) lost' vs e b' idle')

    own_run :
        (on : Bool) (b : Mailbox) (lost lost' vs : List Event) (ks : List ℕ) (fuel : ℕ)
        (h : Spawned)
        → Idle on 0 b
        → All IsVisited (packets vs)
        → length lost + length lost' + length vs < fuel
        → let (o, n, t) =
            run (own_connection P ec ack) (whole fuel h) (missing b lost lost' vs ks) in
          (o ≡ returned e)
          × (t ≡ steps step (packets vs) h)
          × (n.feed.asked ≡ ops ++ replayed (caught on (lost ++ lost') + resets_in vs) ops)
    own_run on b lost lost' vs ks fuel h idle visits enough =
        let n = missing b lost lost' vs ks in
        let n' = begun op op' n in
        let (same, idle') = missing-Idle on b lost lost' vs ks idle in
        let m = n'.mailbox.results in
        let brought = resets-Brings IsVisited e no_reset m vs idle'.only_resets visits in
        let (series, brings, often, size) =
          subst
            (λ rs.
              Brings IsVisited e no_reset (m ++ rs) (packets vs) (length m + resets_in vs)
                (length m + length vs))
            (sym same) brought in
        let (due, a) = opens n idle'.no_topics series in
        let (err, runs, fine) = completes n h in
        let (ends, final, asked) =
          served J impl visit P ec ack K step e ops setup-Restores bad no_reset (set_up n) fuel h
            due
            (omega (
              arith,
              a.shorter,
              size,
              idle'.count,
              enough,
              caught-few on lost,
              caught-few on lost',
            )) in
        let as_often : resets_of (pending (set_up n)) ≡ caught on (lost ++ lost') + resets_in vs =
          omega (arith, a.resets, often, idle'.count, caught-append on lost lost') in
        rw
          (run-bind_returned (own_connection P ec ack) (async_setup J impl h)
            (λ err. serving J impl visit fuel) _ _ err h runs)
          (
            ends,
            final ∙ a.same h ∙ ap (λ ps. steps step ps h) brings,
            asked
                ∙ ap (λ l. l ++ replayed (resets_of (pending (set_up n))) ops)
                    (issued-asked P ec ack ops n)
                ∙ ap (λ k. ops ++ replayed k ops) as_often,
          )

    -- It sets itself up, and again after each reset that it learns of, and visits each packet that is
    -- for it, in order, before and after each reset.
    pub lives :
        (id : ℕ) (lost lost' vs : List Event) (ks : List ℕ) (fuel : ℕ) (s : SharedConnection)
        (c : SharedClientState) (h : Spawned)
        → All (Visited J impl visit P ec ack K step) (packets vs)
        → Inv s
        → s.heap id ≡ some c
        → c.queue.queue ≡ []
        → c.topics ≡ []
        → length lost + length lost' + length vs < fuel
        → let (o, rest, t) =
            run
              (shared_pump P ec ack)
              (over
                (Shared.serve P id)
                (bind (async_setup J impl h) (λ (err : Error). serving J impl visit fuel))
                s)
              (record {
                to_come = results (lost ++ (lost' ++ vs)) e;
                schedule = length lost ∷ length lost' ∷ ks;
                asked = [];
              }) in
          (o ≡ returned e)
          × (t.outer ≡ steps step (packets vs) h)
          × (rest.asked
              ≡ ops ++ replayed (caught (is_in id s.clients) (lost ++ lost') + resets_in vs) ops)
    lives id lost lost' vs ks fuel s c h visits valid alive drained fresh enough =
        let on = is_in id s.clients in
        let b : Mailbox = record { results = c.queue.queue; topics = c.topics; attached = on } in
        let idle : Idle on 0 b = record {
          attached = refl;
          no_topics = fresh;
          only_resets = rw drained tt;
          count = rw drained refl;
        } in
        let (ends, final, asked) = own_run on b lost lost' vs ks fuel h idle visits enough in
        let (outcome, rest, handlers) =
          entity_alone P ec ack id (whole fuel h) s c (missing b lost lost' vs ks).feed valid
            alive in
        (outcome ∙ ends, handlers ∙ final, ap (λ f. f.asked) rest ∙ asked)
