-- ===== src/Program/Alone.antt =====
-- A whole program: an entity over a logical client of a shared connection, while the pump runs, next
-- to the same entity over a connection of its own.
use hacpp.Base.{
  ap, ◌∙◌, ℕ, ◌≡◌, refl, sym, true, false, some, List, [], ◌∷◌, ◌++◌, Outcome, Bool-cases, inl, inr,
  subst,
}
use hacpp.Api.{Operation, publishing, subscribing, receiving, closing, Result}
use hacpp.Coroutine.{Coroutine, bind, done, wait}
use hacpp.Coroutine.Run.{run}
use hacpp.Coroutine.Compose.{Layered, on_inner, over}
use hacpp.Error.{Platform, Error, no_error}
use hacpp.Mqtt.{RecvResult}
use hacpp.Shared
use hacpp.Shared.{SharedConnection, SharedClientState, is_nil, register_client}
use hacpp.Shared.Heap.{is_in}
use hacpp.Shared.Invariant.{Inv}
use hacpp.Shared.Clients.{front}
use hacpp.Entity.{Spawned}
use hacpp.Program.Mailbox.{
  taken, Holds, ahead, ahead-Alike, fill, fill-Alike, registered-Holds, detached-Holds,
}
use hacpp.Program.Own.{
  Feed, Own, now, later, shared_pump, own_connection, own_ahead, own_receive, own_wait,
  attached_own,
}
use hacpp.Program.Calls.{
  after_subscribe, subscribe-eq, after_subscribe-Holds, take_front-eq, recv_empty-eq, recv_ready-eq,
  front-ready,
}

module _ (P : Platform) (ec : Error) (ack : (op : Operation) → Result op) (id : ℕ) where
  -- The ends of two runs, over the shared connection and over the entity's own.
  record Same {A : Type 0} (x : Outcome A × Feed × Layered SharedConnection Spawned)
      (y : Outcome A × Own × Spawned) : Type 0 where
    pub outcome : x.0 ≡ y.0
    pub feed : x.1 ≡ y.1.feed
    pub handlers : x.2.outer ≡ y.2
    pub holds : Holds id y.1.mailbox x.2.inner

  -- The entity's coroutine goes on with what a call of its client returns.
  abbrev calls :
      {A B : Type 0}
      → (B → Spawned → Coroutine Result Spawned A)
      → Shared.Co B
      → Spawned
      → Coroutine Shared.Reply (Layered SharedConnection Spawned) A
  unfolding over on_inner bind
  calls k z t = bind (on_inner z t) (λ p u. over (Shared.serve P id) (k p u.outer) u.inner)

  abbrev left : List RecvResult → List Operation → Own → Feed
  left rs asked n = record { to_come = rs; schedule = later n.feed.schedule; asked = asked }

  -- A receive waits on an empty mailbox, and takes the front of any other.
  own_receive-waits :
      (n : Own) → is_nil n.mailbox.results ≡ true → own_receive P ec ack n ≡ own_wait P ec ack n
  own_receive-waits n empty = rw empty refl

  abbrev found : Own → Own
  found n = record n { mailbox = taken n.mailbox }

  own_receive-found :
      (n : Own)
      → is_nil n.mailbox.results ≡ false
      → own_receive P ec ack n ≡ (front P (no_error P) n.mailbox.results, found n)
  own_receive-found n ready = rw (ready, front-ready P ec (no_error P) n.mailbox.results ready) refl

  -- The entity goes on after a receive that returned `w.0` and left its connection at `w.1`.
  abbrev GoesOn :
      {A : Type 0}
      → (RecvResult → Spawned → Coroutine Result Spawned A)
      → SharedConnection
      → Spawned
      → Own
      → RecvResult × Own
      → Type 0
  GoesOn k s t n w =
      (u : SharedConnection) × (run (shared_pump P ec ack) (calls k (Shared.async_recv P id s) t)
          n.feed
        ≡ run (shared_pump P ec ack) (over (Shared.serve P id) (k w.0 t) u) w.1.feed)
      × Holds id w.1.mailbox u

  receive-GoesOn :
      {A : Type 0} (k : RecvResult → Spawned → Coroutine Result Spawned A) (s : SharedConnection)
      (t : Spawned) (n : Own)
      → Holds id n.mailbox s
      → GoesOn k s t n (own_receive P ec ack (attached_own P ec ack n))
  unfolding run over on_inner bind
  receive-GoesOn k s t n h =
      let h' = registered-Holds id n.mailbox s h in
      let v = register_client id s in
      let n' = attached_own P ec ack n in
      let resumes =
        λ (z : Shared.Co RecvResult) (f : Feed). run (shared_pump P ec ack) (calls k z t) f in
      elim (Bool-cases (is_nil n.mailbox.results)) [
        | inl empty ↦
            let rest = fill id (now n.feed.schedule) n.feed.to_come v in
            let (same, filled) = fill-Alike id (now n.feed.schedule) n.feed.to_come _ v h' in
            let (u, gets, h'') = take_front-eq P id ec _ rest.1 filled in
            subst (GoesOn k s t n) (sym (own_receive-waits n' empty)) (
              u,
              ap (λ z. resumes z n.feed) (recv_empty-eq P id n.mailbox s h empty)
                  ∙ ap (λ z. resumes z (left rest.0 n.feed.asked n)) gets
                  ∙ ap
                      (λ rs.
                        run (shared_pump P ec ack)
                          (over (Shared.serve P id) (k (own_wait P ec ack n').0 t) u)
                          (left rs n.feed.asked n))
                      same,
              h'',
            )
        | inr ready ↦
            let (u, gets, h'') = take_front-eq P id (no_error P) _ v h' in
            subst (GoesOn k s t n) (sym (own_receive-found n' ready)) (
              u,
              ap (λ z. resumes z n.feed) (recv_ready-eq P id n.mailbox s h ready)
                  ∙ ap (λ z. resumes z n.feed) gets,
              h'',
            )
      ]

  runs_alike :
      {A : Type 0} (m : Coroutine Result Spawned A) (s : SharedConnection) (n : Own)
      → Holds id n.mailbox s
      → Same
          (run (shared_pump P ec ack) (over (Shared.serve P id) m s) n.feed)
          (run (own_connection P ec ack) m n)
  unfolding run over on_inner bind Shared.serve Shared.async_publish Shared.async_subscribe
      Shared.async_detach
  runs_alike (done o t) s n h = record { outcome = refl; feed = refl; handlers = refl; holds = h }
  runs_alike (wait t (publishing topic payload qos retain) k) s n h =
      let (rest, h') = ahead-Alike id (now n.feed.schedule) n.feed.to_come n.mailbox s h in
      let u = (ahead (now n.feed.schedule) n.feed.to_come s).1 in
      let op : Operation = publishing topic payload qos retain in
      let next = k (ack (publishing topic payload qos retain)) t in
      subst
        (λ rs.
          Same
            (run (shared_pump P ec ack) (over (Shared.serve P id) next u)
              (left rs (n.feed.asked ++ op ∷ []) n))
            (run (own_connection P ec ack) (wait t (publishing topic payload qos retain) k) n))
        (sym rest)
        (runs_alike (k (ack (publishing topic payload qos retain)) t) u
          (own_ahead P ec ack (publishing topic payload qos retain) n) h')
  runs_alike (wait t (subscribing topics) k) s n h =
      let (rest, h') = ahead-Alike id (now n.feed.schedule) n.feed.to_come n.mailbox s h in
      let err : Error = ack (subscribing topics) in
      let u = after_subscribe id topics err (ahead (now n.feed.schedule) n.feed.to_come s).1 in
      let next = k err t in
      subst
        (λ (z : Shared.Co Error).
          Same (run (shared_pump P ec ack) (calls k z t) n.feed)
            (run (own_connection P ec ack) (wait t (subscribing topics) k) n))
        (sym (subscribe-eq id topics s))
        (subst
          (λ rs.
            Same
              (run (shared_pump P ec ack) (over (Shared.serve P id) next u)
                (left rs (n.feed.asked ++ subscribing topics ∷ []) n))
              (run (own_connection P ec ack) (wait t (subscribing topics) k) n))
          (sym rest)
          (runs_alike (k (ack (subscribing topics)) t) u _ (
            after_subscribe-Holds id topics err (own_ahead P ec ack (subscribing topics) n).mailbox
              _ h')))
  runs_alike (wait t closing k) s n h =
      runs_alike (k (no_error P) t) _ _ (detached-Holds id n.mailbox s h)
  runs_alike (wait t receiving k) s n h =
      let (u, same, h') = receive-GoesOn k s t n h in
      subst (λ x. Same x (run (own_connection P ec ack) (wait t receiving k) n)) (sym same)
        (runs_alike (k (own_receive P ec ack (attached_own P ec ack n)).0 t) u _ h')

-- An entity, or any coroutine over the logical client `id`, on a shared connection that meets the
-- invariant and on which the client is alive, whatever other clients there are. At each await of the
-- entity the pump makes as many rounds as the schedule says, on any results of the physical client,
-- and while the entity waits on an empty queue also the rounds up to the first that fills it; the
-- physical client answers all else in any one way for each request. Then the outcome, the results
-- and the schedule left over, the requests made of it and the handlers started are those of a run over a connection of
-- the entity's own with a mailbox, to which each round posts its result, if the entity is on the list
-- and the result is for the topics it registered, and from which each receive takes the oldest.
pub entity_alone :
    (P : Platform) (ec : Error) (ack : (op : Operation) → Result op) (id : ℕ) {A : Type 0}
    (m : Coroutine Result Spawned A) (s : SharedConnection) (c : SharedClientState) (feed : Feed)
    → Inv s
    → s.heap id ≡ some c
    → let (o, rest, t) = run (shared_pump P ec ack) (over (Shared.serve P id) m s) feed in
      let (o', n, handlers) = run (own_connection P ec ack) m (record {
        mailbox = record {
          results = c.queue.queue;
          topics = c.topics;
          attached = is_in id s.clients;
        };
        feed = feed;
      }) in
      (o ≡ o') × (rest ≡ n.feed) × (t.outer ≡ handlers)
entity_alone P ec ack id m s c feed valid alive =
    let n : Own = record {
      mailbox = record {
        results = c.queue.queue;
        topics = c.topics;
        attached = is_in id s.clients;
      };
      feed = feed;
    } in
    let same = runs_alike P ec ack id m s n (record {
      state = c;
      alive = alive;
      queue_same = refl;
      topics_same = refl;
      listed = refl;
      valid = valid;
    }) in
    (same.outcome, same.feed, same.handlers)
