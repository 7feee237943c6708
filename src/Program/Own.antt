-- ===== src/Program/Own.antt =====
-- A whole program: an entity over a logical client of a shared connection whose pump runs, and over a
-- connection of its own with a mailbox.
use hacpp.Base.{ℕ, zero, List, [], ◌∷◌, ◌++◌, if◌then◌else◌, true, false}
use hacpp.Api.{Operation, publishing, subscribing, receiving, closing, Result}
use hacpp.Coroutine.Compose.{Layered}
use hacpp.Coroutine.Run.{Env}
use hacpp.Entity.{Spawned}
use hacpp.Error.{Platform, Error, failed, no_error}
use hacpp.Mqtt.{RecvResult}
use hacpp.Shared
use hacpp.Shared.{SharedConnection, client, connect_client, queue_timer, is_nil, register_topics}
use hacpp.Shared.Clients.{front}
use hacpp.Program.Mailbox.{Mailbox, ahead, fill, posts, posts_fill, taken}

-- The results that the physical client yields, how many rounds the pump makes at each await of the
-- entity, whether or not anyone waits for their results, and what the physical client was asked for.
pub record Feed : Type 0 where
  pub to_come : List RecvResult
  pub schedule : List ℕ
  pub asked : List Operation

abbrev pub now : List ℕ → ℕ
now [] = zero
now (k ∷ ks) = k

abbrev pub later : List ℕ → List ℕ
later [] = []
later (k ∷ ks) = ks

pub record Own : Type 0 where
  pub mailbox : Mailbox
  pub feed : Feed

module _ (P : Platform) (ec : Error) (ack : (op : Operation) → Result op) where
  -- The other coroutine is the pump, which follows the schedule and makes more rounds while the entity
  -- waits on an empty queue. The physical client answers everything else by `ack`.
  abbrev pub shared_answer :
      (q : Shared.Request)
      → Feed
      → Layered SharedConnection Spawned
      → Shared.Reply q × Feed × Layered SharedConnection Spawned
  shared_answer (client op) f s =
      let (rest, t) = ahead (now f.schedule) f.to_come s.inner in
      (
        ack op,
        record { to_come = rest; schedule = later f.schedule; asked = f.asked ++ op ∷ [] },
        record { inner = t; outer = s.outer },
      )
  shared_answer connect_client f s = (ec, f, s)
  shared_answer (queue_timer id) f s =
      let (rest, t) = fill id (now f.schedule) f.to_come s.inner in
      (
        ec,
        record { to_come = rest; schedule = later f.schedule; asked = f.asked },
        record { inner = t; outer = s.outer },
      )

  abbrev pub shared_pump : Env Shared.Reply (Layered SharedConnection Spawned)
  shared_pump = record { Net = Feed; answer = shared_answer }

  -- What a receive does that finds its mailbox empty.
  abbrev pub own_wait : Own → RecvResult × Own
  own_wait n =
      let (rest, b) = posts_fill (now n.feed.schedule) n.feed.to_come n.mailbox in
      (
        front P ec b.results,
        record {
          mailbox = taken b;
          feed = record { to_come = rest; schedule = later n.feed.schedule; asked = n.feed.asked };
        },
      )

  abbrev pub own_receive : Own → RecvResult × Own
  own_receive n =
      let found : RecvResult × Own =
        (front P ec n.mailbox.results, record n { mailbox = taken n.mailbox }) in
      let waited = own_wait n in if is_nil n.mailbox.results then waited else found

  -- A request of the physical client, and the rounds that the pump makes meanwhile.
  abbrev pub own_ahead : Operation → Own → Own
  own_ahead op n =
      let (rest, b) = posts (now n.feed.schedule) n.feed.to_come n.mailbox in
      record {
        mailbox = b;
        feed = record {
          to_come = rest;
          schedule = later n.feed.schedule;
          asked = n.feed.asked ++ op ∷ [];
        };
      }

  abbrev pub attached_own : Own → Own
  attached_own n = record n { mailbox = record (n.mailbox) { attached = true } }

  abbrev pub own_answer : (op : Operation) → Own → Spawned → Result op × Own × Spawned
  own_answer (publishing topic payload qos retain) n s = (
    ack (publishing topic payload qos retain),
    own_ahead (publishing topic payload qos retain) n,
    s,
  )
  own_answer (subscribing topics) n s =
      let err : Error = ack (subscribing topics) in
      let m = own_ahead (subscribing topics) n in
      let b : Mailbox = record {
        results = m.mailbox.results;
        topics = register_topics topics m.mailbox.topics;
        attached = true;
      } in
      (err, record m { mailbox = if failed err then m.mailbox else b }, s)
  own_answer receiving n s = let (r, m) = own_receive (attached_own n) in (r, m, s)
  own_answer closing n s =
      (no_error P, record n { mailbox = record (n.mailbox) { attached = false } }, s)

  abbrev pub own_connection : Env Result Spawned
  own_connection = record { Net = Own; answer = own_answer }
