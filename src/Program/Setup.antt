-- ===== src/Program/Setup.antt =====
-- A whole program: the setup of an entity over a connection of its own that accepts its requests.
use mathlib.Core.List.{append_assoc, append-nil}
use hacpp.Base.{
  ◌∙◌, ◌++◌, ◌≡◌, refl, sym, String, Bool, true, false, List, [], ◌∷◌, returned, if◌then◌else◌,
}
use hacpp.Api.{Operation, publishing, subscribing, receiving, closing, Result}
use hacpp.Coroutine.Run.{run}
use hacpp.Entity.{Spawned, Co, done, wait}
use hacpp.Entity.Setup.{Issues}
use hacpp.Error.{Platform, Error, failed}
use hacpp.Mqtt.{QoS, TopicSubopts}
use hacpp.Shared.{register_topics}
use hacpp.Program.Own.{Own, own_ahead, own_connection}

-- Every publish and every subscription is acknowledged without an error.
abbrev pub Accepts : ((op : Operation) → Result op) → Type 0
Accepts ack =
    ((topic payload : String) (qos : QoS) (retain : Bool)
      → failed (ack (publishing topic payload qos retain)) ≡ false)
    × ((topics : List TopicSubopts) → failed (ack (subscribing topics)) ≡ false)

module _ (P : Platform) (ec : Error) (ack : (op : Operation) → Result op) where
  abbrev pub enrolled : List TopicSubopts → Own → Own
  enrolled asked n = record n {
    mailbox = record {
      results = n.mailbox.results;
      topics = register_topics asked n.mailbox.topics;
      attached = true;
    };
  }

  -- The connection after these operations, none of which fails.
  abbrev pub issued : List Operation → Own → Own
  issued [] n = n
  issued (subscribing asked ∷ ops) n =
      issued ops (enrolled asked (own_ahead P ec ack (subscribing asked) n))
  issued (op ∷ ops) n = issued ops (own_ahead P ec ack op n)

  pub issued-asked :
      (ops : List Operation) (n : Own) → (issued ops n).feed.asked ≡ n.feed.asked ++ ops
  issued-asked [] n = sym (append-nil n.feed.asked)
  issued-asked (subscribing asked ∷ ops) n =
      issued-asked ops (enrolled asked (own_ahead P ec ack (subscribing asked) n))
      ∙ append_assoc n.feed.asked (subscribing asked ∷ []) ops
  issued-asked (publishing topic payload qos retain ∷ ops) n =
      issued-asked ops (own_ahead P ec ack (publishing topic payload qos retain) n)
      ∙ append_assoc n.feed.asked (publishing topic payload qos retain ∷ []) ops
  issued-asked (receiving ∷ ops) n =
      issued-asked ops (own_ahead P ec ack receiving n)
      ∙ append_assoc n.feed.asked (receiving ∷ []) ops
  issued-asked (closing ∷ ops) n =
      issued-asked ops (own_ahead P ec ack closing n) ∙ append_assoc n.feed.asked (closing ∷ []) ops

module _ (P : Platform) (ec : Error) (ack : (op : Operation) → Result op) (ok : Accepts ack) where
  -- Where a setup ends that issues these operations: with no error, and no handler started.
  abbrev pub Completes : List Operation → Own → Spawned → Co Error → Type 0
  Completes ops n s m =
      (err : Error) × (run (own_connection P ec ack) m n ≡ (returned err, issued P ec ack ops n, s))
      × (failed err ≡ false)

  accepted :
      (err : Error) (s : Spawned) (ops : List Operation) (m : Co Error)
      → failed err ≡ false
      → (if failed err then m ≡ done (returned err) s else Issues err s ops m)
      → Issues err s ops m
  accepted err s ops m fine h = rw fine at h

  pub Issues-run :
      (last : Error) (s : Spawned) (ops : List Operation) (m : Co Error) (n : Own)
      → failed last ≡ false
      → Issues last s ops m
      → Completes ops n s m
  unfolding run
  Issues-run last s [] m n fine h = (last, rw h refl, fine)
  Issues-run last s (op ∷ ops) (done o t) n fine h = absurd h
  Issues-run last s (op ∷ ops) (wait t receiving k) n fine h = absurd h
  Issues-run last s (op ∷ ops) (wait t closing k) n fine h = absurd h
  Issues-run last s (op ∷ ops) (wait t (publishing topic payload qos retain) k) n fine (e, f, h) =
      let err : Error = ack (publishing topic payload qos retain) in
      let fine' = ok.0 topic payload qos retain in
      rw (e, sym f)
        (Issues-run err s ops (k err s) (own_ahead P ec ack (publishing topic payload qos retain) n)
          fine' (accepted err s ops (k err s) fine' (h err s)))
  Issues-run last s (op ∷ ops) (wait t (subscribing asked) k) n fine (e, f, h) =
      let err : Error = ack (subscribing asked) in
      let fine' = ok.1 asked in
      rw (e, sym f, fine')
        (Issues-run err s ops (k err s)
          (enrolled P ec ack asked (own_ahead P ec ack (subscribing asked) n)) fine'
          (accepted err s ops (k err s) fine' (h err s)))
