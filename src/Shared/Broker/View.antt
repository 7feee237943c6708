-- ===== src/Shared/Broker/View.antt =====
-- lib/include/hacpp/shared_mqtt_client.h: what the specification sees of a shared connection, and what
-- it sees each of the changes to its clients' objects do.
use mathlib.Core.List.{tail}
use hacpp.Base.{
  ℕ, String, ◌≡◌, refl, sym, ap, fun_ext, ◌∙◌, Option, none, some, is_some, List, [], ◌∷◌, ◌==◌,
  ◌&&◌, arith, Bool-cases, inl, inr, if◌then◌else◌,
}
use hacpp.Mqtt.{TopicSubopts, RecvResult, packet, unexpected, publish, other}
use hacpp.Shared.{
  SharedConnection, SharedClientState, update, on_some, push_back, drop_front, register_topics,
  pump_result, items_of,
}
use hacpp.Shared.Topics.{options_for, has_topic, options_for-register_topics}
use hacpp.Shared.Heap.{is_in}
use hacpp.Shared.Invariant.{Inv}
use hacpp.Shared.Delivery.{wants, give, pump_result-gives}
use hacpp.Shared.Clients.{update-if}
use hacpp.Shared.Broker.{
  Mailbox, Broker, on_mailbox, is_for, post, deliver, at_mailbox, enroll, results_of, rest_of,
  drop_result,
}

abbrev pub mailbox_of : SharedClientState → Mailbox
mailbox_of c = record { results = c.queue.queue; options = λ topic. options_for topic c.topics }

abbrev pub mailbox_of_some : Option SharedClientState → Option Mailbox
mailbox_of_some none = none
mailbox_of_some (some c) = some (mailbox_of c)

-- A client is attached if it is listed and alive.
abbrev pub view : SharedConnection → Broker
view s = record {
  mailbox = λ j. mailbox_of_some (s.heap j);
  attached = λ j. is_some (s.heap j) && is_in j s.clients;
  made = s.fresh;
}

pub broker-eq :
    (a b : Broker)
    → ((j : ℕ) → a.mailbox j ≡ b.mailbox j)
    → ((j : ℕ) → a.attached j ≡ b.attached j)
    → a.made ≡ b.made
    → a ≡ b
broker-eq a b m t n = λ i. record { mailbox = fun_ext m i; attached = fun_ext t i; made = n i }

pub is_some-mailbox_of : (o : Option SharedClientState) → is_some (mailbox_of_some o) ≡ is_some o
is_some-mailbox_of none = refl
is_some-mailbox_of (some c) = refl

is_some-on_some :
    (f : SharedClientState → SharedClientState) (o : Option SharedClientState)
    → is_some (on_some f o) ≡ is_some o
is_some-on_some f none = refl
is_some-on_some f (some c) = refl

pub items-results : (o : Option SharedClientState) → items_of o ≡ results_of (mailbox_of_some o)
items-results none = refl
items-results (some c) = refl

-- A write to an object, seen as one to its mailbox.
module _ (f : SharedClientState → SharedClientState) (g : Mailbox → Mailbox)
    (same : (c : SharedClientState) → mailbox_of (f c) ≡ g (mailbox_of c)) where
  mailbox_of-on_some :
      (o : Option SharedClientState)
      → mailbox_of_some (on_some f o) ≡ on_mailbox g (mailbox_of_some o)
  mailbox_of-on_some none = refl
  mailbox_of-on_some (some c) = ap some (same c)

  pub view-update :
      (id : ℕ) (s : SharedConnection) → view (update id f s) ≡ at_mailbox id g (view s)
  view-update id s =
      broker-eq _ _
        (λ j. ap mailbox_of_some (update-if f id s j) ∙ elim (Bool-cases (id == j)) [
          | inl hit ↦ rw hit (mailbox_of-on_some (s.heap j))
          | inr miss ↦ rw miss refl
        ])
        (λ j.
          ap (λ o. is_some o && is_in j s.clients) (update-if f id s j)
          ∙ elim (Bool-cases (id == j)) [
            | inl hit ↦ rw hit (rw (is_some-on_some f (s.heap j)) refl)
            | inr miss ↦ rw miss refl
          ])
        refl

tail-rest : (l : List RecvResult) → tail l ≡ rest_of l
tail-rest [] = refl
tail-rest (r ∷ rs) = refl

drop-same : (c : SharedClientState) → mailbox_of (drop_front c) ≡ drop_result (mailbox_of c)
drop-same c = rw (tail-rest c.queue.queue) refl

pub view-drop_front :
    (id : ℕ) (s : SharedConnection)
    → view (update id drop_front s) ≡ at_mailbox id drop_result (view s)
view-drop_front = view-update drop_front drop_result drop-same

pub view-register_topics :
    (topics : List TopicSubopts) (id : ℕ) (s : SharedConnection)
    → view (update id (λ c. record c { topics = register_topics topics c.topics }) s)
      ≡ at_mailbox id (enroll topics) (view s)
view-register_topics topics = view-update _ (enroll topics) (λ c i. record {
  results = c.queue.queue;
  options = fun_ext (λ topic. options_for-register_topics topic topics c.topics) i;
})

has-options :
    (topic : String) (ts : List TopicSubopts) → has_topic topic ts ≡ is_some (options_for topic ts)
has-options topic [] = refl
has-options topic (t ∷ ts) = ground (arith, has-options topic ts)

wants-is_for :
    (r : RecvResult) (ts : List TopicSubopts)
    → wants r ts ≡ is_for r (λ topic. options_for topic ts)
wants-is_for (unexpected err) ts = refl
wants-is_for (packet (publish p)) ts = has-options p.topic ts
wants-is_for (packet (other kind)) ts = refl

give-post : (r : RecvResult) (c : SharedClientState) → mailbox_of (give r c) ≡ post r (mailbox_of c)
unfolding push_back
give-post r c =
    rw (sym (wants-is_for r c.topics))
      elim (Bool-cases (wants r c.topics)) [ inl hit ↦ rw hit refl | inr miss ↦ rw miss refl ]

pub view-pump_result :
    (r : RecvResult) (s : SharedConnection) → Inv s → view (pump_result r s) ≡ deliver r (view s)
view-pump_result r s v =
    broker-eq (view (pump_result r s)) (deliver r (view s))
      (λ j. ap mailbox_of_some (pump_result-gives r s j v).0 ∙ given j (s.heap j))
      (λ j. rw ((pump_result-gives r s j v).0, (pump_result-gives r s j v).1) (alive j (s.heap j)))
      (pump_result-gives r s 0 v).2
  where
    given :
        (j : ℕ) (o : Option SharedClientState)
        → mailbox_of_some (if is_in j s.clients then on_some (give r) o else o) ≡ (
            if is_some o && is_in j s.clients
            then on_mailbox (post r) (mailbox_of_some o)
            else mailbox_of_some o)
    given j none = ground arith
    given j (some c) = elim (Bool-cases (is_in j s.clients)) [
      | inl hit ↦ rw hit (ap some (give-post r c))
      | inr miss ↦ rw miss refl
    ]

    alive :
        (j : ℕ) (o : Option SharedClientState)
        → (is_some (if is_in j s.clients then on_some (give r) o else o) && is_in j s.clients)
          ≡ (is_some o && is_in j s.clients)
    alive j none = ground arith
    alive j (some c) = ground arith
