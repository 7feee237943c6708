-- ===== src/Shared/Topics.antt =====
-- lib/include/hacpp/shared_mqtt_client.h: the topics of one logical client, and the copies that it
-- is given of a packet.
use hacpp.Base.{
  String, ◌≡◌, refl, ap, ◌∙◌, Bool, false, Option, none, some, List, [], ◌∷◌, any_of, ◌||◌, arith,
  eq_iff, str_eq, if◌then◌else◌, inl, inr, Bool-cases,
}
use hacpp.Mqtt.{TopicSubopts, RecvResult}
use hacpp.Shared.{SharedClientState, register_topic, register_topics, push_matching, push_to}

-- The options registered for a topic.
abbrev pub options_for : String → List TopicSubopts → Option TopicSubopts
options_for topic [] = none
options_for topic (t ∷ ts) = if str_eq t.topic topic then some t else options_for topic ts

-- The last entry for a topic in a request, if there is one, and else what was registered before.
abbrev pub overridden : Option TopicSubopts → String → List TopicSubopts → Option TopicSubopts
overridden old topic [] = old
overridden old topic (t ∷ ts) = overridden (if str_eq t.topic topic then some t else old) topic ts

abbrev pub has_topic : String → List TopicSubopts → Bool
has_topic topic = any_of (λ t. str_eq t.topic topic)

-- No topic is registered twice.
abbrev pub AreDistinct : List TopicSubopts → Type 0
AreDistinct [] = Unit
AreDistinct (t ∷ ts) = (has_topic t.topic ts ≡ false) × AreDistinct ts

options_for-register_topic :
    (topic : String) (t : TopicSubopts) (ts : List TopicSubopts)
    → options_for topic (register_topic t ts)
      ≡ (if str_eq t.topic topic then some t else options_for topic ts)
unfolding register_topic
options_for-register_topic topic t [] = refl
options_for-register_topic topic t (r ∷ rs) = ground (
  arith,
  eq_iff r.topic t.topic,
  eq_iff r.topic topic,
  eq_iff t.topic topic,
  options_for-register_topic topic t rs,
)

-- A subscription leaves, for every topic, the options of its last entry for the topic, and those
-- registered before if it has none.
pub options_for-register_topics :
    (topic : String) (topics registered : List TopicSubopts)
    → options_for topic (register_topics topics registered)
      ≡ overridden (options_for topic registered) topic topics
unfolding register_topics
options_for-register_topics topic [] registered = refl
options_for-register_topics topic (t ∷ ts) registered =
    options_for-register_topics topic ts (register_topic t registered)
    ∙ ap (λ (o : Option TopicSubopts). overridden o topic ts)
        (options_for-register_topic topic t registered)

pub has_topic-register_topic :
    (topic : String) (t : TopicSubopts) (ts : List TopicSubopts)
    → has_topic topic (register_topic t ts) ≡ (str_eq t.topic topic || has_topic topic ts)
unfolding register_topic
has_topic-register_topic topic t [] = refl
has_topic-register_topic topic t (r ∷ rs) = ground (
  arith,
  eq_iff r.topic t.topic,
  eq_iff r.topic topic,
  eq_iff t.topic topic,
  has_topic-register_topic topic t rs,
)

register_topic-AreDistinct :
    (t : TopicSubopts) (ts : List TopicSubopts) → AreDistinct ts → AreDistinct (register_topic t ts)
unfolding register_topic
register_topic-AreDistinct t [] h = (refl, tt)
register_topic-AreDistinct t (r ∷ rs) h = ground (
  arith,
  eq_iff r.topic t.topic,
  eq_iff t.topic r.topic,
  has_topic-register_topic r.topic t rs,
  register_topic-AreDistinct t rs h.1,
)

pub register_topics-AreDistinct :
    (topics registered : List TopicSubopts)
    → AreDistinct registered
    → AreDistinct (register_topics topics registered)
unfolding register_topics
register_topics-AreDistinct [] registered h = h
register_topics-AreDistinct (t ∷ ts) registered h =
    register_topics-AreDistinct ts (register_topic t registered)
      (register_topic-AreDistinct t registered h)

push_matching_absent :
    (r : RecvResult) (topic : String) (ts : List TopicSubopts) (c : SharedClientState)
    → has_topic topic ts ≡ false
    → push_matching r topic ts c ≡ c
unfolding push_matching
push_matching_absent r topic [] c h = refl
push_matching_absent r topic (t ∷ ts) c h = elim (Bool-cases (str_eq t.topic topic)) [
  | inl hit ↦ cc
  | inr miss ↦ rw miss (push_matching_absent r topic ts c (rw miss at h))
]

-- A client whose topics are distinct is given one copy of a packet if it has its topic, else none.
pub push_matching_lem :
    (r : RecvResult) (topic : String) (ts : List TopicSubopts) (c : SharedClientState)
    → AreDistinct ts
    → push_matching r topic ts c ≡ (if has_topic topic ts then push_to r c else c)
unfolding push_matching
push_matching_lem r topic [] c h = refl
push_matching_lem r topic (t ∷ ts) c h = elim (Bool-cases (str_eq t.topic topic)) [
  | inl hit ↦
      rw hit
        (push_matching_absent r topic ts (push_to r c) (rw ((eq_iff t.topic topic).0 hit) at h.0))
  | inr miss ↦ rw miss (push_matching_lem r topic ts c h.1)
]
