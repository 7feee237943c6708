-- ===== src/Shared/Invariant.antt =====
-- lib/include/hacpp/shared_mqtt_client.h: what every operation keeps of a shared connection.
use mathlib.Core.Option.{some-injective}
use hacpp.Base.{
  str_eq, ==_iff, ℕ, ◌≤◌, ◌<◌, suc, String, ◌≡◌, refl, ◌∙◌, sym, Bool, true, false, Option, none,
  some, is_some, List, [], ◌∷◌, ◌++◌, any_of, erase_if, ◌==◌, ◌||◌, arith, if◌then◌else◌, All, inl,
  inr, Bool-cases,
}
use hacpp.Mqtt.{RecvResult, TopicSubopts, packet, unexpected, publish, other}
use hacpp.Shared.{
  SharedConnection, SharedClientState, update, put, on_some, push_to, push_matching, locks_to,
  register_client, pump_result, initial,
}
use hacpp.Shared.Topics.{AreDistinct}
use hacpp.Shared.Heap.{
  is_in, Distinct, for_each, forward_error-for_each, dispatch-for_each, matching,
}

pub record Inv (s : SharedConnection) : Type 0 where
  -- Numbers not given out yet name no object.
  pub dead : (id : ℕ) → s.fresh ≤ id → s.heap id ≡ none
  pub below : All (λ id. id < s.fresh) s.clients
  pub distinct : Distinct s.clients
  pub topics : (id : ℕ) (c : SharedClientState) → s.heap id ≡ some c → AreDistinct c.topics

pub initial-Inv : Inv initial
initial-Inv = record { dead = λ id h. refl; below = tt; distinct = tt; topics = λ id c e. cc }

pub is_in-append :
    (id : ℕ) (ids : List ℕ) (j : ℕ) → is_in j (ids ++ id ∷ []) ≡ (is_in j ids || id == j)
is_in-append id [] j = ground arith
is_in-append id (i ∷ ids) j = ground (arith, is_in-append id ids j)

Distinct-append :
    (id : ℕ) (ids : List ℕ) → is_in id ids ≡ false → Distinct ids → Distinct (ids ++ id ∷ [])
Distinct-append id [] h d = (refl, tt)
Distinct-append id (i ∷ ids) h d = ground (arith, is_in-append id ids i, Distinct-append id ids)

All-append :
    (n id : ℕ) (ids : List ℕ) → id < n → All (λ i. i < n) ids → All (λ i. i < n) (ids ++ id ∷ [])
All-append n id [] h a = (h, tt)
All-append n id (i ∷ ids) h a = (a.0, All-append n id ids h a.1)

pub any_of-locks_to :
    (s : SharedConnection) (id : ℕ) (ids : List ℕ)
    → is_some (s.heap id) ≡ true
    → any_of (locks_to s id) ids ≡ is_in id ids
any_of-locks_to s id [] h = refl
any_of-locks_to s id (i ∷ ids) h = elim (Bool-cases (i == id)) [
  | inl same ↦ rw ((==_iff i id).0 same) (ground arith)
  | inr differ ↦ ground (arith, any_of-locks_to s id ids)
]

module _ (p : ℕ → Bool) where
  pub is_in-erase_if :
      (ids : List ℕ) (j : ℕ) → is_in j ids ≡ false → is_in j (erase_if p ids) ≡ false
  is_in-erase_if [] j h = refl
  is_in-erase_if (i ∷ ids) j h = ground (arith, is_in-erase_if ids j)

  Distinct-erase_if : (ids : List ℕ) → Distinct ids → Distinct (erase_if p ids)
  Distinct-erase_if [] d = tt
  Distinct-erase_if (i ∷ ids) d = ground (arith, is_in-erase_if ids i, Distinct-erase_if ids d.1)

  All-erase_if : (n : ℕ) (ids : List ℕ) → All (λ i. i < n) ids → All (λ i. i < n) (erase_if p ids)
  All-erase_if n [] a = tt
  All-erase_if n (i ∷ ids) a = ground (arith, All-erase_if n ids a.1)

  pub erase_if-Inv :
      (s : SharedConnection) → Inv s → Inv (record s { clients = erase_if p s.clients })
  erase_if-Inv s v = record {
    dead = v.dead;
    below = All-erase_if s.fresh s.clients v.below;
    distinct = Distinct-erase_if s.clients v.distinct;
    topics = v.topics;
  }

append-Inv :
    (id : ℕ) (s : SharedConnection)
    → Inv s
    → is_some (s.heap id) ≡ true
    → is_in id s.clients ≡ false
    → Inv (record s { clients = s.clients ++ id ∷ [] })
append-Inv id s v alive new = record {
  dead = v.dead;
  below = All-append s.fresh id s.clients (ground (arith, v.dead id)) v.below;
  distinct = Distinct-append id s.clients new v.distinct;
  topics = v.topics;
}

pub register_client-Inv : (id : ℕ) (s : SharedConnection) → Inv s → Inv (register_client id s)
unfolding register_client
register_client-Inv id s v = elim (Bool-cases (is_some (s.heap id))) [
  | inl alive ↦ elim (Bool-cases (any_of (locks_to s id) s.clients)) [
    | inl known ↦ rw (alive, known) v
    | inr new ↦
        rw (alive, new) (append-Inv id s v alive (sym (any_of-locks_to s id s.clients alive) ∙ new))
  ]
  | inr gone ↦ rw gone v
]

module _ (f : SharedClientState → SharedClientState)
    (keeps : (c : SharedClientState) → AreDistinct c.topics → AreDistinct (f c).topics) where
  written :
      (o : Option SharedClientState) (c : SharedClientState)
      → ((b : SharedClientState) → o ≡ some b → AreDistinct b.topics)
      → on_some f o ≡ some c
      → AreDistinct c.topics
  written none c h e = cc
  written (some b) c h e = rw (sym (some-injective (f b) c e)) (keeps b (h b refl))

  pub update-Inv : (id : ℕ) (s : SharedConnection) → Inv s → Inv (update id f s)
  update-Inv id s v = record {
    dead = λ j h. ground (arith, v.dead j h);
    below = v.below;
    distinct = v.distinct;
    topics = λ j c e. elim (Bool-cases (id == j)) [
      | inl hit ↦ written (s.heap id) c (v.topics id) (rw hit at e)
      | inr miss ↦ v.topics j c (rw miss at e)
    ];
  }

  pub for_each-Inv : (ids : List ℕ) (s : SharedConnection) → Inv s → Inv (for_each f ids s)
  unfolding for_each
  for_each-Inv [] s v = v
  for_each-Inv (id ∷ ids) s v = for_each-Inv ids (update id f s) (update-Inv id s v)

All-weaken : (n : ℕ) (ids : List ℕ) → All (λ i. i < n) ids → All (λ i. i < suc n) ids
All-weaken n [] a = tt
All-weaken n (i ∷ ids) a = (omega arith, All-weaken n ids a.1)

abbrev pub new_state : SharedClientState
new_state = record { queue = record { queue = []; cancels = 0 }; topics = [] }

put-topics :
    (s : SharedConnection) (id : ℕ) (o : Option SharedClientState)
    → Inv s
    → ((c : SharedClientState) → o ≡ some c → AreDistinct c.topics)
    → (j : ℕ) (c : SharedClientState) → put s.heap id o j ≡ some c
    → AreDistinct c.topics
put-topics s id o v h j c e = elim (Bool-cases (id == j)) [
  | inl hit ↦ h c (rw hit at e)
  | inr miss ↦ v.topics j c (rw miss at e)
]

pub make-Inv :
    (s : SharedConnection)
    → Inv s
    → Inv (record s { heap = put s.heap s.fresh (some new_state); fresh = suc s.fresh })
make-Inv s v = record {
  dead = λ id h. ground (arith, v.dead id);
  below = All-weaken s.fresh s.clients v.below;
  distinct = v.distinct;
  topics =
      put-topics s s.fresh (some new_state) v (λ c e. rw (sym (some-injective new_state c e)) tt);
}

pub destroy-Inv :
    (id : ℕ) (s : SharedConnection) → Inv s → Inv (record s { heap = put s.heap id none })
destroy-Inv id s v = record {
  dead = λ j h. ground (arith, v.dead j);
  below = v.below;
  distinct = v.distinct;
  topics = put-topics s id none v (λ c e. cc);
}

pub push_matching-topics :
    (r : RecvResult) (topic : String) (ts : List TopicSubopts) (c : SharedClientState)
    → (push_matching r topic ts c).topics ≡ c.topics
unfolding push_matching
push_matching-topics r topic [] c = refl
push_matching-topics r topic (t ∷ ts) c =
    push_matching-topics r topic ts (if str_eq t.topic topic then push_to r c else c) ∙ ground arith

-- What the pump does with a result keeps the invariant.
pub pump_result-Inv : (r : RecvResult) (s : SharedConnection) → Inv s → Inv (pump_result r s)
unfolding pump_result
pump_result-Inv (unexpected err) s v =
    rw forward_error-for_each (for_each-Inv (push_to (unexpected err)) (λ c d. d) s.clients s v)
pump_result-Inv (packet (publish p)) s v = rw dispatch-for_each (
    for_each-Inv (matching (packet (publish p)) p.topic)
      (λ c d. rw (push_matching-topics (packet (publish p)) p.topic c.topics c) d) s.clients s v)
pump_result-Inv (packet (other kind)) s v = v
