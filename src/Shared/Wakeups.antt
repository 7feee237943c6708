-- ===== src/Shared/Wakeups.antt =====
-- lib/include/hacpp/shared_mqtt_client.h: what one segment of each operation does to the queues and
-- their timers.
use hacpp.Base.{
  ℕ, String, ◌≤◌, ◌<◌, ◌≡◌, ◌≢◌, refl, Option, none, some, is_some, List, [], ◌∷◌, any_of, arith,
  inl, inr, Bool-cases, str_eq, ◌==◌, ==_iff, ◌⊎◌, sym, not, ◌||◌,
}
use hacpp.Mqtt.{RecvResult, TopicSubopts, packet, unexpected, publish, other}
use hacpp.Shared.{
  SharedConnection, SharedClientState, update, put, on_some, push_to, push_back, push_matching,
  register_client, pump_result, locks_to, lock,
}
use hacpp.Shared.Heap.{for_each, forward_error-for_each, dispatch-for_each, matching}

-- A queue that is no longer empty has had its timer cancelled; one that has been written to may be
-- gone later, but an object that is gone stays so.
abbrev pub Woken : Option SharedClientState → Option SharedClientState → Type 0
Woken (some c) (some d) =
    (c.queue.cancels ≤ d.queue.cancels)
    × (c.queue.queue ≡ [] → d.queue.queue ≢ [] → c.queue.cancels < d.queue.cancels)
Woken o none = Unit
Woken none (some d) = ⊥

pub Woken-refl : (o : Option SharedClientState) → Woken o o
Woken-refl none = tt
Woken-refl (some c) = (omega arith, λ e n. absurd (n e))

List-cases : (rs : List RecvResult) → (rs ≡ []) ⊎ (rs ≢ [])
List-cases [] = inl refl
List-cases (r ∷ rs) = inr (λ e. cc)

Woken-trans : (o p q : Option SharedClientState) → Woken o p → Woken p q → Woken o q
Woken-trans (some c) (some d) (some e) g h = (
  omega (arith, g.0, h.0),
  λ was now. elim (List-cases d.queue.queue) [
    | inl empty ↦ omega (arith, g.0, h.1 empty now)
    | inr filled ↦ omega (arith, g.1 was filled, h.0)
  ],
)
Woken-trans (some c) none (some e) g h = absurd h
Woken-trans none (some d) (some e) g h = absurd g
Woken-trans none none (some e) g h = absurd h
Woken-trans o p none g h = tt

-- So for every object that was ever made.
pub record Wakes (s t : SharedConnection) : Type 0 where
  pub grows : s.fresh ≤ t.fresh
  pub object : (id : ℕ) → id < s.fresh → Woken (s.heap id) (t.heap id)

pub Wakes-refl : (s : SharedConnection) → Wakes s s
Wakes-refl s = record { grows = omega arith; object = λ id h. Woken-refl (s.heap id) }

pub Wakes-trans : (s t u : SharedConnection) → Wakes s t → Wakes t u → Wakes s u
Wakes-trans s t u g h = record {
  grows = omega (arith, g.grows, h.grows);
  object = λ id below.
      Woken-trans (s.heap id) (t.heap id) (u.heap id) (g.object id below)
        (h.object id (omega (arith, g.grows)));
}

module _ (f : SharedClientState → SharedClientState)
    (wakes : (c : SharedClientState) → Woken (some c) (some (f c))) where
  pub update-Wakes : (id : ℕ) (s : SharedConnection) → Wakes s (update id f s)
  update-Wakes id s = record {
    grows = omega arith;
    object = λ j below. elim (Bool-cases (id == j)) [
      | inl hit ↦ rw (hit, (==_iff id j).0 hit) (written (s.heap j))
      | inr miss ↦ rw miss (Woken-refl (s.heap j))
    ];
  }
    where
      written : (o : Option SharedClientState) → Woken o (on_some f o)
      written none = tt
      written (some c) = wakes c

  pub for_each-Wakes : (ids : List ℕ) (s : SharedConnection) → Wakes s (for_each f ids s)
  unfolding for_each
  for_each-Wakes [] s = Wakes-refl s
  for_each-Wakes (id ∷ ids) s =
      Wakes-trans s (update id f s) _ (update-Wakes id s) (for_each-Wakes ids (update id f s))

push_to-Woken : (r : RecvResult) (c : SharedClientState) → Woken (some c) (some (push_to r c))
unfolding push_back
push_to-Woken r c = (omega arith, λ was now. omega arith)

push_matching-Woken :
    (r : RecvResult) (topic : String) (ts : List TopicSubopts) (c : SharedClientState)
    → Woken (some c) (some (push_matching r topic ts c))
unfolding push_matching
push_matching-Woken r topic [] c = Woken-refl (some c)
push_matching-Woken r topic (t ∷ ts) c = elim (Bool-cases (str_eq t.topic topic)) [
  | inl hit ↦
      rw (push_matching, hit)
        (Woken-trans (some c) (some (push_to r c)) (some (push_matching r topic ts (push_to r c)))
          (push_to-Woken r c) (push_matching-Woken r topic ts (push_to r c)))
  | inr miss ↦ rw (push_matching, miss) (push_matching-Woken r topic ts c)
]

pub pump_result-Wakes : (r : RecvResult) (s : SharedConnection) → Wakes s (pump_result r s)
unfolding pump_result
pump_result-Wakes (unexpected err) s =
    rw forward_error-for_each
      (for_each-Wakes (push_to (unexpected err)) (push_to-Woken (unexpected err)) s.clients s)
pump_result-Wakes (packet (publish p)) s = rw dispatch-for_each (
    for_each-Wakes (matching (packet (publish p)) p.topic)
      (λ c. push_matching-Woken (packet (publish p)) p.topic c.topics c) s.clients s)
pump_result-Wakes (packet (other kind)) s = Wakes-refl s

-- What does not write to the heap.
pub same_heap-Wakes : (s t : SharedConnection) → t.heap ≡ s.heap → t.fresh ≡ s.fresh → Wakes s t
same_heap-Wakes s t heap fresh = record {
  grows = omega (arith, fresh);
  object = λ id below. rw heap (Woken-refl (s.heap id));
}

pub register_client-Wakes : (id : ℕ) (s : SharedConnection) → Wakes s (register_client id s)
unfolding register_client
register_client-Wakes id s =
    elim (Bool-cases (not (is_some (lock s id)) || any_of (locks_to s id) s.clients)) [
      | inl known ↦ rw known (Wakes-refl s)
      | inr new ↦ rw new (same_heap-Wakes s _ refl refl)
    ]

pub put-Wakes :
    (s : SharedConnection) (id fresh : ℕ) (o : Option SharedClientState)
    → s.fresh ≤ fresh
    → (id < s.fresh → Woken (s.heap id) o)
    → Wakes s (record s { heap = put s.heap id o; fresh = fresh })
put-Wakes s id fresh o le h = record {
  grows = le;
  object = λ j below. elim (Bool-cases (id == j)) [
    | inl hit ↦ rw (hit, sym ((==_iff id j).0 hit)) (h (omega (arith, (==_iff id j).0 hit)))
    | inr miss ↦ rw miss (Woken-refl (s.heap j))
  ];
}
