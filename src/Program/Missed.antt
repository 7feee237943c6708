-- ===== src/Program/Missed.antt =====
-- A whole program: the rounds of the pump before an entity has subscribed to any topic.
use hacpp.Base.{
  Bool, true, if◌then◌else◌, ◌∙◌, subst, ℕ, suc, ◌≤◌, ◌+◌, ◌&&◌, ◌≡◌, refl, ap, false, List, [],
  ◌∷◌, ◌++◌, length, All, inl, inr, arith, length-append,
}
use hacpp.Error.{Error, is_code, make_error_code, session_reset}
use hacpp.Mqtt.{RecvResult, Packet, packet, publish, other, unexpected}
use hacpp.Shared.Delivery.{wants}
use hacpp.Program.Mailbox.{Mailbox, posted, posts}
use hacpp.Program.Series.{packets_of, Series, resets_of, resets_of-reset}
use hacpp.Program.Served.{Event, arrives, resets, results, packets, result_of, resets_in}

-- Only resets of the session.
abbrev pub AreResets : List RecvResult → Type 0
AreResets = All (λ r. r ≡ unexpected (make_error_code session_reset))

AreResets-append : (rs rs' : List RecvResult) → AreResets rs → AreResets rs' → AreResets (rs ++ rs')
AreResets-append [] rs' h h' = h'
AreResets-append (r ∷ rs) rs' h h' = (h.0, AreResets-append rs rs' h.1 h')

-- The resets of which an entity learns that is on the list, or not.
abbrev pub caught : Bool → List Event → ℕ
caught on vs = if on then resets_in vs else 0

pub resets_in-few : (vs : List Event) → resets_in vs ≤ length vs
resets_in-few [] = omega arith
resets_in-few (arrives p ∷ vs) = omega (arith, resets_in-few vs)
resets_in-few (resets ∷ vs) = omega (arith, resets_in-few vs)

pub caught-few : (on : Bool) (vs : List Event) → caught on vs ≤ length vs
caught-few true vs = resets_in-few vs
caught-few false vs = omega arith

resets_in-append : (vs vs' : List Event) → resets_in (vs ++ vs') ≡ resets_in vs + resets_in vs'
resets_in-append [] vs' = omega arith
resets_in-append (arrives p ∷ vs) vs' = resets_in-append vs vs'
resets_in-append (resets ∷ vs) vs' = omega (arith, resets_in-append vs vs')

pub caught-append :
    (on : Bool) (vs vs' : List Event) → caught on (vs ++ vs') ≡ caught on vs + caught on vs'
caught-append true vs vs' = resets_in-append vs vs'
caught-append false vs vs' = omega arith

-- The mailbox of an entity without topics, on the list or not, to which so many resets were posted, and
-- nothing else.
pub record Idle (on : Bool) (m : ℕ) (b : Mailbox) : Type 0 where
  pub attached : b.attached ≡ on
  pub no_topics : b.topics ≡ []
  pub only_resets : AreResets b.results
  pub count : length b.results ≡ m

posted-Idle :
    (on : Bool) (m : ℕ) (v : Event) (b : Mailbox)
    → Idle on m b
    → Idle on (m + caught on (v ∷ [])) (posted (result_of v) b)
posted-Idle true m resets b h = rw h.attached (record {
  attached = refl;
  no_topics = h.no_topics;
  only_resets = AreResets-append b.results _ h.only_resets (refl, tt);
  count = omega (arith, h.count, length-append b.results (result_of resets ∷ []));
})
posted-Idle false m resets b h = rw h.attached (record {
  attached = refl;
  no_topics = h.no_topics;
  only_resets = h.only_resets;
  count = omega (arith, h.count);
})
posted-Idle on m (arrives p) b h = rw (unwanted p) (record {
  attached = h.attached;
  no_topics = h.no_topics;
  only_resets = h.only_resets;
  count = none_caught on;
})
  where
    unwanted : (p : Packet) → (b.attached && wants (packet p) b.topics) ≡ false
    unwanted (publish p) = rw h.no_topics (ground arith)
    unwanted (other kind) = ground arith

    none_caught : (on : Bool) → length b.results ≡ m + caught on (arrives p ∷ [])
    none_caught true = omega (arith, h.count)
    none_caught false = omega (arith, h.count)

-- Rounds for these events, and no more.
pub posts-Idle :
    (on : Bool) (m : ℕ) (lost vs : List Event) (e : Error) (b : Mailbox)
    → Idle on m b
    → let (rs, b') = posts (length lost) (results (lost ++ vs) e) b in
      (rs ≡ results vs e) × Idle on (m + caught on lost) b'
posts-Idle on m [] vs e b h = (refl, subst (λ n. Idle on n b) (nothing on) h)
  where
    nothing : (on : Bool) → m ≡ m + caught on []
    nothing true = omega arith
    nothing false = omega arith
posts-Idle on m (v ∷ lost) vs e b h =
    let (same, h') =
      posts-Idle on (m + caught on (v ∷ [])) lost vs e (posted (result_of v) b)
        (posted-Idle on m v b h) in
    let b' = (posts (length lost) (results (lost ++ vs) e) (posted (result_of v) b)).1 in
    let sums : m + caught on (v ∷ []) + caught on lost ≡ m + caught on (v ∷ lost) =
      omega (arith, caught-append on (v ∷ []) lost) in
    (same, subst (λ n. Idle on n b') sums h')

module _ (V : Packet → Type 0) (e : Error) (no_reset : is_code e session_reset ≡ false) where
  -- A series that brings these packets, so many resets, and is so long.
  abbrev pub Brings : List RecvResult → List Packet → ℕ → ℕ → Type 0
  Brings rs ps m size =
      Series V e rs × (packets_of rs ≡ ps) × (resets_of rs ≡ m) × (length rs ≡ suc size)

  results-Brings :
      (vs : List Event)
      → All V (packets vs)
      → Brings (results vs e) (packets vs) (resets_in vs) (length vs)
  results-Brings [] h = (inr (refl, refl), refl, rw no_reset refl, refl)
  results-Brings (arrives p ∷ vs) h =
      let (series, same, often, size) = results-Brings vs h.1 in
      ((h.0, series), ap (λ ps. p ∷ ps) same, often, ap suc size)
  results-Brings (resets ∷ vs) h =
      let (series, same, often, size) = results-Brings vs h in
      (
        inl (refl, series),
        same,
        resets_of-reset (make_error_code session_reset) (results vs e) refl ∙ ap suc often,
        ap suc size,
      )

  -- Resets before it make it no less a series, and bring no packet.
  pub resets-Brings :
      (rs : List RecvResult) (vs : List Event)
      → AreResets rs
      → All V (packets vs)
      → Brings (rs ++ results vs e) (packets vs) (length rs + resets_in vs) (length rs + length vs)
  resets-Brings [] vs only h =
      let (series, same, often, size) = results-Brings vs h in
      (series, same, omega (arith, often), omega (arith, size))
  resets-Brings (unexpected x ∷ rs) vs only h =
      let is_reset : x ≡ make_error_code session_reset = cc in
      let (series, same, often, size) = resets-Brings rs vs only.1 h in
      (
        inl (is_reset, series),
        same,
        resets_of-reset x (rs ++ results vs e) is_reset ∙ omega (arith, often),
        omega (arith, size),
      )
  resets-Brings (packet p ∷ rs) vs only h = absurd (cc)
