-- ===== src/Program/Mailbox.antt =====
-- A whole program: a logical client as a mailbox, and the rounds of the pump as what they post.
use mathlib.Core.List.{tail}
use hacpp.Base.{
  ℕ, zero, suc, ◌≡◌, refl, ap, ◌∙◌, Bool, true, false, not, some, is_some, List, [], ◌∷◌, ◌++◌,
  Bool-cases, inl, inr, if◌then◌else◌, arith, erase_if, ◌&&◌,
}
use hacpp.Mqtt.{RecvResult, TopicSubopts}
use hacpp.Shared.{
  SharedConnection, SharedClientState, push_back, is_nil, items_of, lock, locks_to, update,
  drop_front, push_to, pump_result, remove_expired_clients, register_client, register_topics,
}
use hacpp.Shared.Detaching.{is_in-detached}
use hacpp.Shared.Delivery.{wants, pump_result-gives}
use hacpp.Shared.Heap.{is_in}
use hacpp.Shared.Invariant.{Inv, pump_result-Inv, erase_if-Inv, register_client-Inv, update-Inv}
use hacpp.Shared.Pump.{is_in-kept}
use hacpp.Shared.Subscriptions.{register_client-is_in}
use hacpp.Shared.Topics.{register_topics-AreDistinct}

-- A round of the pump.
abbrev pub pumped_once : RecvResult → SharedConnection → SharedConnection
pumped_once r s = pump_result r (remove_expired_clients s)

-- Rounds of the pump, up to the first that fills the queue of `id`.
abbrev pub pump_until : ℕ → List RecvResult → SharedConnection → List RecvResult × SharedConnection
pump_until id [] s = ([], s)
pump_until id (r ∷ rs) s =
    let rest = pump_until id rs (pumped_once r s) in
    if is_nil (items_of ((pumped_once r s).heap id)) then rest else (rs, pumped_once r s)

-- The results posted and not taken yet, the topics registered, and whether it is on the list.
pub record Mailbox : Type 0 where
  pub results : List RecvResult
  pub topics : List TopicSubopts
  pub attached : Bool

abbrev pub posted : RecvResult → Mailbox → Mailbox
posted r b =
    if b.attached && wants r b.topics then record b { results = b.results ++ r ∷ [] } else b

abbrev pub taken : Mailbox → Mailbox
taken b = record b { results = tail b.results }

-- The pump makes this many rounds, if there are results for as many.
abbrev pub ahead : ℕ → List RecvResult → SharedConnection → List RecvResult × SharedConnection
ahead zero rs s = (rs, s)
ahead (suc k) [] s = ([], s)
ahead (suc k) (r ∷ rs) s = ahead k rs (pumped_once r s)

abbrev pub posts : ℕ → List RecvResult → Mailbox → List RecvResult × Mailbox
posts zero rs b = (rs, b)
posts (suc k) [] b = ([], b)
posts (suc k) (r ∷ rs) b = posts k rs (posted r b)

-- Rounds up to the first that posts something.
abbrev pub posts_until : List RecvResult → Mailbox → List RecvResult × Mailbox
posts_until [] b = ([], b)
posts_until (r ∷ rs) b =
    let rest = posts_until rs (posted r b) in
    if is_nil (posted r b).results then rest else (rs, posted r b)

-- While someone waits on an empty queue: the rounds that the pump makes anyway, and more of them if
-- they posted nothing.
abbrev pub fill : ℕ → ℕ → List RecvResult → SharedConnection → List RecvResult × SharedConnection
fill id k rs s =
    let (rest, t) = ahead k rs s in
    if is_nil (items_of (t.heap id)) then pump_until id rest t else (rest, t)

abbrev pub posts_fill : ℕ → List RecvResult → Mailbox → List RecvResult × Mailbox
posts_fill k rs b =
    let (rest, c) = posts k rs b in if is_nil c.results then posts_until rest c else (rest, c)

module _ (id : ℕ) where
  -- The client's object is alive and is this mailbox.
  pub record Holds (b : Mailbox) (s : SharedConnection) : Type 0 where
    pub state : SharedClientState
    pub alive : s.heap id ≡ some state
    pub queue_same : state.queue.queue ≡ b.results
    pub topics_same : state.topics ≡ b.topics
    pub listed : is_in id s.clients ≡ b.attached
    pub valid : Inv s

  pub items-Holds :
      (b : Mailbox) (s : SharedConnection) → Holds b s → items_of (s.heap id) ≡ b.results
  items-Holds b s h = ap items_of h.alive ∙ h.queue_same

  pumped_once-Holds :
      (r : RecvResult) (b : Mailbox) (s : SharedConnection)
      → Holds b s
      → Holds (posted r b) (pumped_once r s)
  unfolding remove_expired_clients push_back
  pumped_once-Holds r b s h =
      let p = λ (weak : ℕ). not (is_some (lock s weak)) in
      let kept = record s { clients = erase_if p s.clients } in
      let still : is_in id kept.clients ≡ b.attached =
        is_in-kept p s.clients id (ap (λ o. not (is_some o)) h.alive) ∙ h.listed in
      let v = erase_if-Inv p s h.valid in
      let (gives, same, _) = pump_result-gives r kept id v in
      let listed' : is_in id (pump_result r kept).clients ≡ b.attached = rw same still in
      elim (Bool-cases (b.attached && wants r b.topics)) [
        | inl hit ↦ rw hit (record {
          state = push_to r h.state;
          alive = gives ∙ rw (still, h.alive) (ground (arith, h.topics_same));
          queue_same = ap (λ l. l ++ r ∷ []) h.queue_same;
          topics_same = h.topics_same;
          listed = listed';
          valid = pump_result-Inv r kept v;
        })
        | inr miss ↦ rw miss (record {
          state = h.state;
          alive = gives ∙ rw (still, h.alive) (ground (arith, h.topics_same));
          queue_same = h.queue_same;
          topics_same = h.topics_same;
          listed = listed';
          valid = pump_result-Inv r kept v;
        })
      ]

  -- The same results are left, and the mailbox is still the client's.
  abbrev pub Alike : List RecvResult × SharedConnection → List RecvResult × Mailbox → Type 0
  Alike x y = (x.0 ≡ y.0) × Holds y.1 x.1

  pub ahead-Alike :
      (k : ℕ) (rs : List RecvResult) (b : Mailbox) (s : SharedConnection)
      → Holds b s
      → Alike (ahead k rs s) (posts k rs b)
  ahead-Alike zero rs b s h = (refl, h)
  ahead-Alike (suc k) [] b s h = (refl, h)
  ahead-Alike (suc k) (r ∷ rs) b s h =
      ahead-Alike k rs (posted r b) (pumped_once r s) (pumped_once-Holds r b s h)

  pump_until-Alike :
      (rs : List RecvResult) (b : Mailbox) (s : SharedConnection)
      → Holds b s
      → Alike (pump_until id rs s) (posts_until rs b)
  pump_until-Alike [] b s h = (refl, h)
  pump_until-Alike (r ∷ rs) b s h =
      let h' = pumped_once-Holds r b s h in
      let more = pump_until-Alike rs (posted r b) (pumped_once r s) h' in
      rw (items-Holds (posted r b) (pumped_once r s) h')
        (elim (Bool-cases (is_nil (posted r b).results)) [
          | inl empty ↦ rw empty more
          | inr ready ↦ rw ready (refl, h')
        ])

  pub fill-Alike :
      (k : ℕ) (rs : List RecvResult) (b : Mailbox) (s : SharedConnection)
      → Holds b s
      → Alike (fill id k rs s) (posts_fill k rs b)
  fill-Alike k rs b s h =
      let (rest, h') = ahead-Alike k rs b s h in
      let (left, c) = posts k rs b in
      let more = pump_until-Alike left c (ahead k rs s).1 h' in
      rw (items-Holds c (ahead k rs s).1 h', rest)
        (elim (Bool-cases (is_nil c.results)) [
          | inl empty ↦ rw empty more
          | inr ready ↦ rw ready (refl, h')
        ])

  pub taken-Holds :
      (b : Mailbox) (s : SharedConnection) → Holds b s → Holds (taken b) (update id drop_front s)
  taken-Holds b s h = record {
    state = drop_front h.state;
    alive = ground (arith, h.alive);
    queue_same = ap tail h.queue_same;
    topics_same = h.topics_same;
    listed = h.listed;
    valid = update-Inv drop_front (λ c d. d) id s h.valid;
  }

  pub registered-Holds :
      (b : Mailbox) (s : SharedConnection)
      → Holds b s
      → Holds (record b { attached = true }) (register_client id s)
  registered-Holds b s h =
      let (same, listed) = register_client-is_in id s (rw h.alive refl) in
      record {
        state = h.state;
        alive = rw same h.alive;
        queue_same = h.queue_same;
        topics_same = h.topics_same;
        listed = listed id ∙ ground arith;
        valid = register_client-Inv id s h.valid;
      }

  pub enrolled-Holds :
      (asked : List TopicSubopts) (b : Mailbox) (s : SharedConnection)
      → Holds b s
      → Holds
          (record b { topics = register_topics asked b.topics })
          (update id (λ c. record c { topics = register_topics asked c.topics }) s)
  enrolled-Holds asked b s h = record {
    state = record (h.state) { topics = register_topics asked h.state.topics };
    alive = ground (arith, h.alive);
    queue_same = h.queue_same;
    topics_same = ap (register_topics asked) h.topics_same;
    listed = h.listed;
    valid =
        update-Inv (λ c. record c { topics = register_topics asked c.topics })
          (λ c d. register_topics-AreDistinct asked c.topics d) id s h.valid;
  }

  pub detached-Holds :
      (b : Mailbox) (s : SharedConnection)
      → Holds b s
      → Holds
          (record b { attached = false })
          (record s { clients = erase_if (locks_to s id) s.clients })
  detached-Holds b s h = record {
    state = h.state;
    alive = h.alive;
    queue_same = h.queue_same;
    topics_same = h.topics_same;
    listed = is_in-detached s id s.clients (rw h.alive refl) id ∙ ground arith;
    valid = erase_if-Inv (locks_to s id) s h.valid;
  }
