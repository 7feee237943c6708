-- ===== src/Program/Pending.antt =====
-- A whole program: the results that an entity with a mailbox is still to receive, those posted and
-- those to come, as the pump runs ahead of it.
use mathlib.Core.List.{append_assoc}
use hacpp.Base.{
  ℕ, zero, suc, ◌≡◌, refl, true, false, List, [], ◌∷◌, ◌++◌, Bool-cases, inl, inr, ◌&&◌, subst,
}
use hacpp.Api.{Operation, Result}
use hacpp.Entity.{Spawned}
use hacpp.Error.{Platform, Error}
use hacpp.Mqtt.{RecvResult, TopicSubopts, Packet, packet, unexpected}
use hacpp.Shared.{is_nil}
use hacpp.Shared.Clients.{front}
use hacpp.Shared.Delivery.{wants}
use hacpp.Program.Mailbox.{Mailbox, posted, taken, posts, posts_until, posts_fill}
use hacpp.Program.Own.{Own, now, later, own_receive, own_ahead, attached_own}
use hacpp.Program.Series.{
  Series, Reduces, Reduces-refl, Reduces-trans, Reduces-without, Series-at, Series-without,
}

abbrev pub pending : Own → List RecvResult
pending n = n.mailbox.results ++ n.feed.to_come

module _ (V : Packet → Type 0) (e : Error) where
  module _ (step : Packet → Spawned → Spawned) (K : List TopicSubopts → Type 0)
      (skips : (p : Packet) (topics : List TopicSubopts) (s : Spawned)
        → V p
        → K topics
        → wants (packet p) topics ≡ false
        → step p s ≡ s) where
    -- A mailbox that is attached, with topics that satisfy `K`, and a series to be received.
    pub record Ready (rs : List RecvResult) (b : Mailbox) : Type 0 where
      pub attached : b.attached ≡ true
      pub topics : K b.topics
      pub series : Series V e (b.results ++ rs)

    -- What is to be received afterwards means the same.
    abbrev pub Still : List RecvResult → Mailbox → List RecvResult → Mailbox → Type 0
    Still rs b rs' b' = Ready rs' b' × Reduces step (b.results ++ rs) (b'.results ++ rs')

    posted-Still :
        (r : RecvResult) (rs : List RecvResult) (b : Mailbox)
        → Ready (r ∷ rs) b
        → Still (r ∷ rs) b rs (posted r b)
    posted-Still r rs b h = elim (Bool-cases (wants r b.topics)) [
      | inl hit ↦
          let both : (b.attached && wants r b.topics) ≡ true = rw (h.attached, hit) refl in
          rw both (
            record {
              attached = h.attached;
              topics = h.topics;
              series = rw (append_assoc b.results (r ∷ []) rs) h.series;
            },
            rw (append_assoc b.results (r ∷ []) rs) (Reduces-refl step (b.results ++ r ∷ rs)),
          )
      | inr miss ↦
          let not_both : (b.attached && wants r b.topics) ≡ false = rw (h.attached, miss) refl in
          rw not_both (skipped r h miss)
    ]
      where
        skipped :
            (r : RecvResult) → Ready (r ∷ rs) b → wants r b.topics ≡ false → Still (r ∷ rs) b rs b
        skipped (unexpected x) h miss = absurd (cc)
        skipped (packet p) h miss =
            let v = Series-at V e b.results rs p h.series in
            (
              record {
                attached = h.attached;
                topics = h.topics;
                series = Series-without V e b.results rs p h.series;
              },
              Reduces-without step b.results rs p (λ s. skips p b.topics s v h.topics miss),
            )

    pub posts-Still :
        (k : ℕ) (rs : List RecvResult) (b : Mailbox)
        → Ready rs b
        → let (rs', b') = posts k rs b in Still rs b rs' b'
    posts-Still zero rs b h = (h, Reduces-refl step (b.results ++ rs))
    posts-Still (suc k) [] b h = (h, Reduces-refl step (b.results ++ []))
    posts-Still (suc k) (r ∷ rs) b h =
        let (h', a) = posted-Still r rs b h in
        let (h'', c) = posts-Still k rs (posted r b) h' in (h'', Reduces-trans step _ _ _ a c)

    -- Something is in the mailbox.
    abbrev Filled : Mailbox → Type 0
    Filled b = is_nil b.results ≡ false

    posts_until-Still :
        (rs : List RecvResult) (b : Mailbox)
        → is_nil b.results ≡ true
        → Ready rs b
        → let (rs', b') = posts_until rs b in Still rs b rs' b' × Filled b'
    posts_until-Still [] b empty h = absurd (nothing b.results empty h.series)
      where
        nothing : (l : List RecvResult) → is_nil l ≡ true → Series V e (l ++ []) → ⊥
        nothing [] empty h = h
        nothing (r ∷ l) empty h = cc
    posts_until-Still (r ∷ rs) b empty h =
        let (h', a) = posted-Still r rs b h in
        elim (Bool-cases (is_nil (posted r b).results)) [
          | inl still ↦
              let ((h'', c), filled) = posts_until-Still rs (posted r b) still h' in
              rw still ((h'', Reduces-trans step _ _ _ a c), filled)
          | inr filled ↦ rw filled ((h', a), filled)
        ]

    posts_fill-Still :
        (k : ℕ) (rs : List RecvResult) (b : Mailbox)
        → Ready rs b
        → let (rs', b') = posts_fill k rs b in Still rs b rs' b' × Filled b'
    posts_fill-Still k rs b h =
        let (left, c) = posts k rs b in
        let (h', a) = posts-Still k rs b h in
        elim (Bool-cases (is_nil c.results)) [
          | inl empty ↦
              let ((h'', a'), filled) = posts_until-Still left c empty h' in
              rw empty ((h'', Reduces-trans step _ _ _ a a'), filled)
          | inr filled ↦ rw filled ((h', a), filled)
        ]

    abbrev pub Due : Own → Type 0
    Due n = Ready n.feed.to_come n.mailbox

    abbrev pub Kept : Own → Own → Type 0
    Kept n n' = Due n' × Reduces step (pending n) (pending n')

    module _ (P : Platform) (ec : Error) (ack : (op : Operation) → Result op) where
      pub own_ahead-Kept : (op : Operation) (n : Own) → Due n → Kept n (own_ahead P ec ack op n)
      own_ahead-Kept op n h = posts-Still (now n.feed.schedule) n.feed.to_come n.mailbox h

      -- A receive takes the first of the results to be received, and asks for nothing.
      abbrev pub Takes : Own → RecvResult × Own → Type 0
      Takes n (r, n') =
          (n'.mailbox.attached ≡ true)
          × K n'.mailbox.topics
          × Series V e (r ∷ pending n')
          × Reduces step (pending n) (r ∷ pending n')
          × (n'.feed.asked ≡ n.feed.asked)

      took :
          (n n' : Own) (items : List RecvResult)
          → n'.mailbox.results ≡ items
          → is_nil items ≡ false
          → Kept n n'
          → n'.feed.asked ≡ n.feed.asked
          → Takes n (front P ec items, record n' { mailbox = taken n'.mailbox })
      took n n' [] same filled h quiet = absurd (cc)
      took n n' (r ∷ items) same filled (due, a) quiet = (
        due.attached,
        due.topics,
        rw same (subst (λ l. Series V e (l ++ n'.feed.to_come)) same due.series),
        rw same (subst (λ l. Reduces step (pending n) (l ++ n'.feed.to_come)) same a),
        quiet,
      )

      pub own_receive-Takes :
          (n : Own)
          → Due (attached_own P ec ack n)
          → Takes n (own_receive P ec ack (attached_own P ec ack n))
      own_receive-Takes n h = elim (Bool-cases (is_nil n.mailbox.results)) [
        | inl empty ↦
            let k = now n.feed.schedule in
            let (kept, filled) =
              posts_fill-Still k n.feed.to_come (attached_own P ec ack n).mailbox h in
            rw empty (
              took n
                (record {
                  mailbox = (posts_fill k n.feed.to_come (attached_own P ec ack n).mailbox).1;
                  feed = record {
                    to_come = (posts_fill k n.feed.to_come (attached_own P ec ack n).mailbox).0;
                    schedule = later n.feed.schedule;
                    asked = n.feed.asked;
                  };
                })
                _ refl filled kept refl)
        | inr filled ↦ rw filled (
            took n (attached_own P ec ack n) n.mailbox.results refl filled
              (h, Reduces-refl step (pending n)) refl)
      ]
