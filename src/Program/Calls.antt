-- ===== src/Program/Calls.antt =====
-- A whole program: what each call of an entity does to its logical client, as a mailbox.
use mathlib.Core.List.{tail}
use hacpp.Base.{
  ℕ, ◌≡◌, refl, sym, ap, fun_ext, ◌∙◌, true, false, List, [], ◌∷◌, returned, Bool-cases, inl, inr,
  if◌then◌else◌,
}
use hacpp.Api.{subscribing}
use hacpp.Coroutine.{bind, done, wait}
use hacpp.Error.{Platform, Error, failed, no_error}
use hacpp.Mqtt.{RecvResult, TopicSubopts}
use hacpp.Shared
use hacpp.Shared.{
  SharedConnection, client, queue_timer, is_nil, items_of, take_front, drop_front, update,
  register_client, register_topics,
}
use hacpp.Shared.Clients.{front}
use hacpp.Program.Mailbox.{
  Mailbox, taken, Holds, items-Holds, taken-Holds, registered-Holds, enrolled-Holds,
}

module _ (id : ℕ) where
  abbrev pub after_subscribe : List TopicSubopts → Error → SharedConnection → SharedConnection
  after_subscribe topics err s =
      if failed err
      then s
      else register_client id
          (update id (λ c. record c { topics = register_topics topics c.topics }) s)

  pub subscribe-eq :
      (topics : List TopicSubopts) (s : SharedConnection)
      → Shared.async_subscribe id topics s
        ≡ wait s
            (client (subscribing topics))
            (λ err t. done (returned err) (after_subscribe topics err t))
  unfolding Shared.async_subscribe bind
  subscribe-eq topics s = ap (wait s (client (subscribing topics))) (
      fun_ext (λ err.
        fun_ext (λ t. elim (Bool-cases (failed err)) [
          | inl bad ↦ rw bad refl
          | inr fine ↦ rw fine refl
        ])))

  pub after_subscribe-Holds :
      (asked : List TopicSubopts) (err : Error) (b : Mailbox) (s : SharedConnection)
      → Holds id b s
      → Holds id
          (if failed err then b else record {
            results = b.results;
            topics = register_topics asked b.topics;
            attached = true;
          })
          (after_subscribe asked err s)
  after_subscribe-Holds asked err b s h = elim (Bool-cases (failed err)) [
    | inl bad ↦ rw bad h
    | inr fine ↦ rw fine (registered-Holds id _ _ (enrolled-Holds id asked b s h))
  ]

module _ (P : Platform) (id : ℕ) where
  -- The front of the mailbox, or the error of the wait, is returned, and dropped.
  pub take_front-eq :
      (ec : Error) (b : Mailbox) (s : SharedConnection)
      → Holds id b s
      → (t : SharedConnection) × (take_front P id ec (items_of (s.heap id)) s
          ≡ done (returned (front P ec b.results)) t)
        × Holds id (taken b) t
  unfolding bind
  take_front-eq ec b s h = rw (items-Holds id b s h) (fronted b.results refl)
    where
      fronted :
          (items : List RecvResult)
          → b.results ≡ items
          → (t : SharedConnection) × (take_front P id ec b.results s
              ≡ done (returned (front P ec b.results)) t)
            × Holds id (taken b) t
      fronted [] e = (
        s,
        rw e refl,
        record {
          state = h.state;
          alive = h.alive;
          queue_same = h.queue_same ∙ e ∙ sym (ap tail e);
          topics_same = h.topics_same;
          listed = h.listed;
          valid = h.valid;
        },
      )
      fronted (r ∷ rs) e = (update id drop_front s, rw e refl, taken-Holds id b s h)

  pub recv_empty-eq :
      (b : Mailbox) (s : SharedConnection)
      → Holds id b s
      → is_nil b.results ≡ true
      → Shared.async_recv P id s
        ≡ wait
            (register_client id s)
            (queue_timer id)
            (λ e t. take_front P id e (items_of (t.heap id)) t)
  unfolding Shared.async_recv Shared.pop_front bind
  recv_empty-eq b s h empty =
      rw (items-Holds id _ (register_client id s) (registered-Holds id b s h), empty) refl

  pub recv_ready-eq :
      (b : Mailbox) (s : SharedConnection)
      → Holds id b s
      → is_nil b.results ≡ false
      → Shared.async_recv P id s
        ≡ take_front P id
            (no_error P)
            (items_of ((register_client id s).heap id))
            (register_client id s)
  unfolding Shared.async_recv Shared.pop_front bind
  recv_ready-eq b s h ready =
      let registered = register_client id s in
      let nonempty : is_nil (items_of (registered.heap id)) ≡ false =
        ap is_nil (items-Holds id _ registered (registered-Holds id b s h)) ∙ ready in
      rw nonempty refl

pub front-ready :
    (P : Platform) (ec ec' : Error) (items : List RecvResult)
    → is_nil items ≡ false
    → front P ec items ≡ front P ec' items
front-ready P ec ec' [] e = absurd (cc)
front-ready P ec ec' (r ∷ rs) e = refl
