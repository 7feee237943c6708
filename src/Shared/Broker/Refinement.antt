-- ===== src/Shared/Broker/Refinement.antt =====
-- lib/include/hacpp/shared_mqtt_client.h: the shared connection implements its specification.
use hacpp.Base.{
  ℕ, zero, suc, ◌≡◌, refl, sym, ap, subst, ==_iff, ◌∙◌, Option, none, some, List, [], ◌∷◌,
  Bool-cases, inl, inr, ◌==◌, fun_ext, arith,
}
use hacpp.Coroutine.{bind, Coroutine}
use hacpp.Coroutine.System.{System, Reach}
use hacpp.Coroutine.Refinement.{
  Implements, Implements-bind, done-ap, wait-ap, Refined, Reach-Refined,
}
use hacpp.Error.{Platform, Error, failed, no_error}
use hacpp.Api.{Operation, publishing, subscribing, receiving, closing}
use hacpp.Shared
use hacpp.Mqtt.{TopicSubopts, RecvResult}
use hacpp.Shared.{
  SharedConnection, Reply, initial, is_nil, items_of, pump_error, pump_result, register_client,
  take_front, async_connect, async_close, async_publish, async_detach, async_subscribe, async_recv,
  pop_front, async_run, async_pump_one, async_pump_one_impl, make_client, destroy,
}
use hacpp.Shared.Invariant.{Inv, initial-Inv}
use hacpp.Shared.Interleaving.{
  Call, connects, closes, makes, pumps, publishes, subscribes, receives, detaches, destroys, runs,
  task, AnyCall, task-Preserves, recv-Preserves, subscribe-Preserves,
}
use hacpp.Shared.Broker.{
  Broker, spec, serve, nobody, receive, take_result, subscribe, pump, keep_pumping, results_of,
  at_mailbox, drop_result, on_mailbox, Mailbox, attach,
}
use hacpp.Shared.Broker.View.{
  view, view-drop_front, view-register_topics, view-pump_result, items-results,
}
use hacpp.Shared.Broker.Listing.{
  view-remove_expired_clients, view-detach, view-register_client, view-make, view-destroy,
}

abbrev pub Meets :
    {A : Type 0} → Coroutine Reply SharedConnection A → Coroutine Reply Broker A → Type 0
Meets = Implements view Inv

module _ (P : Platform) where
  on_mailbox_none : (o : Option Mailbox) → results_of o ≡ [] → o ≡ on_mailbox drop_result o
  on_mailbox_none none e = refl
  on_mailbox_none (some m) e = ground (arith, e)

  drop_none :
      (id : ℕ) (b : Broker) → results_of (b.mailbox id) ≡ [] → b ≡ at_mailbox id drop_result b
  drop_none id b none_left = mailbox-ap (
      fun_ext (λ j. elim (Bool-cases (id == j)) [
        | inl hit ↦ rw hit (on_mailbox_none (b.mailbox j) (rw ((==_iff id j).0 hit) at none_left))
        | inr miss ↦ rw miss refl
      ]))
    where
      mailbox-ap : {f : ℕ → Option Mailbox} → b.mailbox ≡ f → b ≡ record b { mailbox = f }
      mailbox-ap e i = record b { mailbox = e i }

  take_front-Meets :
      (id : ℕ) (ec : Error) (items : List RecvResult) (s : SharedConnection)
      → items_of (s.heap id) ≡ items
      → Meets (take_front P id ec items s) (take_result P id ec (view s))
  unfolding take_result bind
  take_front-Meets id ec [] s e =
      let empty = sym (items-results (s.heap id)) ∙ e in
      rw empty (done-ap (sym (drop_none id (view s) empty)))
  take_front-Meets id ec (r ∷ rs) s e =
      let ready = sym (items-results (s.heap id)) ∙ e in
      rw ready (done-ap (sym (view-drop_front id s)))

  recv-Meets : (id : ℕ) (s : SharedConnection) → Meets (async_recv P id s) (receive P id (view s))
  unfolding async_recv receive pop_front bind
  recv-Meets id s =
      let registered = register_client id s in
      let seen = view-register_client id s in
      let same : items_of (registered.heap id) ≡ results_of ((view s).mailbox id) =
        items-results (registered.heap id) ∙ ap (λ (b : Broker). results_of (b.mailbox id)) seen in
      elim (Bool-cases (is_nil (items_of (registered.heap id)))) [
        | inl empty ↦
            rw (empty, sym (ap is_nil same) ∙ empty)
              (
                λ ec b. take_result P id ec b,
                wait-ap (sym seen),
                λ ec t v. take_front-Meets id ec (items_of (t.heap id)) t refl,
              )
        | inr ready ↦
            rw (ready, sym (ap is_nil same) ∙ ready)
              (subst
                (λ b.
                  Meets (take_front P id (no_error P) (items_of (registered.heap id)) registered)
                    (take_result P id (no_error P) b))
                seen
                (take_front-Meets id (no_error P) (items_of (registered.heap id)) registered refl))
      ]

  subscribe-Meets :
      (id : ℕ) (topics : List TopicSubopts) (s : SharedConnection)
      → Meets (async_subscribe id topics s) (subscribe id topics (view s))
  unfolding async_subscribe subscribe bind
  subscribe-Meets id topics s = (
    _,
    refl,
    λ err t v. elim (Bool-cases (failed err)) [
      | inl bad ↦ rw bad refl
      | inr fine ↦ rw fine (
          done-ap (
            ap (attach id) (sym (view-register_topics topics id t))
            ∙ sym (view-register_client id _)))
    ],
  )

  run-Meets :
      (fuel : ℕ) (s : SharedConnection) → Meets (async_run fuel s) (keep_pumping fuel (view s))
  unfolding async_run keep_pumping async_pump_one_impl pump bind
  run-Meets zero s = refl
  run-Meets (suc fuel) s = (
    _,
    wait-ap (sym (view-remove_expired_clients s)),
    λ r t v. elim (Bool-cases (failed (pump_error r))) [
      | inl bad ↦ rw bad (rw (view-pump_result r t v) refl)
      | inr fine ↦ rw fine (
          subst (λ b. Meets (async_run fuel (pump_result r t)) (keep_pumping fuel b))
            (view-pump_result r t v) (run-Meets fuel (pump_result r t)))
    ],
  )

  pub task-Meets :
      (call : Call)
      → AnyCall call
      → (s : SharedConnection) → Inv s
      → Meets (task P call s) (spec P call (view s))
  unfolding task spec async_connect async_close async_publish async_detach make_client destroy
      async_pump_one async_pump_one_impl pump bind
  task-Meets connects q s v = (_, refl, λ p t i. refl)
  task-Meets closes q s v = (_, refl, λ p t i. refl)
  task-Meets makes q s v = rw (view-make s v) refl
  task-Meets pumps q s v =
      (_, wait-ap (sym (view-remove_expired_clients s)), λ r t i. rw (view-pump_result r t i) refl)
  task-Meets (publishes topic payload qos retain) q s v = (_, refl, λ p t i. refl)
  task-Meets (subscribes id topics) q s v =
      Implements-bind view Inv s _ _ _ _ v (subscribe-Preserves id topics s)
        (subscribe-Meets id topics s) (λ a t i. refl)
  task-Meets (receives id) q s v =
      Implements-bind view Inv s _ _ _ _ v (recv-Preserves P id s) (recv-Meets id s) (λ a t i. refl)
  task-Meets (detaches id) q s v = done-ap (sym (view-detach id s))
  task-Meets (destroys id) q s v = done-ap (sym (view-destroy id s))
  task-Meets (runs fuel) q s v = run-Meets fuel s

  pub serve-Meets :
      (id : ℕ) (op : Operation) (s : SharedConnection)
      → Meets (Shared.serve P id op s) (serve P id op (view s))
  unfolding Shared.serve serve async_publish async_detach bind
  serve-Meets id (publishing topic payload qos retain) s = (_, refl, λ p t i. refl)
  serve-Meets id (subscribing topics) s = subscribe-Meets id topics s
  serve-Meets id receiving s = recv-Meets id s
  serve-Meets id closing s = done-ap (sym (view-detach id s))

-- In every interleaving of any calls of a shared connection and of its logical clients, with any
-- replies, the connection is in a state that some interleaving of the same kinds of calls leads the
-- specification to: each client's mailbox holds the results and the options that the client's object
-- does, the attached clients are those that are listed and alive, and every coroutine awaits the same
-- request and goes on so, whatever the replies, or has ended with the same outcome. The
-- specification begins with nobody, has no list of clients, delivers to all clients at once, and
-- takes the options of a topic from the last entry for it.
pub shared_refines :
    (P : Platform) {s : System Reply SharedConnection}
    → Reach (task P) initial AnyCall s
    → (view initial ≡ nobody) × Refined view Inv (spec P) initial AnyCall s
shared_refines P r = (
  refl,
  Reach-Refined view Inv (task P) (spec P) initial AnyCall (task-Preserves P) (task-Meets P)
      initial-Inv r,
)
