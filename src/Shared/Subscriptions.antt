-- ===== src/Shared/Subscriptions.antt =====
-- lib/include/hacpp/shared_mqtt_client.h: what a subscription of a logical client does.
use hacpp.Base.{
  ℕ, String, ◌≡◌, refl, sym, ◌∙◌, true, Option, none, some, is_some, ◌||◌, List, any_of, ◌==◌,
  arith, if◌then◌else◌, inl, inr, Bool-cases, returned, ==_iff,
}
use hacpp.Coroutine.{bind}
use hacpp.Error.{Error, failed}
use hacpp.Mqtt.{TopicSubopts}
use hacpp.Api.{subscribing}
use hacpp.Shared.{
  Co, done, wait, client, SharedConnection, SharedClientState, update, locks_to, register_client,
  register_topics, async_subscribe,
}
use hacpp.Shared.Topics.{options_for, overridden, options_for-register_topics}
use hacpp.Shared.Heap.{is_in}
use hacpp.Shared.Invariant.{any_of-locks_to, is_in-append}
use hacpp.Shared.Clients.{update-if}

-- After the reply `err` to the request for `topics`, resumed at `s`, where the client's object is
-- the last but one argument.
abbrev pub Subscribed :
    ℕ → List TopicSubopts → Error → SharedConnection → Option SharedClientState → Co Error → Type 0
Subscribed id topics err s (some c) (done o t) =
    (o ≡ returned err)
    × ((d : SharedClientState) × (d.queue ≡ c.queue)
        × ((topic : String)
            → options_for topic d.topics ≡ overridden (options_for topic c.topics) topic topics)
        × ((j : ℕ) → t.heap j ≡ (if id == j then some d else s.heap j)))
    × ((j : ℕ) → is_in j t.clients ≡ (id == j || is_in j s.clients))
Subscribed id topics err s none (done o t) = (o ≡ returned err) × (t.clients ≡ s.clients)
Subscribed id topics err s c (wait t r k) = ⊥

-- The physical client is asked once; an error changes nothing.
abbrev pub Subscribes : ℕ → List TopicSubopts → SharedConnection → Co Error → Type 0
Subscribes id topics s (wait t (client (subscribing asked)) k) =
    (t ≡ s)
    × (asked ≡ topics)
    × ((err : Error) (u : SharedConnection)
        → if failed err
          then k err u ≡ done (returned err) u
          else Subscribed id topics err u (u.heap id) (k err u))
Subscribes id topics s m = ⊥

register_client_gone : (id : ℕ) (s : SharedConnection) → s.heap id ≡ none → register_client id s ≡ s
unfolding register_client
register_client_gone id s gone = rw gone refl

pub register_client-is_in :
    (id : ℕ) (s : SharedConnection)
    → is_some (s.heap id) ≡ true
    → ((register_client id s).heap ≡ s.heap)
      × ((j : ℕ) → is_in j (register_client id s).clients ≡ (id == j || is_in j s.clients))
unfolding register_client
register_client-is_in id s alive = elim (Bool-cases (any_of (locks_to s id) s.clients)) [
  | inl known ↦
      let listed = sym (any_of-locks_to s id s.clients alive) ∙ known in
      rw (alive, known)
        (
          refl,
          λ j. elim (Bool-cases (id == j)) [
            | inl same ↦ rw (same, sym ((==_iff id j).0 same)) listed
            | inr differ ↦ rw differ refl
          ],
        )
  | inr new ↦ rw (alive, new) (refl, λ j. is_in-append id s.clients j ∙ ground arith)
]

module _ (id : ℕ) (topics : List TopicSubopts) where
  abbrev registers : SharedClientState → SharedClientState
  registers b = record b { topics = register_topics topics b.topics }

  accepted :
      (err : Error) (s : SharedConnection) (o : Option SharedClientState)
      → s.heap id ≡ o
      → Subscribed id topics err s o
          (done (returned err) (register_client id (update id registers s)))
  accepted err s none gone =
      (refl, rw (register_client_gone id (update id registers s) (ground (arith, gone))) refl)
  accepted err s (some c) alive =
      let u = update id registers s in
      let alive' : u.heap id ≡ some (registers c) = ground (arith, alive) in
      let (same, listed) = register_client-is_in id u (rw alive' refl) in
      (
        refl,
        (
          registers c,
          refl,
          λ topic. options_for-register_topics topic topics c.topics,
          λ j. rw same (
              update-if registers id s j ∙ elim (Bool-cases (id == j)) [
                | inl hit ↦ rw (hit, sym ((==_iff id j).0 hit), alive) refl
                | inr miss ↦ rw miss refl
              ]),
        ),
        listed,
      )

-- A subscription awaits the physical client once. An error is returned and changes nothing. After
-- success the client, if it is alive, is listed, its queue is the same, each topic has the options
-- of the last entry asked for it, or those it had before, and no other object and no other entry
-- of the list changes.
pub async_subscribe-Subscribes :
    (id : ℕ) (topics : List TopicSubopts) (s : SharedConnection)
    → Subscribes id topics s (async_subscribe id topics s)
unfolding async_subscribe bind
async_subscribe-Subscribes id topics s = (
  refl,
  refl,
  λ err u. elim (Bool-cases (failed err)) [
    | inl bad ↦ rw bad refl
    | inr fine ↦ rw fine (accepted id topics err u (u.heap id) refl)
  ],
)
