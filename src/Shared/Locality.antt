-- ===== src/Shared/Locality.antt =====
-- lib/include/hacpp/shared_mqtt_client.h: what the calls of a logical client do to the others.
use hacpp.Base.{
  ℕ, ◌≡◌, ◌≢◌, refl, ◌∙◌, not, is_some, List, [], ◌∷◌, ◌||◌, any_of, erase_if, arith, inl, inr,
  Bool-cases,
}
use hacpp.Api.{Operation, publishing, subscribing, receiving, closing}
use hacpp.Coroutine.{bind}
use hacpp.Coroutine.Logic.{Steps, Steps-from}
use hacpp.Error.{Platform, Error, failed, no_error}
use hacpp.Mqtt.{RecvResult, TopicSubopts}
use hacpp.Shared.{
  SharedConnection, SharedClientState, lock, items_of, is_nil, locks_to, update, drop_front,
  register_topics, register_client, take_front, async_recv, async_subscribe, async_publish,
  async_detach, serve,
}
use hacpp.Shared.Heap.{is_in}
use hacpp.Shared.Invariant.{is_in-append}
use hacpp.Shared.Pump.{is_in-kept}

-- Nothing changes but the object of this number and its place in the list.
abbrev pub IsLocal : ℕ → SharedConnection → SharedConnection → Type 0
IsLocal id s t = (j : ℕ) → j ≢ id → (t.heap j ≡ s.heap j) × (is_in j t.clients ≡ is_in j s.clients)

module _ (id : ℕ) where
  pub IsLocal-refl : (s : SharedConnection) → IsLocal id s s
  IsLocal-refl s j ne = (refl, refl)

  pub IsLocal-trans : (s t u : SharedConnection) → IsLocal id s t → IsLocal id t u → IsLocal id s u
  IsLocal-trans s t u g h j ne = ((h j ne).0 ∙ (g j ne).0, (h j ne).1 ∙ (g j ne).1)

  pub update-IsLocal :
      (f : SharedClientState → SharedClientState) (s : SharedConnection)
      → IsLocal id s (update id f s)
  update-IsLocal f s j ne = ground arith

  pub register_client-IsLocal : (s : SharedConnection) → IsLocal id s (register_client id s)
  unfolding register_client
  register_client-IsLocal s j ne =
      elim (Bool-cases (not (is_some (lock s id)) || any_of (locks_to s id) s.clients)) [
        | inl known ↦ rw known (refl, refl)
        | inr new ↦ rw new (refl, is_in-append id s.clients j ∙ ground arith)
      ]

  pub detach-IsLocal :
      (s : SharedConnection)
      → IsLocal id s (record s { clients = erase_if (locks_to s id) s.clients })
  detach-IsLocal s j ne = (refl, is_in-kept (locks_to s id) s.clients j (ground arith))

  pub take_front-IsLocal :
      (P : Platform) (ec : Error) (items : List RecvResult) (s : SharedConnection)
      → Steps (IsLocal id) s (take_front P id ec items s)
  unfolding bind
  take_front-IsLocal P ec [] s = IsLocal-refl s
  take_front-IsLocal P ec (r ∷ rs) s = update-IsLocal drop_front s

  pub recv-IsLocal :
      (P : Platform) (s : SharedConnection) → Steps (IsLocal id) s (async_recv P id s)
  unfolding async_recv bind
  recv-IsLocal P s =
      let registered = register_client id s in
      elim (Bool-cases (is_nil (items_of (lock registered id)))) [
        | inl empty ↦
            rw empty
              (register_client-IsLocal s, λ ec t. take_front-IsLocal P ec (items_of (lock t id)) t)
        | inr ready ↦ rw ready (
            Steps-from (IsLocal id) IsLocal-trans s registered _ (register_client-IsLocal s)
              (take_front-IsLocal P (no_error P) (items_of (lock registered id)) registered))
      ]

  pub subscribe-IsLocal :
      (topics : List TopicSubopts) (s : SharedConnection)
      → Steps (IsLocal id) s (async_subscribe id topics s)
  unfolding async_subscribe bind
  subscribe-IsLocal topics s = (
    IsLocal-refl s,
    λ err t. elim (Bool-cases (failed err)) [
      | inl bad ↦ rw bad (IsLocal-refl t)
      | inr fine ↦ rw fine (
          let f =
            λ (c : SharedClientState). record c { topics = register_topics topics c.topics } in
          IsLocal-trans t (update id f t) (register_client id (update id f t)) (update-IsLocal f t)
            (register_client-IsLocal (update id f t)))
    ],
  )

  pub serve-IsLocal :
      (P : Platform) (op : Operation) (s : SharedConnection)
      → Steps (IsLocal id) s (serve P id op s)
  unfolding serve async_publish async_detach bind
  serve-IsLocal P (publishing topic payload qos retain) s = (IsLocal-refl s, λ p t. IsLocal-refl t)
  serve-IsLocal P (subscribing topics) s = subscribe-IsLocal topics s
  serve-IsLocal P receiving s = recv-IsLocal P s
  serve-IsLocal P closing s = detach-IsLocal s
