-- ===== src/Entity/Setup.antt =====
-- lib/include/hacpp/entity.h: the requests that a setup makes.
use hacpp.Base.{
  some, String, ◌≡◌, refl, true, List, [], ◌∷◌, returned, if◌then◌else◌, inl, inr, Bool-cases,
}
use hacpp.Api.{Operation, publishing, subscribing}
use hacpp.Entity.{
  Spawned, Co, bind, co_return, done, wait, Impl, async_publish, async_subscribe_to, async_setup,
  async_update_availability, availability_payload,
}
use hacpp.Json.{Json, IsJson}
use hacpp.Mqtt.{QoS, TopicSubopts}
use hacpp.Config.{at, contains}
use hacpp.Error.{Platform, no_error, Error, failed, make_error_code}

-- Resumed at `s` after the reply `last`: the operations are requested in order, up to the first
-- that fails, the last reply is returned, and no handler is started meanwhile.
abbrev pub Issues : Error → Spawned → List Operation → Co Error → Type 0
Issues last s [] m = m ≡ done (returned last) s
Issues last s (op ∷ ops) (wait t (publishing topic payload qos retain) k) =
    (t ≡ s)
    × (publishing topic payload qos retain ≡ op)
    × ((err : Error) (u : Spawned)
        → if failed err then k err u ≡ done (returned err) u else Issues err u ops (k err u))
Issues last s (op ∷ ops) (wait t (subscribing topics) k) =
    (t ≡ s)
    × (subscribing topics ≡ op)
    × ((err : Error) (u : Spawned)
        → if failed err then k err u ≡ done (returned err) u else Issues err u ops (k err u))
Issues last s ops m = ⊥

-- A request whose reply is returned is the last.
pub Issues-last :
    (err : Error) (s : Spawned)
    → let m = co_return {A = Error} err s in
      if failed err then m ≡ done (returned err) s else Issues err s [] m
Issues-last err s = elim (Bool-cases (failed err)) [
  | inl bad ↦ rw bad refl
  | inr fine ↦ rw fine refl
]

-- A setup of an entity with commands: its configuration, its topics and its availability.
module _ (J : Json) (impl : Impl J) (discovery_topic discovery : String)
    (topics : List TopicSubopts) (availability_topic availability : String) (qos : QoS) where
  pub setup_requests-Issues :
      ((s : Spawned)
        → impl.async_discovery_impl s ≡ async_publish discovery_topic discovery qos true s)
      → ((s : Spawned) → impl.async_subscribe_impl s ≡ async_subscribe_to topics s)
      → ((s : Spawned)
          → async_update_availability J impl true s
            ≡ async_publish availability_topic availability qos true s)
      → (last : Error) (s : Spawned)
      → Issues last s
          (publishing discovery_topic discovery qos true
            ∷ subscribing topics
            ∷ publishing availability_topic availability qos true
            ∷ [])
          (async_setup J impl s)
  unfolding async_setup bind
  setup_requests-Issues discovers subscribes updates last s = rw (discovers s) (
    refl,
    refl,
    λ err u. elim (Bool-cases (failed err)) [
      | inl bad ↦ rw bad refl
      | inr fine ↦
          rw (fine, subscribes u)
            (
              refl,
              refl,
              λ err u. elim (Bool-cases (failed err)) [
                | inl bad ↦ rw bad refl
                | inr fine ↦ rw (fine, updates u) (refl, refl, Issues-last)
              ],
            )
    ],
  )

-- A setup of an entity without commands.
pub setup_reports-Issues :
    (P : Platform) (J : Json) (impl : Impl J)
    (discovery_topic discovery availability_topic availability : String) (qos : QoS)
    → ((s : Spawned)
        → impl.async_discovery_impl s ≡ async_publish discovery_topic discovery qos true s)
    → ((s : Spawned) → impl.async_subscribe_impl s ≡ co_return (no_error P) s)
    → ((s : Spawned)
        → async_update_availability J impl true s
          ≡ async_publish availability_topic availability qos true s)
    → (last : Error) (s : Spawned)
    → Issues last s
        (publishing discovery_topic discovery qos true
          ∷ publishing availability_topic availability qos true
          ∷ [])
        (async_setup J impl s)
unfolding async_setup bind no_error
setup_reports-Issues P J impl discovery_topic discovery availability_topic availability qos
      discovers subscribes updates last s =
    rw (discovers s) (
      refl,
      refl,
      λ err u. elim (Bool-cases (failed err)) [
        | inl bad ↦ rw bad refl
        | inr fine ↦ rw (fine, subscribes u) (rw (updates u) (refl, refl, Issues-last))
      ],
    )

-- An availability topic, and no payload, is configured.
pub available-eq :
    (J : Json) (laws : IsJson J) (impl : Impl J) (topic : String) (s : Spawned)
    → J.find impl.cfg "availability" ≡ some (J.object (J.assign J.empty "topic" (J.string topic)))
    → async_update_availability J impl true s ≡ async_publish topic "online" impl.qos true s
unfolding async_update_availability availability_payload contains at make_error_code bind
available-eq J laws impl topic s there =
    rw there (
      simp (laws.find-assign, laws.find-empty, laws.as_object-object, laws.as_string-string, there))
