-- ===== src/Shared/Detaching.antt =====
-- lib/include/hacpp/shared_mqtt_client.h: a logical client after `async_detach`, whatever else runs.
use hacpp.Base.{
  ℕ, zero, suc, ◌≡◌, ◌≢◌, refl, ap, ◌∙◌, Bool, true, false, Option, none, some, is_some, not, List,
  [], ◌∷◌, erase_if, ◌==◌, arith, if◌then◌else◌, inl, inr, Bool-cases, returned, ==_iff,
}
use hacpp.Coroutine.{bind}
use hacpp.Coroutine.Logic.{Steps, Steps-bind, Steps-both, Steps-from, Steps-mono, at}
use hacpp.Coroutine.System.{System, Reach, next, spawn, Reach-invariant, Later, Later-related}
use hacpp.Error.{Platform, Error, failed, no_error}
use hacpp.Mqtt.{RecvResult}
use hacpp.Shared.{
  Co, Reply, done, wait, SharedConnection, SharedClientState, on_some, lock, locks_to, pump_result,
  pump_error, remove_expired_clients, async_connect, async_close, async_publish, async_detach,
  async_run, async_pump_one, make_client, destroy,
}
use hacpp.Shared.Heap.{is_in}
use hacpp.Shared.Invariant.{
  Inv, make-Inv, destroy-Inv, erase_if-Inv, is_in-erase_if, pump_result-Inv,
}
use hacpp.Shared.Delivery.{give, pump_result-gives}
use hacpp.Shared.Interleaving.{
  Call, connects, closes, makes, pumps, publishes, subscribes, receives, detaches, destroys, runs,
  task, Preserves, recv-Preserves, subscribe-Preserves,
}
use hacpp.Shared.Locality.{IsLocal, recv-IsLocal, subscribe-IsLocal}

pub is_in-detached :
    (s : SharedConnection) (id : ℕ) (ids : List ℕ)
    → is_some (s.heap id) ≡ true
    → (j : ℕ) → is_in j (erase_if (locks_to s id) ids) ≡ (if id == j then false else is_in j ids)
is_in-detached s id [] alive j = ground arith
is_in-detached s id (i ∷ ids) alive j =
    let others = is_in-detached s id ids alive j in
    elim (Bool-cases (i == id)) [
      | inl same ↦
          let e = (==_iff i id).0 same in
          let hit : locks_to s id i ≡ true = rw e (ground arith) in
          rw hit (others ∙ rw e (ground arith))
      | inr differ ↦ ground (arith, others)
    ]

-- Every call but a receive or a subscription of this client, which list it, and the loss of it.
abbrev pub Spares : ℕ → Call → Type 0
Spares id (subscribes j topics) = id ≢ j
Spares id (receives j) = id ≢ j
Spares id (destroys j) = id ≢ j
Spares id (detaches j) = Unit
Spares id (publishes topic payload qos retain) = Unit
Spares id (runs fuel) = Unit
Spares id connects = Unit
Spares id closes = Unit
Spares id makes = Unit
Spares id pumps = Unit

module _ (id : ℕ) where
  abbrev IsAlive : SharedConnection → Type 0
  IsAlive s = Inv s × (is_some (s.heap id) ≡ true)

  -- The client stays alive. If it is not listed, it stays so, and its queue and topics as they are.
  abbrev Stays : SharedConnection → SharedConnection → Type 0
  Stays s t =
      IsAlive s
      → IsAlive t
        × (is_in id s.clients ≡ false → (t.heap id ≡ s.heap id) × (is_in id t.clients ≡ false))

  Stays-refl : (s : SharedConnection) → Stays s s
  Stays-refl s v = (v, λ out. (refl, out))

  Stays-trans : (s t u : SharedConnection) → Stays s t → Stays t u → Stays s u
  Stays-trans s t u f g v =
      let (w, kept) = f v in
      let (x, kept') = g w in
      (
        x,
        λ out.
            let (same, out') = kept out in let (same', out'') = kept' out' in (same' ∙ same, out''),
      )

  frame :
      (s t : SharedConnection)
      → Preserves s t
      → (IsAlive s → t.heap id ≡ s.heap id)
      → (is_in id s.clients ≡ false → is_in id t.clients ≡ false)
      → Stays s t
  frame s t keeps same out v = ((keeps v.0, ap is_some (same v) ∙ v.1), λ u. (same v, out u))

  local-Stays :
      (j : ℕ) → id ≢ j → (s t : SharedConnection) → Preserves s t × IsLocal j s t → Stays s t
  local-Stays j other s t (keeps, local) =
      frame s t keeps (λ v. (local id other).0) (λ out. (local id other).1 ∙ out)

  alive-given :
      (r : RecvResult) (o : Option SharedClientState) (listed : Bool)
      → is_some o ≡ true
      → is_some (if listed then on_some (give r) o else o) ≡ true
  alive-given r none listed alive = absurd (cc)
  alive-given r (some c) true alive = refl
  alive-given r (some c) false alive = refl

  pump-Stays : (r : RecvResult) (s : SharedConnection) → Stays s (pump_result r s)
  pump-Stays r s v =
      let (gives, same, _) = pump_result-gives r s id v.0 in
      (
        (
          pump_result-Inv r s v.0,
          ap is_some gives ∙ alive-given r (s.heap id) (is_in id s.clients) v.1,
        ),
        λ out. (gives ∙ rw out refl, rw same out),
      )

  erase-Stays :
      (p : ℕ → Bool) (s : SharedConnection) → Stays s (record s { clients = erase_if p s.clients })
  erase-Stays p s = frame s _ (erase_if-Inv p s) (λ v. refl) (is_in-erase_if p s.clients id)

  removed-Stays : (s : SharedConnection) → Stays s (remove_expired_clients s)
  unfolding remove_expired_clients
  removed-Stays s = erase-Stays (λ weak. not (is_some (lock s weak))) s

  run-Stays : (fuel : ℕ) (s : SharedConnection) → Steps Stays s (async_run fuel s)
  unfolding async_run bind
  run-Stays zero s = Stays-refl s
  run-Stays (suc fuel) s = (
    removed-Stays s,
    λ r t. elim (Bool-cases (failed (pump_error r))) [
      | inl bad ↦ rw bad (pump-Stays r t)
      | inr fine ↦ rw fine (
          Steps-from Stays Stays-trans t (pump_result r t) _ (pump-Stays r t)
            (run-Stays fuel (pump_result r t)))
    ],
  )

  task-Stays :
      (P : Platform) (call : Call)
      → Spares id call
      → (s : SharedConnection) → Steps Stays s (task P call s)
  unfolding task async_connect async_close async_publish async_detach make_client destroy
      async_pump_one bind
  task-Stays P connects q s = (Stays-refl s, λ p t. Stays-refl t)
  task-Stays P closes q s = (Stays-refl s, λ p t. Stays-refl t)
  task-Stays P makes q s =
      frame s _ (make-Inv s) (λ v. ground (arith, v.1, v.0.dead id)) (λ out. out)
  task-Stays P pumps q s = (removed-Stays s, λ r t. pump-Stays r t)
  task-Stays P (publishes topic payload qos retain) q s = (Stays-refl s, λ p t. Stays-refl t)
  task-Stays P (subscribes j topics) q s =
      Steps-bind Stays Stays-trans s _ _
        (Steps-mono _ Stays (local-Stays j q) s _ (
          Steps-both Preserves (IsLocal j) s _ (subscribe-Preserves j topics s)
            (subscribe-IsLocal j topics s)))
        (λ err t. Stays-refl t)
  task-Stays P (receives j) q s =
      Steps-bind Stays Stays-trans s _ _
        (Steps-mono _ Stays (local-Stays j q) s _
          (Steps-both Preserves (IsLocal j) s _ (recv-Preserves P j s) (recv-IsLocal j P s)))
        (λ r t. Stays-refl t)
  task-Stays P (detaches j) q s = erase-Stays (locks_to s j) s
  task-Stays P (destroys j) q s = frame s _ (destroy-Inv j s) (λ v. ground (arith, q)) (λ out. out)
  task-Stays P (runs fuel) q s = run-Stays fuel s

-- It ends at once without an error, and takes the client off the list, and no other.
abbrev pub Detached : Platform → ℕ → SharedConnection → Co Error → Type 0
Detached P id s (done o t) =
    (o ≡ returned (no_error P))
    × (t.heap ≡ s.heap)
    × ((j : ℕ) → is_in j t.clients ≡ (if id == j then false else is_in j s.clients))
Detached P id s (wait t r k) = ⊥

-- The program right after it called `async_detach`.
abbrev pub detaching : Platform → ℕ → System Reply SharedConnection → System Reply SharedConnection
detaching P id s = record {
  shared = at (task P (detaches id) s.shared);
  tasks = task P (detaches id) s.shared ∷ s.tasks;
}

-- In every interleaving, from a connection that meets the invariant and on which the client is alive,
-- of any calls but receives, subscriptions and the destruction of this client: a detach of the client
-- ends at once without an error, takes the client off the list, and keeps every other entry and every
-- object. From then on, whatever calls are under way or begun later, the pump among them, but for those
-- three, the client is not on the list, and its queue and topics are as they were at the detach.
pub async_detach-Detaches :
    (P : Platform) (id : ℕ) (before : SharedConnection) {s t : System Reply SharedConnection}
    → Inv before
    → is_some (before.heap id) ≡ true
    → Reach (task P) before (Spares id) s
    → Later (task P) before (Spares id) (detaching P id s) t
    → Detached P id s.shared (async_detach P id s.shared)
      × (t.shared.heap id ≡ s.shared.heap id)
      × (is_in id t.shared.clients ≡ false)
unfolding async_detach task bind
async_detach-Detaches P id before {s} v alive reached later =
    let (valid, living) =
      Reach-invariant (task P) before (Spares id) (IsAlive id)
        (λ call q c. Steps-mono (Stays id) _ (λ a b g w. (g w).0) c _ (task-Stays id P call q c))
        (v, alive) reached in
    let others = is_in-detached s.shared id s.shared.clients living in
    let gone : is_in id (detaching P id s).shared.clients ≡ false = others id ∙ ground arith in
    let (_, kept) =
      Later-related (task P) before (Spares id) (Stays id) (task-Stays id P) (Stays-refl id)
        (Stays-trans id) (next reached (spawn (detaches id) tt refl refl)) later
        (erase_if-Inv (locks_to s.shared id) s.shared valid, living) in
    let (same, out) = kept gone in ((refl, refl, others), same, out)
