-- ===== src/Shared/Clients.antt =====
-- lib/include/hacpp/shared_mqtt_client.h: what a logical client's own calls do.
use hacpp.Base.{
  ℕ, ◌≡◌, ◌≢◌, ap, List, [], ◌∷◌, ◌==◌, if◌then◌else◌, inl, inr, Bool-cases, returned, ==_iff,
}
use hacpp.Error.{Platform, Error, failed, map_err, make_error_code, internal_error, no_error}
use hacpp.Mqtt.{RecvResult, unexpected}
use hacpp.Shared.{
  Co, done, wait, queue_timer, SharedConnection, SharedClientState, update, on_some, drop_front,
  items_of,
}

-- The result at the front, or if there is none the error of the wait, or `InternalError` if the
-- wait ended without an error.
abbrev pub front : Platform → Error → List RecvResult → RecvResult
front P ec [] = unexpected (if failed ec then map_err P ec else make_error_code internal_error)
front P ec (r ∷ rs) = r

-- The front of the queue of `id` is returned and dropped; nothing else changes.
abbrev pub Popped : Platform → ℕ → Error → SharedConnection → Co RecvResult → Type 0
Popped P id ec s (done o t) =
    (o ≡ returned (front P ec (items_of (s.heap id))))
    × (t.clients ≡ s.clients)
    × ((j : ℕ) → t.heap j ≡ (if id == j then on_some drop_front (s.heap j) else s.heap j))
Popped P id ec s (wait t r k) = ⊥

-- A receive takes the front at once, or waits once on the queue's timer if the queue is empty, and
-- then takes what is at the front when it is resumed.
abbrev pub Serves : Platform → ℕ → SharedConnection → Co RecvResult → Type 0
Serves P id s (done o t) = (items_of (s.heap id) ≢ []) × Popped P id (no_error P) s (done o t)
Serves P id s (wait t (queue_timer j) k) =
    (items_of (s.heap id) ≡ [])
    × (t ≡ s)
    × (j ≡ id)
    × ((ec : Error) (u : SharedConnection) → Popped P id ec u (k ec u))
Serves P id s (wait t r k) = ⊥

-- Writing to `id` is writing to whichever object has that number.
pub update-if :
    (f : SharedClientState → SharedClientState) (id : ℕ) (s : SharedConnection) (j : ℕ)
    → (update id f s).heap j ≡ (if id == j then on_some f (s.heap j) else s.heap j)
update-if f id s j = elim (Bool-cases (id == j)) [
  | inl hit ↦ rw hit (ap (λ i. on_some f (s.heap i)) ((==_iff id j).0 hit))
  | inr miss ↦ rw miss
]
