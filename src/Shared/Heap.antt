-- ===== src/Shared/Heap.antt =====
-- lib/include/hacpp/shared_mqtt_client.h: the loops over `clients_`, as what they do to each object.
use hacpp.Base.{
  ℕ, String, ◌≡◌, refl, Bool, false, List, [], ◌∷◌, any_of, ◌==◌, arith, if◌then◌else◌, inl, inr,
  Bool-cases,
}
use hacpp.Mqtt.{RecvResult}
use hacpp.Shared.{
  SharedConnection, SharedClientState, update, on_some, push_to, push_matching, forward_error,
  dispatch,
}

abbrev pub is_in : ℕ → List ℕ → Bool
is_in id = any_of (λ other. other == id)

-- No object is listed twice.
abbrev pub Distinct : List ℕ → Type 0
Distinct [] = Unit
Distinct (id ∷ ids) = (is_in id ids ≡ false) × Distinct ids

-- Both loops write to the objects in the order of the list.
unfoldable pub for_each :
    (SharedClientState → SharedClientState) → List ℕ → SharedConnection → SharedConnection
for_each f [] s = s
for_each f (id ∷ ids) s = for_each f ids (update id f s)

pub forward_error-for_each :
    (r : RecvResult) (ids : List ℕ) (s : SharedConnection)
    → forward_error r ids s ≡ for_each (push_to r) ids s
unfolding forward_error for_each
forward_error-for_each r [] s = refl
forward_error-for_each r (id ∷ ids) s = forward_error-for_each r ids (update id (push_to r) s)

abbrev pub matching : RecvResult → String → SharedClientState → SharedClientState
matching r topic c = push_matching r topic c.topics c

pub dispatch-for_each :
    (r : RecvResult) (topic : String) (ids : List ℕ) (s : SharedConnection)
    → dispatch r topic ids s ≡ for_each (matching r topic) ids s
unfolding dispatch for_each
dispatch-for_each r topic [] s = refl
dispatch-for_each r topic (id ∷ ids) s =
    dispatch-for_each r topic ids (update id (matching r topic) s)

module _ (f : SharedClientState → SharedClientState) where
  pub for_each_clients :
      (ids : List ℕ) (s : SharedConnection)
      → ((for_each f ids s).clients ≡ s.clients) × ((for_each f ids s).fresh ≡ s.fresh)
  unfolding for_each
  for_each_clients [] s = (refl, refl)
  for_each_clients (id ∷ ids) s = for_each_clients ids (update id f s)

  for_each_absent :
      (ids : List ℕ) (s : SharedConnection) (j : ℕ)
      → is_in j ids ≡ false
      → (for_each f ids s).heap j ≡ s.heap j
  unfolding for_each
  for_each_absent [] s j h = refl
  for_each_absent (id ∷ ids) s j h = ground (arith, for_each_absent ids (update id f s) j)

  -- Each object listed is written to once, if it is alive, and no other is.
  pub for_each_lem :
      (ids : List ℕ) (s : SharedConnection) (j : ℕ)
      → Distinct ids
      → (for_each f ids s).heap j ≡ (if is_in j ids then on_some f (s.heap j) else s.heap j)
  unfolding for_each
  for_each_lem [] s j h = refl
  for_each_lem (id ∷ ids) s j h = elim (Bool-cases (id == j)) [
    | inl hit ↦ ground (arith, for_each_absent ids (update id f s) j)
    | inr miss ↦ ground (arith, for_each_lem ids (update id f s) j h.1)
  ]
