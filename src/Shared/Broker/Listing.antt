-- ===== src/Shared/Broker/Listing.antt =====
-- lib/include/hacpp/shared_mqtt_client.h: what the specification sees each of the changes to the list
-- of clients, and to the objects there are, do.
use hacpp.Base.{
  ℕ, ◌<◌, All, suc, ◌≡◌, refl, sym, ◌∙◌, Bool, true, false, not, none, some, is_some, List, [], ◌∷◌,
  ◌==◌, ==_iff, ◌&&◌, ◌||◌, erase_if, arith, Bool-cases, inl, inr, if◌then◌else◌,
}
use hacpp.Shared.{SharedConnection, put, register_client, remove_expired_clients, lock, locks_to}
use hacpp.Shared.Heap.{is_in}
use hacpp.Shared.Invariant.{Inv, new_state}
use hacpp.Shared.Subscriptions.{register_client-is_in}
use hacpp.Shared.Broker.{attach, detach, new_client, remove_client}
use hacpp.Shared.Broker.View.{view, mailbox_of_some, broker-eq, is_some-mailbox_of}

-- A test that no listed and living object meets leaves the view as it is.
attached-erase_if :
    (p : ℕ → Bool) (s : SharedConnection) (j : ℕ) (ids : List ℕ)
    → (is_some (s.heap j) && is_in j (erase_if p ids))
      ≡ (is_some (s.heap j) && not (p j) && is_in j ids)
attached-erase_if p s j [] = ground arith
attached-erase_if p s j (i ∷ ids) = elim (Bool-cases (i == j)) [
  | inl same ↦ rw ((==_iff i j).0 same) (ground (arith, attached-erase_if p s j ids))
  | inr differ ↦ ground (arith, attached-erase_if p s j ids)
]

pub view-remove_expired_clients : (s : SharedConnection) → view (remove_expired_clients s) ≡ view s
unfolding remove_expired_clients
view-remove_expired_clients s =
    broker-eq _ _ (λ j. refl)
      (λ j. attached-erase_if (λ weak. not (is_some (lock s weak))) s j s.clients ∙ ground arith)
      refl

pub view-detach :
    (id : ℕ) (s : SharedConnection)
    → view (record s { clients = erase_if (locks_to s id) s.clients }) ≡ detach id (view s)
view-detach id s =
    broker-eq _ _ (λ j. refl) (λ j. attached-erase_if (locks_to s id) s j s.clients ∙ ground arith)
      refl

register_client-fresh : (id : ℕ) (s : SharedConnection) → (register_client id s).fresh ≡ s.fresh
unfolding register_client
register_client-fresh id s = ground arith

pub view-register_client :
    (id : ℕ) (s : SharedConnection) → view (register_client id s) ≡ attach id (view s)
unfolding register_client
view-register_client id s = elim (Bool-cases (is_some (s.heap id))) [
  | inl alive ↦
      let (same, listed) = register_client-is_in id s alive in
      broker-eq _ _ (λ j. rw same refl) (λ j. rw (same, listed j) (attached-alive j alive))
        (register_client-fresh id s)
  | inr gone ↦ rw gone (broker-eq _ _ (λ j. refl) (λ j. attached-gone j gone) refl)
]
  where
    attached-alive :
        (j : ℕ)
        → is_some (s.heap id) ≡ true
        → (is_some (s.heap j) && (id == j || is_in j s.clients)) ≡ (
            if id == j
            then is_some (mailbox_of_some (s.heap j))
            else is_some (s.heap j) && is_in j s.clients)
    attached-alive j alive = elim (Bool-cases (id == j)) [
      | inl same ↦ rw (same, sym ((==_iff id j).0 same), is_some-mailbox_of (s.heap id), alive) refl
      | inr differ ↦ rw differ refl
    ]

    attached-gone :
        (j : ℕ)
        → is_some (s.heap id) ≡ false
        → (is_some (s.heap j) && is_in j s.clients) ≡ (
            if id == j
            then is_some (mailbox_of_some (s.heap j))
            else is_some (s.heap j) && is_in j s.clients)
    attached-gone j gone = elim (Bool-cases (id == j)) [
      | inl same ↦ rw (same, sym ((==_iff id j).0 same), is_some-mailbox_of (s.heap id), gone) refl
      | inr differ ↦ rw differ refl
    ]

is_in-below : (n : ℕ) (ids : List ℕ) → All (λ id. id < n) ids → is_in n ids ≡ false
is_in-below n [] h = refl
is_in-below n (i ∷ ids) h = ground (arith, is_in-below n ids h.1)

pub view-make :
    (s : SharedConnection)
    → Inv s
    → view (record s { heap = put s.heap s.fresh (some new_state); fresh = suc s.fresh })
      ≡ new_client (view s)
view-make s v =
    broker-eq _ _ (λ j. ground arith)
      (λ j. elim (Bool-cases (s.fresh == j)) [
        | inl same ↦
            rw (sym ((==_iff s.fresh j).0 same), is_in-below s.fresh s.clients v.below)
              (ground arith)
        | inr differ ↦ rw differ refl
      ])
      refl

pub view-destroy :
    (id : ℕ) (s : SharedConnection)
    → view (record s { heap = put s.heap id none }) ≡ remove_client id (view s)
view-destroy id s = broker-eq _ _ (λ j. ground arith) (λ j. ground arith) refl
