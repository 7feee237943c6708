-- ===== src/Shared/Delivery.antt =====
-- lib/include/hacpp/shared_mqtt_client.h: which queue gets which result.
use hacpp.Base.{
  ℕ, ◌≡◌, refl, ap, ◌∙◌, Bool, true, false, Option, none, some, List, arith, if◌then◌else◌,
}
use hacpp.Mqtt.{RecvResult, TopicSubopts, packet, unexpected, publish, other}
use hacpp.Shared.{SharedConnection, SharedClientState, on_some, push_to, pump_result}
use hacpp.Shared.Topics.{has_topic, push_matching_lem}
use hacpp.Shared.Heap.{
  is_in, for_each_clients, for_each_lem, forward_error-for_each, dispatch-for_each, matching,
}
use hacpp.Shared.Invariant.{Inv}

-- A client with these topics is to be given the result: every error, and the packets of its topics.
abbrev pub wants : RecvResult → List TopicSubopts → Bool
wants (unexpected err) topics = true
wants (packet (publish p)) topics = has_topic p.topic topics
wants (packet (other kind)) topics = false

abbrev pub give : RecvResult → SharedClientState → SharedClientState
give r c = if wants r c.topics then push_to r c else c

on_some-ext :
    (f g : SharedClientState → SharedClientState) (o : Option SharedClientState)
    → ((c : SharedClientState) → o ≡ some c → f c ≡ g c)
    → on_some f o ≡ on_some g o
on_some-ext f g none h = refl
on_some-ext f g (some c) h = ap some (h c refl)

if-ap {ℓ} :
    {A : Type ℓ} (b : Bool) (x y z : A) → x ≡ y → (if b then x else z) ≡ (if b then y else z)
if-ap b x y z e = rw e

unwanted : (kind : ℕ) (o : Option SharedClientState) → on_some (give (packet (other kind))) o ≡ o
unwanted kind none = refl
unwanted kind (some c) = refl

-- The pump gives a result to each object that is listed, is alive and is to be given it, in one
-- copy; every other object, the list and the count of objects stay as they are.
pub pump_result-gives :
    (r : RecvResult) (s : SharedConnection) (id : ℕ)
    → Inv s
    → ((pump_result r s).heap id
        ≡ (if is_in id s.clients then on_some (give r) (s.heap id) else s.heap id))
      × ((pump_result r s).clients ≡ s.clients)
      × ((pump_result r s).fresh ≡ s.fresh)
unfolding pump_result
pump_result-gives (unexpected err) s id v = rw forward_error-for_each (
  for_each_lem (push_to (unexpected err)) s.clients s id v.distinct,
  (for_each_clients (push_to (unexpected err)) s.clients s).0,
  (for_each_clients (push_to (unexpected err)) s.clients s).1,
)
pump_result-gives (packet (publish p)) s id v =
    let r = packet (publish p) in
    rw dispatch-for_each (
      for_each_lem (matching r p.topic) s.clients s id v.distinct
          ∙ if-ap (is_in id s.clients) _ _ _ (
              on_some-ext (matching r p.topic) (give r) (s.heap id)
                (λ c e. push_matching_lem r p.topic c.topics c (v.topics id c e))),
      (for_each_clients (matching r p.topic) s.clients s).0,
      (for_each_clients (matching r p.topic) s.clients s).1,
    )
pump_result-gives (packet (other kind)) s id v =
    (ground (arith, unwanted kind (s.heap id)), refl, refl)
