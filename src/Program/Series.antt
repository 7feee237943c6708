-- ===== src/Program/Series.antt =====
-- A whole program: the results that the connection is to yield, as a series of packets and resets.
use hacpp.Base.{
  ℕ, zero, suc, true, if◌then◌else◌, ◌≤◌, ◌≡◌, refl, sym, ap, ◌∙◌, ◌⊎◌, List, [], ◌∷◌, ◌++◌, length,
  inl, inr, arith,
}
use hacpp.Api.{Operation}
use hacpp.Entity.{Spawned}
use hacpp.Entity.Serving.{steps}
use hacpp.Error.{Error, is_code, make_error_code, session_reset}
use hacpp.Mqtt.{RecvResult, Packet, packet, unexpected}

abbrev pub packets_of : List RecvResult → List Packet
packets_of [] = []
packets_of (packet p ∷ rs) = p ∷ packets_of rs
packets_of (unexpected x ∷ rs) = packets_of rs

-- How often the session is reset.
abbrev pub resets_of : List RecvResult → ℕ
resets_of [] = 0
resets_of (packet p ∷ rs) = resets_of rs
resets_of (unexpected x ∷ rs) =
    let more = resets_of rs in if is_code x session_reset then suc more else more

pub reset : is_code (make_error_code session_reset) session_reset ≡ true
unfolding is_code make_error_code
reset = refl

pub resets_of-reset :
    (x : Error) (rs : List RecvResult)
    → x ≡ make_error_code session_reset
    → resets_of (unexpected x ∷ rs) ≡ suc (resets_of rs)
resets_of-reset x rs is_reset = rw (is_reset, reset) refl

-- So many times these operations.
abbrev pub replayed : ℕ → List Operation → List Operation
replayed zero ops = []
replayed (suc n) ops = ops ++ replayed n ops

-- Packets that satisfy `V` and resets of the session, which end with another error `e`.
abbrev pub Series : (Packet → Type 0) → Error → List RecvResult → Type 0
Series V e [] = ⊥
Series V e (packet p ∷ rs) = V p × Series V e rs
Series V e (unexpected x ∷ rs) =
    ((x ≡ make_error_code session_reset) × Series V e rs) ⊎ ((x ≡ e) × (rs ≡ []))

module _ (step : Packet → Spawned → Spawned) where
  -- Both mean the same to the handlers, reset the session as often, and the second is no longer.
  pub record Reduces (rs rs' : List RecvResult) : Type 0 where
    pub same : (s : Spawned) → steps step (packets_of rs') s ≡ steps step (packets_of rs) s
    pub resets : resets_of rs' ≡ resets_of rs
    pub shorter : length rs' ≤ length rs

  pub Reduces-refl : (rs : List RecvResult) → Reduces rs rs
  Reduces-refl rs = record { same = λ s. refl; resets = refl; shorter = omega arith }

  pub Reduces-trans :
      (rs rs' rs'' : List RecvResult) → Reduces rs rs' → Reduces rs' rs'' → Reduces rs rs''
  Reduces-trans rs rs' rs'' a b = record {
    same = λ s. b.same s ∙ a.same s;
    resets = b.resets ∙ a.resets;
    shorter = omega (arith, a.shorter, b.shorter);
  }

  Reduces-cons :
      (r : RecvResult) (rs rs' : List RecvResult) → Reduces rs rs' → Reduces (r ∷ rs) (r ∷ rs')
  Reduces-cons (packet p) rs rs' a = record {
    same = λ s. a.same (step p s);
    resets = a.resets;
    shorter = omega (arith, a.shorter);
  }
  Reduces-cons (unexpected x) rs rs' a = record {
    same = a.same;
    resets = ap (λ (n : ℕ). if is_code x session_reset then suc n else n) a.resets;
    shorter = omega (arith, a.shorter);
  }

  -- A packet that does nothing may be left out.
  pub Reduces-without :
      (rs rs' : List RecvResult) (p : Packet)
      → ((s : Spawned) → step p s ≡ s)
      → Reduces (rs ++ packet p ∷ rs') (rs ++ rs')
  Reduces-without [] rs' p idle = record {
    same = λ s. ap (steps step (packets_of rs')) (sym (idle s));
    resets = refl;
    shorter = omega arith;
  }
  Reduces-without (r ∷ rs) rs' p idle =
      Reduces-cons r (rs ++ packet p ∷ rs') (rs ++ rs') (Reduces-without rs rs' p idle)

module _ (V : Packet → Type 0) (e : Error) where
  not_last : (rs rs' : List RecvResult) (r : RecvResult) → rs ++ r ∷ rs' ≡ [] → ⊥
  not_last [] rs' r h = cc
  not_last (x ∷ rs) rs' r h = cc

  pub Series-at : (rs rs' : List RecvResult) (p : Packet) → Series V e (rs ++ packet p ∷ rs') → V p
  Series-at [] rs' p h = h.0
  Series-at (packet q ∷ rs) rs' p h = Series-at rs rs' p h.1
  Series-at (unexpected x ∷ rs) rs' p (inl h) = Series-at rs rs' p h.1
  Series-at (unexpected x ∷ rs) rs' p (inr h) = absurd (not_last rs rs' (packet p) h.1)

  pub Series-without :
      (rs rs' : List RecvResult) (p : Packet)
      → Series V e (rs ++ packet p ∷ rs')
      → Series V e (rs ++ rs')
  Series-without [] rs' p h = h.1
  Series-without (packet q ∷ rs) rs' p h = (h.0, Series-without rs rs' p h.1)
  Series-without (unexpected x ∷ rs) rs' p (inl h) = inl (h.0, Series-without rs rs' p h.1)
  Series-without (unexpected x ∷ rs) rs' p (inr h) = absurd (not_last rs rs' (packet p) h.1)
