-- ===== src/Coroutine/Logic.antt =====
-- Reasoning about a coroutine one segment at a time: from where it is resumed to its next await,
-- with any reply and any work of the other coroutines at each await.
use hacpp.Base.{Bool, true, false, returned, threw, exhausted, if◌then◌else◌}
use hacpp.Coroutine.{Coroutine, done, wait, bind}

module _ {R : Type 0} {Reply : R → Type 0} {S : Type 0} where
  -- Every segment of a run that is resumed at `c` relates its two ends by `G`.
  abbrev pub Steps : {A : Type 0} → (S → S → Type 0) → S → Coroutine Reply S A → Type 0
  Steps G c (done o d) = G c d
  Steps G c (wait d r k) = G c d × ((p : Reply r) (e : S) → Steps G e (k p e))

  -- Where a run stands at the end of its segment.
  abbrev pub at : {A : Type 0} → Coroutine Reply S A → S
  at (done o d) = d
  at (wait d r k) = d

  -- Two relations at once, and the one that always holds.
  pub Steps-both :
      {A : Type 0} (G H : S → S → Type 0) (c : S) (m : Coroutine Reply S A)
      → Steps G c m
      → Steps H c m
      → Steps (λ a b. G a b × H a b) c m
  Steps-both G H c (done o d) g h = (g, h)
  Steps-both G H c (wait d r k) g h =
      ((g.0, h.0), λ p e. Steps-both G H e (k p e) (g.1 p e) (h.1 p e))

  pub Steps-any : {A : Type 0} (c : S) (m : Coroutine Reply S A) → Steps (λ a b. Unit {0}) c m
  Steps-any c (done o d) = tt
  Steps-any c (wait d r k) = (tt, λ p e. Steps-any e (k p e))

  module _ {A : Type 0} (G : S → S → Type 0) where
    pub Steps-at : (c : S) (m : Coroutine Reply S A) → Steps G c m → G c (at m)
    Steps-at c (done o d) h = h
    Steps-at c (wait d r k) h = h.0

    pub Steps-mono :
        (H : S → S → Type 0)
        → ((c d : S) → G c d → H c d)
        → (c : S) (m : Coroutine Reply S A) → Steps G c m
        → Steps H c m
    Steps-mono H weaken c (done o d) h = weaken c d h
    Steps-mono H weaken c (wait d r k) h =
        (weaken c d h.0, λ p e. Steps-mono H weaken e (k p e) (h.1 p e))

    -- Both branches of a test, alone and at the head of a bind.
    pub Steps-if :
        (c d : S) (b : Bool) (m n : S → Coroutine Reply S A)
        → Steps G c (m d)
        → Steps G c (n d)
        → Steps G c ((if b then m else n) d)
    Steps-if c d true m n h k = h
    Steps-if c d false m n h k = k

    pub Steps-bind_if :
        {B : Type 0} (c d : S) (b : Bool) (m n : S → Coroutine Reply S B)
        (f : B → S → Coroutine Reply S A)
        → Steps G c (bind (m d) f)
        → Steps G c (bind (n d) f)
        → Steps G c (bind ((if b then m else n) d) f)
    Steps-bind_if c d true m n f h k = h
    Steps-bind_if c d false m n f h k = k

  module _ {A : Type 0} (G : S → S → Type 0) (trans : (c d e : S) → G c d → G d e → G c e) where
    pub Steps-from : (c d : S) (m : Coroutine Reply S A) → G c d → Steps G d m → Steps G c m
    Steps-from c d (done o e) g h = trans c d e g h
    Steps-from c d (wait e r k) g h = (trans c d e g h.0, h.1)

    pub Steps-bind :
        {B : Type 0} (c : S) (m : Coroutine Reply S B) (f : B → S → Coroutine Reply S A)
        → Steps G c m
        → ((b : B) (d : S) → Steps G d (f b d))
        → Steps G c (bind m f)
    unfolding bind
    Steps-bind c (done (returned b) d) f h s = Steps-from c d (f b d) h (s b d)
    Steps-bind c (done (threw e) d) f h s = h
    Steps-bind c (done exhausted d) f h s = h
    Steps-bind c (wait d r k) f h s = (h.0, λ p e. Steps-bind e (k p e) f (h.1 p e) s)
