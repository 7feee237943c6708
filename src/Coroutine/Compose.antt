-- ===== src/Coroutine/Compose.antt =====
-- Members of lib/include/hacpp that hold a client and call it (`client_.async_publish(...)` in entity.h
-- and shared_mqtt_client.h): a coroutine whose awaits are the calls of another object's coroutines.
use hacpp.Coroutine.{Coroutine, done, wait, bind}
use hacpp.Coroutine.Logic.{Steps, Steps-from, Steps-bind}

-- The state of an object and that of the object which it holds.
pub record Layered (S T : Type 0) : Type 0 where
  pub inner : S
  pub outer : T

module _ {Q : Type 0} {Reply : Q → Type 0} {S T : Type 0} where
  -- A coroutine of the inner object, while the outer one stands still in each of its segments.
  unfoldable pub on_inner : {A : Type 0} → Coroutine Reply S A → T → Coroutine Reply (Layered S T) A
  on_inner (done o s) t = done o (record { inner = s; outer = t })
  on_inner (wait s q k) t =
      wait (record { inner = s; outer = t }) q (λ p u. on_inner (k p u.inner) u.outer)

  unfoldable pub on_outer : {A : Type 0} → Coroutine Reply T A → S → Coroutine Reply (Layered S T) A
  on_outer (done o t) s = done o (record { inner = s; outer = t })
  on_outer (wait t q k) s =
      wait (record { inner = s; outer = t }) q (λ p u. on_outer (k p u.outer) u.inner)

module _ {Q R : Type 0} {Reply : Q → Type 0} {Result : R → Type 0} {S T : Type 0}
    (serve : (r : R) → S → Coroutine Reply S (Result r)) where
  -- Each await of the outer object's coroutine is a call of the inner one's.
  unfoldable pub over : {A : Type 0} → Coroutine Result T A → S → Coroutine Reply (Layered S T) A
  unfolding on_inner bind
  over (done o t) s = done o (record { inner = s; outer = t })
  over (wait t r k) s = bind (on_inner (serve r s) t) (λ p u. over (k p u.outer) u.inner)

-- The same coroutine, with its requests among those of a larger system.
module _ {Q R : Type 0} (Reply : Q → Type 0) {S : Type 0} (f : R → Q) where
  unfoldable pub relabel : {A : Type 0} → Coroutine (λ r. Reply (f r)) S A → Coroutine Reply S A
  relabel (done o s) = done o s
  relabel (wait s r k) = wait s (f r) (λ p t. relabel (k p t))

module _ {Q R : Type 0} (Reply : Q → Type 0) {S : Type 0} (f : R → Q) (G : S → S → Type 0) where
  pub relabel-Steps :
      {A : Type 0} (s : S) (m : Coroutine (λ r. Reply (f r)) S A)
      → Steps G s m
      → Steps G s (relabel Reply f m)
  unfolding relabel
  relabel-Steps s (done o t) h = h
  relabel-Steps s (wait t r k) h = (h.0, λ p u. relabel-Steps u (k p u) (h.1 p u))

-- What holds of every segment of both objects' coroutines holds of those of the two together.
module _ {S T : Type 0} (G : S → S → Type 0) (H : T → T → Type 0) where
  abbrev pub Both : Layered S T → Layered S T → Type 0
  Both u v = G u.inner v.inner × H u.outer v.outer

  module _ {Q : Type 0} {Reply : Q → Type 0} where
    pub on_inner-Steps :
        {A : Type 0}
        → ((t : T) → H t t)
        → (u : Layered S T) (m : Coroutine Reply S A) → Steps G u.inner m
        → Steps Both u (on_inner m u.outer)
    unfolding on_inner
    on_inner-Steps refl_H u (done o s) h = (h, refl_H u.outer)
    on_inner-Steps refl_H u (wait s q k) h =
        ((h.0, refl_H u.outer), λ p v. on_inner-Steps refl_H v (k p v.inner) (h.1 p v.inner))

    pub on_outer-Steps :
        {A : Type 0}
        → ((s : S) → G s s)
        → (u : Layered S T) (m : Coroutine Reply T A) → Steps H u.outer m
        → Steps Both u (on_outer m u.inner)
    unfolding on_outer
    on_outer-Steps refl_G u (done o t) h = (refl_G u.inner, h)
    on_outer-Steps refl_G u (wait t q k) h =
        ((refl_G u.inner, h.0), λ p v. on_outer-Steps refl_G v (k p v.outer) (h.1 p v.outer))

  module _ {Q R : Type 0} {Reply : Q → Type 0} {Result : R → Type 0}
      (serve : (r : R) → S → Coroutine Reply S (Result r)) (refl_G : (s : S) → G s s)
      (refl_H : (t : T) → H t t) (trans_G : (a b c : S) → G a b → G b c → G a c)
      (trans_H : (a b c : T) → H a b → H b c → H a c)
      (sound : (r : R) (s : S) → Steps G s (serve r s)) where
    Both-trans : (u v w : Layered S T) → Both u v → Both v w → Both u w
    Both-trans u v w g h =
        (trans_G u.inner v.inner w.inner g.0 h.0, trans_H u.outer v.outer w.outer g.1 h.1)

    pub over-Steps :
        {A : Type 0} (u : Layered S T) (m : Coroutine Result T A)
        → Steps H u.outer m
        → Steps Both u (over serve m u.inner)
    unfolding over
    over-Steps u (done o t) h = (refl_G u.inner, h)
    over-Steps u (wait t r k) h =
        let v : Layered S T = record { inner = u.inner; outer = t } in
        Steps-from Both Both-trans u v _ (refl_G u.inner, h.0)
          (Steps-bind Both Both-trans v (on_inner (serve r u.inner) t) _
            (on_inner-Steps refl_H v (serve r u.inner) (sound r u.inner))
            (λ p w. over-Steps w (k p w.outer) (h.1 p w.outer)))
