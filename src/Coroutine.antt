-- ===== src/Coroutine.antt =====
-- The C++20 coroutines (`boost::asio::awaitable`) of lib/include/hacpp, as trees: a run goes on by
-- itself up to an await, and is resumed with the reply and with the shared state as the other
-- coroutines of the executor left it.
pub mod Logic
pub mod Run
pub mod System
pub mod Compose
pub mod Refinement
use hacpp.Base.{◌≡◌, Outcome, returned, threw, exhausted, Exception}

-- `wait s r k` is suspended at the request `r`, with the state `s`.
pub data Coroutine {R : Type 0} (Reply : R → Type 0) (S A : Type 0) : Type 0 where
  done : Outcome A → S → Coroutine Reply S A
  wait : S → (r : R) → (Reply r → S → Coroutine Reply S A) → Coroutine Reply S A

module _ {R : Type 0} {Reply : R → Type 0} {S : Type 0} where
  unfoldable pub bind :
      {A B : Type 0} → Coroutine Reply S A → (A → S → Coroutine Reply S B) → Coroutine Reply S B
  bind (done (returned a) s) f = f a s
  bind (done (threw e) s) f = done (threw e) s
  bind (done exhausted s) f = done exhausted s
  bind (wait s r k) f = wait s r (λ p t. bind (k p t) f)

  infixl 5 ◌>>=◌ ◌>>◌
  abbrev pub ◌>>=◌ :
      {A B : Type 0}
      → (S → Coroutine Reply S A)
      → (A → S → Coroutine Reply S B)
      → S
      → Coroutine Reply S B
  unfolding bind
  ◌>>=◌ m f s = bind (m s) f

  abbrev pub ◌>>◌ :
      {A B : Type 0}
      → (S → Coroutine Reply S A)
      → (S → Coroutine Reply S B)
      → S
      → Coroutine Reply S B
  unfolding bind
  m >> k = m >>= λ _. k

  abbrev pub co_return : {A : Type 0} → A → S → Coroutine Reply S A
  co_return a s = done (returned a) s

  abbrev pub throw : {A : Type 0} → Exception → S → Coroutine Reply S A
  throw e s = done (threw e) s

  abbrev pub out_of_fuel : {A : Type 0} → S → Coroutine Reply S A
  out_of_fuel s = done exhausted s

  abbrev pub co_await : (r : R) → S → Coroutine Reply S (Reply r)
  co_await r s = wait s r (λ p t. done (returned p) t)

  abbrev pub gets : {A : Type 0} → (S → A) → S → Coroutine Reply S A
  gets f s = done (returned (f s)) s

  abbrev pub modify : (S → S) → S → Coroutine Reply S (Unit {0})
  modify f s = done (returned tt) (f s)
