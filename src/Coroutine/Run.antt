-- ===== src/Coroutine/Run.antt =====
-- Runs of a coroutine against an environment: what answers each await, and the other coroutines,
-- which may change the shared state meanwhile.
use hacpp.Base.{◌≡◌, refl, ap, Outcome, returned, threw, exhausted}
use hacpp.Coroutine.{Coroutine, done, wait, bind, co_return}

pub record Env {R : Type 0} (Reply : R → Type 0) (S : Type 0) : Type 1 where
  pub Net : Type 0
  pub answer : (r : R) → Net → S → Reply r × Net × S

-- No other coroutine touches the shared state at an await.
abbrev pub IsQuiet : {R : Type 0} {Reply : R → Type 0} {S : Type 0} → Env Reply S → Type 0
IsQuiet {R} {Reply} {S} env = (r : R) (n : env.Net) (s : S) → (env.answer r n s).2 ≡ s

abbrev pub map_outcome : {A B : Type 0} → (A → B) → Outcome A → Outcome B
map_outcome g (returned a) = returned (g a)
map_outcome g (threw x) = threw x
map_outcome g exhausted = exhausted

module _ {R : Type 0} {Reply : R → Type 0} {S : Type 0} (env : Env Reply S) where
  open env use {Net, answer}

  unfoldable pub run : {A : Type 0} → Coroutine Reply S A → Net → Outcome A × Net × S
  run (done o c) n = (o, n, c)
  run (wait c r k) n = let (p, n', d) = answer r n c in run (k p d) n'

  pub run-done : {A : Type 0} (o : Outcome A) (c : S) (n : Net) → run (done o c) n ≡ (o, n, c)
  unfolding run
  run-done o c n = refl

  pub run-wait_reply :
      {A : Type 0} (Q : Outcome A × Net × S → Type 0) (c : S) (r : R)
      (k : Reply r → S → Coroutine Reply S A) (n : Net)
      → IsQuiet env
      → Q (run (k (answer r n c).0 c) (answer r n c).1)
      → Q (run (wait c r k) n)
  unfolding run
  run-wait_reply Q c r k n quiet h = rw (quiet r n c) h

  pub run-wait :
      {A : Type 0} (Q : Outcome A × Net × S → Type 0) (c : S) (r : R)
      (k : Reply r → S → Coroutine Reply S A) (n : Net)
      → IsQuiet env
      → ((p : Reply r) (n' : Net) → Q (run (k p c) n'))
      → Q (run (wait c r k) n)
  run-wait Q c r k n quiet h = run-wait_reply Q c r k n quiet (h _ _)

  pub run-map :
      {A B : Type 0} (g : A → B) (m : Coroutine Reply S A) (n : Net)
      → let (o, n', d) = run m n in run (bind m (λ a. co_return (g a))) n ≡ (map_outcome g o, n', d)
  unfolding run bind
  run-map g (done (returned a) d) n = refl
  run-map g (done (threw x) d) n = refl
  run-map g (done exhausted d) n = refl
  run-map g (wait d r k) n = run-map g (k (answer r n d).0 (answer r n d).2) (answer r n d).1

  pub run-bind_returned :
      {A B : Type 0} (m : Coroutine Reply S A) (f : A → S → Coroutine Reply S B) (n n' : Net)
      (a : A) (d : S)
      → run m n ≡ (returned a, n', d)
      → run (bind m f) n ≡ run (f a d) n'
  unfolding run bind
  run-bind_returned (done (returned b) c) f n n' a d e =
      cc (ap (λ t. t.0) e, ap (λ t. t.1) e, ap (λ t. t.2) e)
  run-bind_returned (done (threw x) c) f n n' a d e = cc (ap (λ t. t.0) e)
  run-bind_returned (done exhausted c) f n n' a d e = cc (ap (λ t. t.0) e)
  run-bind_returned (wait c r k) f n n' a d e =
      run-bind_returned (k (answer r n c).0 (answer r n c).2) f (answer r n c).1 n' a d e

  -- What follows a run, from where it ended.
  abbrev pub then_run :
      {A B : Type 0} → (A → S → Coroutine Reply S B) → Outcome A × Net × S → Outcome B × Net × S
  unfolding run
  then_run f (returned a, n, s) = run (f a s) n
  then_run f (threw x, n, s) = (threw x, n, s)
  then_run f (exhausted, n, s) = (exhausted, n, s)

  pub run-bind :
      {A B : Type 0} (m : Coroutine Reply S A) (f : A → S → Coroutine Reply S B) (n : Net)
      → run (bind m f) n ≡ then_run f (run m n)
  unfolding run bind
  run-bind (done (returned a) s) f n = refl
  run-bind (done (threw x) s) f n = refl
  run-bind (done exhausted s) f n = refl
  run-bind (wait s r k) f n = run-bind (k (answer r n s).0 (answer r n s).2) f (answer r n s).1
