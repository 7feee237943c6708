-- ===== src/Entity/Receiving.antt =====
-- lib/include/hacpp/entity.h: how a receive of an entity ends.
use hacpp.Base.{
  ℕ, zero, suc, ◌<◌, ◌≡◌, refl, ◌∙◌, ◌⊎◌, inl, inr, true, false, returned, Outcome, arith,
}
use hacpp.Api.{receiving, Result}
use hacpp.Coroutine.Run.{Env, run, run-bind_returned}
use hacpp.Entity.{Spawned, bind, Impl, async_setup, handle_err, after_recv, async_recv}
use hacpp.Error.{Error, failed, is_code, session_reset}
use hacpp.Json.{Json}
use hacpp.Mqtt.{RecvResult, Packet, packet, unexpected}

module _ (J : Json) (env : Env Result Spawned) (impl : Impl J) where
  -- The setup ends with the error `err`, and leaves the network and the handlers so.
  abbrev pub SetsUp : env.Net → Spawned → Error → env.Net → Spawned → Type 0
  SetsUp n s err n' s' = run env (async_setup J impl s) n ≡ (returned err, n', s')

  -- The client's result ends the receive: a packet; an error other than `SessionReset`; or
  -- `SessionReset`, if the setup that it triggers fails, and then with the setup's error.
  abbrev pub Settles : env.Net → Spawned → RecvResult → Type 0
  Settles n s r =
      let (result, m, t) = env.answer receiving n s in
      ((p : Packet) × (result ≡ packet p) × (r ≡ packet p))
      ⊎ ((e : Error) × (result ≡ unexpected e)
          × (is_code e session_reset ≡ false)
          × (failed e ≡ true)
          × (r ≡ unexpected e))
      ⊎ ((e : Error) × (result ≡ unexpected e)
          × (is_code e session_reset ≡ true)
          × (err : Error) × (m' : env.Net) × (t' : Spawned) × SetsUp m t err m' t'
          × (failed err ≡ true)
          × (r ≡ unexpected err))

  -- The session is reset `rounds` times, each with a setup that succeeds, and then a result
  -- settles the receive.
  abbrev pub Resets : ℕ → env.Net → Spawned → RecvResult → Type 0
  Resets zero n s r = Settles n s r
  Resets (suc rounds) n s r =
      let (result, m, t) = env.answer receiving n s in
      (e : Error) × (result ≡ unexpected e)
      × (is_code e session_reset ≡ true)
      × (err : Error) × (m' : env.Net) × (t' : Spawned) × SetsUp m t err m' t'
      × (failed err ≡ false)
      × Resets rounds m' t' r

  abbrev pub Round : ℕ → Error → env.Net → Spawned → Outcome RecvResult × env.Net × Spawned
  unfolding after_recv
  Round fuel e m t = run env (after_recv J impl (async_recv J fuel impl) (unexpected e) t) m

  pub recv-eq :
      (fuel : ℕ) (n : env.Net) (s : Spawned)
      → let (result, m, t) = env.answer receiving n s in
        run env (async_recv J (suc fuel) impl s) n
        ≡ run env (after_recv J impl (async_recv J fuel impl) result t) m
  unfolding async_recv bind run
  recv-eq fuel n s = refl

  -- A setup that fails ends the round, and one that succeeds starts the next.
  setup_fails :
      (fuel : ℕ) (e err : Error) (m m' : env.Net) (t t' : Spawned)
      → is_code e session_reset ≡ true
      → SetsUp m t err m' t'
      → failed err ≡ true
      → (Round fuel e m t).0 ≡ returned (unexpected err)
  unfolding after_recv handle_err run bind
  setup_fails fuel e err m m' t t' reset sets bad =
      rw reset (rw (run-bind_returned env _ _ m m' err t' sets) (rw bad refl))

  pub setup_succeeds :
      (fuel : ℕ) (e err : Error) (m m' : env.Net) (t t' : Spawned)
      → is_code e session_reset ≡ true
      → SetsUp m t err m' t'
      → failed err ≡ false
      → Round fuel e m t ≡ run env (async_recv J fuel impl t') m'
  unfolding after_recv handle_err bind
  setup_succeeds fuel e err m m' t t' reset sets fine =
      rw reset (run-bind_returned env _ _ m m' err t' sets ∙ rw fine refl)

  settled :
      (fuel : ℕ) (n : env.Net) (s : Spawned) (r : RecvResult)
      → Settles n s r
      → (run env (async_recv J (suc fuel) impl s) n).0 ≡ returned r
  unfolding after_recv handle_err bind run
  settled fuel n s r (inl (p, e, f)) = rw (recv-eq fuel n s, e, f) refl
  settled fuel n s r (inr (inl (err, e, other, bad, f))) =
      rw (recv-eq fuel n s, e, f, other, bad) refl
  settled fuel n s r (inr (inr (e, eq, reset, err, m', t', sets, bad, f))) =
      rw (recv-eq fuel n s, eq, f) (setup_fails fuel e err _ m' _ t' reset sets bad)

-- If the session is reset any number of times, each time with a setup that succeeds, and then a
-- packet, another error, or a reset whose setup fails comes, then given fuel for more rounds than
-- the resets the receive returns: the packet, that error, or the error of the failed setup.
pub async_recv-settles :
    (J : Json) (env : Env Result Spawned) (impl : Impl J) (rounds fuel : ℕ) (n : env.Net)
    (s : Spawned) (r : RecvResult)
    → Resets J env impl rounds n s r
    → rounds < fuel
    → let (o, n', t) = run env (async_recv J fuel impl s) n in o ≡ returned r
unfolding run after_recv
async_recv-settles J env impl rounds zero n s r h enough = absurd (omega arith)
async_recv-settles J env impl zero (suc fuel) n s r h enough = settled J env impl fuel n s r h
async_recv-settles J env impl (suc rounds) (suc fuel) n s r
      (e, eq, reset, err, m', t', sets, fine, h) enough =
    rw (recv-eq J env impl fuel n s, eq)
      (rw (setup_succeeds J env impl fuel e err _ m' _ t' reset sets fine)
        (async_recv-settles J env impl rounds fuel m' t' r h (omega arith)))
