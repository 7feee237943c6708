-- ===== src/Entity/Serving.antt =====
-- The loop `async_run` of lib/include/hacpp/button.h, cover.h, sensor.h and binary_sensor.h, for any
-- visit of a packet.
use hacpp.Base.{
  ◌∙◌, ℕ, zero, suc, ◌<◌, ◌≡◌, refl, false, true, List, [], ◌∷◌, ◌++◌, length, map, returned,
  Outcome, Exception, threw, arith, All,
}
use hacpp.Api.{receiving, Result}
use hacpp.Coroutine.Run.{Env, run}
use hacpp.Entity.{
  Spawned, Co, M, done, bind, ◌>>=◌, ◌>>◌, co_return, out_of_fuel, Impl, after_recv, handle_err,
  async_recv,
}
use hacpp.Error.{Error, failed, is_code, session_reset}
use hacpp.Json.{Json}
use hacpp.Mqtt.{RecvResult, Packet, packet, unexpected}

-- The client yields these results, one after the other, and leaves the handlers alone.
abbrev pub Yields : (env : Env Result Spawned) → env.Net → List RecvResult → Type 0
Yields env n [] = Unit
Yields env n (r ∷ rs) =
    (s : Spawned)
    → ((env.answer receiving n s).0 ≡ r)
      × ((env.answer receiving n s).2 ≡ s)
      × Yields env (env.answer receiving n s).1 rs

-- What the packets do, one after the other, to the handlers started.
abbrev pub steps : (Packet → Spawned → Spawned) → List Packet → Spawned → Spawned
steps step [] s = s
steps step (p ∷ ps) s = steps step ps (step p s)

module _ (J : Json) (impl : Impl J) (visit : Packet → M (Unit {0})) where
  -- One round; `again` is the next.
  abbrev pub round : ℕ → M Error → M Error
  round fuel again = do
    res ← async_recv J (suc fuel) impl
    elim res [ unexpected e ↦ co_return e | packet p ↦ visit p >> again ]

  unfoldable pub serving : ℕ → M Error
  serving zero = out_of_fuel
  serving (suc fuel) = round fuel (serving fuel)

  unfoldable after : ℕ → RecvResult → Spawned → Co Error
  unfolding bind
  after fuel result s =
      bind (after_recv J impl (async_recv J fuel impl) result s)
        (λ res. elim res [ unexpected e ↦ co_return e | packet p ↦ visit p >> serving fuel ])

  module _ (env : Env Result Spawned) where
    serving-eq :
        (fuel : ℕ) (n : env.Net) (s : Spawned)
        → let (result, m, t) = env.answer receiving n s in
          run env (serving (suc fuel) s) n ≡ run env (after fuel result t) m
    unfolding serving after async_recv bind run
    serving-eq fuel n s = refl

    module _ (step : Packet → Spawned → Spawned) where
      -- The visit returns, and does what `step` says.
      abbrev pub Visits : Packet → Type 0
      Visits p = (s : Spawned) → visit p s ≡ done (returned tt) (step p s)

      abbrev Ends : Error → Spawned → Outcome Error × env.Net × Spawned → Type 0
      Ends e t (o, n, s) = (o ≡ returned e) × (s ≡ t)

      visited :
          (p : Packet) (fuel : ℕ) (m : env.Net) (t : Spawned)
          → Visits p
          → run env (after fuel (packet p) t) m ≡ run env (serving fuel (step p t)) m
      unfolding after after_recv bind run
      visited p fuel m t h = rw (h t) refl

      -- Packets that the visit handles, and then an error that is no session reset: given fuel for
      -- more rounds than packets, the loop returns that error, and each packet was visited in turn.
      pub serving-steps :
          (ps : List Packet) (e : Error) (fuel : ℕ) (n : env.Net) (s : Spawned)
          → Yields env n (map packet ps ++ unexpected e ∷ [])
          → All Visits ps
          → failed e ≡ true
          → is_code e session_reset ≡ false
          → length ps < fuel
          → Ends e (steps step ps s) (run env (serving fuel s) n)
      unfolding after after_recv handle_err bind run
      serving-steps ps e zero n s yields h bad other enough = elim enough [ ]
      serving-steps [] e (suc fuel) n s yields h bad other enough =
          rw (serving-eq fuel n s, (yields s).0, (yields s).1, other, bad) (refl, refl)
      serving-steps (p ∷ ps) e (suc fuel) n s yields h bad other enough =
          rw (serving-eq fuel n s, (yields s).0, (yields s).1)
            (rw (visited p fuel _ s h.0)
              (serving-steps ps e fuel _ (step p s) (yields s).2 h.1 bad other (omega arith)))

      -- Packets that the visit handles, and then one on which it throws: given fuel for more rounds
      -- than packets, the loop throws the same.
      pub serving-throws :
          (ps : List Packet) (p : Packet) (ex : Exception) (fuel : ℕ) (n : env.Net) (s : Spawned)
          → Yields env n (map packet ps ++ packet p ∷ [])
          → All Visits ps
          → ((t : Spawned) → visit p t ≡ done (threw ex) t)
          → length ps < fuel
          → let (o, n', t) = run env (serving fuel s) n in (o ≡ threw ex) × (t ≡ steps step ps s)
      unfolding after after_recv bind run
      serving-throws ps p ex zero n s yields h throws enough = elim enough [ ]
      serving-throws [] p ex (suc fuel) n s yields h throws enough =
          rw (serving-eq fuel n s, (yields s).0, (yields s).1) (rw (throws s) (refl, refl))
      serving-throws (q ∷ ps) p ex (suc fuel) n s yields h throws enough =
          rw (serving-eq fuel n s, (yields s).0, (yields s).1)
            (rw (visited q fuel _ s h.0)
              (serving-throws ps p ex fuel _ (step q s) (yields s).2 h.1 throws (omega arith)))

-- An entity without commands ignores every packet.
abbrev pub ignore : Packet → M (Unit {0})
ignore p = co_return tt

pub steps-ignored : (ps : List Packet) (s : Spawned) → steps (λ p t. t) ps s ≡ s
steps-ignored [] s = refl
steps-ignored (p ∷ ps) s = steps-ignored ps s

pub serving-ignores :
    (J : Json) (impl : Impl J) (env : Env Result Spawned) (ps : List Packet) (e : Error) (fuel : ℕ)
    (n : env.Net) (s : Spawned)
    → Yields env n (map packet ps ++ unexpected e ∷ [])
    → failed e ≡ true
    → is_code e session_reset ≡ false
    → length ps < fuel
    → let (o, n', t) = run env (serving J impl ignore fuel s) n in (o ≡ returned e) × (t ≡ s)
serving-ignores J impl env ps e fuel n s yields bad no_reset enough =
    let (ends, final) =
      serving-steps J impl ignore env (λ p t. t) ps e fuel n s yields (ignored ps) bad no_reset
        enough in
    (ends, final ∙ steps-ignored ps s)
  where
    ignored : (ps : List Packet) → All (Visits J impl ignore env (λ p t. t)) ps
    ignored [] = tt
    ignored (p ∷ ps) = (λ t. refl, ignored ps)
