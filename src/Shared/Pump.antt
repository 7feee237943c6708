-- ===== src/Shared/Pump.antt =====
-- lib/include/hacpp/shared_mqtt_client.h: the pump over a whole run of results.
use hacpp.Base.{
  ℕ, zero, suc, ◌<◌, ◌≡◌, refl, ap, sym, ◌∙◌, Bool, true, false, some, is_some, List, [], ◌∷◌, ◌++◌,
  length, erase_if, not, ◌==◌, arith, if◌then◌else◌, inl, inr, Bool-cases, All, returned, Outcome,
  ==_iff, ◌⊎◌, ◌≢◌,
}
use mathlib.Core.List.{append_assoc, append-nil}
use hacpp.Coroutine.{bind}
use hacpp.Coroutine.Run.{Env, IsQuiet, run, run-done, run-wait_reply}
use hacpp.Error.{failed, is_code, make_error_code, session_reset}
use hacpp.Error.Mapping.{is_code-eq}
use hacpp.Mqtt.{RecvResult, TopicSubopts, packet, unexpected}
use hacpp.Api.{receiving}
use hacpp.Shared.{
  M, co_return, wait, Reply, client, SharedConnection, SharedClientState, push_back, lock,
  pump_result, pump_error, remove_expired_clients, async_run,
}
use hacpp.Shared.Heap.{is_in}
use hacpp.Shared.Invariant.{Inv, pump_result-Inv, erase_if-Inv}
use hacpp.Shared.Delivery.{wants, give, pump_result-gives}

-- The rounds of the pump, one for each result.
abbrev pub pumped : List RecvResult → SharedConnection → SharedConnection
pumped [] s = s
pumped (r ∷ rs) s = pumped rs (pump_result r (remove_expired_clients s))

-- The pump goes on after every one of these.
abbrev GoesOn : List RecvResult → Type 0
GoesOn = All (λ r. failed (pump_error r) ≡ false)

-- A packet, the reset of the session, or an error code that is no failure.
abbrev pub IsPassing : RecvResult → Type 0
IsPassing (packet p) = Unit
IsPassing (unexpected err) = (err ≡ make_error_code session_reset) ⊎ (failed err ≡ false)

-- Any other error.
abbrev pub IsFatal : RecvResult → Type 0
IsFatal (packet p) = ⊥
IsFatal (unexpected err) = (err ≢ make_error_code session_reset) × (failed err ≡ true)

passing-goes_on : (r : RecvResult) → IsPassing r → failed (pump_error r) ≡ false
unfolding pump_error make_error_code is_code
passing-goes_on (packet p) h = refl
passing-goes_on (unexpected err) (inl reset) = rw reset refl
passing-goes_on (unexpected err) (inr fine) = elim (Bool-cases (is_code err session_reset)) [
  | inl reset ↦ rw reset refl
  | inr other ↦ rw (other, fine) refl
]

passing-GoesOn : (rs : List RecvResult) → All IsPassing rs → GoesOn rs
passing-GoesOn [] h = tt
passing-GoesOn (r ∷ rs) h = (passing-goes_on r h.0, passing-GoesOn rs h.1)

fatal-stops : (r : RecvResult) → IsFatal r → failed (pump_error r) ≡ true
unfolding pump_error
fatal-stops (packet p) h = absurd h
fatal-stops (unexpected err) (no_reset, bad) = elim (Bool-cases (is_code err session_reset)) [
  | inl reset ↦ absurd (no_reset (is_code-eq err session_reset reset))
  | inr other ↦ rw (other, bad) refl
]

-- The physical client yields these results, one after the other.
abbrev pub Yields : (env : Env Reply SharedConnection) → env.Net → List RecvResult → Type 0
Yields env n [] = Unit
Yields env n (r ∷ rs) =
    (s : SharedConnection)
    → ((env.answer (client receiving) n s).0 ≡ r)
      × Yields env (env.answer (client receiving) n s).1 rs

after_recv : ℕ → (r : RecvResult) → M (Unit {0})
after_recv fuel r t =
    (if failed (pump_error r) then co_return tt else async_run fuel) (pump_result r t)

async_run-eq :
    (fuel : ℕ) (s : SharedConnection)
    → async_run (suc fuel) s ≡ wait (remove_expired_clients s) (client receiving) (after_recv fuel)
unfolding async_run after_recv bind
async_run-eq fuel s = refl

module _ (env : Env Reply SharedConnection) (quiet : IsQuiet env) where
  abbrev Finishes : SharedConnection → Outcome (Unit {0}) × env.Net × SharedConnection → Type 0
  Finishes t (o, n, s) = (o ≡ returned tt) × (s ≡ t)

  round :
      (t : SharedConnection) (r : RecvResult) (fuel : ℕ) (n : env.Net) (s : SharedConnection)
      → ((s' : SharedConnection) → (env.answer (client receiving) n s').0 ≡ r)
      → Finishes t (
          run env
            (after_recv fuel r (remove_expired_clients s))
            (env.answer (client receiving) n (remove_expired_clients s)).1)
      → Finishes t (run env (async_run (suc fuel) s) n)
  round t r fuel n s e h =
      let kept = remove_expired_clients s in
      rw (async_run-eq fuel s) (
        run-wait_reply env (Finishes t) kept (client receiving) (after_recv fuel) n quiet
          (rw (e kept) h))

  run-pumped :
      (rs : List RecvResult) (last : RecvResult) (fuel : ℕ) (n : env.Net) (s : SharedConnection)
      → GoesOn rs
      → failed (pump_error last) ≡ true
      → length rs < fuel
      → Yields env n (rs ++ last ∷ [])
      → Finishes (pumped (rs ++ last ∷ []) s) (run env (async_run fuel s) n)
  unfolding after_recv
  run-pumped rs last zero n s on stop enough yields = elim enough [ ]
  run-pumped [] last (suc fuel) n s on stop enough yields =
      round _ last fuel n s (λ s'. (yields s').0)
        (rw stop (
          rw (run-done env (returned tt) (pump_result last (remove_expired_clients s)) _)
            (refl, refl)))
  run-pumped (r ∷ rs) last (suc fuel) n s on stop enough yields =
      round _ r fuel n s (λ s'. (yields s').0)
        (rw on.0 (
          run-pumped rs last fuel _ (pump_result r (remove_expired_clients s)) on.1 stop
            (omega arith) (yields (remove_expired_clients s)).1))

pub is_in-kept :
    (p : ℕ → Bool) (ids : List ℕ) (j : ℕ) → p j ≡ false → is_in j (erase_if p ids) ≡ is_in j ids
is_in-kept p [] j h = refl
is_in-kept p (i ∷ ids) j h = elim (Bool-cases (i == j)) [
  | inl same ↦ rw ((==_iff i j).0 same) (rw h (ground arith))
  | inr differ ↦ ground (arith, is_in-kept p ids j)
]

-- The results among `rs` that a client with these topics is to be given, in order.
abbrev pub wanted : List TopicSubopts → List RecvResult → List RecvResult
wanted topics [] = []
wanted topics (r ∷ rs) = if wants r topics then r ∷ wanted topics rs else wanted topics rs

pub round-gives :
    (r : RecvResult) (s : SharedConnection) (id : ℕ) (c : SharedClientState)
    → Inv s
    → s.heap id ≡ some c
    → is_in id s.clients ≡ true
    → let t = pump_result r (remove_expired_clients s) in
      Inv t × (t.heap id ≡ some (give r c)) × (is_in id t.clients ≡ true)
unfolding remove_expired_clients
round-gives r s id c v alive listed =
    let p = λ (weak : ℕ). not (is_some (lock s weak)) in
    let kept = record s { clients = erase_if p s.clients } in
    let still : is_in id kept.clients ≡ true =
      is_in-kept p s.clients id (ap (λ o. not (is_some o)) alive) ∙ listed in
    let v' = erase_if-Inv p s v in
    let (gives, same, _) = pump_result-gives r kept id v' in
    (pump_result-Inv r kept v', gives ∙ rw (still, alive) refl, rw same still)

give-wanted :
    (r : RecvResult) (rs : List RecvResult) (c : SharedClientState)
    → ((give r c).topics ≡ c.topics)
      × ((give r c).queue.queue ++ wanted c.topics rs ≡ c.queue.queue ++ wanted c.topics (r ∷ rs))
unfolding push_back
give-wanted r rs c = elim (Bool-cases (wants r c.topics)) [
  | inl hit ↦ rw hit (refl, append_assoc c.queue.queue (r ∷ []) (wanted c.topics rs))
  | inr miss ↦ rw miss (refl, refl)
]

pub pumped-wanted :
    (rs : List RecvResult) (s : SharedConnection) (id : ℕ) (c : SharedClientState)
    → Inv s
    → s.heap id ≡ some c
    → is_in id s.clients ≡ true
    → (d : SharedClientState) × ((pumped rs s).heap id ≡ some d)
      × (d.topics ≡ c.topics)
      × (d.queue.queue ≡ c.queue.queue ++ wanted c.topics rs)
pumped-wanted [] s id c v alive listed = (c, alive, refl, sym (append-nil _))
pumped-wanted (r ∷ rs) s id c v alive listed =
    let t = pump_result r (remove_expired_clients s) in
    let (v', alive', listed') = round-gives r s id c v alive listed in
    let (d, at_d, topics, queue) = pumped-wanted rs t id (give r c) v' alive' listed' in
    let (same, grown) = give-wanted r rs c in (d, at_d, topics ∙ same, queue ∙ rw same grown)

-- On a connection that meets the invariant, with no other coroutine at work: if the physical
-- client yields packets, resets of the session and error codes that are no failure, in any order, and
-- then an error that is a failure and no reset of the session, then `async_run` returns, given fuel for
-- more rounds than the former. It has gone on after each of the former, and stopped at that error: the
-- queue of each client that is listed and alive has grown by exactly those of these results, that error
-- included, that the client is to be given, in order: every error, and the packets of its topics. Its
-- topics are the same.
pub async_run-delivers :
    (env : Env Reply SharedConnection) (rs : List RecvResult) (last : RecvResult) (fuel : ℕ)
    (n : env.Net) (s : SharedConnection) (id : ℕ) (c : SharedClientState)
    → IsQuiet env
    → Yields env n (rs ++ last ∷ [])
    → All IsPassing rs
    → IsFatal last
    → length rs < fuel
    → Inv s
    → s.heap id ≡ some c
    → is_in id s.clients ≡ true
    → let (o, n', t) = run env (async_run fuel s) n in
      (o ≡ returned tt)
      × ((d : SharedClientState) × (t.heap id ≡ some d)
          × (d.topics ≡ c.topics)
          × (d.queue.queue ≡ c.queue.queue ++ wanted c.topics (rs ++ last ∷ [])))
async_run-delivers env rs last fuel n s id c quiet yields passing fatal enough v alive listed =
    let (ends, final) =
      run-pumped env quiet rs last fuel n s (passing-GoesOn rs passing) (fatal-stops last fatal)
        enough yields in
    (ends, rw final (pumped-wanted (rs ++ last ∷ []) s id c v alive listed))
