-- ===== src/Program/Served.antt =====
-- A whole program: the loop of an entity over a connection of its own, which yields packets and
-- resets of the session (async_mqtt_client.h, after a reconnect), and at last another error.
use mathlib.Core.List.{append_assoc, append-nil}
use hacpp.Base.{
  ◌++◌, ℕ, zero, suc, ◌≤◌, ◌≡◌, refl, sym, ap, ◌∙◌, true, false, List, [], ◌∷◌, length, Outcome,
  returned, inl, inr, arith,
}
use hacpp.Api.{Operation, Result}
use hacpp.Coroutine.Run.{Env, run, then_run, run-bind}
use hacpp.Entity.{Spawned, M, bind, done, Impl, after_recv, handle_err, async_recv, co_return, ◌>>◌}
use hacpp.Entity.Serving.{serving, steps}
use hacpp.Entity.Receiving.{recv-eq, setup_succeeds, SetsUp}
use hacpp.Error.{Platform, Error, failed, is_code, make_error_code, session_reset}
use hacpp.Json.{Json}
use hacpp.Mqtt.{RecvResult, TopicSubopts, Packet, packet, unexpected}
use hacpp.Shared.Delivery.{wants}
use hacpp.Program.Own.{Own, own_connection, attached_own}
use hacpp.Program.Series.{packets_of, Series, resets_of, resets_of-reset, replayed, reset}
use hacpp.Program.Pending.{pending, Due, Kept, Takes, own_receive-Takes}

pub data Event : Type 0 where
  arrives : Packet → Event
  resets : Event

abbrev pub result_of : Event → RecvResult
result_of (arrives p) = packet p
result_of resets = unexpected (make_error_code session_reset)

-- The results of the connection, which end with this error.
abbrev pub results : List Event → Error → List RecvResult
results [] e = unexpected e ∷ []
results (v ∷ vs) e = result_of v ∷ results vs e

abbrev pub packets : List Event → List Packet
packets [] = []
packets (arrives p ∷ vs) = p ∷ packets vs
packets (resets ∷ vs) = packets vs

abbrev pub resets_in : List Event → ℕ
resets_in [] = 0
resets_in (arrives p ∷ vs) = resets_in vs
resets_in (resets ∷ vs) = suc (resets_in vs)

module _ (J : Json) (impl : Impl J) (visit : Packet → M (Unit {0})) (P : Platform) (ec : Error)
    (ack : (op : Operation) → Result op) where
  abbrev own : Env Result Spawned
  own = own_connection P ec ack

  -- A packet for other topics is not yielded, and would do nothing.
  abbrev pub Visited : (List TopicSubopts → Type 0) → (Packet → Spawned → Spawned) → Packet → Type 0
  Visited K step p =
      ((s : Spawned) → visit p s ≡ done (returned tt) (step p s))
      × ((topics : List TopicSubopts) (s : Spawned)
          → K topics
          → wants (packet p) topics ≡ false
          → step p s ≡ s)

  abbrev after_result : ℕ → RecvResult → M Error
  unfolding bind
  after_result fuel res = elim res [
    | unexpected e ↦ co_return e
    | packet p ↦ visit p >> serving J impl visit fuel
  ]

  abbrev Ends : Error → Spawned → List Operation → Outcome Error × Own × Spawned → Type 0
  Ends e t asked (o, n, s) = (o ≡ returned e) × (s ≡ t) × (n.feed.asked ≡ asked)

  serving-run :
      (fuel : ℕ) (s : Spawned) (n : Own)
      → run own (serving J impl visit (suc fuel) s) n
        ≡ then_run own (after_result fuel) (run own (async_recv J (suc fuel) impl s) n)
  unfolding serving bind
  serving-run fuel s n = run-bind own (async_recv J (suc fuel) impl s) (after_result fuel) n

  module _ (K : List TopicSubopts → Type 0) (step : Packet → Spawned → Spawned) (e : Error)
      (ops : List Operation) where
    pub skips :
        (p : Packet) (topics : List TopicSubopts) (s : Spawned)
        → Visited K step p
        → K topics
        → wants (packet p) topics ≡ false
        → step p s ≡ s
    skips p topics s v k miss = v.1 topics s k miss

    -- The entity is on the list, and a series of packets that the visit handles and of resets, ended
    -- by `e`, is to be received.
    abbrev pub Serves : Own → Type 0
    Serves = Due (Visited K step) e step K skips

    abbrev pub Keeps : Own → Own → Type 0
    Keeps = Kept (Visited K step) e step K skips

    -- The setup succeeds, starts no handler, asks for these operations, and loses nothing that is to
    -- be received.
    abbrev pub Restores : Type 0
    Restores =
        (n : Own) (s : Spawned)
        → Serves n
        → (err : Error) × (n' : Own) × SetsUp J own impl n s err n' s
          × (failed err ≡ false)
          × (n'.feed.asked ≡ n.feed.asked ++ ops)
          × Keeps n n'

    some_left : (rs : List RecvResult) → Series (Visited K step) e rs → 1 ≤ length rs
    some_left [] h = absurd h
    some_left (r ∷ rs) h = omega arith

    module _ (restores : Restores) (bad : failed e ≡ true)
        (no_reset : is_code e session_reset ≡ false) where
      -- What is left is not longer than these.
      abbrev Fits : Own → ℕ → Type 0
      Fits n m = length (pending n) ≤ m

      -- Where the loop ends: each packet was visited in turn, and each reset was answered by a setup.
      abbrev Outlives : Own → Spawned → Outcome Error × Own × Spawned → Type 0
      Outlives n s =
          Ends e (steps step (packets_of (pending n)) s)
            (n.feed.asked ++ replayed (resets_of (pending n)) ops)

      -- The loop, once a receive of its client is begun, whatever fuel there is for this many results.
      abbrev Returns : ℕ → Type 0
      Returns size =
          (n : Own) (tries fuel : ℕ) (s : Spawned)
          → Serves (attached_own P ec ack n)
          → Fits n size
          → Fits n tries
          → Fits n (suc fuel)
          → Outlives n s (then_run own (after_result fuel) (run own (async_recv J tries impl s) n))

      asks :
          (asked asked' : List Operation) (k k' : ℕ)
          → asked ≡ asked'
          → k ≡ k'
          → asked ++ replayed k ops ≡ asked' ++ replayed k' ops
      asks asked asked' k k' same as_often = rw (same, as_often) refl

      goes_on :
          (size : ℕ) (again : Returns size) (n : Own) (tries : ℕ) (s : Spawned)
          (small : Fits n (suc size)) (enough : Fits n (suc tries)) (r : RecvResult) (n' : Own)
          (fuel : ℕ)
          → Fits n (suc fuel)
          → Takes (Visited K step) e step K skips P ec ack n (r, n')
          → Outlives n s (
              then_run own
                (after_result fuel)
                (run own (after_recv J impl (async_recv J tries impl) r s) n'))
      unfolding run after_recv handle_err bind
      goes_on size again n tries s small enough (packet p) n' zero more
            (attached, k, (v, series), a, quiet) =
          absurd (omega (arith, some_left (pending n') series, more, a.shorter))
      goes_on size again n tries s small enough (packet p) n' (suc fuel) more
            (attached, k, (v, series), a, quiet) =
          let (ends, final, asked) =
            again n' (suc fuel) fuel (step p s)
              (record { attached = refl; topics = k; series = series })
              (omega (arith, small, a.shorter)) (omega (arith, more, a.shorter))
              (omega (arith, more, a.shorter)) in
          rw (v.0 s, serving-run fuel (step p s) n')
            (ends, final ∙ a.same s, asked ∙ asks _ _ _ _ quiet a.resets)
      goes_on size again n tries s small enough (unexpected x) n' fuel more
            (attached, k, inl (reset_is, series), a, quiet) =
          let due' : Serves n' = record { attached = attached; topics = k; series = series } in
          let (err, n'', sets, fine, replays, (due'', b)) = restores n' s due' in
          let (ends, final, asked) =
            again n'' tries fuel s
              (record { attached = refl; topics = due''.topics; series = due''.series })
              (omega (arith, small, a.shorter, b.shorter))
              (omega (arith, enough, a.shorter, b.shorter))
              (omega (arith, more, a.shorter, b.shorter)) in
          rw
            (
              reset_is,
              setup_succeeds J own impl tries (make_error_code session_reset) err n' n'' s s reset
                  sets fine,
            )
            (
              ends,
              final ∙ b.same s ∙ a.same s,
              asked
                  ∙ asks _ _ _ _ (replays ∙ ap (λ l. l ++ ops) quiet) b.resets
                  ∙ append_assoc n.feed.asked ops (replayed (resets_of (pending n')) ops)
                  ∙ asks n.feed.asked n.feed.asked (suc (resets_of (pending n'))) _ refl
                      (sym (resets_of-reset x (pending n') reset_is) ∙ a.resets),
            )
      goes_on size again n tries s small enough (unexpected x) n' fuel more
            (attached, k, inr (last, over), a, quiet) =
          let none_left : resets_of (unexpected x ∷ pending n') ≡ 0 =
            rw (last, no_reset, over) refl in
          rw (last, no_reset, bad)
            (
              refl,
              ap (λ rs. steps step (packets_of rs) s) (sym over) ∙ a.same s,
              quiet
                  ∙ sym (append-nil n.feed.asked)
                  ∙ asks n.feed.asked n.feed.asked 0 _ refl (sym none_left ∙ a.resets),
            )

      received : (size : ℕ) → Returns size
      received zero n tries fuel s due small enough more =
          absurd (omega (arith, small, some_left (pending n) due.series))
      received (suc size) n zero fuel s due small enough more =
          absurd (omega (arith, enough, some_left (pending n) due.series))
      received (suc size) n (suc tries) fuel s due small enough more =
          rw (recv-eq J own impl tries n s) (
            goes_on size (received size) n tries s small enough _ _ fuel more
              (own_receive-Takes (Visited K step) e step K skips P ec ack n due))

      -- Given fuel for as many rounds as results are left, the loop returns the error at their end,
      -- each packet was visited in turn, and each reset was answered by a setup.
      pub served :
          (n : Own) (fuel : ℕ) (s : Spawned)
          → Serves (attached_own P ec ack n)
          → Fits n fuel
          → Outlives n s (run own (serving J impl visit fuel s) n)
      served n zero s due enough = absurd (omega (arith, some_left (pending n) due.series))
      served n (suc fuel) s due enough =
          rw (serving-run fuel s n)
            (received (length (pending n)) n (suc fuel) fuel s due (omega arith) enough enough)
