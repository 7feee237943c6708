-- ===== src/Program/Rounds.antt =====
-- A whole program: a round of the pump over the client, from the network to the queues.
use hacpp.Base.{
  ℕ, ◌<◌, ◌≡◌, refl, sym, subst, ◌∙◌, ap, true, some, Outcome, returned, inl, inr, Option,
}
use hacpp.Coroutine.{Coroutine, bind, done, wait}
use hacpp.Coroutine.Compose.{Layered, on_inner, over, relabel}
use hacpp.Coroutine.Run.{Env, IsQuiet, run, run-bind_returned}
use hacpp.Error.{Platform, Error}
use hacpp.Mqtt.{RecvResult, Packet}
use hacpp.Client
use hacpp.Client.{Connection, recv, async_recv}
use hacpp.Client.Recovery.{Receives, async_recv-Receives}
use hacpp.Client.Serving.{serve as serve_client}
use hacpp.Shared
use hacpp.Shared.{SharedConnection, SharedClientState, pump_result, remove_expired_clients}
use hacpp.Shared.Delivery.{give}
use hacpp.Shared.Heap.{is_in}
use hacpp.Shared.Interleaving.{pumps}
use hacpp.Shared.Interleaving
use hacpp.Shared.Invariant.{Inv}
use hacpp.Shared.Pump.{round-gives}
use hacpp.Program.{network, Reply, State, connection, serve, task_of, task}

module _ {T : Type 0} (env : Env Reply (Layered Connection T)) (quiet : IsQuiet env) where
  -- The network and the timers of the client, while the rest stands still.
  abbrev pub client_env : T → Env Client.Reply Connection
  client_env t = record {
    Net = env.Net;
    answer = λ r n c.
        let (p, n', u) = env.answer (network r) n (record { inner = c; outer = t }) in (p, n', c);
  }

  abbrev pub around :
      {A : Type 0}
      → T
      → Outcome A × env.Net × Connection
      → Outcome A × env.Net × Layered Connection T
  around t (o, n, c) = (o, n, record { inner = c; outer = t })

  pub run-client :
      {A : Type 0} (m : Coroutine Client.Reply Connection A) (t : T) (n : env.Net)
      → run env (on_inner (relabel Reply network m) t) n ≡ around t (run (client_env t) m n)
  unfolding run on_inner relabel
  run-client (done o c) t n = refl
  run-client {A} (wait c r k) t n =
      let u : Layered Connection T = record { inner = c; outer = t } in
      let (p, n', v) = env.answer (network r) n u in
      subst
        (λ (w : Layered Connection T).
          run env (on_inner (relabel Reply network (k p w.inner)) w.outer) n'
          ≡ around t (run (client_env t) (k p c) n'))
        (sym (quiet (network r) n u)) (run-client (k p c) t n')

result_of-Receives :
    (c d : Connection) (p : Error × Option Packet) (o : Outcome RecvResult)
    → Receives c p o d
    → (r : RecvResult) × (o ≡ returned r)
result_of-Receives c d p o (inl (fine, e, f)) = (_, e)
result_of-Receives c d p o (inr (inl (bad, down, e, f))) = (_, e)
result_of-Receives c d p o (inr (inr (inl (bad, busy, e, f)))) = (_, e)
result_of-Receives c d p o (inr (inr (inr (bad, up, err, e, f)))) = (_, e)

-- The state at the await of a round of the pump.
abbrev pub cleared : State → State
cleared s = record s { outer = record (s.outer) { inner = remove_expired_clients s.outer.inner } }

-- The state after a round in which the client received this result and is left so.
abbrev pumped : State → RecvResult → Connection → State
pumped s r d = record {
  inner = d;
  outer = record (s.outer) { inner = pump_result r (remove_expired_clients s.outer.inner) };
}

module _ (P : Platform) (fuel : ℕ) (config : Client.Config) (env : Env Reply State)
    (quiet : IsQuiet env) where
  pump_round-eq :
      (s : State) (n n' : env.Net) (r : RecvResult) (d : Connection)
      → run (client_env env quiet (cleared s).outer) (async_recv P fuel config s.inner) n
        ≡ (returned r, n', d)
      → run env (task P fuel config (connection pumps) s) n ≡ (returned tt, n', pumped s r d)
  unfolding task task_of serve over on_inner bind Interleaving.task Shared.async_pump_one
      Shared.async_pump_one_impl serve_client run
  pump_round-eq s n n' r d e =
      let rest = (cleared s).outer in
      run-bind_returned env
        (on_inner (relabel Reply network (async_recv P fuel config s.inner)) rest) _ n n' r
        (record { inner = d; outer = rest })
        (run-client env quiet (async_recv P fuel config s.inner) rest n
          ∙ ap (around env quiet rest) e)

-- In a whole program, with no other coroutine at work, on a client that has an attempt left and with
-- fuel for one round more than `max_attempts`: a round of the pump ends. The client's receive ended
-- as a receive does, the reconnect included: with a packet, with `SessionReset` on a client that is
-- connected again, or with the error that it failed with. And of that result each client that is
-- listed and alive was given its one copy, if it is an error or a packet of its topics.
pub pump_round-gives :
    (P : Platform) (fuel : ℕ) (config : Client.Config) (env : Env Reply State) (s : State)
    (n : env.Net) (id : ℕ) (c : SharedClientState)
    → IsQuiet env
    → s.inner.attempt < s.inner.max_attempts
    → s.inner.max_attempts < fuel
    → Inv s.outer.inner
    → s.outer.inner.heap id ≡ some c
    → is_in id s.outer.inner.clients ≡ true
    → let (o, n', t) = run env (task P fuel config (connection pumps) s) n in
      (r : RecvResult) × (o ≡ returned tt)
      × Receives s.inner (env.answer (network recv) n (cleared s)).0 (returned r) t.inner
      × (t.outer.inner.heap id ≡ some (give r c))
      × (is_in id t.outer.inner.clients ≡ true)
pump_round-gives P fuel config env s n id c quiet room enough valid alive listed =
    let inner_env = client_env env quiet (cleared s).outer in
    let (o, n', d) = run inner_env (async_recv P fuel config s.inner) n in
    let ended = async_recv-Receives P inner_env fuel config s.inner n (λ r m u. refl) room enough in
    let (r, e) = result_of-Receives s.inner d (env.answer (network recv) n (cleared s)).0 o ended in
    let round = pump_round-eq P fuel config env quiet s n n' r d (ap (λ x. (x, n', d)) e) in
    let (v, given, still) = round-gives r s.outer.inner id c valid alive listed in
    rw round (
      r,
      refl,
      subst (λ x. Receives s.inner (env.answer (network recv) n (cleared s)).0 x d) e ended,
      given,
      still,
    )
