-- ===== src/Client/Closing.antt =====
-- lib/include/hacpp/async_mqtt_client.h: a reconnect that is under way does not look at the state
-- again, so closing the client does not stop it.
use hacpp.Base.{
  ℕ, suc, String, Bool, ◌<◌, ◌≡◌, refl, true, false, returned, lt→ltb, Option, Outcome,
}
use hacpp.Coroutine.Run.{Env, run}
use hacpp.Error.{Platform, Error, failed, make_error_code, session_reset}
use hacpp.Mqtt.{RecvResult, Packet, unexpected}
use hacpp.Client.{
  Connection, Config, Co, Reply, done, wait, sleep, disconnect, close, publish, subscribe,
  acquire_unique_packet_id, wait_autoreconnect, bind, connected, recv, start, underlying_handshake,
  async_connect, async_handle_reconnect, reconnect_loop, async_recv,
}

-- A reconnect whose handshakes and starts succeed, whatever the state is when it is resumed.
abbrev Recovers : Co RecvResult → Type 0
Recovers (done o d) =
    (o ≡ returned (unexpected (make_error_code session_reset))) × (d.state ≡ connected)
Recovers (wait d (underlying_handshake host port) k) =
    (p : Reply (underlying_handshake host port)) (e : Connection)
    → failed p ≡ false
    → Recovers (k p e)
Recovers (wait d (start clean alive id user pass) k) =
    (p : Reply (start clean alive id user pass)) (e : Connection)
    → failed p ≡ false
    → Recovers (k p e)
Recovers (wait d (sleep seconds) k) = (p : Unit {0}) (e : Connection) → Recovers (k p e)
Recovers (wait d r k) = ⊥

failure-Recovers :
    (P : Platform) (fuel : ℕ) (config : Config) (c : Connection)
    → (k : Error × Option Packet → Connection → Co RecvResult) × (async_recv P (suc fuel) config c
        ≡ wait c recv k)
      × ((p : Error × Option Packet) (e : Connection)
          → failed p.0 ≡ true
          → e.state ≡ connected
          → e.attempt < e.max_attempts
          → Recovers (k p e))
unfolding async_recv async_handle_reconnect reconnect_loop async_connect bind make_error_code
failure-Recovers P fuel config c = (
  _,
  refl,
  λ p e bad up room.
      rw (bad, up, lt→ltb _ _ room)
        (λ _ e₁ q e₂ fine. rw fine (λ q' e₃ fine'. rw fine' (refl, refl))),
)

module _ (env : Env Reply Connection)
    (shakes : (host port : String) (m : env.Net) (s : Connection)
      → failed (env.answer (underlying_handshake host port) m s).0 ≡ false)
    (starts : (clean : Bool) (alive : ℕ) (id user pass : String) (m : env.Net) (s : Connection)
      → failed (env.answer (start clean alive id user pass) m s).0 ≡ false) where
  abbrev Recovered : Outcome RecvResult × env.Net × Connection → Type 0
  Recovered (o, n, e) =
      (o ≡ returned (unexpected (make_error_code session_reset))) × (e.state ≡ connected)

  run-Recovers : (m : Co RecvResult) (n : env.Net) → Recovers m → Recovered (run env m n)
  unfolding run
  run-Recovers (done o d) n h = h
  run-Recovers (wait d (underlying_handshake host port) k) n h =
      let a = env.answer (underlying_handshake host port) n d in
      run-Recovers (k a.0 a.2) a.1 (h a.0 a.2 (shakes host port n d))
  run-Recovers (wait d (start clean alive id user pass) k) n h =
      let a = env.answer (start clean alive id user pass) n d in
      run-Recovers (k a.0 a.2) a.1 (h a.0 a.2 (starts clean alive id user pass n d))
  run-Recovers (wait d (sleep seconds) k) n h =
      let a = env.answer (sleep seconds) n d in run-Recovers (k a.0 a.2) a.1 (h a.0 a.2)
  run-Recovers (wait d disconnect k) n h = absurd h
  run-Recovers (wait d close k) n h = absurd h
  run-Recovers (wait d recv k) n h = absurd h
  run-Recovers (wait d acquire_unique_packet_id k) n h = absurd h
  run-Recovers (wait d (publish q) k) n h = absurd h
  run-Recovers (wait d (subscribe i ts) k) n h = absurd h
  run-Recovers (wait d wait_autoreconnect k) n h = absurd h

-- If a receive fails on a client that is connected with an attempt left, and its network accepts
-- every handshake and every start, the receive ends with `SessionReset` and leaves the client
-- connected, whatever the other coroutines do to the state at its awaits from then on: a client
-- that is closed or disconnected meanwhile is connected again.
pub async_recv-revives :
    (P : Platform) (env : Env Reply Connection) (fuel : ℕ) (config : Config) (c : Connection)
    (n : env.Net)
    → let ((err, _), _, d) = env.answer recv n c in
      failed err ≡ true
      → d.state ≡ connected
      → d.attempt < d.max_attempts
      → ((host port : String) (m : env.Net) (s : Connection)
          → failed (env.answer (underlying_handshake host port) m s).0 ≡ false)
      → ((clean : Bool) (alive : ℕ) (id user pass : String) (m : env.Net) (s : Connection)
          → failed (env.answer (start clean alive id user pass) m s).0 ≡ false)
      → let (o, n', e) = run env (async_recv P (suc fuel) config c) n in
        (o ≡ returned (unexpected (make_error_code session_reset))) × (e.state ≡ connected)
unfolding run
async_recv-revives P env fuel config c n bad up room shakes starts =
    let (k, eq, recovers) = failure-Recovers P fuel config c in
    let (p, m, d) = env.answer recv n c in
    rw eq (run-Recovers env shakes starts (k p d) m (recovers p d bad up room))
