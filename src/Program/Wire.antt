-- ===== src/Program/Wire.antt =====
-- A whole program: what an entity's requests become on the wire, through its logical client, the
-- shared connection and the client.
use hacpp.Base.{
  ℕ, suc, ◌≡◌, refl, sym, ap, ◌∙◌, subst, String, Bool, false, none, some, List, [], ◌∷◌, ◌++◌,
  returned, Bool-cases, inl, inr, if◌then◌else◌,
}
use hacpp.Api.{Operation, publishing, subscribing, receiving, closing, Result}
use hacpp.Coroutine.{Coroutine, bind, done, wait}
use hacpp.Coroutine.Compose.{Layered, on_inner, over, relabel}
use hacpp.Coroutine.Run.{Env, IsQuiet, run, run-bind_returned}
use hacpp.Entity.{Spawned, Co}
use hacpp.Entity.Setup.{Issues}
use hacpp.Error.{Platform, Error, failed, make_error_code, success, no_error}
use hacpp.Mqtt.{QoS, above_at_most_once, TopicSubopts}
use hacpp.Client
use hacpp.Client.{
  Connection, is_reconnecting, connected, wait_while_reconnecting, async_acquire_unique_packet_id,
}
use hacpp.Client.Serving.{serve as serve_client}
use hacpp.Shared
use hacpp.Shared.{SharedConnection}
use hacpp.Program.{Request, network, queue_timer, Reply, State, serve}
use hacpp.Program.Calls.{after_subscribe, subscribe-eq}
use hacpp.Program.Rounds.{client_env, around, run-client}

-- The next packet id, and the packets sent so far.
pub record Wire : Type 0 where
  pub next : ℕ
  pub sent : List Client.Request

abbrev pub sends : Client.Request → Wire → Wire
sends r n = record n { sent = n.sent ++ r ∷ [] }

module _ (P : Platform) where
  -- A server that accepts everything, and packet ids that are given out in order.
  abbrev pub accepts : (r : Client.Request) → Wire → Client.Reply r × Wire
  accepts (Client.publish p) n = (no_error P, sends (Client.publish p) n)
  accepts (Client.subscribe pid topics) n = (no_error P, sends (Client.subscribe pid topics) n)
  accepts Client.acquire_unique_packet_id n = (some n.next, record n { next = suc n.next })
  accepts Client.recv n = ((no_error P, none), n)
  accepts (Client.sleep seconds) n = (tt, n)
  accepts (Client.underlying_handshake host port) n = (no_error P, n)
  accepts (Client.start clean alive id user pass) n = (no_error P, n)
  accepts Client.disconnect n = (no_error P, n)
  accepts Client.close n = (no_error P, n)
  accepts Client.wait_autoreconnect n = (no_error P, n)

  abbrev pub answers : (r : Request) → Wire → State → Reply r × Wire × State
  answers (network r) n s = let (p, m) = accepts r n in (p, m, s)
  answers (queue_timer id) n s = (no_error P, n, s)

  abbrev pub accepting : Env Reply State
  accepting = record { Net = Wire; answer = answers }

  accepting-IsQuiet : IsQuiet accepting
  accepting-IsQuiet (network r) n s = refl
  accepting-IsQuiet (queue_timer id) n s = refl

  -- What a publish and a subscription send.
  abbrev pub wire_publish : String → String → QoS → Bool → Wire → Wire
  wire_publish topic payload qos retain n =
      let pid = if above_at_most_once qos then n.next else 0 in
      let m = if above_at_most_once qos then record n { next = suc n.next } else n in
      sends
        (Client.publish (record {
          packet_id = pid;
          topic = topic;
          payload = payload;
          qos = qos;
          retain = retain;
        }))
        m

  abbrev pub wire_subscribe : List TopicSubopts → Wire → Wire
  wire_subscribe topics n = sends (Client.subscribe n.next topics) (record n { next = suc n.next })

  module _ (t : Layered SharedConnection Spawned) (c : Connection) (up : c.state ≡ connected) where
    abbrev env : Env Client.Reply Connection
    env = client_env accepting accepting-IsQuiet t

    publish-run :
        (topic payload : String) (qos : QoS) (retain : Bool) (n : Wire)
        → run env (Client.async_publish P topic payload qos retain c) n
          ≡ (returned (make_error_code success), wire_publish topic payload qos retain n, c)
    unfolding run Client.async_publish wait_while_reconnecting async_acquire_unique_packet_id bind
        no_error
    publish-run topic payload qos retain n = elim (Bool-cases (above_at_most_once qos)) [
      | inl above ↦ rw (up, above) refl
      | inr least ↦ rw (up, least) refl
    ]

    subscribe-run :
        (topics : List TopicSubopts) (n : Wire)
        → run env (Client.async_subscribe P topics c) n
          ≡ (returned (make_error_code success), wire_subscribe topics n, c)
    unfolding run Client.async_subscribe wait_while_reconnecting async_acquire_unique_packet_id bind
        no_error
    subscribe-run topics n = rw up refl

  abbrev pub on_wire : List Operation → Wire → Wire
  on_wire [] n = n
  on_wire (publishing topic payload qos retain ∷ ops) n =
      on_wire ops (wire_publish topic payload qos retain n)
  on_wire (subscribing topics ∷ ops) n = on_wire ops (wire_subscribe topics n)
  on_wire (op ∷ ops) n = on_wire ops n

  -- What the subscriptions leave of the shared connection.
  abbrev pub enrolled : ℕ → List Operation → SharedConnection → SharedConnection
  enrolled id [] s = s
  enrolled id (subscribing topics ∷ ops) s =
      enrolled id ops (after_subscribe id topics (make_error_code success) s)
  enrolled id (op ∷ ops) s = enrolled id ops s

  module _ (fuel : ℕ) (config : Client.Config) (id : ℕ) (c : Connection)
      (up : c.state ≡ connected) where
    -- The entity's coroutine, from the entity down to the network.
    abbrev pub whole :
        {A : Type 0} → Coroutine Result Spawned A → SharedConnection → Coroutine Reply State A
    whole m s = over (serve P fuel config) (over (Shared.serve P id) m s) c

    accepted :
        (err : Error) (s : Spawned) (ops : List Operation) (m : Co Error)
        → failed err ≡ false
        → (if failed err then m ≡ done (returned err) s else Issues err s ops m)
        → Issues err s ops m
    accepted err s ops m fine h = rw fine at h

    fine : failed (make_error_code success) ≡ false
    unfolding make_error_code
    fine = refl

    abbrev Sends :
        List Operation → Wire → SharedConnection → Spawned → Coroutine Reply State Error → Type 0
    Sends ops n s h m =
        (err : Error) × (run accepting m n ≡ (
          returned err,
          on_wire ops n,
          record { inner = c; outer = record { inner = enrolled id ops s; outer = h } },
        ))
        × (failed err ≡ false)

    pub Issues-Sends :
        (last : Error) (h : Spawned) (ops : List Operation) (m : Co Error) (s : SharedConnection)
        (n : Wire)
        → failed last ≡ false
        → Issues last h ops m
        → Sends ops n s h (whole m s)
    unfolding run over on_inner bind serve serve_client Shared.serve Shared.async_publish
    Issues-Sends last h [] m s n ok e = (last, rw e refl, ok)
    Issues-Sends last h (op ∷ ops) (done o t) s n ok e = absurd e
    Issues-Sends last h (op ∷ ops) (wait t receiving k) s n ok e = absurd e
    Issues-Sends last h (op ∷ ops) (wait t closing k) s n ok e = absurd e
    Issues-Sends last h (op ∷ ops) (wait t (publishing topic payload qos retain) k) s n ok
          (e, f, g) =
        let err = make_error_code success in
        let u : Layered SharedConnection Spawned = record { inner = s; outer = h } in
        let (err', sent, ok') =
          Issues-Sends err h ops (k err h) s (wire_publish topic payload qos retain n) fine
            (accepted err h ops (k err h) fine (g err h)) in
        rw (e, sym f)
          (
            err',
            run-bind_returned accepting
                  (on_inner
                    (relabel Reply network (Client.async_publish P topic payload qos retain c)) u)
                  _ n _ err (record { inner = c; outer = u })
                  (run-client accepting accepting-IsQuiet
                      (Client.async_publish P topic payload qos retain c) u n
                    ∙ ap (around accepting accepting-IsQuiet u)
                        (publish-run u c up topic payload qos retain n))
                ∙ sent,
            ok',
          )
    Issues-Sends last h (op ∷ ops) (wait t (subscribing topics) k) s n ok (e, f, g) =
        let err = make_error_code success in
        let u : Layered SharedConnection Spawned = record { inner = s; outer = h } in
        let (err', sent, ok') =
          Issues-Sends err h ops (k err h) (after_subscribe id topics err s)
            (wire_subscribe topics n) fine (accepted err h ops (k err h) fine (g err h)) in
        rw (e, sym f)
          (subst
            (λ (z : Shared.Co Error). Sends (subscribing topics ∷ ops) n s h (
              over (serve P fuel config)
                (bind (on_inner z h) (λ p v. over (Shared.serve P id) (k p v.outer) v.inner)) c))
            (sym (subscribe-eq id topics s))
            (
              err',
              run-bind_returned accepting
                    (on_inner (relabel Reply network (Client.async_subscribe P topics c)) u) _ n _
                    err (record { inner = c; outer = u })
                    (run-client accepting accepting-IsQuiet (Client.async_subscribe P topics c) u n
                      ∙ ap (around accepting accepting-IsQuiet u) (subscribe-run u c up topics n))
                  ∙ sent,
              ok',
            ))
