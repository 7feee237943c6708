-- ===== src/Program/Setups.antt =====
-- A whole program: the setup of a button, from the factory to the wire.
use mathlib.Core.List.{append_assoc}
use hacpp.Base.{
  ℕ, suc, ◌≡◌, refl, ◌∙◌, String, true, false, none, some, List, [], ◌∷◌, ◌++◌, returned, arith,
}
use hacpp.Coroutine.Compose.{over}
use hacpp.Coroutine.Run.{run}
use hacpp.Config.{json}
use hacpp.Config.Settings.{Setting, AreFlat, latest}
use hacpp.Entity.{Spawned, topic_of, async_setup}
use hacpp.Error.{Platform, Error, failed, make_error_code, success}
use hacpp.Json.{Json, IsJson}
use hacpp.Mqtt.{TopicSubopts, at_least_once}
use hacpp.Client
use hacpp.Client.{Connection, connected}
use hacpp.Shared
use hacpp.Shared.{SharedConnection, SharedClientState, register_topics, register_client, update}
use hacpp.Shared.Heap.{is_in}
use hacpp.Shared.Subscriptions.{register_client-is_in}
use hacpp.Button.{Factory, create, base}
use hacpp.Button.Announced.{announced_operations, announced-Issues}
use hacpp.Button.Configured.{customised, factory_with, customised-eq, command_topic}
use hacpp.Program.{serve}
use hacpp.Program.Calls.{after_subscribe}
use hacpp.Program.Wire.{Wire, accepting, Issues-Sends}

append_three {ℓ} :
    {A : Type ℓ} (xs : List A) (x y z : A)
    → ((xs ++ x ∷ []) ++ y ∷ []) ++ z ∷ [] ≡ xs ++ x ∷ y ∷ z ∷ []
append_three xs x y z =
    append_assoc (xs ++ x ∷ []) (y ∷ []) (z ∷ []) ∙ append_assoc xs (x ∷ []) (y ∷ z ∷ [])

after_subscribe-lists :
    (id : ℕ) (topics : List TopicSubopts) (s : SharedConnection) (k : SharedClientState)
    → s.heap id ≡ some k
    → let t = after_subscribe id topics (make_error_code success) s in
      (t.heap id ≡ some (record k { topics = register_topics topics k.topics }))
      × (is_in id t.clients ≡ true)
unfolding make_error_code
after_subscribe-lists id topics s k alive =
    let u = update id (λ c. record c { topics = register_topics topics c.topics }) s in
    let alive' : u.heap id ≡ some (record k { topics = register_topics topics k.topics }) =
      ground (arith, alive) in
    let (same, listed) = register_client-is_in id u (rw alive' refl) in
    (rw same alive', listed id ∙ ground arith)

-- With JSON as documented: the setup of a button that the factory made, with any text and device settings that are not
-- nested and do not replace the availability, over the logical client `id`, which is alive, of a shared connection over a client that is connected. If the server accepts
-- everything and no other coroutine is at work, the setup returns no error and sends exactly three
-- packets, with the packet ids acquired in order: the configuration to
-- `homeassistant/button/<id>/config` and `online` to `homeassistant/button/<id>/availability`, both
-- retained, and between them the subscription to the command topic that was set last, or to
-- `homeassistant/button/<id>/set`. Then the logical
-- client is listed, its topics are registered, its queue is as it was, and no handler was started.
pub button_setup_sends :
    (J : Json) (P : Platform) (fuel : ℕ) (config : Client.Config) (id : ℕ) (unique_id : String)
    (ss : List Setting) (n : Wire) (c : Connection) (s : SharedConnection) (k : SharedClientState)
    (h : Spawned)
    → IsJson J
    → AreFlat ss
    → latest "availability" ss ≡ none
    → c.state ≡ connected
    → s.heap id ≡ some k
    → (f : Factory J) × (customised J unique_id ss ≡ returned f)
      × let setup = async_setup J (base J (create J f)) h in
        let (o, m, t) =
          run (accepting P) (over (serve P fuel config) (over (Shared.serve P id) setup s) c) n in
        let command : List TopicSubopts =
          record { topic = command_topic unique_id ss; qos = at_least_once } ∷ [] in
        ((err : Error) × (o ≡ returned err) × (failed err ≡ false))
        × (m.sent
            ≡ n.sent
              ++ Client.publish (record {
                packet_id = n.next;
                topic = topic_of "button" unique_id "config";
                payload = json J f.cfg;
                qos = at_least_once;
                retain = true;
              })
                ∷ Client.subscribe (suc n.next) command
                ∷ Client.publish (record {
                  packet_id = suc (suc n.next);
                  topic = topic_of "button" unique_id "availability";
                  payload = "online";
                  qos = at_least_once;
                  retain = true;
                })
                ∷ [])
        × (t.outer.inner.heap id ≡ some (record k { topics = register_topics command k.topics }))
        × (is_in id t.outer.inner.clients ≡ true)
        × (t.outer.outer ≡ h)
unfolding make_error_code
button_setup_sends J P fuel config id unique_id ss n c s k h laws flat reports up alive =
    let (err, sent, fine) =
      Issues-Sends P fuel config id c up (make_error_code success) h
        (announced_operations J laws unique_id ss reports none) _ s n refl
        (announced-Issues J laws unique_id ss reports none (make_error_code success) h) in
    let (enrolled, listed) = after_subscribe-lists id _ s k alive in
    (
      factory_with J laws unique_id ss none,
      customised-eq J laws unique_id ss flat,
      rw sent ((err, refl, fine), append_three n.sent _ _ _, enrolled, listed, refl),
    )
