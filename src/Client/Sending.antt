-- ===== src/Client/Sending.antt =====
-- lib/include/hacpp/async_mqtt_client.h: the protocol that a publish and a subscribe follow,
-- whatever the replies are and whatever the other coroutines do at the awaits.
use hacpp.Base.{
  ℕ, String, ◌≡◌, ◌≢◌, Bool, true, false, none, some, List, returned, threw, await_failed, arith,
  if◌then◌else◌,
}
use hacpp.Error.{Platform, Error, failed, map_err, make_error_code, success, not_connected}
use hacpp.Mqtt.{QoS, TopicSubopts, at_most_once, above_at_most_once}
use hacpp.Client.{
  Connection, Request, Co, done, wait, connected, reconnecting, publish, subscribe,
  acquire_unique_packet_id, wait_autoreconnect, async_publish, async_subscribe, bind,
}

-- `message pid` is what is sent under the packet id `pid`; one is acquired if `with_id`.
module _ (P : Platform) (with_id : Bool) (message : ℕ → Request) where
  -- After the reply `err`: its mapping is returned, without another request.
  abbrev pub Replied : Error → Co Error → Type 0
  Replied err (done (returned e) d) =
      e ≡ (if failed err then map_err P err else make_error_code success)
  Replied err _ = ⊥

  -- The message is sent under `pid`, once.
  abbrev pub Sends : ℕ → Co Error → Type 0
  Sends pid (wait d (publish q) k) =
      (publish q ≡ message pid) × ((p : Error) (e : Connection) → Replied p (k p e))
  Sends pid (wait d (subscribe i topics) k) =
      (subscribe i topics ≡ message pid) × ((p : Error) (e : Connection) → Replied p (k p e))
  Sends pid _ = ⊥

  -- A client that is not connected is refused with `NotConnected`; one that is sends the message,
  -- under the id 0 or under one that it acquires first, and throws if it gets none.
  abbrev pub Checked : Co Error → Type 0
  Checked (done (returned e) d) = (e ≡ make_error_code not_connected) × (d.state ≢ connected)
  Checked (wait d acquire_unique_packet_id k) =
      (d.state ≡ connected)
      × (with_id ≡ true)
      × ((e : Connection) → k none e ≡ done (threw await_failed) e)
      × ((pid : ℕ) (e : Connection) → Sends pid (k (some pid) e))
  Checked (wait d (publish q) k) =
      (d.state ≡ connected) × (with_id ≡ false) × Sends 0 (wait d (publish q) k)
  Checked (wait d (subscribe i topics) k) =
      (d.state ≡ connected) × (with_id ≡ false) × Sends 0 (wait d (subscribe i topics) k)
  Checked _ = ⊥

  -- A client that is reconnecting first waits, once, and is checked as the wait leaves it.
  abbrev pub Follows : Co Error → Type 0
  Follows (wait d wait_autoreconnect k) =
      (d.state ≡ reconnecting) × ((p : Error) (e : Connection) → Checked (k p e))
  Follows (done o d) = (d.state ≢ reconnecting) × Checked (done o d)
  Follows (wait d r k) = (d.state ≢ reconnecting) × Checked (wait d r k)

-- Whatever the replies are and whatever other coroutines do at the awaits: a publish by a client
-- that is reconnecting waits once on the wait timer, and is then checked; a client that is not
-- connected at the check is refused with `NotConnected` and sends nothing; a connected one sends
-- the message once, with the arguments given, under the id 0 for `at_most_once` and else under an
-- id that it acquires first (throwing if it gets none), and returns success, or the mapped error.
pub async_publish-Follows :
    (P : Platform) (topic payload : String) (qos : QoS) (retain : Bool) (c : Connection)
    → Follows P
        (above_at_most_once qos)
        (λ pid. publish (record {
          packet_id = pid;
          topic = topic;
          payload = payload;
          qos = qos;
          retain = retain;
        }))
        (async_publish P topic payload qos retain c)
unfolding async_publish bind
async_publish-Follows P topic payload at_most_once retain c = ground arith
async_publish-Follows P topic payload _ retain c = ground arith

-- Whatever the replies are and whatever other coroutines do at the awaits: a subscription by a
-- client that is reconnecting waits once on the wait timer, and is then checked; a client that is
-- not connected at the check is refused with `NotConnected` and sends nothing; a connected one
-- acquires an id (throwing if it gets none), sends the topics given under it once, and returns
-- success, or the mapped error.
pub async_subscribe-Follows :
    (P : Platform) (topics : List TopicSubopts) (c : Connection)
    → Follows P true (λ pid. subscribe pid topics) (async_subscribe P topics c)
unfolding async_subscribe bind
async_subscribe-Follows P topics c = ground arith
