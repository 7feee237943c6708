-- ===== src/Client/Wakeups.antt =====
-- lib/include/hacpp/async_mqtt_client.h: what one segment of each operation does to the shared
-- connection, whatever the replies are and whatever the other coroutines did at the awaits.
use hacpp.Base.{
  ℕ, zero, suc, ◌+◌, String, ◌≤◌, ◌<◌, ◌≡◌, ◌≢◌, refl, Bool, true, inl, inr, arith, Bool-cases,
  List, none, some,
}
use hacpp.Error.{no_error, Platform, Error, failed, map_err}
use hacpp.Mqtt.{QoS, at_most_once, TopicSubopts}
use hacpp.Client.{
  expires_at_max, Connection, Config, M, reconnecting, async_connect, async_close, async_disconnect,
  async_publish, async_subscribe, async_recv, async_handle_reconnect, reconnect_loop,
  reconnect_attempt, wait_while_reconnecting, async_acquire_unique_packet_id, bind, next_delay,
}
use hacpp.Client.Attempt.{reconnect_attempt-eq, after_handshake-rule, after_start-rule}
use hacpp.Coroutine.Logic.{Steps, Steps-from, Steps-bind}

-- While the client is reconnecting, its wait timer never expires by itself.
abbrev pub IsArmed : Connection → Type 0
IsArmed c = c.state ≡ reconnecting → c.autorec_wait_timer.expires_at_max ≡ true

-- The timer stays armed, and the attempts allowed are never changed.
pub record Keeps (c d : Connection) : Type 0 where
  pub armed : IsArmed c → IsArmed d
  pub same_max : d.max_attempts ≡ c.max_attempts

-- Nor does the client leave `Reconnecting` without waking those who wait for it.
pub record Wakes (c d : Connection) : Type 0 where
  pub keeps : Keeps c d
  pub grows : c.autorec_wait_timer.cancels ≤ d.autorec_wait_timer.cancels
  pub woken :
      c.state ≡ reconnecting
      → d.state ≢ reconnecting
      → c.autorec_wait_timer.cancels < d.autorec_wait_timer.cancels

pub Keeps-trans : (c d e : Connection) → Keeps c d → Keeps d e → Keeps c e
Keeps-trans c d e g h = record { armed = λ a. h.armed (g.armed a); same_max = ground arith }

pub Keeps-refl : (c : Connection) → Keeps c c
Keeps-refl c = record { armed = λ a. a; same_max = refl }

pub Wakes-refl : (c : Connection) → Wakes c c
Wakes-refl c = record { keeps = Keeps-refl c; grows = omega arith; woken = λ r n. absurd (n r) }

pub Wakes-trans : (c d e : Connection) → Wakes c d → Wakes d e → Wakes c e
Wakes-trans c d e g h = record {
  keeps = Keeps-trans c d e g.keeps h.keeps;
  grows = omega arith;
  woken = ground arith;
}

module _ (P : Platform) where
  pub async_connect-Keeps :
      (config : Config) (c : Connection) → Steps Keeps c (async_connect P config c)
  unfolding async_connect bind
  async_connect-Keeps config c = ground arith

  pub async_close-Wakes : (c : Connection) → Steps Wakes c (async_close P c)
  unfolding async_close bind
  async_close-Wakes c = (Wakes-refl c, λ p e. ground arith)

  pub async_disconnect-Wakes : (c : Connection) → Steps Wakes c (async_disconnect P c)
  unfolding async_disconnect bind
  async_disconnect-Wakes c = (Wakes-refl c, λ p e. ground arith)

wait_while_reconnecting-Wakes : (c : Connection) → Steps Wakes c (wait_while_reconnecting c)
unfolding wait_while_reconnecting bind
wait_while_reconnecting-Wakes c = ground arith

acquire-Wakes : (c : Connection) → Steps Wakes c (async_acquire_unique_packet_id c)
unfolding async_acquire_unique_packet_id bind
acquire-Wakes c = (Wakes-refl c, elim [ none ↦ Wakes-refl | some pid ↦ Wakes-refl ])

module _ (P : Platform) where
  pub async_publish-Wakes :
      (topic payload : String) (qos : QoS) (retain : Bool) (c : Connection)
      → Steps Wakes c (async_publish P topic payload qos retain c)
  unfolding async_publish bind
  async_publish-Wakes topic payload at_most_once retain c = ground arith
  async_publish-Wakes topic payload _ retain c = ground arith

  pub async_subscribe-Wakes :
      (sub_entry : List TopicSubopts) (c : Connection)
      → Steps Wakes c (async_subscribe P sub_entry c)
  unfolding async_subscribe bind
  async_subscribe-Wakes sub_entry c = ground arith

  reconnect_attempt-Wakes :
      (config : Config) (delay : ℕ) (again : Error → M Error) (c : Connection)
      → ((err : Error) (d : Connection) → Steps Wakes d (again err d))
      → Steps Wakes c (reconnect_attempt P config delay again c)
  reconnect_attempt-Wakes config delay again c h =
      rw (reconnect_attempt-eq P config again delay c) (
        Wakes-refl c,
        λ _ d. (
          Wakes-refl d,
          λ p e.
              after_handshake-rule P config again (Steps Wakes e) p e (λ _. h (map_err P p) e)
                (λ _. (
                  Wakes-refl e,
                  λ q f.
                      after_start-rule P config again (Steps Wakes f) q f (λ _. h (map_err P q) f)
                        (λ _. ground arith),
                )),
        ),
      )

  reconnect_loop-Wakes :
      (fuel : ℕ) (config : Config) (delay : ℕ) (last : Error) (c : Connection)
      → Steps Wakes c (reconnect_loop P fuel config delay last c)
  unfolding reconnect_loop bind
  reconnect_loop-Wakes zero config delay last c = Wakes-refl c
  reconnect_loop-Wakes (suc fuel) config delay last c = ground (
    arith,
    reconnect_attempt-Wakes config delay (reconnect_loop P fuel config (next_delay delay))
        (record c { attempt = c.attempt + 1 })
        (reconnect_loop-Wakes fuel config (next_delay delay)),
  )

  async_handle_reconnect-Wakes :
      (fuel : ℕ) (config : Config) (c : Connection)
      → Steps Wakes c (async_handle_reconnect P fuel config c)
  unfolding async_handle_reconnect bind
  async_handle_reconnect-Wakes fuel config c =
      let armed = expires_at_max (record c { state = reconnecting }) in
      ground (
        arith,
        Steps-from Wakes Wakes-trans c armed _ (ground arith)
            (reconnect_loop-Wakes fuel config 1 (no_error P) armed),
      )

  pub async_recv-Wakes :
      (fuel : ℕ) (config : Config) (c : Connection) → Steps Wakes c (async_recv P fuel config c)
  unfolding async_recv bind
  async_recv-Wakes fuel config c = (
    Wakes-refl c,
    λ p d. elim (Bool-cases (failed p.0)) [
      | inl bad ↦ rw bad (
          Steps-bind Wakes Wakes-trans d _ _ (async_handle_reconnect-Wakes fuel config d)
            (λ err e. Wakes-refl e))
      | inr fine ↦ rw fine (Wakes-refl d)
    ],
  )
