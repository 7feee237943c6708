-- ===== src/Client/Reconnect.antt =====
-- lib/include/hacpp/async_mqtt_client.h: the reconnect that a failed receive starts.
use hacpp.Base.{ℕ, suc, ◌^◌, min, ◌≡◌}
use hacpp.Error.{Error}
use hacpp.Client.{Connection, Co, Reply, done, wait, sleep}

-- The delay before the attempt after `n` failed ones, in seconds.
abbrev pub backoff : ℕ → ℕ
backoff n = min (2 ^ n) 30

-- The attempts from here on are delayed by `backoff n`, `backoff (n + 1)` and so on.
abbrev pub BacksOff : {A : Type 0} → ℕ → Co A → Type 0
BacksOff n (done o d) = Unit
BacksOff n (wait d (sleep seconds) k) =
    (seconds ≡ backoff n) × ((p : Unit {0}) (e : Connection) → BacksOff (suc n) (k p e))
BacksOff n (wait d r k) = (p : Reply r) (e : Connection) → BacksOff n (k p e)
