-- ===== src/Shared/Shapes.antt =====
-- lib/include/hacpp/shared_mqtt_client.h: the state of a shared connection. A `shared_ptr` to a
-- `SharedClientState` is the number of the object, in the order of creation; a `weak_ptr` is the
-- same number, and has expired once the heap holds no object under it.
use hacpp.Base.{ℕ, Bool, Option, none, some, is_some, List, [], ◌==◌, ◌&&◌, if◌then◌else◌}
use hacpp.Coroutine.{Coroutine}
use hacpp.Error.{Error}
use hacpp.Mqtt.{TopicSubopts, RecvResult}
use hacpp.Api.{Operation, Result}

-- The timer never expires by itself; `cancels` counts the calls of `cancel()`.
pub record RecvResultQueue : Type 0 where
  pub queue : List RecvResult
  pub cancels : ℕ

pub record SharedClientState : Type 0 where
  pub queue : RecvResultQueue
  pub topics : List TopicSubopts

pub record SharedConnection : Type 0 where
  pub clients : List ℕ
  pub heap : ℕ → Option SharedClientState
  -- The number of the next object.
  pub fresh : ℕ

-- What the coroutines await: the physical client, or a queue's timer.
pub data Request : Type 0 where
  client : Operation → Request
  connect_client : Request
  queue_timer : ℕ → Request

abbrev pub Reply : Request → Type 0
Reply (client op) = Result op
Reply _ = Error

abbrev pub Co : Type 0 → Type 0
Co A = Coroutine Reply SharedConnection A

abbrev pub M : Type 0 → Type 0
M A = SharedConnection → Co A

-- `weak_client.lock()`.
abbrev pub lock : SharedConnection → ℕ → Option SharedClientState
lock s weak = s.heap weak

-- `weak_client.lock() == state`, for a `state` that is alive.
abbrev pub locks_to : SharedConnection → ℕ → ℕ → Bool
locks_to s state weak = is_some (lock s weak) && weak == state

abbrev pub put :
    (ℕ → Option SharedClientState) → ℕ → Option SharedClientState → ℕ → Option SharedClientState
put heap id v j = if id == j then v else heap j

-- Write to the object under a number; the coroutines that do so hold it alive.
abbrev pub on_some :
    (SharedClientState → SharedClientState) → Option SharedClientState → Option SharedClientState
on_some f none = none
on_some f (some c) = some (f c)

abbrev pub update :
    ℕ → (SharedClientState → SharedClientState) → SharedConnection → SharedConnection
update id f s = record s { heap = put s.heap id (on_some f (s.heap id)) }

abbrev pub items_of : Option SharedClientState → List RecvResult
items_of none = []
items_of (some c) = c.queue.queue
