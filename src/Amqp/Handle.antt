-- ===== src/Amqp/Handle.antt =====
-- `AmqpHandle`, the user's end of a connection (crates/reconnecting-amqp/src/lib.rs). The task that
-- `new` spawns is the machine of `Machine`; `start` and `shutdown` are tokens.
use tulpje.Prelude.{Bool, true, false, Option, none, some, [], if◌then◌else◌, ℕ, String}
use tulpje.Amqp.Types.{Error, Shared}

pub record ConnectionArguments : Type 0 where
  pub reconnect_delay : ℕ
  pub queue_name : String

-- Milliseconds: `Duration::new(2, 0)`.
unfoldable pub new_arguments : String → ConnectionArguments
new_arguments queue_name = record { reconnect_delay = 2000; queue_name = queue_name }

unfoldable pub set_reconnect_delay : ℕ → ConnectionArguments → ConnectionArguments
set_reconnect_delay delay a = record a { reconnect_delay = delay }

pub record AmqpHandle : Type 0 where
  pub start : Bool
  pub start_rx : Bool
  pub shutdown : Bool
  pub handle : Bool

-- `AmqpHandle::new`: the handle, and the data that the spawned connection starts from.
unfoldable pub new : ConnectionArguments → Bool → AmqpHandle × Shared
new opts recv_tx = (
  record { start = false; start_rx = true; shutdown = false; handle = true },
  record {
    reconnect_delay = opts.reconnect_delay;
    queue_name = opts.queue_name;
    recv_tx = recv_tx;
    send_queue = [];
    start_tx = true;
    shutdown = false;
    log = [];
  },
)

pub data Outcome : Type 0 where
  ok : Outcome
  err : Error → Outcome

-- What awaiting the oneshot receiver gives.
pub data StartMessage : Type 0 where
  received : Option Error → StartMessage
  sender_dropped : StartMessage

unfoldable pub start : AmqpHandle → AmqpHandle
start h = record h { start = true }

await_start : StartMessage → Outcome
await_start (received none) = ok
await_start (received (some e)) = err e
await_start sender_dropped = err "channel closed"

-- The message is what the receiver gives, if it is there to be awaited.
unfoldable pub wait_start : StartMessage → AmqpHandle → AmqpHandle × Outcome
unfolding await_start
wait_start m h =
    if h.start_rx then (record h { start = true; start_rx = false }, await_start m) else (
      record h { start = true },
      err "`start_rx` is none, have you called `AmqpHandle::wait_start` before?",
    )

unfoldable pub shutdown : AmqpHandle → AmqpHandle
shutdown h = record h { shutdown = true }

-- `joined` is the failure of the task, if it has one.
unfoldable pub join : Option Error → AmqpHandle → AmqpHandle × Outcome
join joined h =
    if h.handle
    then (record h { handle = false }, elim joined [ none ↦ ok | some e ↦ err e ])
    else (h, err "AmqpConnection already shutdown")
