-- ===== src/Amqp/Machine.antt =====
-- `State::run` and the loop of `AmqpConnection::run`
-- (crates/reconnecting-amqp/src/connection.rs), and the text of a close reason (close_reason.rs).
use Prim.Native.String.{◌++◌ as str_append}
use tulpje.Prelude.{String, Option, none, some, List, [], ◌∷◌, if◌then◌else◌}
use tulpje.Amqp.Types.{
  Bytes, CloseReason, shutdown, fatal, State, disconnected, connecting, reconnecting,
  opening_channel, reopening_channel, declaring_consumer, connected, closing_channel,
  closing_connection, closed_connection, finished, Shared, Replies, Machine,
}
use tulpje.Amqp.Connection.{
  at, accept, request_shutdown, run_disconnected, run_connecting, run_reconnecting,
  run_opening_channel, run_reopening_channel, run_declaring_consumer, run_connected,
  run_closing_channel, run_closing_connection, run_closed_connection,
}

-- `none` is a panic.
unfoldable pub run_state : State → Replies → Shared → Option Machine
run_state disconnected r s = some (run_disconnected s)
run_state connecting r s = some (run_connecting r s)
run_state reconnecting r s = some (run_reconnecting s)
run_state (opening_channel conn) r s = some (run_opening_channel conn r s)
run_state (reopening_channel conn) r s = some (run_reopening_channel conn s)
run_state (declaring_consumer conn chan) r s = some (run_declaring_consumer conn chan r s)
run_state (connected conn chan) r s = some (run_connected conn chan r s)
run_state (closing_channel conn chan reason) r s = run_closing_channel conn chan reason r s
run_state (closing_connection conn reason) r s = run_closing_connection conn reason s
run_state (closed_connection reason) r s = some (run_closed_connection reason r s)
run_state (finished reason) r s = some (at (finished reason) s)

-- What happens while the task waits: the answers to the current state's `run` come in, or the
-- library's user sends a message or asks for the shutdown.
pub data Turn : Type 0 where
  answers : Replies → Turn
  sends : Bytes → Turn
  shuts : Turn

unfoldable pub turn : Turn → Machine → Option Machine
unfolding accept request_shutdown
turn (answers r) m = run_state m.state r m.shared
turn (sends b) m = some (at m.state (accept b m.shared))
turn shuts m = some (at m.state (request_shutdown m.shared))

-- The loop over a history of turns; where the turns end the task still waits. A finished machine
-- has no more turns of its own.
unfoldable pub run_turns : List Turn → Machine → Option Machine
run_turns [] m = some m
run_turns (t ∷ ts) m = elim (turn t m) [ none ↦ none | some m' ↦ run_turns ts m' ]

-- The start of `AmqpConnection::run`, once the start token is set: nothing runs after a shutdown.
unfoldable pub begin : Shared → Option Machine
begin s = if s.shutdown then none else some (at disconnected s)

-- `Display for CloseReason`; `none` is the panic of the last arm.
unfoldable pub display : CloseReason → Option String
display shutdown = some "shutdown requested"
display (fatal reason) = some (str_append "a fatal error occured: " reason)
display reason = none
