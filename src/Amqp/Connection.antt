-- ===== src/Amqp/Connection.antt =====
-- The `run` of each state (crates/reconnecting-amqp/src/connection.rs), with the helper that each
-- `impl` block declares. A call returns the next state and the shared data; logging is left out.
use Prim.Native.String.{◌++◌ as str_append}
use tulpje.Prelude.{
  String, Bool, true, false, Option, none, some, List, [], ◌∷◌, ◌++◌, ◌==◌, if◌then◌else◌,
}
use tulpje.Amqp.Types.{
  Error, Conn, Channel, Bytes, Event, connection_close, channel_close, channel_publish_return,
  message_received, CloseReason, shutdown, channel_closed, connection_closed, publish_no_route,
  other, fatal, start_error, State, connecting, reconnecting, opening_channel, reopening_channel,
  declaring_consumer, connected, closing_channel, closing_connection, closed_connection, finished,
  Effect, opened_conn, closed_conn, opened_chan, closed_chan, declared, consuming, published, lost,
  accepted, requeued, delivered, start_result, slept, Shared, Reply, ok, failed, Pick,
  shutdown_branch, event_branch, message_branch, send_closed, user_send, user_shutdown, Replies,
  Machine,
}

abbrev pub emit : Shared → Effect → Shared
emit s e = record s { log = e ∷ s.log }

abbrev pub at : State → Shared → Machine
at st s = record { state = st; shared = s }

-- The reason of a failure: while the user still waits for the start, the error goes to the user.
abbrev pub failure : Shared → Error → CloseReason
failure s err = if s.start_tx then start_error (some err) else other

unfoldable pub run_disconnected : Shared → Machine
run_disconnected s = at connecting s

-- `Connecting::run` after `Connection::open` succeeded.
run_connecting_callback : Conn → Replies → Shared → Option Error → Machine
run_connecting_callback conn r s none = at (opening_channel conn) s
run_connecting_callback conn r s (some err) =
    at
      (closing_connection (some conn)
        (failure s (str_append "failed to register amqp connection callback: " err)))
      s

run_connecting_open : Replies → Shared → Reply → Machine
unfolding run_connecting_callback
run_connecting_open r s (ok conn) =
    run_connecting_callback conn r (emit s (opened_conn conn)) r.register_connection
run_connecting_open r s (failed err) =
    if s.start_tx
    then at (closed_connection (start_error (some (str_append "error connecting to amqp: " err)))) s
    else at reconnecting s

unfoldable pub run_connecting : Replies → Shared → Machine
unfolding run_connecting_open
run_connecting r s = run_connecting_open r s r.open_connection

unfoldable pub run_reconnecting : Shared → Machine
run_reconnecting s = at connecting (emit s (slept s.reconnect_delay))

run_opening_declare : Conn → Channel → Replies → Shared → Option Error → Machine
run_opening_declare conn chan r s (some err) =
    at
      (closing_channel conn (some chan) (
        failure s
          (str_append (str_append "error declaring queue '" s.queue_name) (str_append "': " err))))
      s
run_opening_declare conn chan r s none =
    if s.recv_tx then at (declaring_consumer conn chan) s else at (connected conn chan) s

run_opening_callback : Conn → Channel → Replies → Shared → Option Error → Machine
unfolding run_opening_declare
run_opening_callback conn chan r s (some err) =
    at
      (closing_channel conn (some chan)
        (failure s (str_append "failed to register amqp channel callback: " err)))
      s
run_opening_callback conn chan r s none =
    run_opening_declare conn chan r (emit s (declared s.queue_name)) r.declare_queue

run_opening_open : Conn → Replies → Shared → Reply → Machine
unfolding run_opening_callback
run_opening_open conn r s (ok chan) =
    run_opening_callback conn chan r (emit s (opened_chan chan)) r.register_channel
run_opening_open conn r s (failed err) =
    if s.start_tx
    then at
        (closing_connection (some conn)
          (start_error (some (str_append "couldn't create amqp channel: " err))))
        s
    else at (reopening_channel conn) s

unfoldable pub run_opening_channel : Conn → Replies → Shared → Machine
unfolding run_opening_open
run_opening_channel conn r s = run_opening_open conn r s r.open_channel

unfoldable pub run_reopening_channel : Conn → Shared → Machine
run_reopening_channel conn s = at (opening_channel conn) (emit s (slept s.reconnect_delay))

run_consume : Conn → Channel → Shared → Option Error → Machine
run_consume conn chan s none = at (connected conn chan) s
run_consume conn chan s (some err) =
    at (closing_channel conn (some chan) (failure s (str_append "error declaring consumer: " err)))
      s

unfoldable pub run_declaring_consumer : Conn → Channel → Replies → Shared → Machine
unfolding run_consume
run_declaring_consumer conn chan r s =
    run_consume conn chan (emit s (consuming s.queue_name)) r.consume

-- One turn of the loop in `Connected::run`: either it returns with a reason, or it goes round.
pub data Flow : Type 0 where
  return : CloseReason → Shared → Flow
  continue : Shared → Flow

on_event : Event → Shared → Flow
on_event connection_close s = return connection_closed s
on_event channel_close s = return channel_closed s
on_event (channel_publish_return reply_code content) s =
    if reply_code == 312
    then return publish_no_route
        (emit (record s { send_queue = s.send_queue ++ (content ∷ []) }) (requeued content))
    else continue s
on_event (message_received content) s =
    continue (if s.recv_tx then emit s (delivered content) else s)
on_event _ s = continue s

-- The user's half of the send queue, `send_tx.send`, and a call of `shutdown`.
unfoldable pub accept : Bytes → Shared → Shared
accept m s = emit (record s { send_queue = s.send_queue ++ (m ∷ []) }) (accepted m)

unfoldable pub request_shutdown : Shared → Shared
request_shutdown s = record s { shutdown = true }

-- `send_rx.recv()`: on an empty queue the branch is not ready. The error of a
-- publish is only logged, and its message is gone.
unfoldable pub publish_next : Option Error → List Bytes → Shared → Flow
publish_next error [] s = continue s
publish_next none (m ∷ rest) s =
    continue (emit (record s { send_queue = rest }) (published s.queue_name m))
publish_next (some error) (m ∷ rest) s =
    continue (emit (record s { send_queue = rest }) (lost error m))

unfoldable pub pick_branch : Pick → Shared → Flow
unfolding on_event publish_next accept request_shutdown
pick_branch shutdown_branch s = if s.shutdown then return shutdown s else continue s
pick_branch (event_branch none) s = return (fatal "event_rx was closed") s
pick_branch (event_branch (some e)) s = on_event e s
pick_branch (message_branch error) s = publish_next error s.send_queue s
pick_branch send_closed s = return (fatal "send_rx was closed") s
pick_branch (user_send m) s = continue (accept m s)
pick_branch user_shutdown s = continue (request_shutdown s)

-- Where the picks end, the loop is still waiting and the state is still `Connected`.
unfoldable pub connected_loop : Conn → Channel → List Pick → Shared → Machine
connected_loop conn chan [] s = at (connected conn chan) s
connected_loop conn chan (p ∷ ps) s = elim (pick_branch p s) [
  | return reason s' ↦ at (closing_channel conn (some chan) reason) s'
  | continue s' ↦ connected_loop conn chan ps s'
]

-- `shared.start_tx.take()`, and the `None` that is sent with it.
unfoldable pub report_start : Shared → Shared
report_start s = if s.start_tx then emit (record s { start_tx = false }) (start_result none) else s

unfoldable pub run_connected : Conn → Channel → Replies → Shared → Machine
unfolding report_start
run_connected conn chan r s = connected_loop conn chan r.picks (report_start s)

-- The `match self.reason` of `ClosingChannel::run`.
closing_channel_next : Conn → CloseReason → State
closing_channel_next conn channel_closed = reopening_channel conn
closing_channel_next conn publish_no_route = reopening_channel conn
closing_channel_next conn reason = closing_connection (some conn) reason

-- `none` is the panic of the assertion.
unfoldable pub run_closing_channel :
    Conn → Option Channel → CloseReason → Replies → Shared → Option Machine
unfolding closing_channel_next
run_closing_channel conn none reason r s = none
run_closing_channel conn (some chan) reason r s = elim r.close_channel [
  | some _ ↦ some (at (closing_connection (some conn) reason) (emit s (closed_chan chan)))
  | none ↦ some (at (closing_channel_next conn reason) (emit s (closed_chan chan)))
]

unfoldable pub run_closing_connection : Option Conn → CloseReason → Shared → Option Machine
run_closing_connection none reason s = none
run_closing_connection (some conn) reason s =
    some (at (closed_connection reason) (emit s (closed_conn conn)))

abbrev finish_fatal : String → Shared → Machine
finish_fatal text s = at (finished (fatal text)) s

-- The `StartError` arm of `ClosedConnection::run`.
report_start_error : Option Error → Bool → Shared → Machine
report_start_error none listening s =
    if s.start_tx
    then finish_fatal "inner error is None, this shouldn't happen" (record s { start_tx = false })
    else finish_fatal "start_tx already consumed, and inner error is None, neither should happen" s
report_start_error (some err) listening s =
    if s.start_tx
    then at
        (finished (
          fatal (
            if listening
            then "error while starting"
            else str_append "couldn't send error back to user: " err)))
        (emit (record s { start_tx = false }) (start_result (some err)))
    else finish_fatal (str_append "start_tx already consumed, shouldn't happen, inner error: " err)
        s

unfoldable pub run_closed_connection : CloseReason → Replies → Shared → Machine
unfolding report_start_error
run_closed_connection (fatal text) r s = at (finished (fatal text)) s
run_closed_connection shutdown r s = at (finished shutdown) s
run_closed_connection (start_error err) r s = report_start_error err r.start_listening s
run_closed_connection _ r s = at reconnecting s
