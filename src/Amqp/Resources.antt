-- ===== src/Amqp/Resources.antt =====
-- The connections and channels that the state machine opens
-- (crates/reconnecting-amqp/src/connection.rs), read off the requests that it made: each one is
-- closed once, before another one is opened.
use tulpje.Prelude.{Option, none, some, List, [], ◌∷◌, ◌≡◌, arith, ◌==◌, if◌then◌else◌}
use tulpje.Amqp.Types.{
  Conn, Channel, CloseReason, State, disconnected, connecting, reconnecting, opening_channel,
  reopening_channel, declaring_consumer, connected, closing_channel, closing_connection,
  closed_connection, finished, Effect, opened_conn, closed_conn, opened_chan, closed_chan, Shared,
  Pick, event_branch, start_error, Replies, Machine,
}
use tulpje.Amqp.Connection.{
  pick_branch, report_start, run_disconnected, run_connecting, run_reconnecting,
  run_opening_channel, run_reopening_channel, run_declaring_consumer, run_connected,
  run_closing_channel, run_closing_connection, run_closed_connection,
}
use tulpje.Amqp.Loop.{FlowKeeps, connected_loop_rule}
use tulpje.Amqp.Machine.{Turn, answers, sends, shuts, run_state, turn, run_turns, begin}
use tulpje.Amqp.Safety.{
  StateFits, Fits, Returns, Returns-mono, turn-Fits, begin-Fits, run_turns_rule,
}

-- Which handle is open, if the requests made sense so far.
pub data Ledger : Type 0 where
  holding : Option Conn → Ledger
  broken : Ledger

abbrev open_one : Conn → Ledger → Ledger
open_one c (holding none) = holding (some c)
open_one c _ = broken

abbrev close_one : Conn → Ledger → Ledger
close_one c (holding (some d)) = if c == d then holding none else broken
close_one c _ = broken

abbrev pub conns : List Effect → Ledger
conns [] = holding none
conns (opened_conn c ∷ l) = open_one c (conns l)
conns (closed_conn c ∷ l) = close_one c (conns l)
conns (_ ∷ l) = conns l

abbrev pub chans : List Effect → Ledger
chans [] = holding none
chans (opened_chan c ∷ l) = open_one c (chans l)
chans (closed_chan c ∷ l) = close_one c (chans l)
chans (_ ∷ l) = chans l

abbrev pub held_conn : State → Option Conn
held_conn (opening_channel c) = some c
held_conn (reopening_channel c) = some c
held_conn (declaring_consumer c _) = some c
held_conn (connected c _) = some c
held_conn (closing_channel c _ _) = some c
held_conn (closing_connection c _) = c
held_conn _ = none

abbrev pub held_chan : State → Option Channel
held_chan (declaring_consumer _ c) = some c
held_chan (connected _ c) = some c
held_chan (closing_channel _ c _) = c
held_chan _ = none

-- What the state holds is what the requests left open.
pub record Owns (m : Machine) : Type 0 where
  pub conn : conns m.shared.log ≡ holding (held_conn m.state)
  pub chan : chans m.shared.log ≡ holding (held_chan m.state)

-- The same over the log alone, for a connected state.
record Open (c : Conn) (ch : Channel) (s : Shared) : Type 0 where
  conn : conns s.log ≡ holding (some c)
  chan : chans s.log ≡ holding (some ch)

connecting-Owns :
    (r : Replies) (s : Shared)
    → conns s.log ≡ holding none
    → chans s.log ≡ holding none
    → Owns (run_connecting r s)
unfolding run_connecting
connecting-Owns r s h k = ground arith

opening_channel-Owns :
    (conn : Conn) (r : Replies) (s : Shared)
    → conns s.log ≡ holding (some conn)
    → chans s.log ≡ holding none
    → Owns (run_opening_channel conn r s)
unfolding run_opening_channel
opening_channel-Owns conn r s h k = ground arith

declaring_consumer-Owns :
    (conn : Conn) (chan : Channel) (r : Replies) (s : Shared)
    → conns s.log ≡ holding (some conn)
    → chans s.log ≡ holding (some chan)
    → Owns (run_declaring_consumer conn chan r s)
unfolding run_declaring_consumer
declaring_consumer-Owns conn chan r s h k = ground arith

pick_branch-Owns :
    (conn : Conn) (chan : Channel) (p : Pick) (s : Shared)
    → Open conn chan s
    → FlowKeeps conn chan (Open conn chan) Owns (pick_branch p s)
unfolding pick_branch
pick_branch-Owns conn chan (event_branch (some e)) s h = ground arith
pick_branch-Owns conn chan p s h = ground arith

report_start-Open :
    (conn : Conn) (chan : Channel) (s : Shared) → Open conn chan s → Open conn chan (report_start s)
unfolding report_start
report_start-Open conn chan s h = ground arith

connected-Owns :
    (conn : Conn) (chan : Channel) (r : Replies) (s : Shared)
    → Open conn chan s
    → Owns (run_connected conn chan r s)
unfolding run_connected
connected-Owns conn chan r s h =
    connected_loop_rule conn chan (Open conn chan) Owns
      (λ t k. record { conn = k.conn; chan = k.chan }) (pick_branch-Owns conn chan) r.picks
      (report_start s) (report_start-Open conn chan s h)

closing_channel-Owns :
    (conn : Conn) (chan : Channel) (reason : CloseReason) (r : Replies) (s : Shared)
    → conns s.log ≡ holding (some conn)
    → chans s.log ≡ holding (some chan)
    → Returns Owns (run_closing_channel conn (some chan) reason r s)
unfolding run_closing_channel
closing_channel-Owns conn chan reason r s h k = ground arith

closing_connection-Owns :
    (conn : Conn) (reason : CloseReason) (s : Shared)
    → conns s.log ≡ holding (some conn)
    → chans s.log ≡ holding none
    → Returns Owns (run_closing_connection (some conn) reason s)
unfolding run_closing_connection
closing_connection-Owns conn reason s h k = ground arith

closed_connection-Owns :
    (reason : CloseReason) (r : Replies) (s : Shared)
    → conns s.log ≡ holding none
    → chans s.log ≡ holding none
    → Owns (run_closed_connection reason r s)
unfolding run_closed_connection
closed_connection-Owns (start_error none) r s h k = ground arith
closed_connection-Owns (start_error (some e)) r s h k = ground arith
closed_connection-Owns reason r s h k = ground arith

run_state-Owns :
    (st : State) (r : Replies) (s : Shared)
    → StateFits st s.start_tx
    → conns s.log ≡ holding (held_conn st)
    → chans s.log ≡ holding (held_chan st)
    → Returns Owns (run_state st r s)
unfolding run_state run_disconnected run_reconnecting run_reopening_channel
run_state-Owns disconnected r s f h k = record { conn = h; chan = k }
run_state-Owns connecting r s f h k = connecting-Owns r s h k
run_state-Owns reconnecting r s f h k = record { conn = h; chan = k }
run_state-Owns (opening_channel conn) r s f h k = opening_channel-Owns conn r s h k
run_state-Owns (reopening_channel conn) r s f h k = record { conn = h; chan = k }
run_state-Owns (declaring_consumer conn chan) r s f h k = declaring_consumer-Owns conn chan r s h k
run_state-Owns (connected conn chan) r s f h k =
    connected-Owns conn chan r s (record { conn = h; chan = k })
run_state-Owns (closing_channel conn none reason) r s f h k = ground arith
run_state-Owns (closing_channel conn (some chan) reason) r s f h k =
    closing_channel-Owns conn chan reason r s h k
run_state-Owns (closing_connection none reason) r s f h k = ground arith
run_state-Owns (closing_connection (some conn) reason) r s f h k =
    closing_connection-Owns conn reason s h k
run_state-Owns (closed_connection reason) r s f h k = closed_connection-Owns reason r s h k
run_state-Owns (finished reason) r s f h k = record { conn = h; chan = k }

turn-Owns : (t : Turn) (m : Machine) → Fits m → Owns m → Returns Owns (turn t m)
unfolding turn
turn-Owns (answers r) m f h = run_state-Owns m.state r m.shared f h.conn h.chan
turn-Owns (sends b) m f h = record { conn = h.conn; chan = h.chan }
turn-Owns shuts m f h = record { conn = h.conn; chan = h.chan }

pub Returns-pair :
    (P Q : Machine → Type 0) (o : Option Machine)
    → Returns P o
    → Returns Q o
    → Returns (λ m. P m × Q m) o
Returns-pair P Q none p q = p
Returns-pair P Q (some m) p q = (p, q)

begin-Owns : (s : Shared) {m : Machine} → s.log ≡ [] → begin s ≡ some m → Owns m
unfolding begin
begin-Owns s h e = ground arith

-- After any history, what the machine holds is all that is open: a connection and a channel are
-- opened one at a time and closed once, and a finished machine has closed them all.
pub run_turns-Owns :
    (s : Shared) (ts : List Turn) {m : Machine}
    → s.log ≡ []
    → begin s ≡ some m
    → Returns Owns (run_turns ts m)
run_turns-Owns s ts {m} h e =
    Returns-mono (run_turns ts m) (λ m' p. p.1)
      (run_turns_rule (λ m'. Fits m' × Owns m')
        (λ t m' p. Returns-pair Fits Owns (turn t m') (turn-Fits t m' p.0) (turn-Owns t m' p.0 p.1))
        ts m (begin-Fits s e, begin-Owns s h e))
