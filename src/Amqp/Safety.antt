-- ===== src/Amqp/Safety.antt =====
-- What holds of the connection's state machine between two turns
-- (crates/reconnecting-amqp/src/connection.rs): the handles that the assertions ask for are there,
-- and a close reason fits the phase, before or after the start was reported.
use tulpje.Prelude.{
  Bool, true, false, Option, none, some, List, [], ◌∷◌, ◌≡◌, arith, is_some, All, All-of,
}
use tulpje.Amqp.Types.{
  Conn, Channel, CloseReason, shutdown, fatal, start_error, Pick, event_branch, State, disconnected,
  connecting, reconnecting, opening_channel, reopening_channel, declaring_consumer, connected,
  closing_channel, closing_connection, closed_connection, finished, Shared, Replies, Machine,
}
use tulpje.Amqp.Connection.{
  pick_branch, report_start, run_disconnected, run_connecting, run_reconnecting,
  run_opening_channel, run_reopening_channel, run_declaring_consumer, run_connected,
  run_closing_channel, run_closing_connection, run_closed_connection,
}
use tulpje.Amqp.Loop.{FlowKeeps, connected_loop_rule}
use tulpje.Amqp.Machine.{Turn, answers, sends, shuts, run_state, turn, run_turns, begin, display}

-- `pending`: `start_tx` has not been taken. A start error carries its error and is never met later.
abbrev pub ReasonFits : CloseReason → Bool → Type 0
ReasonFits (start_error none) pending = ⊥
ReasonFits (start_error (some _)) pending = pending ≡ true
ReasonFits _ pending = pending ≡ false

abbrev pub IsFinal : CloseReason → Type 0
IsFinal shutdown = Unit {0}
IsFinal (fatal _) = Unit {0}
IsFinal _ = ⊥

abbrev pub StateFits : State → Bool → Type 0
StateFits reconnecting pending = pending ≡ false
StateFits (reopening_channel _) pending = pending ≡ false
StateFits (closing_channel _ chan reason) pending =
    (is_some chan ≡ true) × ReasonFits reason pending
StateFits (closing_connection conn reason) pending =
    (is_some conn ≡ true) × ReasonFits reason pending
StateFits (closed_connection reason) pending = ReasonFits reason pending
StateFits (finished reason) pending = (pending ≡ false) × IsFinal reason
StateFits _ pending = Unit {0}

abbrev pub Fits : Machine → Type 0
Fits m = StateFits m.state m.shared.start_tx

-- A result that is there and satisfies the predicate: a panic satisfies none.
abbrev pub Returns : (Machine → Type 0) → Option Machine → Type 0
Returns P none = ⊥
Returns P (some m) = P m

connecting-Fits : (r : Replies) (s : Shared) → Fits (run_connecting r s)
unfolding run_connecting
connecting-Fits r s = ground arith

opening_channel-Fits :
    (conn : Conn) (r : Replies) (s : Shared) → Fits (run_opening_channel conn r s)
unfolding run_opening_channel
opening_channel-Fits conn r s = ground arith

declaring_consumer-Fits :
    (conn : Conn) (chan : Channel) (r : Replies) (s : Shared)
    → Fits (run_declaring_consumer conn chan r s)
unfolding run_declaring_consumer
declaring_consumer-Fits conn chan r s = ground arith

-- A turn of the loop in `Connected` neither sets `start_tx` again nor returns with a start error.
pick_branch-Fits :
    (conn : Conn) (chan : Channel) (p : Pick) (s : Shared)
    → s.start_tx ≡ false
    → FlowKeeps conn chan (λ t. t.start_tx ≡ false) Fits (pick_branch p s)
unfolding pick_branch
pick_branch-Fits conn chan (event_branch (some e)) s h = ground arith
pick_branch-Fits conn chan p s h = ground arith

start_tx-report_start : (s : Shared) → (report_start s).start_tx ≡ false
unfolding report_start
start_tx-report_start s = ground arith

connected-Fits :
    (conn : Conn) (chan : Channel) (r : Replies) (s : Shared) → Fits (run_connected conn chan r s)
unfolding run_connected
connected-Fits conn chan r s =
    connected_loop_rule conn chan (λ t. t.start_tx ≡ false) Fits (λ t h. tt)
      (pick_branch-Fits conn chan) r.picks (report_start s) (start_tx-report_start s)

closing_channel-Fits :
    (conn : Conn) (chan : Option Channel) (reason : CloseReason) (r : Replies) (s : Shared)
    → StateFits (closing_channel conn chan reason) s.start_tx
    → Returns Fits (run_closing_channel conn chan reason r s)
unfolding run_closing_channel
closing_channel-Fits conn none reason r s h = ground arith
closing_channel-Fits conn (some chan) reason r s h = ground arith

closed_connection-Fits :
    (reason : CloseReason) (r : Replies) (s : Shared)
    → ReasonFits reason s.start_tx
    → Fits (run_closed_connection reason r s)
unfolding run_closed_connection
closed_connection-Fits (start_error none) r s h = absurd h
closed_connection-Fits (start_error (some e)) r s h = ground arith
closed_connection-Fits reason r s h = ground arith

run_state-Fits :
    (st : State) (r : Replies) (s : Shared)
    → StateFits st s.start_tx
    → Returns Fits (run_state st r s)
unfolding run_state run_disconnected run_reconnecting run_reopening_channel run_closing_connection
run_state-Fits disconnected r s h = tt
run_state-Fits connecting r s h = connecting-Fits r s
run_state-Fits reconnecting r s h = tt
run_state-Fits (opening_channel conn) r s h = opening_channel-Fits conn r s
run_state-Fits (reopening_channel conn) r s h = tt
run_state-Fits (declaring_consumer conn chan) r s h = declaring_consumer-Fits conn chan r s
run_state-Fits (connected conn chan) r s h = connected-Fits conn chan r s
run_state-Fits (closing_channel conn chan reason) r s h =
    closing_channel-Fits conn chan reason r s h
run_state-Fits (closing_connection none reason) r s h = ground arith
run_state-Fits (closing_connection (some conn) reason) r s h = h.1
run_state-Fits (closed_connection reason) r s h = closed_connection-Fits reason r s h
run_state-Fits (finished reason) r s h = h

pub turn-Fits : (t : Turn) (m : Machine) → Fits m → Returns Fits (turn t m)
unfolding turn
turn-Fits (answers r) m h = run_state-Fits m.state r m.shared h
turn-Fits (sends b) m h = h
turn-Fits shuts m h = h

pub begin-Fits : (s : Shared) {m : Machine} → begin s ≡ some m → Fits m
unfolding begin
begin-Fits s e = ground arith

Returns-cases :
    (P : Machine → Type 0) (o : Option Machine) (ts : List Turn)
    → Returns P o
    → ((m : Machine) → P m → Returns P (run_turns ts m))
    → Returns P (elim o [ none ↦ none | some m' ↦ run_turns ts m' ])
Returns-cases P none ts h k = h
Returns-cases P (some m) ts h k = k m h

-- A predicate that every turn keeps holds after every history, and no turn of it panics; `G` is
-- what is assumed of each turn.
pub run_turns_rule_on :
    (G : Turn → Type 0) (P : Machine → Type 0)
    → ((t : Turn) (m : Machine) → G t → P m → Returns P (turn t m))
    → (ts : List Turn) (m : Machine) → All G ts
    → P m
    → Returns P (run_turns ts m)
unfolding run_turns
run_turns_rule_on G P keep [] m g h = h
run_turns_rule_on G P keep (t ∷ ts) m g h =
    Returns-cases P (turn t m) ts (keep t m g.0 h)
      (λ m' h'. run_turns_rule_on G P keep ts m' g.1 h')

pub run_turns_rule :
    (P : Machine → Type 0)
    → ((t : Turn) (m : Machine) → P m → Returns P (turn t m))
    → (ts : List Turn) (m : Machine) → P m
    → Returns P (run_turns ts m)
run_turns_rule P keep ts m =
    run_turns_rule_on (λ t. Unit {0}) P (λ t m' g. keep t m') ts m
      (All-of (λ t. Unit {0}) (λ t. tt) ts)

-- What a finished machine says: its reason can be displayed, and the start has been reported.
abbrev pub Concludes : Machine → Type 0
Concludes m =
    (reason : CloseReason)
    → m.state ≡ finished reason
    → (m.shared.start_tx ≡ false) × (is_some (display reason) ≡ true)

pub Returns-mono :
    {P Q : Machine → Type 0} (o : Option Machine)
    → ((m : Machine) → P m → Q m)
    → Returns P o
    → Returns Q o
Returns-mono none f h = h
Returns-mono (some m) f h = f m h

pub run_turns-Fits : (ts : List Turn) (m : Machine) → Fits m → Returns Fits (run_turns ts m)
run_turns-Fits = run_turns_rule Fits turn-Fits
