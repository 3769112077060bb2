-- ===== src/Amqp/Start.antt =====
-- What the user of the library hears about the start, `AmqpHandle::wait_start`'s other end
-- (crates/reconnecting-amqp/src/connection.rs).
use tulpje.Prelude.{
  Bool, true, false, Option, none, some, List, [], ◌∷◌, ◌≡◌, ◌⊎◌, arith, if◌then◌else◌,
}
use tulpje.Amqp.Types.{
  Error, Conn, Channel, CloseReason, start_error, State, disconnected, connecting, reconnecting,
  opening_channel, reopening_channel, declaring_consumer, connected, closing_channel,
  closing_connection, closed_connection, finished, Effect, start_result, Shared, Pick, event_branch,
  Replies, Machine,
}
use tulpje.Amqp.Connection.{
  pick_branch, report_start, run_disconnected, run_connecting, run_reconnecting,
  run_opening_channel, run_reopening_channel, run_declaring_consumer, run_connected,
  run_closing_channel, run_closing_connection, run_closed_connection,
}
use tulpje.Amqp.Loop.{FlowKeeps, connected_loop_rule}
use tulpje.Amqp.Machine.{Turn, answers, sends, shuts, run_state, turn, run_turns, begin}
use tulpje.Amqp.Safety.{
  ReasonFits, StateFits, Fits, Returns, Returns-mono, turn-Fits, begin-Fits, run_turns_rule,
}
use tulpje.Amqp.Resources.{Returns-pair}

-- The results that were sent to the user, newest first.
abbrev pub results : List Effect → List (Option Error)
results [] = []
results (start_result r ∷ l) = r ∷ results l
results (_ ∷ l) = results l

abbrev pub Heard : State → Bool → List (Option Error) → Type 0
Heard (finished _) pending rs = (rs ≡ none ∷ []) ⊎ ((e : Error) × (rs ≡ some e ∷ []))
Heard _ pending rs = rs ≡ (if pending then [] else none ∷ [])

-- Nothing is sent while the start is pending. After it there is one success, or the machine has
-- finished and there is one error.
abbrev pub Reports : Machine → Type 0
Reports m = Heard m.state m.shared.start_tx (results m.shared.log)

abbrev Up : Shared → Type 0
Up s = (s.start_tx ≡ false) × (results s.log ≡ none ∷ [])

pick_branch-Reports :
    (conn : Conn) (chan : Channel) (p : Pick) (s : Shared)
    → Up s
    → FlowKeeps conn chan Up Reports (pick_branch p s)
unfolding pick_branch
pick_branch-Reports conn chan (event_branch (some e)) s h = ground arith
pick_branch-Reports conn chan p s h = ground arith

report_start-Up :
    (s : Shared) → results s.log ≡ (if s.start_tx then [] else none ∷ []) → Up (report_start s)
unfolding report_start
report_start-Up s h = ground arith

connected-Reports :
    (conn : Conn) (chan : Channel) (r : Replies) (s : Shared)
    → results s.log ≡ (if s.start_tx then [] else none ∷ [])
    → Reports (run_connected conn chan r s)
unfolding run_connected
connected-Reports conn chan r s h =
    connected_loop_rule conn chan Up Reports (λ t k. ground arith) (pick_branch-Reports conn chan)
      r.picks (report_start s) (report_start-Up s h)

connecting-Reports :
    (r : Replies) (s : Shared)
    → results s.log ≡ (if s.start_tx then [] else none ∷ [])
    → Reports (run_connecting r s)
unfolding run_connecting
connecting-Reports r s h = ground arith

opening_channel-Reports :
    (conn : Conn) (r : Replies) (s : Shared)
    → results s.log ≡ (if s.start_tx then [] else none ∷ [])
    → Reports (run_opening_channel conn r s)
unfolding run_opening_channel
opening_channel-Reports conn r s h = ground arith

declaring_consumer-Reports :
    (conn : Conn) (chan : Channel) (r : Replies) (s : Shared)
    → results s.log ≡ (if s.start_tx then [] else none ∷ [])
    → Reports (run_declaring_consumer conn chan r s)
unfolding run_declaring_consumer
declaring_consumer-Reports conn chan r s h = ground arith

closed_connection-Reports :
    (reason : CloseReason) (r : Replies) (s : Shared)
    → ReasonFits reason s.start_tx
    → results s.log ≡ (if s.start_tx then [] else none ∷ [])
    → Reports (run_closed_connection reason r s)
unfolding run_closed_connection
closed_connection-Reports (start_error none) r s f h = absurd f
closed_connection-Reports (start_error (some e)) r s f h = ground arith
closed_connection-Reports reason r s f h = ground arith

closing_channel-Reports :
    (conn : Conn) (chan : Channel) (reason : CloseReason) (r : Replies) (s : Shared)
    → results s.log ≡ (if s.start_tx then [] else none ∷ [])
    → Returns Reports (run_closing_channel conn (some chan) reason r s)
unfolding run_closing_channel
closing_channel-Reports conn chan reason r s h = ground arith

run_state-Reports :
    (st : State) (r : Replies) (s : Shared)
    → StateFits st s.start_tx
    → Heard st s.start_tx (results s.log)
    → Returns Reports (run_state st r s)
unfolding run_state run_disconnected run_reconnecting run_reopening_channel run_closing_connection
run_state-Reports disconnected r s f h = h
run_state-Reports connecting r s f h = connecting-Reports r s h
run_state-Reports reconnecting r s f h = h
run_state-Reports (opening_channel conn) r s f h = opening_channel-Reports conn r s h
run_state-Reports (reopening_channel conn) r s f h = h
run_state-Reports (declaring_consumer conn chan) r s f h =
    declaring_consumer-Reports conn chan r s h
run_state-Reports (connected conn chan) r s f h = connected-Reports conn chan r s h
run_state-Reports (closing_channel conn none reason) r s f h = ground arith
run_state-Reports (closing_channel conn (some chan) reason) r s f h =
    closing_channel-Reports conn chan reason r s h
run_state-Reports (closing_connection none reason) r s f h = ground arith
run_state-Reports (closing_connection (some conn) reason) r s f h = h
run_state-Reports (closed_connection reason) r s f h = closed_connection-Reports reason r s f h
run_state-Reports (finished reason) r s f h = h

turn-Reports : (t : Turn) (m : Machine) → Fits m → Reports m → Returns Reports (turn t m)
unfolding turn
turn-Reports (answers r) m f h = run_state-Reports m.state r m.shared f h
turn-Reports (sends b) m f h = h
turn-Reports shuts m f h = h

begin-Reports :
    (s : Shared) {m : Machine} → s.log ≡ [] → s.start_tx ≡ true → begin s ≡ some m → Reports m
unfolding begin
begin-Reports s h k e = ground arith

-- The user hears of the start at most once. Nothing is sent while the start is pending; after that
-- the one result is the success, unless the machine has finished, when it may be an error instead.
pub run_turns-Reports :
    (s : Shared) (ts : List Turn) {m : Machine}
    → s.log ≡ []
    → s.start_tx ≡ true
    → begin s ≡ some m
    → Returns Reports (run_turns ts m)
run_turns-Reports s ts {m} h k e =
    Returns-mono (run_turns ts m) (λ m' p. p.1)
      (run_turns_rule (λ m'. Fits m' × Reports m')
        (λ t m' p.
          Returns-pair Fits Reports (turn t m') (turn-Fits t m' p.0) (turn-Reports t m' p.0 p.1))
        ts m (begin-Fits s e, begin-Reports s h k e))
