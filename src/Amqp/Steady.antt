-- ===== src/Amqp/Steady.antt =====
-- What ends the connection once it has started (crates/reconnecting-amqp/src/connection.rs).
use tulpje.Prelude.{Bool, true, false, none, some, List, ◌≡◌, refl, subst, arith, All, is_some}
use tulpje.Amqp.Types.{
  Conn, Channel, CloseReason, shutdown, fatal, start_error, State, disconnected, connecting,
  reconnecting, opening_channel, reopening_channel, declaring_consumer, connected, closing_channel,
  closing_connection, closed_connection, finished, Shared, Pick, event_branch, send_closed, Replies,
  Machine,
}
use tulpje.Amqp.Connection.{
  pick_branch, report_start, run_disconnected, run_connecting, run_reconnecting,
  run_opening_channel, run_reopening_channel, run_declaring_consumer, run_connected,
  run_closing_channel, run_closing_connection, run_closed_connection,
}
use tulpje.Amqp.Loop.{FlowKeeps, connected_loop_rule_on}
use tulpje.Amqp.Machine.{Turn, answers, sends, shuts, run_state, turn, run_turns}
use tulpje.Amqp.Safety.{Returns, run_turns_rule_on, Returns-mono}

-- The two channels are not closed under the machine, which keeps a sender of each.
abbrev pub IsOpen : Pick → Type 0
IsOpen (event_branch none) = ⊥
IsOpen send_closed = ⊥
IsOpen _ = Unit {0}

abbrev pub KeepsOpen : Turn → Type 0
KeepsOpen (answers r) = All IsOpen r.picks
KeepsOpen _ = Unit {0}

abbrev pub ReasonSteady : CloseReason → Bool → Type 0
ReasonSteady shutdown stop = stop ≡ true
ReasonSteady (fatal _) stop = ⊥
ReasonSteady (start_error _) stop = ⊥
ReasonSteady _ stop = Unit {0}

abbrev pub StateSteady : State → Bool → Type 0
StateSteady (closing_channel _ chan reason) stop = (is_some chan ≡ true) × ReasonSteady reason stop
StateSteady (closing_connection conn reason) stop = (is_some conn ≡ true) × ReasonSteady reason stop
StateSteady (closed_connection reason) stop = ReasonSteady reason stop
StateSteady (finished reason) stop = (reason ≡ shutdown) × (stop ≡ true)
StateSteady _ stop = Unit {0}

-- The start is over, and nothing but a requested shutdown ends the machine.
pub record Steady (m : Machine) : Type 0 where
  pub started : m.shared.start_tx ≡ false
  pub steady : StateSteady m.state m.shared.shutdown

abbrev Started : Shared → Type 0
Started s = s.start_tx ≡ false

pick_branch-Steady :
    (conn : Conn) (chan : Channel) (p : Pick) (s : Shared)
    → IsOpen p
    → Started s
    → FlowKeeps conn chan Started Steady (pick_branch p s)
unfolding pick_branch
pick_branch-Steady conn chan (event_branch none) s g h = absurd g
pick_branch-Steady conn chan (event_branch (some e)) s g h = ground arith
pick_branch-Steady conn chan p s g h = ground arith

report_start-Started : (s : Shared) → Started s → Started (report_start s)
unfolding report_start
report_start-Started s h = ground arith

connected-Steady :
    (conn : Conn) (chan : Channel) (r : Replies) (s : Shared)
    → All IsOpen r.picks
    → Started s
    → Steady (run_connected conn chan r s)
unfolding run_connected
connected-Steady conn chan r s g h =
    connected_loop_rule_on conn chan Started Steady IsOpen
      (λ t k. record { started = k; steady = tt }) (pick_branch-Steady conn chan) r.picks
      (report_start s) g (report_start-Started s h)

connecting-Steady : (r : Replies) (s : Shared) → Started s → Steady (run_connecting r s)
unfolding run_connecting
connecting-Steady r s h = ground arith

opening_channel-Steady :
    (conn : Conn) (r : Replies) (s : Shared) → Started s → Steady (run_opening_channel conn r s)
unfolding run_opening_channel
opening_channel-Steady conn r s h = ground arith

declaring_consumer-Steady :
    (conn : Conn) (chan : Channel) (r : Replies) (s : Shared)
    → Started s
    → Steady (run_declaring_consumer conn chan r s)
unfolding run_declaring_consumer
declaring_consumer-Steady conn chan r s h = ground arith

closing_channel-Steady :
    (conn : Conn) (chan : Channel) (reason : CloseReason) (r : Replies) (s : Shared)
    → Started s
    → ReasonSteady reason s.shutdown
    → Returns Steady (run_closing_channel conn (some chan) reason r s)
unfolding run_closing_channel
closing_channel-Steady conn chan reason r s h k = ground arith

closed_connection-Steady :
    (reason : CloseReason) (r : Replies) (s : Shared)
    → Started s
    → ReasonSteady reason s.shutdown
    → Steady (run_closed_connection reason r s)
unfolding run_closed_connection
closed_connection-Steady (start_error e) r s h k = absurd k
closed_connection-Steady reason r s h k = ground arith

run_state-Steady :
    (st : State) (r : Replies) (s : Shared)
    → All IsOpen r.picks
    → Started s
    → StateSteady st s.shutdown
    → Returns Steady (run_state st r s)
unfolding run_state run_disconnected run_reconnecting run_reopening_channel run_closing_connection
run_state-Steady disconnected r s g h k = record { started = h; steady = tt }
run_state-Steady connecting r s g h k = connecting-Steady r s h
run_state-Steady reconnecting r s g h k = record { started = h; steady = tt }
run_state-Steady (opening_channel conn) r s g h k = opening_channel-Steady conn r s h
run_state-Steady (reopening_channel conn) r s g h k = record { started = h; steady = tt }
run_state-Steady (declaring_consumer conn chan) r s g h k =
    declaring_consumer-Steady conn chan r s h
run_state-Steady (connected conn chan) r s g h k = connected-Steady conn chan r s g h
run_state-Steady (closing_channel conn none reason) r s g h k = ground arith
run_state-Steady (closing_channel conn (some chan) reason) r s g h k =
    closing_channel-Steady conn chan reason r s h k.1
run_state-Steady (closing_connection none reason) r s g h k = ground arith
run_state-Steady (closing_connection (some conn) reason) r s g h k = record {
  started = h;
  steady = k.1;
}
run_state-Steady (closed_connection reason) r s g h k = closed_connection-Steady reason r s h k
run_state-Steady (finished reason) r s g h k = record { started = h; steady = k }

ReasonSteady-true :
    (reason : CloseReason) (b : Bool) → ReasonSteady reason b → ReasonSteady reason true
ReasonSteady-true shutdown b h = refl
ReasonSteady-true (fatal text) b h = h
ReasonSteady-true (start_error e) b h = h
ReasonSteady-true _ b h = tt

StateSteady-true : (st : State) (b : Bool) → StateSteady st b → StateSteady st true
StateSteady-true (closing_channel _ chan reason) b h = (h.0, ReasonSteady-true reason b h.1)
StateSteady-true (closing_connection conn reason) b h = (h.0, ReasonSteady-true reason b h.1)
StateSteady-true (closed_connection reason) b h = ReasonSteady-true reason b h
StateSteady-true (finished reason) b h = (h.0, refl)
StateSteady-true _ b h = tt

turn-Steady : (t : Turn) (m : Machine) → KeepsOpen t → Steady m → Returns Steady (turn t m)
unfolding turn
turn-Steady (answers r) m g h = run_state-Steady m.state r m.shared g h.started h.steady
turn-Steady (sends b) m g h = record { started = h.started; steady = h.steady }
turn-Steady shuts m g h = record {
  started = h.started;
  steady = StateSteady-true m.state m.shared.shutdown h.steady;
}

Steady-finished :
    (m : Machine)
    → Steady m
    → (reason : CloseReason) → m.state ≡ finished reason
    → (reason ≡ shutdown) × (m.shared.shutdown ≡ true)
Steady-finished m h reason e = subst (λ st. StateSteady st m.shared.shutdown) e h.steady

-- Once started, and while its own two channels stay open, the machine survives every error of the
-- broker: if it has finished, a shutdown was requested, and this is the reason that it gives.
pub run_turns-Steady :
    (ts : List Turn) (m : Machine)
    → Steady m
    → All KeepsOpen ts
    → Returns
        (λ m'.
          (reason : CloseReason)
          → m'.state ≡ finished reason
          → (reason ≡ shutdown) × (m'.shared.shutdown ≡ true))
        (run_turns ts m)
run_turns-Steady ts m h g =
    Returns-mono (run_turns ts m) Steady-finished
      (run_turns_rule_on KeepsOpen Steady turn-Steady ts m g h)
