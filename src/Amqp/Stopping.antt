-- ===== src/Amqp/Stopping.antt =====
-- How the connection stops and when it does not (crates/reconnecting-amqp/src/connection.rs).
use tulpje.Prelude.{true, false, some, List, [], ◌∷◌, ◌≡◌, ◌≢◌, ◌⊎◌, arith, All}
use tulpje.Amqp.Types.{
  Error, Conn, Channel, CloseReason, shutdown, fatal, State, connecting, reconnecting, connected,
  closing_channel, finished, Shared, failed, Pick, shutdown_branch, Replies, Machine,
}
use tulpje.Amqp.Connection.{
  at, pick_branch, report_start, connected_loop, run_connecting, run_reconnecting, run_connected,
  run_closing_channel, run_closing_connection, run_closed_connection,
}
use tulpje.Amqp.Machine.{Turn, answers, sends, shuts, run_state, turn, run_turns}
use tulpje.Amqp.Safety.{Returns, run_turns_rule_on, IsFinal, Returns-mono}

abbrev pub HasState : State → Machine → Type 0
HasState st m = m.state ≡ st

-- Closing with a final reason takes three turns, whatever the broker answers.
closing-finishes :
    (conn : Conn) (chan : Channel) (reason : CloseReason) (s : Shared) (r₁ r₂ r₃ : Replies)
    → IsFinal reason
    → Returns (HasState (finished reason)) (
        run_turns
          (answers r₁ ∷ answers r₂ ∷ answers r₃ ∷ [])
          (at (closing_channel conn (some chan) reason) s))
unfolding run_turns turn run_state run_closing_channel run_closing_connection run_closed_connection
closing-finishes conn chan shutdown s r₁ r₂ r₃ h = ground arith
closing-finishes conn chan (fatal text) s r₁ r₂ r₃ h = ground arith
closing-finishes conn chan reason s r₁ r₂ r₃ h = absurd h

-- A connected machine that sees the requested shutdown finishes with it in four turns, whatever
-- the broker answers on the way.
pub shutdown-finishes :
    (conn : Conn) (chan : Channel) (s : Shared) (ps : List Pick) (r r₁ r₂ r₃ : Replies)
    → s.shutdown ≡ true
    → r.picks ≡ shutdown_branch ∷ ps
    → Returns (HasState (finished shutdown)) (
        run_turns
          (answers r ∷ answers r₁ ∷ answers r₂ ∷ answers r₃ ∷ [])
          (at (connected conn chan) s))
unfolding run_turns turn run_state run_connected connected_loop pick_branch report_start
    run_closing_channel run_closing_connection run_closed_connection
shutdown-finishes conn chan s ps r r₁ r₂ r₃ h e = rw e (ground arith)

abbrev pub Refuses : Turn → Type 0
Refuses (answers r) = (e : Error) × (r.open_connection ≡ failed e)
Refuses _ = Unit {0}

-- After the start, while the machine has no connection.
abbrev pub Waits : Machine → Type 0
Waits m = (m.shared.start_tx ≡ false) × ((m.state ≡ connecting) ⊎ (m.state ≡ reconnecting))

run_state-Waits :
    (st : State) (r : Replies) (s : Shared)
    → (e : Error) × (r.open_connection ≡ failed e)
    → Waits (at st s)
    → Returns Waits (run_state st r s)
unfolding run_state run_connecting run_reconnecting
run_state-Waits st r s g h = ground arith

turn-Waits : (t : Turn) (m : Machine) → Refuses t → Waits m → Returns Waits (turn t m)
unfolding turn
turn-Waits (answers r) m g h = run_state-Waits m.state r m.shared g h
turn-Waits (sends b) m g h = h
turn-Waits shuts m g h = h

-- Once started, a machine whose every attempt to connect is refused never finishes, also when the
-- shutdown is requested: the token is looked at in the connected state alone.
pub refused-never_finishes :
    (ts : List Turn) (m : Machine)
    → Waits m
    → All Refuses ts
    → Returns (λ m'. (reason : CloseReason) → m'.state ≢ finished reason) (run_turns ts m)
refused-never_finishes ts m h g =
    Returns-mono (run_turns ts m) (λ m' w reason e. ground arith)
      (run_turns_rule_on Refuses Waits turn-Waits ts m g h)
