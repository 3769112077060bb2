-- ===== src/Tests/Amqp.antt =====
-- Runs of the reconnecting AMQP client (crates/reconnecting-amqp), and its theorems at them.
use tulpje.Prelude.{true, false, Option, none, some, List, [], ◌∷◌, ◌≡◌, refl, inr, String}
use tulpje.Amqp.Types.{
  ok, failed, disconnected, channel_publish_return, CloseReason, shutdown, connected, reconnecting,
  finished, Shared, Pick, event_branch, message_branch, user_send, shutdown_branch, Replies,
  Machine, Bytes,
}
use tulpje.Amqp.Connection.{
  at, accept, request_shutdown, run_disconnected, run_connecting, run_reconnecting,
  run_opening_channel, run_reopening_channel, run_declaring_consumer, run_connected, connected_loop,
  pick_branch, report_start, run_closing_channel, run_closing_connection, run_closed_connection,
}
use tulpje.Amqp.Handle.{ConnectionArguments, AmqpHandle, new, new_arguments, wait_start}
use tulpje.Amqp.Machine.{Turn, answers, shuts, turn, run_state, run_turns, begin, display}
use tulpje.Amqp.Safety.{Returns}
use tulpje.Amqp.Resources.{Owns, run_turns-Owns}
use tulpje.Amqp.Delivery.{taken}
use tulpje.Amqp.Start.{Reports, run_turns-Reports}
use tulpje.Amqp.Stopping.{HasState, shutdown-finishes, refused-never_finishes}
use tulpje.Amqp.Steady.{run_turns-Steady}
use tulpje.Amqp.WaitStart.{Answers, wait_start-Answers}

program : Unit {0}
unfolding accept request_shutdown run_disconnected run_connecting run_reconnecting
    run_opening_channel run_reopening_channel run_declaring_consumer run_connected connected_loop
    pick_branch report_start run_closing_channel run_closing_connection run_closed_connection turn
    run_state run_turns begin display new new_arguments wait_start
program = tt

-- A broker that grants everything, with the picks of the connected state.
abbrev granting : List Pick → Replies
granting ps = record {
  open_connection = ok 7;
  register_connection = none;
  open_channel = ok 1;
  register_channel = none;
  declare_queue = none;
  consume = none;
  close_channel = none;
  close_connection = none;
  start_listening = true;
  picks = ps;
}

abbrev refusing : Replies
refusing = record (granting []) { open_connection = failed "refused" }

abbrev fresh : Shared
fresh = record {
  reconnect_delay = 2000;
  queue_name = "discord";
  recv_tx = false;
  send_queue = [];
  start_tx = true;
  shutdown = false;
  log = [];
}

-- Two messages are taken, the first comes back as not routable, and the channel is opened again.
abbrev picks : List Pick
picks =
    user_send (1 ∷ [])
    ∷ message_branch none
    ∷ user_send (2 ∷ [])
    ∷ event_branch (some (channel_publish_return 312 (1 ∷ [])))
    ∷ []

abbrev history : List Turn
history =
    answers (granting [])
    ∷ answers (granting [])
    ∷ answers (granting [])
    ∷ answers (granting picks)
    ∷ answers (granting [])
    ∷ answers (granting [])
    ∷ answers (granting [])
    ∷ answers (granting (message_branch none ∷ message_branch none ∷ []))
    ∷ []

abbrev final_taken : Option Machine → Option (List Bytes)
final_taken none = none
final_taken (some m) = some (taken m.shared.log)

-- The returned message goes out again, behind the one that waited.
history_sends :
    final_taken (run_turns history (run_disconnected fresh))
    ≡ some ((1 ∷ []) ∷ (2 ∷ []) ∷ (1 ∷ []) ∷ [])
unfolding program
history_sends = refl

begin-fresh : begin fresh ≡ some (record { state = disconnected; shared = fresh })
unfolding program
begin-fresh = refl

run_turns-Owns_example :
    Returns Owns (run_turns history (record { state = disconnected; shared = fresh }))
run_turns-Owns_example = run_turns-Owns fresh history refl begin-fresh

run_turns-Reports_example :
    Returns Reports (run_turns history (record { state = disconnected; shared = fresh }))
run_turns-Reports_example = run_turns-Reports fresh history refl refl begin-fresh

abbrev stopping : Shared
stopping = record fresh { start_tx = false; shutdown = true }

refused : (e : String) × (refusing.open_connection ≡ failed e)
refused = ("refused", refl)

shutdown-finishes_example : Returns (HasState (finished shutdown)) (
    run_turns
      (answers (granting (shutdown_branch ∷ []))
        ∷ answers refusing
        ∷ answers refusing
        ∷ answers refusing
        ∷ [])
      (at (connected 7 1) stopping))
shutdown-finishes_example =
    shutdown-finishes 7 1 stopping [] (granting (shutdown_branch ∷ [])) refusing refusing refusing
      refl refl

refused-never_finishes_example :
    Returns
      (λ m. (reason : CloseReason) → ¬ (m.state ≡ finished reason))
      (run_turns (shuts ∷ answers refusing ∷ answers refusing ∷ []) (at reconnecting stopping))
refused-never_finishes_example =
    refused-never_finishes (shuts ∷ answers refusing ∷ answers refusing ∷ [])
      (at reconnecting stopping) (refl, inr refl) (tt, (refused, (refused, tt)))

run_turns-Steady_example :
    Returns
      (λ m.
        (reason : CloseReason)
        → m.state ≡ finished reason
        → (reason ≡ shutdown) × (m.shared.shutdown ≡ true))
      (run_turns (answers refusing ∷ shuts ∷ []) (at reconnecting stopping))
run_turns-Steady_example =
    run_turns-Steady (answers refusing ∷ shuts ∷ []) (at reconnecting stopping)
      (record { started = refl; steady = tt }) (tt, (tt, tt))

abbrev arguments : ConnectionArguments
arguments = record { reconnect_delay = 2000; queue_name = "discord" }

begin-new : begin (new arguments false).1 ≡ some (record { state = disconnected; shared = fresh })
unfolding program
begin-new = refl

wait_start-Answers_example :
    Returns
      (Answers arguments false)
      (run_turns history (record { state = disconnected; shared = fresh }))
wait_start-Answers_example = wait_start-Answers arguments false history begin-new

abbrev waiting : AmqpHandle
waiting = record { start = false; start_rx = true; shutdown = false; handle = true }
