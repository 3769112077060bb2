-- ===== src/Gateway/Manager.antt =====
-- The shard manager (crates/tulpje-gateway/src/shard_manager.rs), and the handle through which it
-- reaches the reporter (shard_reporter.rs).
use Prim.Native.String.{◌++◌ as str_append}
use tulpje.Prelude.{
  ℕ, suc, String, Bool, true, false, Option, none, some, List, [], ◌∷◌, ◌++◌, ◌&&◌, leb, length,
  if◌then◌else◌,
}
use tulpje.Gateway.Events.{contains, shard_reporter_events}
use tulpje.Gateway.ParsedEvent.{
  Decoder, Message, MessageParseError, deserialize_error, deserialize_event, unknown_op_code,
  unknown_event, ParsedEvent, ok, err, from_message, is_close,
}
use tulpje.Gateway.Reporter.{ReporterEvent, from_event, reporter_kind}

pub data RunState : Type 0 where
  running stopping stopped : RunState

-- `DiscordEvent` with its metadata (crates/tulpje-common/src/lib.rs).
pub record DiscordEvent : Type 0 where
  pub uuid : ℕ
  pub shard : ℕ
  pub payload : String

-- `pending` is the reporter's bounded queue, oldest first; `forwarded` is what went to the message
-- queue and `close_frames` counts the closes that were asked of the shard. The two flags say
-- whether the receivers are still there.
pub record Manager : Type 0 where
  pub state : RunState
  pub shard_id : ℕ
  pub pending : List ReporterEvent
  pub reporter_open : Bool
  pub forwarded : List DiscordEvent
  pub amqp_open : Bool
  pub close_frames : ℕ

pub data Reply : Type 0 where
  done : Bool → Reply
  fail : String → Reply

-- `mpsc::channel(10)`.
abbrev pub capacity : ℕ
capacity = 10

-- `none` is a success.
unfoldable pub try_send : Decoder → ReporterEvent → Manager → Manager × Option String
try_send d e m =
    if contains shard_reporter_events (d.type_flags (reporter_kind e))
    then (if m.reporter_open
        then (if leb capacity (length m.pending)
            then (m, some "no available capacity")
            else (record m { pending = m.pending ++ (e ∷ []) }, none))
        else (m, some "channel closed"))
    else (m, none)

-- `to_vec` is the serialisation of an event, which may fail.
forward_text : (DiscordEvent → Bool) → ℕ → Bool → Option String → Bool → Manager → Manager × Reply
forward_text serialises uuid stop none forward m = (m, done stop)
forward_text serialises uuid stop (some t) forward m =
    let e : DiscordEvent = record { uuid = uuid; shard = m.shard_id; payload = t } in
    if forward
    then (if serialises e
        then (if m.amqp_open
            then (record m { forwarded = e ∷ m.forwarded }, done stop)
            else (m, fail "error sending event to amqp"))
        else (m, fail "error serializing event"))
    else (m, done stop)

after_report :
    (DiscordEvent → Bool) → ℕ → Bool → ParsedEvent → Manager × Option String → Manager × Reply
unfolding forward_text
after_report serialises uuid stop p (m, some e) =
    (m, fail (str_append "error sending message to ShardManager: " e))
after_report serialises uuid stop p (m, none) = forward_text serialises uuid stop p.body p.forward m

abbrev pub is_stopping : RunState → Bool
is_stopping stopping = true
is_stopping _ = false

handle_parsed :
    Decoder → (DiscordEvent → Bool) → ℕ → List ℕ → ParsedEvent → Manager → Manager × Reply
unfolding after_report
handle_parsed d serialises uuid latency p m =
    let stop = is_close p && is_stopping m.state in
    elim p.event [
      | none ↦ after_report serialises uuid stop p (m, none)
      | some e ↦ after_report serialises uuid stop p (try_send d (from_event latency e) m)
    ]

handle_error : MessageParseError → Manager → Manager × Reply
handle_error (unknown_op_code _) m = (m, done false)
handle_error (unknown_event _ _) m = (m, done false)
handle_error deserialize_error m = (m, fail "couldn't deserialize gateway event")
handle_error deserialize_event m = (m, fail "couldn't deserialize event")

-- The message, the uuid that the event would get and the latencies of the shard.
unfoldable pub handle_message :
    Decoder → (DiscordEvent → Bool) → ℕ → List ℕ → Message → Manager → Manager × Reply
unfolding handle_parsed handle_error
handle_message d serialises uuid latency msg m = elim (from_message d msg) [
  | ok p ↦ handle_parsed d serialises uuid latency p m
  | err e ↦ handle_error e m
]

pub data Input : Type 0 where
  start : Input
  message : ℕ → List ℕ → Message → Input
  receive_error stream_end shutdown handles_gone : Input

pub data Turn : Type 0 where
  continue break : Manager → Turn

-- A branch of `select!` whose condition is false is not taken. Where the senders of the receiver
-- are gone and the manager is stopped, no branch is left and the `else` breaks.
abbrev after_message : Manager × Reply → Turn
after_message (m, done true) = break m
after_message (m, done false) = continue m
after_message (m, fail _) = continue m

run_live : Decoder → (DiscordEvent → Bool) → Input → Manager → Turn
unfolding handle_message
run_live d serialises (message uuid latency msg) m =
    after_message (handle_message d serialises uuid latency msg m)
run_live d serialises receive_error m = continue m
run_live d serialises stream_end m = break m
run_live d serialises start m = continue (record m { state = running })
run_live d serialises shutdown m = continue m
run_live d serialises handles_gone m = continue m

run_running : Decoder → (DiscordEvent → Bool) → Input → Manager → Turn
unfolding run_live
run_running d serialises shutdown m =
    continue (record m { state = stopping; close_frames = suc m.close_frames })
run_running d serialises i m = run_live d serialises i m

run_stopped : Input → Manager → Turn
run_stopped start m = continue (record m { state = running })
run_stopped handles_gone m = break m
run_stopped _ m = continue m

turn_at : RunState → Decoder → (DiscordEvent → Bool) → Input → Manager → Turn
unfolding run_running run_stopped run_live
turn_at running d serialises i m = run_running d serialises i m
turn_at stopping d serialises i m = run_live d serialises i m
turn_at stopped d serialises i m = run_stopped i m

-- One turn of the loop of `ShardManager::run`.
unfoldable pub turn : Decoder → (DiscordEvent → Bool) → Input → Manager → Turn
unfolding turn_at
turn d serialises i m = turn_at m.state d serialises i m

unfoldable pub run : Decoder → (DiscordEvent → Bool) → List Input → Manager → Turn
run d serialises [] m = continue m
run d serialises (i ∷ is) m = elim (turn d serialises i m) [
  | continue m' ↦ run d serialises is m'
  | break m' ↦ break m'
]
