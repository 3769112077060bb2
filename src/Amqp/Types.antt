-- ===== src/Amqp/Types.antt =====
-- The data of crates/reconnecting-amqp/src/{connection,close_reason,event}.rs. A connection, a
-- channel and an error of amqprs are what the broker's answers carry: a handle is a number and an
-- error is its text.
use tulpje.Prelude.{ℕ, String, Bool, Option, List}

abbrev pub Error : Type 0
Error = String

abbrev pub Conn : Type 0
Conn = ℕ

abbrev pub Channel : Type 0
Channel = ℕ

abbrev pub Bytes : Type 0
Bytes = List ℕ

-- event.rs. Of the payloads only what the connection reads is kept: the reply code and the content.
pub data Event : Type 0 where
  connection_close connection_block connection_unblock secret_updated : Event
  channel_close channel_cancel channel_publish_ack channel_publish_nack : Event
  channel_flow : Bool → Event
  channel_publish_return : ℕ → Bytes → Event
  message_received : Bytes → Event

pub data CloseReason : Type 0 where
  shutdown channel_closed connection_closed publish_no_route other : CloseReason
  fatal : String → CloseReason
  start_error : Option Error → CloseReason

-- The states with what they own; `event_tx` and `event_rx` have no data of their own.
pub data State : Type 0 where
  disconnected connecting reconnecting : State
  opening_channel reopening_channel : Conn → State
  declaring_consumer connected : Conn → Channel → State
  closing_channel : Conn → Option Channel → CloseReason → State
  closing_connection : Option Conn → CloseReason → State
  closed_connection : CloseReason → State
  finished : CloseReason → State

-- What the client asks of the broker, of the runtime and of the library's user. `start_result` is a
-- `start_tx.send`, whether or not somebody still listens; `accepted` is a message that the user
-- puts into the send queue.
pub data Effect : Type 0 where
  opened_conn closed_conn : Conn → Effect
  opened_chan closed_chan : Channel → Effect
  declared : String → Effect
  consuming : String → Effect
  published : String → Bytes → Effect
  lost : Error → Bytes → Effect
  accepted requeued delivered : Bytes → Effect
  start_result : Option Error → Effect
  slept : ℕ → Effect

-- `AmqpSharedData`, with the effects so far, newest first. `recv_tx` and `start_tx` say whether the
-- sender is there, `send_queue` is what waits in `send_rx`, `shutdown` is the token.
pub record Shared : Type 0 where
  pub reconnect_delay : ℕ
  pub queue_name : String
  pub recv_tx : Bool
  pub send_queue : List Bytes
  pub start_tx : Bool
  pub shutdown : Bool
  pub log : List Effect

pub data Reply : Type 0 where
  ok : ℕ → Reply
  failed : Error → Reply

-- What makes `select!` go round once in `Connected`: a branch that is ready with its result, or a
-- call of the handle by the library's user.
pub data Pick : Type 0 where
  shutdown_branch : Pick
  event_branch : Option Event → Pick
  message_branch : Option Error → Pick
  send_closed : Pick
  user_send : Bytes → Pick
  user_shutdown : Pick

-- The answers that one call of `State::run` may need.
pub record Replies : Type 0 where
  pub open_connection : Reply
  pub register_connection : Option Error
  pub open_channel : Reply
  pub register_channel : Option Error
  pub declare_queue : Option Error
  pub consume : Option Error
  pub close_channel : Option Error
  pub close_connection : Option Error
  pub start_listening : Bool
  pub picks : List Pick

pub record Machine : Type 0 where
  pub state : State
  pub shared : Shared
