-- ===== src/Gateway/ParsedEvent.antt =====
-- What a message of the gateway is read as (crates/tulpje-gateway/src/parsed_event.rs).
use tulpje.Prelude.{ℕ, String, Bool, true, false, Option, none, some, if◌then◌else◌}
use tulpje.Gateway.Events.{Event, EventType, gateway_close, kind, Flags, contains, wanted_events}

pub data OpCode : Type 0 where
  dispatch : OpCode
  other_op : ℕ → OpCode

-- twilight and serde: the number and the name in a message's header, the known opcodes, the flags
-- of a header and of an event type, the event in a text, and an event type's name.
pub record Decoder : Type 0 where
  pub header : String → Option (ℕ × Option String)
  pub opcode : ℕ → Option OpCode
  pub header_flags : OpCode → Option String → Option Flags
  pub deserialize : String → Option Event
  pub type_flags : EventType → Flags
  pub type_name : EventType → Option String

pub data Message : Type 0 where
  close : Message
  text : String → Message

pub data MessageParseError : Type 0 where
  deserialize_error deserialize_event : MessageParseError
  unknown_op_code : ℕ → MessageParseError
  unknown_event : OpCode → Option String → MessageParseError

pub record ParsedEvent : Type 0 where
  pub forward : Bool
  pub name : Option String
  pub event : Option Event
  pub body : Option String

pub data Parsed : Type 0 where
  ok : ParsedEvent → Parsed
  err : MessageParseError → Parsed

abbrev pub is_dispatch : OpCode → Bool
is_dispatch dispatch = true
is_dispatch (other_op _) = false

unfoldable pub from_event : Decoder → Bool → Event → Option String → ParsedEvent
from_event d forward event body = record {
  forward = forward;
  name = d.type_name (kind event);
  event = some event;
  body = body;
}

unfoldable pub from_text : Bool → Option String → String → ParsedEvent
from_text forward name body = record {
  forward = forward;
  name = name;
  event = none;
  body = some body;
}

-- The branch for an event that somebody wants decoded, or not.
from_flags : Decoder → String → OpCode → Option String → Flags → Parsed
unfolding from_event from_text
from_flags d t op event_type flags =
    if contains wanted_events flags
    then elim (d.deserialize t) [
      | none ↦ err deserialize_event
      | some e ↦ ok (from_event d (is_dispatch op) e (some t))
    ]
    else ok (from_text (is_dispatch op) event_type t)

from_opcode : Decoder → String → Option String → OpCode → Parsed
unfolding from_flags
from_opcode d t event_type op = elim (d.header_flags op event_type) [
  | none ↦ err (unknown_event op event_type)
  | some flags ↦ from_flags d t op event_type flags
]

from_header : Decoder → String → ℕ × Option String → Parsed
unfolding from_opcode
from_header d t h = elim (d.opcode h.0) [
  | none ↦ err (unknown_op_code h.0)
  | some op ↦ from_opcode d t h.1 op
]

unfoldable pub from_message : Decoder → Message → Parsed
unfolding from_header from_event
from_message d close = ok (from_event d false gateway_close none)
from_message d (text t) = elim (d.header t) [
  | none ↦ err deserialize_error
  | some h ↦ from_header d t h
]

abbrev is_gateway_close : Event → Bool
is_gateway_close gateway_close = true
is_gateway_close _ = false

unfoldable pub is_close : ParsedEvent → Bool
is_close p = elim p.event [ none ↦ false | some e ↦ is_gateway_close e ]
