-- ===== src/Gateway/Events.antt =====
-- The events of Discord's gateway as crates/tulpje-gateway reads them. The constructors are those
-- that the source matches on; any other event of twilight is `other` with its type.
use tulpje.Prelude.{ℕ, Bool, true, false, List, [], ◌∷◌, ◌==◌, ◌&&◌, ◌||◌}

pub data EventType : Type 0 where
  heartbeat_ack_type hello_type guild_create_type guild_delete_type ready_type : EventType
  resumed_type close_type heartbeat_type reconnect_type invalidate_session_type : EventType
  other_type : ℕ → EventType

-- The payloads: a hello has its heartbeat interval, a ready its guilds, the guild events an id.
pub data Event : Type 0 where
  gateway_hello : ℕ → Event
  ready : List ℕ → Event
  guild_create guild_delete : ℕ → Event
  resumed gateway_close gateway_heartbeat_ack gateway_heartbeat : Event
  gateway_reconnect gateway_invalidate_session : Event
  other : ℕ → Event

abbrev pub kind : Event → EventType
kind (gateway_hello _) = hello_type
kind (ready _) = ready_type
kind (guild_create _) = guild_create_type
kind (guild_delete _) = guild_delete_type
kind resumed = resumed_type
kind gateway_close = close_type
kind gateway_heartbeat_ack = heartbeat_ack_type
kind gateway_heartbeat = heartbeat_type
kind gateway_reconnect = reconnect_type
kind gateway_invalidate_session = invalidate_session_type
kind (other n) = other_type n

-- `EventTypeFlags`: a set of flags, each named for an event type.
abbrev pub Flags : Type 0
Flags = List EventType

abbrev pub same : EventType → EventType → Bool
same heartbeat_ack_type heartbeat_ack_type = true
same hello_type hello_type = true
same guild_create_type guild_create_type = true
same guild_delete_type guild_delete_type = true
same ready_type ready_type = true
same resumed_type resumed_type = true
same close_type close_type = true
same heartbeat_type heartbeat_type = true
same reconnect_type reconnect_type = true
same invalidate_session_type invalidate_session_type = true
same (other_type n) (other_type m) = n == m
same _ _ = false

abbrev has_flag : EventType → Flags → Bool
has_flag f [] = false
has_flag f (g ∷ gs) = same f g || has_flag f gs

-- `self.contains(other)`: every flag of `other` is there.
abbrev pub contains : Flags → Flags → Bool
contains fs [] = true
contains fs (g ∷ gs) = has_flag g fs && contains fs gs

-- shard_reporter.rs and parsed_event.rs.
abbrev pub shard_reporter_events : Flags
shard_reporter_events =
    heartbeat_ack_type ∷ hello_type ∷ guild_create_type ∷ guild_delete_type ∷ ready_type
    ∷ resumed_type ∷ []

abbrev pub wanted_events : Flags
wanted_events =
    heartbeat_ack_type ∷ hello_type ∷ guild_create_type ∷ guild_delete_type ∷ ready_type
    ∷ resumed_type ∷ heartbeat_type ∷ reconnect_type ∷ invalidate_session_type ∷ []
