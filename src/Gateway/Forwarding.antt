-- ===== src/Gateway/Forwarding.antt =====
-- What the shard manager forwards and when it stops
-- (crates/tulpje-gateway/src/{shard_manager,parsed_event}.rs).
use tulpje.Prelude.{
  ℕ, All, ◌≤◌, String, Bool, true, false, is_some, length, length-append, ◌<◌, Option, none, some,
  List, [], ◌∷◌, ◌≡◌, refl, arith, ◌&&◌, if◌then◌else◌,
}
use tulpje.Gateway.Events.{Event, gateway_close, contains, shard_reporter_events}
use tulpje.Gateway.ParsedEvent.{
  Decoder, OpCode, Message, close, text, ParsedEvent, ok, is_dispatch, from_message, is_close,
}
use tulpje.Gateway.Manager.{
  stopping, stopped, DiscordEvent, Manager, Reply, done, fail, capacity, try_send, handle_message,
  Input, start, handles_gone, message, continue, break, turn, run,
}
use tulpje.Gateway.Reporter.{ReporterEvent, event, from_event, reporter_kind}

-- A text whose header is known: opcode and event type.
abbrev known_flags : Decoder → Option String → Option OpCode → Bool
known_flags d name none = false
known_flags d name (some op) = is_dispatch op && is_some (d.header_flags op name)

-- A text that is to be forwarded: a dispatch of an event type that twilight knows.
abbrev pub is_forwardable : Decoder → String → Bool
is_forwardable d t = elim (d.header t) [ none ↦ false | some h ↦ known_flags d h.1 (d.opcode h.0) ]

-- With room in an open queue the reporter's handle accepts every event.
try_send_ok :
    (d : Decoder) (e : ReporterEvent) (m : Manager)
    → m.reporter_open ≡ true
    → length m.pending < capacity
    → (try_send d e m).1 ≡ none
unfolding try_send
try_send_ok d e m o f = ground arith

forwarded-try_send :
    (d : Decoder) (e : ReporterEvent) (m : Manager) → (try_send d e m).0.forwarded ≡ m.forwarded
unfolding try_send
forwarded-try_send d e m = ground arith

try_send-capacity :
    (d : Decoder) (e : ReporterEvent) (m : Manager)
    → length m.pending ≤ capacity
    → length (try_send d e m).0.pending ≤ capacity
unfolding try_send
try_send-capacity d e m h = ground (arith, length-append m.pending (e ∷ []))

module _ (d : Decoder) (serialises : DiscordEvent → Bool) (uuid : ℕ) (latency : List ℕ)
    (m : Manager) where
  abbrev pub packed : String → DiscordEvent
  packed t = record { uuid = uuid; shard = m.shard_id; payload = t }

  abbrev pub after : Message → Manager × Reply
  after msg = handle_message d serialises uuid latency msg m

  -- A message that is handled without an error is forwarded once, as it came, if it is a dispatch of
  -- a known event type, and not at all otherwise.
  pub handle_message-forwards :
      (t : String) (stop : Bool)
      → (after (text t)).1 ≡ done stop
      → (after (text t)).0.forwarded
        ≡ (if is_forwardable d t then packed t ∷ m.forwarded else m.forwarded)
  unfolding handle_message from_message try_send
  handle_message-forwards t stop h = ground arith

  -- Nothing is forwarded by a message that ends in an error, nor by a close frame.
  handle_message-fails :
      (msg : Message) (e : String) → (after msg).1 ≡ fail e → (after msg).0.forwarded ≡ m.forwarded
  unfolding handle_message from_message try_send
  handle_message-fails close e h = ground arith
  handle_message-fails (text t) e h = ground arith

  -- The reporter's queue never holds more than its capacity.
  handle_message-capacity :
      (msg : Message) → length m.pending ≤ capacity → length (after msg).0.pending ≤ capacity
  unfolding handle_message from_message
  handle_message-capacity close h =
      ground (arith, try_send-capacity d (from_event latency gateway_close) m h)
  handle_message-capacity (text t) h = grind (arith, try_send-capacity)

  -- Where the reporter's queue is full, a message whose event the reporter wants is lost: nothing is
  -- forwarded, the call fails, and the loop goes on, also after the close frame of a shutdown.
  pub full_reporter-loses :
      (msg : Message) (p : ParsedEvent) (e : Event)
      → from_message d msg ≡ ok p
      → p.event ≡ some e
      → contains shard_reporter_events (d.type_flags (reporter_kind (from_event latency e))) ≡ true
      → m.reporter_open ≡ true
      → capacity ≤ length m.pending
      → ((after msg).0 ≡ m) × (turn d serialises (message uuid latency msg) m ≡ continue m)
  unfolding handle_message try_send turn
  full_reporter-loses msg p e h k c o f = ground arith

-- A manager that is stopping ends with the close frame, if the reporter can take the event.
close-breaks :
    (d : Decoder) (serialises : DiscordEvent → Bool) (uuid : ℕ) (latency : List ℕ) (m : Manager)
    → m.state ≡ stopping
    → m.reporter_open ≡ true
    → length m.pending < capacity
    → (m' : Manager) × (turn d serialises (message uuid latency close) m ≡ break m')
      × (m'.forwarded ≡ m.forwarded)
unfolding turn handle_message from_message is_close from_event
close-breaks d serialises uuid latency m s o f = (
  (try_send d (event gateway_close) m).0,
  ground (arith, try_send_ok d (event gateway_close) m o f),
  forwarded-try_send d (event gateway_close) m,
)

abbrev pub IsIdle : Input → Type 0
IsIdle start = ⊥
IsIdle handles_gone = ⊥
IsIdle _ = Unit {0}

turn-stopped :
    (d : Decoder) (serialises : DiscordEvent → Bool) (i : Input) (m : Manager)
    → m.state ≡ stopped
    → IsIdle i
    → turn d serialises i m ≡ continue m
unfolding turn
turn-stopped d serialises i m s n = ground arith

-- A manager that was not started reads no message of the gateway, closes nothing and does not end,
-- whatever comes in but a start, while someone
-- can still send it one.
run-stopped :
    (d : Decoder) (serialises : DiscordEvent → Bool) (is : List Input) (m : Manager)
    → m.state ≡ stopped
    → All IsIdle is
    → run d serialises is m ≡ continue m
unfolding run
run-stopped d serialises [] m s n = refl
run-stopped d serialises (i ∷ is) m s n =
    rw (turn-stopped d serialises i m s n.0, run) (run-stopped d serialises is m s n.1)
