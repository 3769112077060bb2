-- ===== src/Tests/Gateway.antt =====
-- The gateway's theorems (crates/tulpje-gateway) at concrete inputs.
use tulpje.Prelude.{
  ℕ, Bool, true, false, none, some, List, [], ◌∷◌, ◌≡◌, refl, ◌*◌, ◌/◌, arith, if◌then◌else◌,
}
use tulpje.Gateway.Events.{
  EventType, guild_create_type, ready, guild_create, guild_delete, gateway_close,
  gateway_heartbeat_ack,
}
use tulpje.Gateway.ShardState.{ShardState}
use tulpje.Gateway.Reporter
use tulpje.Gateway.Reporter.{
  ReporterEvent, event, heartbeat_ack, Reporter, Input, handle_event, member,
}
use tulpje.Gateway.Guilds.{Returns, Counts, tracked_all, run-tracks}
use tulpje.Gateway.Saves.{Synced, run-row, handle_event-memory}
use tulpje.Gateway.ParsedEvent.{
  Decoder, dispatch, close, text, ParsedEvent, ok, from_message, from_event, is_close,
}
use tulpje.Gateway.Manager
use tulpje.Gateway.Manager.{
  RunState, running, stopping, stopped, DiscordEvent, done, fail, capacity, handle_message,
  continue, break, turn, try_send,
}
use tulpje.Gateway.Forwarding.{is_forwardable, packed, handle_message-forwards, full_reporter-loses}

abbrev beating : ShardState
beating = record {
  shard_id = 0;
  guild_count = 0;
  up = true;
  disconnect_count = 0;
  latency = 40;
  heartbeat_interval = 41250;
  last_started = 0;
  last_heartbeat = 1000;
  last_connection = 0;
}

-- The stretched interval in whole seconds.
abbrev stretch : ℕ → ℕ
stretch n = n * 12 / 10000

abbrev input : ReporterEvent → Input
input e = record { now = 5; redis = none; evt = e }

abbrev inputs : List Input
inputs =
    input (event (ready (3 ∷ 4 ∷ 3 ∷ [])))
    ∷ input (event (guild_create 9))
    ∷ input (event (guild_delete 4))
    ∷ input (heartbeat_ack gateway_heartbeat_ack (40 ∷ []))
    ∷ []

run-tracks_example :
    Returns
      (λ r. Counts r × ((g : ℕ) → member g r.guild_ids ≡ tracked_all g inputs false))
      (Reporter.run inputs (Reporter.new 0 1))
run-tracks_example = run-tracks inputs 0 1 (tt, (tt, (tt, (tt, tt))))

run-row_example : Returns (Synced (Reporter.new 0 1).shard) (Reporter.run inputs (Reporter.new 0 1))
run-row_example = run-row inputs 0 1 (refl, (refl, (refl, (refl, tt)))) (tt, (tt, (tt, (tt, tt))))

handle_event-memory_example :
    Returns
      (λ d.
        Returns
          (λ d'. (d.0.shard ≡ d'.0.shard) × (d.0.guild_ids ≡ d'.0.guild_ids))
          (handle_event 5 (some "timed out") (event (guild_create 9)) (Reporter.new 0 1)))
      (handle_event 5 none (event (guild_create 9)) (Reporter.new 0 1))
handle_event-memory_example =
    handle_event-memory 5 none (some "timed out") (event (guild_create 9)) (Reporter.new 0 1) tt

-- Every text is the dispatch of a created guild; a close has no flags.
abbrev type_flags : EventType → List EventType
type_flags guild_create_type = guild_create_type ∷ []
type_flags _ = []

abbrev decoder : Decoder
decoder = record {
  header = λ t. some (0, some "GUILD_CREATE");
  opcode = λ n. some dispatch;
  header_flags = λ o n. some (guild_create_type ∷ []);
  deserialize = λ t. some (guild_create 9);
  type_flags = type_flags;
  type_name = λ k. some "GUILD_CREATE";
}

abbrev accepts : DiscordEvent → Bool
accepts e = true

abbrev idle : Manager.Manager
idle = record {
  state = running;
  shard_id = 0;
  pending = [];
  reporter_open = true;
  forwarded = [];
  amqp_open = true;
  close_frames = 0;
}

program : Unit {0}
unfolding handle_message from_message from_event is_close try_send Reporter.from_event
program = tt

accepted : (handle_message decoder accepts 1 [] (text "{}") idle).1 ≡ done false
unfolding program
accepted = refl

handle_message-forwards_example :
    (handle_message decoder accepts 1 [] (text "{}") idle).0.forwarded
    ≡ (if is_forwardable decoder "{}" then packed decoder accepts 1 [] idle "{}" ∷ [] else [])
handle_message-forwards_example =
    handle_message-forwards decoder accepts 1 [] idle "{}" false accepted

abbrev rejects : DiscordEvent → Bool
rejects e = false

rejected : (handle_message decoder rejects 1 [] (text "{}") idle).1 ≡ fail "error serializing event"
unfolding program
rejected = refl

abbrev created : ReporterEvent
created = event (guild_create 1)

abbrev full : Manager.Manager
full = record idle {
  state = stopping;
  pending =
      created ∷ created ∷ created ∷ created ∷ created ∷ created ∷ created ∷ created ∷ created
      ∷ created ∷ [];
}

-- The close frame that should end a manager which is stopping.
abbrev closing : ParsedEvent
closing = record {
  forward = false;
  name = some "GUILD_CREATE";
  event = some gateway_close;
  body = none;
}

closes : from_message decoder close ≡ ok closing
unfolding program
closes = refl

full_reporter-loses_example :
    ((handle_message decoder accepts 1 [] close full).0 ≡ full)
    × (turn decoder accepts (Manager.message 1 [] close) full ≡ continue full)
unfolding Reporter.from_event
full_reporter-loses_example =
    full_reporter-loses decoder accepts 1 [] full close closing gateway_close closes refl refl refl
      (omega arith)
