-- ===== src/Gateway/Reporter.antt =====
-- The shard reporter (crates/tulpje-gateway/src/shard_reporter.rs). `guild_ids` is the hash set as a
-- list; a handler takes the clock's reading and the answer of redis to a write.
use tulpje.Prelude.{
  ℕ, ◌+◌, ◌%◌, ◌^◌, String, Bool, true, false, Option, none, some, List, [], ◌∷◌, length, ltb, ◌==◌,
  ◌||◌, if◌then◌else◌,
}
use tulpje.Gateway.Events.{
  Event, gateway_hello, ready, guild_create, guild_delete, resumed, gateway_close,
  gateway_heartbeat_ack, EventType, kind,
}
use tulpje.Gateway.ShardState
use tulpje.Gateway.ShardState.{ShardState}

-- The latencies are those of `Latency::recent`, in milliseconds.
pub data ReporterEvent : Type 0 where
  event : Event → ReporterEvent
  heartbeat_ack : Event → List ℕ → ReporterEvent

unfoldable pub from_event : List ℕ → Event → ReporterEvent
from_event latency gateway_heartbeat_ack = heartbeat_ack gateway_heartbeat_ack latency
from_event latency evt = event evt

abbrev pub reporter_kind : ReporterEvent → EventType
reporter_kind (event e) = kind e
reporter_kind (heartbeat_ack e _) = kind e

-- `saved` are the states written to redis, newest first.
pub record Reporter : Type 0 where
  pub guild_ids : List ℕ
  pub shard : ShardState
  pub saved : List ShardState

unfoldable pub new : ℕ → ℕ → Reporter
unfolding ShardState.new
new shard_id now = record { guild_ids = []; shard = ShardState.new shard_id now; saved = [] }

pub data Outcome : Type 0 where
  ok : Outcome
  err : String → Outcome

abbrev pub member : ℕ → List ℕ → Bool
member g [] = false
member g (x ∷ xs) = (g == x) || member g xs

-- `HashSet::insert`, `extend` and `remove`.
abbrev pub insert : ℕ → List ℕ → List ℕ
insert g xs = if member g xs then xs else g ∷ xs

abbrev pub extend : List ℕ → List ℕ → List ℕ
extend [] xs = xs
extend (g ∷ gs) xs = extend gs (insert g xs)

abbrev pub remove : ℕ → List ℕ → List ℕ
remove g [] = []
remove g (x ∷ xs) = let rest = remove g xs in if g == x then rest else x ∷ rest

-- The row `tulpje:shard_status` of the shard is written, or redis answers with an error.
unfoldable pub save_shard : Option String → Reporter → Reporter × Outcome
save_shard none r = (record r { saved = r.shard ∷ r.saved }, ok)
save_shard (some e) r = (r, err e)

-- The conversion to u32 is the first thing that can fail.
unfoldable pub helloed : ℕ → Option String → ℕ → Reporter → Reporter × Outcome
unfolding save_shard
helloed now redis interval r =
    if ltb interval (2 ^ 32)
    then save_shard redis (record r {
      shard = record (r.shard) { heartbeat_interval = interval; last_connection = now };
    })
    else (r, err "out of range integral type conversion attempted")

recount : Reporter → Reporter
recount r = record r { shard = record (r.shard) { guild_count = length r.guild_ids } }

unfoldable pub readied : Option String → List ℕ → Reporter → Reporter × Outcome
unfolding save_shard recount
readied redis guilds r = save_shard redis (
    recount
      (record r { guild_ids = extend guilds r.guild_ids; shard = record (r.shard) { up = true } }))

unfoldable pub resumed_shard : ℕ → Option String → Reporter → Reporter × Outcome
unfolding save_shard
resumed_shard now redis r =
    save_shard redis (record r { shard = record (r.shard) { up = true; last_connection = now } })

unfoldable pub guild_created : Option String → ℕ → Reporter → Reporter × Outcome
unfolding save_shard recount
guild_created redis g r =
    if member g r.guild_ids
    then (r, ok)
    else save_shard redis (recount (record r { guild_ids = g ∷ r.guild_ids }))

unfoldable pub guild_deleted : Option String → ℕ → Reporter → Reporter × Outcome
unfolding save_shard recount
guild_deleted redis g r =
    if member g r.guild_ids
    then save_shard redis (recount (record r { guild_ids = remove g r.guild_ids }))
    else (r, ok)

unfoldable pub socket_closed : Option String → Reporter → Reporter × Outcome
unfolding save_shard
socket_closed redis r = save_shard redis (record r {
  shard = record (r.shard) {
    up = false;
    disconnect_count = (r.shard.disconnect_count + 1) % 2 ^ 64;
  };
})

-- `none` is the panic on an acknowledgement without a latency measurement.
unfoldable pub heartbeated : ℕ → Option String → List ℕ → Reporter → Option (Reporter × Outcome)
unfolding save_shard
heartbeated now redis [] r = none
heartbeated now redis (l ∷ _) r = some (
    save_shard redis
      (record r { shard = record (r.shard) { up = true; last_heartbeat = now; latency = l } }))

handle_plain : ℕ → Option String → Event → Reporter → Reporter × Outcome
unfolding helloed readied resumed_shard guild_created guild_deleted socket_closed
handle_plain now redis (gateway_hello interval) r = helloed now redis interval r
handle_plain now redis (ready guilds) r = readied redis guilds r
handle_plain now redis (guild_create g) r = guild_created redis g r
handle_plain now redis (guild_delete g) r = guild_deleted redis g r
handle_plain now redis resumed r = resumed_shard now redis r
handle_plain now redis gateway_close r = socket_closed redis r
handle_plain now redis _ r = (r, ok)

unfoldable pub handle_event :
    ℕ → Option String → ReporterEvent → Reporter → Option (Reporter × Outcome)
unfolding handle_plain heartbeated
handle_event now redis (event e) r = some (handle_plain now redis e r)
handle_event now redis (heartbeat_ack _ latency) r = heartbeated now redis latency r

-- One event as the loop receives it: the clock, the answer of redis, the event.
pub record Input : Type 0 where
  pub now : ℕ
  pub redis : Option String
  pub evt : ReporterEvent

-- The loop of `ShardReporter::run` over the events that it receives. An error is logged, and the
-- loop goes on; `none` is a panic.
unfoldable pub run : List Input → Reporter → Option Reporter
run [] r = some r
run (i ∷ is) r = elim (handle_event i.now i.redis i.evt r) [
  | none ↦ none
  | some done ↦ run is done.0
]
