-- ===== src/Gateway/ShardState.antt =====
-- The state of a shard as it is stored (crates/tulpje-common/src/shard_state.rs). Times are seconds
-- since the epoch, `latency` and `heartbeat_interval` milliseconds.
use tulpje.Prelude.{ℕ, ◌+◌, ◌-◌, ◌%◌, ◌^◌, ◌≤◌, ◌<◌, Bool, true, false, ◌&&◌, ◌≡◌, ◌↔◌, arith, ltb}

pub record ShardState : Type 0 where
  pub shard_id : ℕ
  pub guild_count : ℕ
  pub up : Bool
  pub disconnect_count : ℕ
  pub latency : ℕ
  pub heartbeat_interval : ℕ
  pub last_started : ℕ
  pub last_heartbeat : ℕ
  pub last_connection : ℕ

-- `now` is the clock's reading.
unfoldable pub new : ℕ → ℕ → ShardState
new shard_id now = record {
  shard_id = shard_id;
  guild_count = 0;
  up = false;
  disconnect_count = 0;
  latency = 0;
  heartbeat_interval = 0;
  last_started = now;
  last_heartbeat = 0;
  last_connection = 0;
}

-- u64 subtraction as a release build computes it.
abbrev pub sub64 : ℕ → ℕ → ℕ
sub64 a b = (a + 2 ^ 64 - b) % 2 ^ 64

-- `wiggle` is the float expression `((interval / 1000.) * 1.2) as u64`.
unfoldable pub is_up : (ℕ → ℕ) → ℕ → ShardState → Bool
is_up wiggle now s = s.up && ltb (sub64 now s.last_heartbeat) (wiggle s.heartbeat_interval)

-- A shard counts as up exactly if it is marked so and its last heartbeat is not in the future and
-- less than the stretched interval ago; times and the interval are below 2 ^ 63.
is_up_iff :
    (wiggle : ℕ → ℕ) (now : ℕ) (s : ShardState)
    → now < 2 ^ 63
    → s.last_heartbeat < 2 ^ 63
    → wiggle s.heartbeat_interval ≤ 2 ^ 63
    → (is_up wiggle now s ≡ true) ↔ (
        (s.up ≡ true)
        × (s.last_heartbeat ≤ now)
        × (now < s.last_heartbeat + wiggle s.heartbeat_interval))
unfolding is_up
is_up_iff wiggle now s a b c = ground arith
