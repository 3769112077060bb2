-- ===== src/Gateway/Saves.antt =====
-- What the shard reporter writes to redis (crates/tulpje-gateway/src/shard_reporter.rs).
use tulpje.Prelude.{ℕ, String, Option, none, some, List, [], ◌∷◌, ◌≡◌, refl, ◌⊎◌, inl, arith}
use tulpje.Gateway.ShardState.{ShardState}
use tulpje.Gateway.Reporter.{
  ReporterEvent, event, heartbeat_ack, Reporter, new, Input, handle_event, run,
}
use tulpje.Gateway.Guilds.{Returns, Returns-mono, run_rest, Measured, AllMeasured}

-- The row in redis is the reporter's state, or nothing was written and the state has not changed.
abbrev pub Synced : ShardState → Reporter → Type 0
Synced initial r =
    ((r.saved ≡ []) × (r.shard ≡ initial)) ⊎ ((old : List ShardState) × (r.saved ≡ r.shard ∷ old))

abbrev pub AllWritten : List Input → Type 0
AllWritten [] = Unit {0}
AllWritten (i ∷ is) = (i.redis ≡ none) × AllWritten is

handle_event-Synced :
    (initial : ShardState) (now : ℕ) (redis : Option String) (e : ReporterEvent) (r : Reporter)
    → redis ≡ none
    → Measured e
    → Synced initial r
    → Returns (λ d. Synced initial d.0) (handle_event now redis e r)
unfolding handle_event
handle_event-Synced initial now none (heartbeat_ack e latency) r w m s = ground arith
handle_event-Synced initial now none (event e) r w m s = ground arith
handle_event-Synced initial now (some x) e r w m s = ground arith

run-Synced :
    (initial : ShardState) (is : List Input) (r : Reporter)
    → AllWritten is
    → AllMeasured is
    → Synced initial r
    → Returns (Synced initial) (run is r)
unfolding run
run-Synced initial [] r w m s = s
run-Synced initial (i ∷ is) r w m s =
    run_rest is (Synced initial) (handle_event i.now i.redis i.evt r) (
      Returns-mono (λ d h. run-Synced initial is d.0 w.1 m.1 h) (handle_event i.now i.redis i.evt r)
        (handle_event-Synced initial i.now i.redis i.evt r w.0 m.0 s))

-- While redis accepts every write, the row of the shard is the reporter's own state after every
-- history of events; before the first write that state is still the initial one.
pub run-row :
    (is : List Input) (shard_id now : ℕ)
    → AllWritten is
    → AllMeasured is
    → Returns (Synced (new shard_id now).shard) (run is (new shard_id now))
unfolding new
run-row is shard_id now w m =
    run-Synced (new shard_id now).shard is (new shard_id now) w m (inl (refl, refl))

-- The shard's state and guilds in memory after an event do not depend on the answer of redis.
pub handle_event-memory :
    (now : ℕ) (a b : Option String) (e : ReporterEvent) (r : Reporter)
    → Measured e
    → Returns
        (λ d.
          Returns
            (λ d'. (d.0.shard ≡ d'.0.shard) × (d.0.guild_ids ≡ d'.0.guild_ids))
            (handle_event now b e r))
        (handle_event now a e r)
unfolding handle_event
handle_event-memory now a b (heartbeat_ack e latency) r m = ground arith
handle_event-memory now none none (event e) r m = ground arith
handle_event-memory now none (some y) (event e) r m = ground arith
handle_event-memory now (some x) none (event e) r m = ground arith
handle_event-memory now (some x) (some y) (event e) r m = ground arith
