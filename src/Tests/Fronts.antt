-- ===== src/Tests/Fronts.antt =====
-- The theorems about fronts and follows (crates/tulpje-mod-pluralkit) at a concrete outside.
use tulpje.Prelude.{
  ℕ, false, none, some, List, [], ◌∷◌, ◌≡◌, refl, arith, map, filter, length, Text, text,
}
use tulpje.Pluralkit.Util.{Member, get_member_name}
use tulpje.Pluralkit.Database.Tables.{Tables, ModPkSystem}
use tulpje.Pluralkit.Database.Action.{World, Ends}
use tulpje.Pluralkit.Database.Systems.{is_tracked}
use tulpje.Pluralkit.Database.Fronters.{is_due}
use tulpje.Pluralkit.Fronts.Remote.{
  Remote, struct, FrontAnswer, front_is, front_error, front_failed, system_is, system_failed,
}
use tulpje.Pluralkit.Fronts.Shared.{read_front, update_system_fronters}
use tulpje.Pluralkit.Fronts.Channels.{update_fronter_channels}
use tulpje.Pluralkit.Fronts.Tasks.{process_system}
use tulpje.Pluralkit.Fronts.Limits.{IsBounded}
use tulpje.Pluralkit.Fronts.Bounded.{
  follow, unfollow, fronts, systems, run_jobs, run_jobs-IsBounded,
}
use tulpje.Pluralkit.Fronts.Picks.{picks}
use tulpje.Pluralkit.Fronts.Starved.{is_new, Starves, Asks, front_ticks, front_ticks-Starves}
use tulpje.Pluralkit.Fronts.Polled.{Tells, update_system_fronters-Tells}
use tulpje.Pluralkit.Fronts.Unfollowed.{Ended, notice_of, process_system-Ended}
use tulpje.Pluralkit.Fronts.Discord.{voice}
use tulpje.Pluralkit.Fronts.Reconciled.{Distinguished, Reconciles}
use tulpje.Pluralkit.Fronts.Category.{update_fronter_channels-Reconciles}
use tulpje.Tests.FrontSample.{
  Slots, system_at, chan, sample_remote, sample_logged, sample_requests, sample_hashes,
  sample_documented,
}

-- Guild 1 follows system 5 in channel 8, guild 2 in channel 9, which is gone.
abbrev sample_tables : Tables
sample_tables = record {
  guilds =
      record { guild_id = 1; created_at = 0; updated_at = 0; deleted_at = none }
      ∷ record { guild_id = 2; created_at = 0; updated_at = 0; deleted_at = none }
      ∷ [];
  systems = system_at 5 ∷ system_at 6 ∷ [];
  guild_settings = [];
  categories = [];
  fronts = [];
  channels = record { guild_id = 1; channel_id = 8 } ∷ record { guild_id = 2; channel_id = 9 } ∷ [];
  follows =
      record { guild_id = 1; system_uuid = 5 }
      ∷ record { guild_id = 1; system_uuid = 6 }
      ∷ record { guild_id = 2; system_uuid = 5 }
      ∷ [];
}

abbrev member : ℕ → Text → Member
member u name = record { uuid = u; name = name; display_name = none; color = none }

abbrev ann : Text
ann = text "Ann"

abbrev bo : Text
bo = text "Bo"

-- The category 3 shows Bo in slot 0.
abbrev sample_slots : Slots
sample_slots = record { size = 1; at = λ i. some (voice 3 bo (some 0)); messages = []; asked = [] }

abbrev sample_world : World Slots
sample_world = record { tables = sample_tables; outside = sample_slots; panicked = false }

abbrev two_members : List Member
two_members = member 21 ann ∷ member 22 bo ∷ []

abbrev ann_fronts : FrontAnswer
ann_fronts = front_is (some (record { members = struct (member 21 ann) ∷ []; timestamp = some 7 }))

ann_front : Remote Slots
ann_front = sample_remote ann_fronts system_failed

sample_IsBounded : IsBounded sample_tables.follows
sample_IsBounded = record { limited = λ g. ground arith; once = λ g s. ground arith }

run_jobs-IsBounded_example :
    IsBounded
      (run_jobs
        (sample_remote ann_fronts (system_is (system_at 6)))
        (fronts ∷ follow 2 (text "abcde") ∷ systems ∷ unfollow 1 (text "abcde") ∷ [])
        sample_world).tables.follows
run_jobs-IsBounded_example =
    run_jobs-IsBounded (sample_remote ann_fronts (system_is (system_at 6)))
      (fronts ∷ follow 2 (text "abcde") ∷ systems ∷ unfollow 1 (text "abcde") ∷ []) sample_world
      sample_IsBounded

always_fails : Remote Slots
always_fails = sample_remote front_failed system_failed

-- Guild 1 follows six systems; only the front of system 6 has been stored, long ago.
abbrev crowd : World Slots
crowd = record {
  tables = record sample_tables {
    systems = system_at 6 ∷ map system_at (1 ∷ 2 ∷ 3 ∷ 4 ∷ 5 ∷ []);
    fronts = record { system_uuid = 6; fronters = []; updated_at = 0 } ∷ [];
    follows = map (λ u. record { guild_id = 1; system_uuid = u }) (1 ∷ 2 ∷ 3 ∷ 4 ∷ 5 ∷ 6 ∷ []);
  };
  outside = sample_slots;
  panicked = false;
}

crowd_Starves : Starves always_fails (λ g. g.asked) crowd.tables
unfolding always_fails sample_remote read_front is_tracked
crowd_Starves = record {
  crowded =
      let e : length (filter (is_new crowd.tables) crowd.tables.systems) ≡ 5 = refl in
      omega (arith, e);
  failing = λ s m n g. refl;
}

front_ticks-Starves_example :
    Asks always_fails (λ g. g.asked) crowd (front_ticks always_fails 100 crowd)
unfolding always_fails
front_ticks-Starves_example =
    front_ticks-Starves always_fails (λ g. g.asked) (sample_requests front_failed system_failed) 100
      crowd crowd_Starves

-- System 6 is due, and left out.
crowd_left_out :
    map (λ (s : ModPkSystem). s.uuid) (picks 1000000000 crowd.tables) ≡ 1 ∷ 2 ∷ 3 ∷ 4 ∷ 5 ∷ []
unfolding is_due is_tracked
crowd_left_out = refl

update_system_fronters-Tells_example :
    Ends
      (Tells ann_front (system_at 5) sample_world)
      (update_system_fronters ann_front (system_at 5) sample_world)
update_system_fronters-Tells_example =
    update_system_fronters-Tells ann_front (system_at 5) sample_world

process_system-Ended_example :
    Ends
      (Ended
        (sample_remote (front_error 30004) system_failed)
        (λ g. g.messages)
        (sample_logged (front_error 30004) system_failed)
        (system_at 5)
        (notice_of
          (sample_remote (front_error 30004) system_failed)
          (λ g. g.messages)
          (sample_logged (front_error 30004) system_failed)
          (system_at 5)
          false)
        sample_world)
      (process_system (sample_remote (front_error 30004) system_failed) (system_at 5) sample_world)
unfolding sample_remote read_front
process_system-Ended_example =
    process_system-Ended (sample_remote (front_error 30004) system_failed) (λ g. g.messages)
      (sample_logged (front_error 30004) system_failed) (system_at 5) sample_world refl false refl

sample_Distinguished : Distinguished ann_front 1 chan 3 sample_slots
sample_Distinguished = record {
  named_channels = λ i l e p. (bo, ground arith);
  apart = λ i j l n k e p m f q r. ground arith;
}

update_fronter_channels-Reconciles_example :
    Ends
      (Reconciles ann_front 1 chan 3 (ann ∷ bo ∷ []) sample_world)
      (update_fronter_channels ann_front 1 3 two_members sample_world)
unfolding ann_front get_member_name
update_fronter_channels-Reconciles_example =
    update_fronter_channels-Reconciles ann_front 1 chan 3
      (sample_documented ann_fronts system_failed) (sample_hashes ann_fronts system_failed)
      sample_world sample_Distinguished two_members (omega arith)
