-- ===== src/Pluralkit/Fronts/Picks.antt =====
-- Which systems are polled next (crates/tulpje-mod-pluralkit/src/fronters/db.rs,
-- `get_systems_to_update`).
use tulpje.Prelude.{
  ℕ, Bool, true, false, ◌≤◌, Option, none, some, List, ◌≡◌, ◌⊎◌, refl, arith, All, length, take,
  filter,
}
use tulpje.Pluralkit.Database.Tables.{Tables, ModPkSystem}
use tulpje.Pluralkit.Database.Action.{World, Postgres, Ends}
use tulpje.Pluralkit.Database.Rules.{query-rule}
use tulpje.Pluralkit.Database.Systems.{sort_by}
use tulpje.Pluralkit.Database.Sorted.{In, IsSorted, sort_by-IsSorted}
use tulpje.Pluralkit.Database.Fronters.{front_updated, nulls_first, is_due, get_systems_to_update}

-- No later than another system: never recorded, or recorded no later.
abbrev pub no_fresher : Tables → ModPkSystem → ModPkSystem → Bool
no_fresher t a b = nulls_first (front_updated t a) (front_updated t b)

nulls_first_total : (a b : Option ℕ) → nulls_first a b ≡ false → nulls_first b a ≡ true
nulls_first_total none b h = cc
nulls_first_total (some a) none h = refl
nulls_first_total (some a) (some b) h = ground arith

nulls_first_trans :
    (a b c : Option ℕ) → nulls_first a b ≡ true → nulls_first b c ≡ true → nulls_first a c ≡ true
nulls_first_trans none b c h k = refl
nulls_first_trans (some a) none c h k = cc
nulls_first_trans (some a) (some b) none h k = cc
nulls_first_trans (some a) (some b) (some c) h k = ground arith

abbrev pub picks : ℕ → Tables → List ModPkSystem
picks now t = take 5 (sort_by (no_fresher t) (filter (is_due now t) t.systems))

pub picks_order :
    (now : ℕ) (t : Tables)
    → IsSorted (no_fresher t) (sort_by (no_fresher t) (filter (is_due now t) t.systems))
picks_order now t =
    sort_by-IsSorted (no_fresher t)
      (λ x y. nulls_first_total (front_updated t x) (front_updated t y))
      (λ x y z. nulls_first_trans (front_updated t x) (front_updated t y) (front_updated t z))
      (filter (is_due now t) t.systems)

-- The systems are due, at most five, and a due system is left out only where all five that are
-- taken are no fresher.
pub record Chosen (now : ℕ) (t : Tables) (systems : List ModPkSystem) : Type 0 where
  pub at_most : length systems ≤ 5
  pub due : (s : ModPkSystem) → In s systems → In s t.systems × (is_due now t s ≡ true)
  pub fair :
      (s : ModPkSystem)
      → In s t.systems
      → is_due now t s ≡ true
      → In s systems ⊎ ((length systems ≡ 5) × All (λ p. no_fresher t p s ≡ true) systems)

module _ {G : Type 0} (pg : Postgres G) (w : World G) where
  -- The tables stay, and an answer is what is picked at some time.
  abbrev pub Picked : Option (List ModPkSystem) → World G → Type 0
  Picked none w' = w'.tables ≡ w.tables
  Picked (some systems) w' = (w'.tables ≡ w.tables) × (now : ℕ) × (systems ≡ picks now w.tables)

  pub get_systems_to_update-Picked : Ends Picked (get_systems_to_update pg w)
  unfolding get_systems_to_update
  get_systems_to_update-Picked =
      query-rule Picked pg _ w (λ _. refl) (λ now _ _. refl)
        (λ now a t _ e. (ground arith, now, ground arith))

  abbrev pub Chooses : Option (List ModPkSystem) → World G → Type 0
  Chooses none w' = w'.tables ≡ w.tables
  Chooses (some systems) w' = (w'.tables ≡ w.tables) × (now : ℕ) × Chosen now w.tables systems
