-- ===== src/Pluralkit/Fronts/Recorded.antt =====
-- What a system's poll records (crates/tulpje-mod-pluralkit/src/fronters/shared.rs,
-- `update_system_fronters`).
use tulpje.Prelude.{
  ℕ, Option, none, some, List, [], ◌≡◌, ◌≢◌, refl, arith, inl, inr, Option-cases, ◌==◌, same,
}
use tulpje.Pluralkit.Database.Tables.{Tables, ModPkSystemFronters}
use tulpje.Pluralkit.Database.Systems.{upsert}
use tulpje.Pluralkit.Database.Upserts.{changed_row, find-upsert_same, find-upsert_other}
use tulpje.Pluralkit.Database.Fronters.{front_of, touch_front, write_front}

-- Nothing but the front of one system differs.
pub record Others (u : ℕ) (t t' : Tables) : Type 0 where
  pub tables : t' ≡ record t { fronts = t'.fronts }
  pub fronts : (v : ℕ) → v ≢ u → front_of v t' ≡ front_of v t

-- The system's row has these fronters and this time.
pub record Row (u : ℕ) (t t' : Tables) (new : List ℕ) (now : ℕ) : Type 0 where
  pub found : ModPkSystemFronters
  pub row : front_of u t' ≡ some found
  pub fronters : found.fronters ≡ new
  pub time : found.updated_at ≡ now
  pub others : Others u t t'

abbrev pub saved : Option ModPkSystemFronters → List ℕ
saved none = []
saved (some f) = f.fronters

module _ (u : ℕ) (ch : ModPkSystemFronters → ModPkSystemFronters) (new : ModPkSystemFronters)
    (same_system : (f : ModPkSystemFronters) → (ch f).system_uuid ≡ f.system_uuid)
    (new_system : new.system_uuid ≡ u) where
  upsert-Row :
      (t t' : Tables) (fronters : List ℕ) (now : ℕ)
      → t' ≡ record t { fronts = t'.fronts }
      → t'.fronts ≡ upsert (λ f. f.system_uuid == u) ch new t.fronts
      → (changed_row ch new (front_of u t)).fronters ≡ fronters
      → (changed_row ch new (front_of u t)).updated_at ≡ now
      → Row u t t' fronters now
  upsert-Row t t' fronters now same fs e f = record {
    found = changed_row ch new (front_of u t);
    row = rw fs (
        find-upsert_same (λ (f : ModPkSystemFronters). f.system_uuid) u ch new same_system
          new_system t.fronts);
    fronters = e;
    time = f;
    others = record {
      tables = same;
      fronts = λ v n. rw fs (
          find-upsert_other (λ (f : ModPkSystemFronters). f.system_uuid) u ch new same_system
            new_system v t.fronts n);
    };
  }

pub touch_front-Row :
    (u now : ℕ) (t t' : Tables) (a : Unit {0})
    → touch_front u now t ≡ some (a, t')
    → Row u t t' (saved (front_of u t)) now
touch_front-Row u now t t' a e = elim (Option-cases (front_of u t)) [
  | inl n ↦
      upsert-Row u ch new (λ f. refl) refl t t' _ now (ground arith) (ground arith) (rw n refl)
        (rw n refl)
  | inr (f, n) ↦
      upsert-Row u ch new (λ f. refl) refl t t' _ now (ground arith) (ground arith) (rw n refl)
        (rw n refl)
]
  where
    new : ModPkSystemFronters
    new = record { system_uuid = u; fronters = []; updated_at = now }

    ch : ModPkSystemFronters → ModPkSystemFronters
    ch f = record f { updated_at = now }

pub write_front-Row :
    (u : ℕ) (fs : List ℕ) (now : ℕ) (t t' : Tables) (a : Unit {0})
    → write_front u fs now t ≡ some (a, t')
    → Row u t t' fs now
write_front-Row u fs now t t' a e = elim (Option-cases (front_of u t)) [
  | inl n ↦
      upsert-Row u ch new (λ f. refl) refl t t' _ now (ground arith) (ground arith) (rw n refl)
        (rw n refl)
  | inr (f, n) ↦
      upsert-Row u ch new (λ f. refl) refl t t' _ now (ground arith) (ground arith) (rw n refl)
        (rw n refl)
]
  where
    new : ModPkSystemFronters
    new = record { system_uuid = u; fronters = fs; updated_at = now }

    ch : ModPkSystemFronters → ModPkSystemFronters
    ch f = record f { fronters = fs; updated_at = now }
