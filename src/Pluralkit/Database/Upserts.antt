-- ===== src/Pluralkit/Database/Upserts.antt =====
-- What a lookup finds after an `INSERT ... ON CONFLICT DO UPDATE`
-- (crates/tulpje-mod-pluralkit/src/db.rs, fronters/db.rs).
use tulpje.Prelude.{
  ℕ, Option, none, some, List, [], ◌∷◌, ◌≡◌, ◌≢◌, arith, ◌==◌, any, true, Bool-cases, inl, inr,
}
use tulpje.Pluralkit.Database.Systems.{find, upsert}

abbrev pub changed_row : {A : Type 0} → (A → A) → A → Option A → A
changed_row change new none = new
changed_row change new (some x) = change x

module _ {A : Type 0} (key : A → ℕ) (u : ℕ) (change : A → A) (new : A)
    (same_key : (x : A) → key (change x) ≡ key x) (new_key : key new ≡ u) where
  pub find-upsert_same :
      (xs : List A)
      → find (λ x. key x == u) (upsert (λ x. key x == u) change new xs)
        ≡ some (changed_row change new (find (λ x. key x == u) xs))
  find-upsert_same [] = ground arith
  find-upsert_same (x ∷ xs) = ground (arith, find-upsert_same xs, same_key x)

  pub find-upsert_other :
      (v : ℕ) (xs : List A)
      → v ≢ u
      → find (λ x. key x == v) (upsert (λ x. key x == u) change new xs) ≡ find (λ x. key x == v) xs
  find-upsert_other v [] n = ground arith
  find-upsert_other v (x ∷ xs) n = ground (arith, find-upsert_other v xs n, same_key x)

  pub any-upsert :
      (xs : List A) → any (λ x. key x == u) (upsert (λ x. key x == u) change new xs) ≡ true
  any-upsert [] = ground arith
  any-upsert (x ∷ xs) = ground (arith, any-upsert xs, same_key x)

module _ {A : Type 0} (key : A → ℕ) (u : ℕ) where
  pub find-key : (xs : List A) (x : A) → find (λ x. key x == u) xs ≡ some x → key x ≡ u
  find-key [] x e = absurd (ground arith)
  find-key (y ∷ xs) x e = elim (Bool-cases (key y == u)) [
    | inl h ↦ ground arith
    | inr h ↦ find-key xs x (ground arith)
  ]
