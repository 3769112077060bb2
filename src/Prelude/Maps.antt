-- ===== src/Prelude/Maps.antt =====
-- A hash map with text keys: an association list in which a key stands once.
use mathlib.Core.Path.{◌≡◌, refl}
use mathlib.Core.Logic.{◌≢◌, inl, inr}
use mathlib.Core.Bool.{Bool, false, ◌||◌}
use mathlib.Core.Option.{Option, none, some}
use mathlib.Core.List.{List, [], ◌∷◌, map}
use native.Mathlib.Omega.{arith}
use tulpje.Prelude.Tests.{if◌then◌else◌, Bool-cases}
use tulpje.Prelude.Texts.{Text, same, same_refl, same→eq, same_neq}

module _ {ℓ} {A : Type ℓ} where
  abbrev pub get : Text → List (Text × A) → Option A
  get k [] = none
  get k (e ∷ m) = let rest = get k m in if same k e.0 then some e.1 else rest

  -- A key that is present keeps its place and takes the new value.
  abbrev pub insert : Text → A → List (Text × A) → List (Text × A)
  insert k a [] = (k, a) ∷ []
  insert k a (e ∷ m) = let rest = insert k a m in if same k e.0 then (k, a) ∷ m else e ∷ rest

  abbrev pub remove : Text → List (Text × A) → List (Text × A)
  remove k [] = []
  remove k (e ∷ m) = let rest = remove k m in if same k e.0 then rest else e ∷ rest

  -- `iter().collect::<HashMap<_, _>>()`: the last value of a key stays.
  abbrev pub insert_all : List (Text × A) → List (Text × A) → List (Text × A)
  insert_all [] m = m
  insert_all (e ∷ es) m = insert_all es (insert e.0 e.1 m)

  abbrev pub collect : List (Text × A) → List (Text × A)
  collect es = insert_all es []

  abbrev pub keys : List (Text × A) → List Text
  keys m = map (λ e. e.0) m

  pub get-insert_same : (k : Text) (a : A) (m : List (Text × A)) → get k (insert k a m) ≡ some a
  get-insert_same k a [] = ground (arith, same_refl k)
  get-insert_same k a (e ∷ m) = elim (Bool-cases (same k e.0)) [
    | inl h ↦ ground (arith, same_refl k)
    | inr h ↦ ground (arith, get-insert_same k a m)
  ]

  pub get-insert_other :
      (j k : Text) (a : A) (m : List (Text × A)) → j ≢ k → get j (insert k a m) ≡ get j m
  get-insert_other j k a [] n = ground (arith, same_neq j k n)
  get-insert_other j k a (e ∷ m) n = elim (Bool-cases (same k e.0)) [
    | inl h ↦ ground (arith, same_neq j k n, same→eq k e.0 h)
    | inr h ↦ ground (arith, get-insert_other j k a m n)
  ]

  pub get-remove_same : (k : Text) (m : List (Text × A)) → get k (remove k m) ≡ none
  get-remove_same k [] = refl
  get-remove_same k (e ∷ m) = ground (arith, get-remove_same k m)

  pub get-remove_other : (j k : Text) (m : List (Text × A)) → j ≢ k → get j (remove k m) ≡ get j m
  get-remove_other j k [] n = refl
  get-remove_other j k (e ∷ m) n = elim (Bool-cases (same k e.0)) [
    | inl h ↦ ground (arith, get-remove_other j k m n, same_neq j k n, same→eq k e.0 h)
    | inr h ↦ ground (arith, get-remove_other j k m n)
  ]

abbrev pub contains : Text → List Text → Bool
contains k [] = false
contains k (x ∷ xs) = same k x || contains k xs

abbrev pub DistinctTexts : List Text → Type 0
DistinctTexts [] = Unit {0}
DistinctTexts (x ∷ xs) = (contains x xs ≡ false) × DistinctTexts xs
