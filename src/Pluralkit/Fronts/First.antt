-- ===== src/Pluralkit/Fronts/First.antt =====
-- Rows with a mark, where the order puts them before the others (`NULLS FIRST` in
-- crates/tulpje-mod-pluralkit/src/fronters/db.rs).
use tulpje.Prelude.{
  ℕ, zero, suc, Bool, true, false, ◌≤◌, List, [], ◌∷◌, ◌≡◌, inl, inr, sym, subst, arith, All,
  length, take, filter, Bool-cases,
}
use tulpje.Pluralkit.Database.Systems.{insert_by, sort_by}
use tulpje.Pluralkit.Database.Sorted.{In, IsSorted}

module _ {A : Type 0} (le : A → A → Bool) (mark : A → Bool) where
  abbrev pub count : List A → ℕ
  count ys = length (filter mark ys)

  count-insert_by : (x : A) (ys : List A) → count (insert_by le x ys) ≡ count (x ∷ ys)
  count-insert_by x [] = ground arith
  count-insert_by x (y ∷ ys) = ground (arith, count-insert_by x ys)

  pub count-sort_by : (ys : List A) → count (sort_by le ys) ≡ count ys
  count-sort_by [] = ground arith
  count-sort_by (y ∷ ys) = ground (arith, count-insert_by y (sort_by le ys), count-sort_by ys)

  module _ (first : (x y : A) → mark x ≡ false → mark y ≡ true → le x y ≡ false) where
    none_after : (x : A) (ys : List A) → mark x ≡ false → All (λ y. le x y ≡ true) ys → count ys ≡ 0
    none_after x [] h b = ground arith
    none_after x (y ∷ ys) h b = elim (Bool-cases (mark y)) [
      | inl t ↦ absurd (ground (arith, first x y h t, b.0))
      | inr f ↦ ground (arith, none_after x ys h b.1)
    ]

    -- Where enough rows are marked, only such rows are taken.
    pub take-marked :
        (n : ℕ) (x : A) (ys : List A)
        → IsSorted le ys
        → n ≤ count ys
        → In x (take n ys)
        → mark x ≡ true
    take-marked zero x ys s e m = elim m [ ]
    take-marked (suc n) x [] s e m = elim m [ ]
    take-marked (suc n) x (y ∷ ys) s e m = elim (Bool-cases (mark y)) [
      | inl t ↦ elim m [
        | inl h ↦ subst (λ z. mark z ≡ true) (sym h) t
        | inr k ↦ take-marked n x ys s.1 (ground arith) k
      ]
      | inr f ↦ absurd (ground (arith, none_after y ys f s.0))
    ]
