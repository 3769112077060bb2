-- ===== src/Pluralkit/Database/Sorted.antt =====
-- Rows in the order of a key, and the first of them (`ORDER BY` and `LIMIT` in
-- crates/tulpje-mod-pluralkit/src/db.rs and fronters/db.rs).
use tulpje.Prelude.{
  ℕ, zero, suc, Bool, true, false, List, [], ◌∷◌, ◌≡◌, ◌⊎◌, inl, inr, refl, sym, subst, arith, All,
  length, take, filter, Bool-cases,
}
use tulpje.Pluralkit.Database.Systems.{insert_by, sort_by}

module _ {A : Type 0} where
  abbrev pub In : A → List A → Type 0
  In x [] = ⊥
  In x (y ∷ ys) = (x ≡ y) ⊎ In x ys

  -- One step of the loops, by the outcome of the test.
  filter-true :
      (p : A → Bool) (y : A) (ys : List A) → p y ≡ true → filter p (y ∷ ys) ≡ y ∷ filter p ys
  filter-true p y ys h = ground arith

  filter-false :
      (p : A → Bool) (y : A) (ys : List A) → p y ≡ false → filter p (y ∷ ys) ≡ filter p ys
  filter-false p y ys h = ground arith

  pub In-filter : (p : A → Bool) (x : A) (ys : List A) → In x ys → p x ≡ true → In x (filter p ys)
  In-filter p x [] m e = m
  In-filter p x (y ∷ ys) (inl h) e =
      subst (In x) (sym (filter-true p y ys (subst (λ z. p z ≡ true) h e))) (inl h)
  In-filter p x (y ∷ ys) (inr m) e = elim (Bool-cases (p y)) [
    | inl t ↦ subst (In x) (sym (filter-true p y ys t)) (inr (In-filter p x ys m e))
    | inr f ↦ subst (In x) (sym (filter-false p y ys f)) (In-filter p x ys m e)
  ]

  pub filter-In : (p : A → Bool) (x : A) (ys : List A) → In x (filter p ys) → In x ys × (p x ≡ true)
  filter-In p x [] m = elim m [ ]
  filter-In p x (y ∷ ys) m = elim (Bool-cases (p y)) [
    | inl t ↦
        let k : In x (y ∷ filter p ys) = subst (In x) (filter-true p y ys t) m in
        elim k [
          | inl h ↦ (inl h, subst (λ z. p z ≡ true) (sym h) t)
          | inr k ↦ let (a, b) = filter-In p x ys k in (inr a, b)
        ]
    | inr f ↦ let (a, b) = filter-In p x ys (subst (In x) (filter-false p y ys f) m) in (inr a, b)
  ]

  pub take-In : (n : ℕ) (x : A) (ys : List A) → In x (take n ys) → In x ys
  take-In zero x ys m = elim m [ ]
  take-In (suc n) x [] m = m
  take-In (suc n) x (y ∷ ys) (inl h) = inl h
  take-In (suc n) x (y ∷ ys) (inr m) = inr (take-In n x ys m)

  pub All-In : (P : A → Type 0) (xs : List A) → ((x : A) → In x xs → P x) → All P xs
  All-In P [] h = tt
  All-In P (x ∷ xs) h = (h x (inl refl), All-In P xs (λ y m. h y (inr m)))

  module _ (le : A → A → Bool) where
    abbrev Below : A → List A → Type 0
    Below x ys = All (λ y. le x y ≡ true) ys

    Below-In : (x y : A) (zs : List A) → Below x zs → In y zs → le x y ≡ true
    Below-In x y [] b m = elim m [ ]
    Below-In x y (z ∷ zs) b (inl h) = subst (λ v. le x v ≡ true) (sym h) b.0
    Below-In x y (z ∷ zs) b (inr m) = Below-In x y zs b.1 m

    abbrev pub IsSorted : List A → Type 0
    IsSorted [] = Unit {0}
    IsSorted (x ∷ xs) = Below x xs × IsSorted xs

    insert_true : (x y : A) (ys : List A) → le x y ≡ true → insert_by le x (y ∷ ys) ≡ x ∷ y ∷ ys
    insert_true x y ys h = ground arith

    insert_false :
        (x y : A) (ys : List A) → le x y ≡ false → insert_by le x (y ∷ ys) ≡ y ∷ insert_by le x ys
    insert_false x y ys h = ground arith

    In-insert_by : (x y : A) (ys : List A) → (x ≡ y) ⊎ In x ys → In x (insert_by le y ys)
    In-insert_by x y [] m = m
    In-insert_by x y (z ∷ zs) m = elim (Bool-cases (le y z)) [
      | inl t ↦ subst (In x) (sym (insert_true y z zs t)) m
      | inr f ↦ subst (In x) (sym (insert_false y z zs f)) elim m [
        | inl h ↦ inr (In-insert_by x y zs (inl h))
        | inr (inl h) ↦ inl h
        | inr (inr k) ↦ inr (In-insert_by x y zs (inr k))
      ]
    ]

    insert_by-In : (x y : A) (ys : List A) → In x (insert_by le y ys) → (x ≡ y) ⊎ In x ys
    insert_by-In x y [] m = m
    insert_by-In x y (z ∷ zs) m = elim (Bool-cases (le y z)) [
      | inl t ↦ subst (In x) (insert_true y z zs t) m
      | inr f ↦
          let k : (x ≡ z) ⊎ In x (insert_by le y zs) = subst (In x) (insert_false y z zs f) m in
          elim k [
            | inl h ↦ inr (inl h)
            | inr l ↦ elim (insert_by-In x y zs l) [ inl h ↦ inl h | inr n ↦ inr (inr n) ]
          ]
    ]

    pub In-sort_by : (x : A) (ys : List A) → In x ys → In x (sort_by le ys)
    In-sort_by x [] m = m
    In-sort_by x (y ∷ ys) (inl h) = In-insert_by x y (sort_by le ys) (inl h)
    In-sort_by x (y ∷ ys) (inr m) = In-insert_by x y (sort_by le ys) (inr (In-sort_by x ys m))

    pub sort_by-In : (x : A) (ys : List A) → In x (sort_by le ys) → In x ys
    sort_by-In x [] m = m
    sort_by-In x (y ∷ ys) m = elim (insert_by-In x y (sort_by le ys) m) [
      | inl h ↦ inl h
      | inr k ↦ inr (sort_by-In x ys k)
    ]

    -- The first rows: all, or as many as asked for and none of them later than one left out.
    pub take-first :
        (n : ℕ) (x : A) (ys : List A)
        → IsSorted ys
        → In x ys
        → In x (take n ys) ⊎ ((length (take n ys) ≡ n) × All (λ y. le y x ≡ true) (take n ys))
    take-first zero x ys s m = inr (refl, tt)
    take-first (suc n) x [] s m = elim m [ ]
    take-first (suc n) x (y ∷ ys) s (inl h) = inl (inl h)
    take-first (suc n) x (y ∷ ys) s (inr m) = elim (take-first n x ys s.1 m) [
      | inl k ↦ inl (inr k)
      | inr (e, all) ↦ inr (omega arith, (Below-In y x ys s.0 m, all))
    ]

    module _ (total : (x y : A) → le x y ≡ false → le y x ≡ true)
        (transitive : (x y z : A) → le x y ≡ true → le y z ≡ true → le x z ≡ true) where
      Below-trans : (x y : A) (zs : List A) → le x y ≡ true → Below y zs → Below x zs
      Below-trans x y [] h b = tt
      Below-trans x y (z ∷ zs) h b = (transitive x y z h b.0, Below-trans x y zs h b.1)

      insert_by-IsSorted : (x : A) (ys : List A) → IsSorted ys → IsSorted (insert_by le x ys)
      insert_by-IsSorted x [] s = (tt, tt)
      insert_by-IsSorted x (y ∷ ys) s = elim (Bool-cases (le x y)) [
        | inl t ↦ subst IsSorted (sym (insert_true x y ys t)) ((t, Below-trans x y ys t s.0), s)
        | inr f ↦ subst IsSorted (sym (insert_false x y ys f)) (
          All-In (λ z. le y z ≡ true) (insert_by le x ys)
              (λ z m. elim (insert_by-In z x ys m) [
                | inl h ↦ subst (λ v. le y v ≡ true) (sym h) (total x y f)
                | inr k ↦ Below-In y z ys s.0 k
              ]),
          insert_by-IsSorted x ys s.1,
        )
      ]

      pub sort_by-IsSorted : (ys : List A) → IsSorted (sort_by le ys)
      sort_by-IsSorted [] = tt
      sort_by-IsSorted (y ∷ ys) = insert_by-IsSorted y (sort_by le ys) (sort_by-IsSorted ys)
