-- ===== src/Pluralkit/Fronts/Names.antt =====
-- The sets of names and the maps by name that the update of a category goes through
-- (crates/tulpje-mod-pluralkit/src/fronters/shared.rs).
use tulpje.Prelude.{
  ℕ, suc, ◌+◌, ◌≤◌, true, false, not, ◌&&◌, ◌||◌, Option, none, some, List, [], ◌∷◌, ◌≡◌, ◌≢◌, ◌⊎◌,
  refl, sym, subst, ◌∙◌, ap, arith, inl, inr, Bool-cases, Text-cases, if◌then◌else◌, Text, same,
  same_refl, same_neq, same→eq, get, insert, insert_all, keys, contains, DistinctTexts, is_some,
  length, get-insert_same, get-insert_other,
}
use tulpje.Pluralkit.Database.Sorted.{In}
use tulpje.Pluralkit.Fronts.Remote.{Channel}
use tulpje.Pluralkit.Fronts.Channels.{ChannelMap, named, positions, set_of, difference}

-- Where a name stands for the last time, if it stands in the list.
abbrev pub last_index : ℕ → Text → List Text → Option ℕ
last_index n k [] = none
last_index n k (x ∷ xs) = elim (last_index (suc n) k xs) [
  | some i ↦ some i
  | none ↦ if same k x then some n else none
]

pub contains-set_of : (k : Text) (ks : List Text) → contains k (set_of ks) ≡ contains k ks
contains-set_of k [] = refl
contains-set_of k (x ∷ xs) = elim (Text-cases k x) [
  | inl e ↦
      ground
        (arith, contains-set_of k xs, ap (λ k. contains k xs) e, ap (λ k. same k x) e, same_refl x)
  | inr n ↦ ground (arith, contains-set_of k xs, same_neq k x n)
]

pub set_of-Distinct : (ks : List Text) → DistinctTexts (set_of ks)
set_of-Distinct [] = tt
set_of-Distinct (x ∷ xs) = elim (Bool-cases (contains x xs)) [
  | inl t ↦ subst DistinctTexts (step_true t) (set_of-Distinct xs)
  | inr f ↦ subst DistinctTexts (step_false f) (contains-set_of x xs ∙ f, set_of-Distinct xs)
]
  where
    step_true : contains x xs ≡ true → set_of xs ≡ set_of (x ∷ xs)
    step_true t = ground arith

    step_false : contains x xs ≡ false → x ∷ set_of xs ≡ set_of (x ∷ xs)
    step_false t = ground arith

pub contains-difference :
    (k : Text) (a b : List Text)
    → contains k (difference a b) ≡ (contains k a && not (contains k b))
contains-difference k [] b = refl
contains-difference k (x ∷ a) b = elim (Text-cases k x) [
  | inl e ↦ ground (
    arith,
    contains-difference k a b,
    ap (λ k. contains k b) e,
    ap (λ k. same k x) e,
    same_refl x,
  )
  | inr n ↦ ground (arith, contains-difference k a b, same_neq k x n)
]

pub difference-Distinct : (a b : List Text) → DistinctTexts a → DistinctTexts (difference a b)
difference-Distinct [] b d = tt
difference-Distinct (x ∷ a) b d = elim (Bool-cases (contains x b)) [
  | inl t ↦ subst DistinctTexts (step_true t) (difference-Distinct a b d.1)
  | inr f ↦
      subst DistinctTexts (step_false f)
        (ground (arith, contains-difference x a b, d.0), difference-Distinct a b d.1)
]
  where
    step_true : contains x b ≡ true → difference a b ≡ difference (x ∷ a) b
    step_true t = ground arith

    step_false : contains x b ≡ false → x ∷ difference a b ≡ difference (x ∷ a) b
    step_false t = ground arith

module _ {A : Type 0} where
  pub contains-keys : (k : Text) (m : List (Text × A)) → contains k (keys m) ≡ is_some (get k m)
  contains-keys k [] = refl
  contains-keys k (e ∷ m) = ground (arith, contains-keys k m)

  is_some-insert :
      (j k : Text) (a : A) (m : List (Text × A))
      → is_some (get j (insert k a m)) ≡ (same j k || is_some (get j m))
  is_some-insert j k a m = elim (Text-cases j k) [
    | inl e ↦ ground (
      arith,
      get-insert_same k a m,
      ap (λ j. get j (insert k a m)) e,
      ap (λ j. same j k) e,
      same_refl k,
    )
    | inr n ↦ ground (arith, get-insert_other j k a m n, same_neq j k n)
  ]

  insert-Distinct :
      (k : Text) (a : A) (m : List (Text × A))
      → DistinctTexts (keys m)
      → DistinctTexts (keys (insert k a m))
  insert-Distinct k a [] d = (refl, tt)
  insert-Distinct k a (e ∷ m) d = elim (Bool-cases (same k e.0)) [
    | inl t ↦ subst DistinctTexts (step_true t) (
        subst (λ x. (contains x (keys m) ≡ false) × DistinctTexts (keys m)) (sym (same→eq k e.0 t))
          d)
    | inr f ↦ subst DistinctTexts (step_false f) (
      contains-keys e.0 (insert k a m)
          ∙ is_some-insert e.0 k a m
          ∙ ground (arith, d.0, contains-keys e.0 m, f, other (Text-cases e.0 k) f),
      insert-Distinct k a m d.1,
    )
  ]
    where
      step_true : same k e.0 ≡ true → k ∷ keys m ≡ keys (insert k a (e ∷ m))
      step_true t = ground arith

      step_false : same k e.0 ≡ false → e.0 ∷ keys (insert k a m) ≡ keys (insert k a (e ∷ m))
      step_false t = ground arith

      other : (e.0 ≡ k) ⊎ (e.0 ≢ k) → same k e.0 ≡ false → same e.0 k ≡ false
      other (inl q) f = cc (ap (λ x. same k x) q)
      other (inr n) f = same_neq e.0 k n

  pub insert_all-Distinct :
      (es m : List (Text × A)) → DistinctTexts (keys m) → DistinctTexts (keys (insert_all es m))
  insert_all-Distinct [] m d = d
  insert_all-Distinct (e ∷ es) m d =
      insert_all-Distinct es (insert e.0 e.1 m) (insert-Distinct e.0 e.1 m d)

  pub is_some-insert_all :
      (k : Text) (es m : List (Text × A))
      → is_some (get k (insert_all es m)) ≡ (contains k (keys es) || is_some (get k m))
  is_some-insert_all k [] m = refl
  is_some-insert_all k (e ∷ es) m =
      is_some-insert_all k es (insert e.0 e.1 m) ∙ ground (arith, is_some-insert k e.0 e.1 m)

  -- What is found was put in.
  pub get-insert_all-In :
      (k : Text) (a : A) (es m : List (Text × A))
      → get k (insert_all es m) ≡ some a
      → In (k, a) es ⊎ (get k m ≡ some a)
  get-insert_all-In k a [] m h = inr h
  get-insert_all-In k a (e ∷ es) m h = elim (get-insert_all-In k a es (insert e.0 e.1 m) h) [
    | inl i ↦ inl (inr i)
    | inr g ↦ elim (Text-cases k e.0) [
      | inl q ↦ inl (inl (cc (get-insert_same e.0 e.1 m, ap (λ k. get k (insert e.0 e.1 m)) q)))
      | inr n ↦ inr (sym (get-insert_other k e.0 e.1 m n) ∙ g)
    ]
  ]

abbrev pub numbered : ℕ → List Text → List (Text × ℕ)
numbered n [] = []
numbered n (x ∷ xs) = (x, n) ∷ numbered (suc n) xs

-- No index is too large where there are at most 65536 names.
pub positions-numbered :
    (n : ℕ) (names : List Text)
    → n + length names ≤ 65536
    → positions n names ≡ some (numbered n names)
unfolding positions
positions-numbered n [] h = refl
positions-numbered n (x ∷ xs) h = ground (arith, positions-numbered (suc n) xs)

pub contains-numbered :
    (k : Text) (n : ℕ) (names : List Text) → contains k (keys (numbered n names)) ≡ contains k names
contains-numbered k n [] = refl
contains-numbered k n (x ∷ xs) = ground (arith, contains-numbered k (suc n) xs)

-- The positions are those of the last time that each name stands there.
pub get-numbered :
    (n : ℕ) (k : Text) (names : List Text) (m : List (Text × ℕ))
    → get k (insert_all (numbered n names) m)
      ≡ elim (last_index n k names) as (λ _. Option ℕ) [ none ↦ get k m | some i ↦ some i ]
get-numbered n k [] m = refl
get-numbered n k (x ∷ xs) m = elim (Text-cases k x) [
  | inl e ↦ ground (
    arith,
    get-numbered (suc n) k xs (insert x n m),
    get-insert_same x n m,
    ap (λ k. get k (insert x n m)) e,
    ap (λ k. same k x) e,
    same_refl x,
  )
  | inr e ↦
      ground (
        arith,
        get-numbered (suc n) k xs (insert x n m),
        get-insert_other k x n m e,
        same_neq k x e,
      )
]

-- Every channel has a name.
abbrev pub AllNamed : List Channel → Type 0
AllNamed cs = (c : Channel) → In c cs → (k : Text) × (c.name ≡ some k)

pub named-In :
    (cs : List Channel)
    → AllNamed cs
    → (es : ChannelMap) × (named cs ≡ some es)
      × ((k : Text) (c : Channel) → In (k, c) es → In c cs × (c.name ≡ some k))
      × ((k : Text) (c : Channel) → In c cs → c.name ≡ some k → contains k (keys es) ≡ true)
unfolding named
named-In [] h = ([], refl, λ k c m. elim m [ ], λ k c m e. elim m [ ])
named-In (c ∷ cs) h =
    let (k, e) = h c (inl refl) in
    let (es, f, sound, whole) = named-In cs (λ b m. h b (inr m)) in
    (
      (k, c) ∷ es,
      ground arith,
      λ j b m. elim m [
        | inl q ↦
            let p : b ≡ c = ap (λ (x : Text × Channel). x.1) q in
            let r : j ≡ k = ap (λ (x : Text × Channel). x.0) q in
            (inl p, ap (λ (x : Channel). x.name) p ∙ e ∙ ap some (sym r))
        | inr m ↦ let (i, g) = sound j b m in (inr i, g)
      ],
      λ j b m g. elim m [
        | inl q ↦
            let t : j ≡ k = cc (ap (λ (x : Channel). x.name) q) in
            ground (arith, ap (λ j. same j k) t, same_refl k)
        | inr m ↦ ground (arith, whole j b m g)
      ],
    )
