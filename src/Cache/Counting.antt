-- ===== src/Cache/Counting.antt =====
-- What the reactions of a message count (crates/tulpje-cache/src/event/reaction.rs).
use tulpje.Prelude.{
  ℕ, suc, Bool, true, false, Option, none, some, List, [], ◌∷◌, ◌≡◌, ◌≢◌, refl, ap, arith, ◌+◌, ◌-◌,
  ◌≤◌, ◌<◌, ◌^◌, ◌==◌, ==_iff, ==_refl, if◌then◌else◌, Bool-cases, inl, inr, same, same_refl,
  same→eq, if-rule, ltb, ltb→lt, ◌%◌,
}
use tulpje.Cache.Reactions.{
  EmojiReactionType, custom, unicode, Reaction, reactions_eq, without, more_of, less_of, place,
  place_less,
}

pub false≢true : false ≢ true
false≢true e = ground arith

-- The count that is shown for an emoji, or zero where it is not there.
abbrev pub count_of : EmojiReactionType → List Reaction → ℕ
count_of e [] = 0
count_of e (r ∷ rs) = let rest = count_of e rs in if reactions_eq r.emoji e then r.count else rest

pub reactions_eq_left :
    (a b c : EmojiReactionType) → reactions_eq a b ≡ true → reactions_eq a c ≡ reactions_eq b c
unfolding reactions_eq
reactions_eq_left (custom _ a _) (custom _ b _) (custom _ c _) h =
    ap (λ i. i == c) ((==_iff a b).0 h)
reactions_eq_left (custom _ a _) (custom _ b _) (unicode c) h = refl
reactions_eq_left (unicode a) (unicode b) (custom _ c _) h = refl
reactions_eq_left (unicode a) (unicode b) (unicode c) h = ap (λ n. same n c) (same→eq a b h)
reactions_eq_left (custom _ a _) (unicode b) c h = elim (false≢true h) [ ]
reactions_eq_left (unicode a) (custom _ b _) c h = elim (false≢true h) [ ]

pub reactions_eq_right :
    (a b c : EmojiReactionType) → reactions_eq b c ≡ true → reactions_eq a b ≡ reactions_eq a c
unfolding reactions_eq
reactions_eq_right (custom _ a _) (custom _ b _) (custom _ c _) h =
    ap (λ i. a == i) ((==_iff b c).0 h)
reactions_eq_right (unicode a) (custom _ b _) (custom _ c _) h = refl
reactions_eq_right (custom _ a _) (unicode b) (unicode c) h = refl
reactions_eq_right (unicode a) (unicode b) (unicode c) h = ap (λ n. same a n) (same→eq b c h)
reactions_eq_right a (custom _ b _) (unicode c) h = elim (false≢true h) [ ]
reactions_eq_right a (unicode b) (custom _ c _) h = elim (false≢true h) [ ]

pub reactions_eq_refl : (a : EmojiReactionType) → reactions_eq a a ≡ true
unfolding reactions_eq
reactions_eq_refl (custom _ a _) = ==_refl a
reactions_eq_refl (unicode a) = same_refl a

-- Every reaction counts at least one, and each emoji is there once.
abbrev pub Tidy : List Reaction → Type 0
Tidy [] = Unit {0}
Tidy (r ∷ rs) = (1 ≤ r.count) × (count_of r.emoji rs ≡ 0) × Tidy rs

-- No count is the largest number of 64 bits.
abbrev pub Roomy : List Reaction → Type 0
Roomy [] = Unit {0}
Roomy (r ∷ rs) = (suc r.count < 2 ^ 64) × Roomy rs

-- One where the emoji is the one of the event.
abbrev pub one_if : Bool → ℕ
one_if true = 1
one_if false = 0

abbrev pub Gives : {A : Type 0} → (A → Type 0) → Option A → Type 0
Gives P none = ⊥
Gives P (some a) = P a

pub count_of-without :
    (emoji e : EmojiReactionType) (rs : List Reaction)
    → count_of e (without emoji rs) ≡ (if reactions_eq emoji e then 0 else count_of e rs)
count_of-without emoji e [] = ground arith
count_of-without emoji e (r ∷ rs) = elim (Bool-cases (reactions_eq r.emoji emoji)) [
  | inl h ↦ ground (arith, count_of-without emoji e rs, reactions_eq_left r.emoji emoji e h)
  | inr h ↦ elim (Bool-cases (reactions_eq emoji e)) [
    | inl k ↦ ground (arith, count_of-without emoji e rs, reactions_eq_right r.emoji emoji e k)
    | inr k ↦ ground (arith, count_of-without emoji e rs)
  ]
]

pub Tidy-without :
    (emoji : EmojiReactionType) (rs : List Reaction) → Tidy rs → Tidy (without emoji rs)
Tidy-without emoji [] h = tt
Tidy-without emoji (r ∷ rs) (b, n, h) = elim (Bool-cases (reactions_eq r.emoji emoji)) [
  | inl k ↦ ground (arith, Tidy-without emoji rs h)
  | inr k ↦ ground (arith, Tidy-without emoji rs h, count_of-without emoji r.emoji rs)
]

pub place-more_of :
    (P : Option (List Reaction) → Type 0) (c : Option ℕ) (user : ℕ) (r : Reaction)
    (rs : List Reaction)
    → ((m : Bool) → P (some (record r { me = m; count = (r.count + 1) % 2 ^ 64 } ∷ rs)))
    → P (place (more_of (some c) user r) rs)
place-more_of P c user r rs h = if-rule (λ o. P (place o rs)) r.me _ _ (λ _. h _) (λ _. h _)

pub place_less-less_of :
    (P : Option (List Reaction) → Type 0) (emoji : EmojiReactionType) (c : Option ℕ) (user : ℕ)
    (r : Reaction) (rs : List Reaction)
    → ((m : Bool) → 1 < r.count → P (some (record r { me = m; count = r.count - 1 } ∷ rs)))
    → (r.count ≤ 1 → P (some (without emoji rs)))
    → P (place_less emoji (less_of (some c) user r) rs)
place_less-less_of P emoji c user r rs h k =
    if-rule (λ o. P (place_less emoji o rs)) r.me _ _
      (λ _.
        if-rule (λ o. P (place_less emoji (some o) rs)) (ltb 1 r.count) _ _
          (λ e. h _ (ltb→lt 1 r.count e)) (λ e. k (ground arith)))
      (λ _.
        if-rule (λ o. P (place_less emoji (some o) rs)) (ltb 1 r.count) _ _
          (λ e. h _ (ltb→lt 1 r.count e)) (λ e. k (ground arith)))

-- The reactions are tidy, and only the emoji's count is another, by the function.
abbrev pub Counts : (ℕ → ℕ → ℕ) → EmojiReactionType → List Reaction → List Reaction → Type 0
Counts f emoji rs rs' =
    Tidy rs'
    × ((e : EmojiReactionType) → count_of e rs' ≡ f (count_of e rs) (one_if (reactions_eq emoji e)))
