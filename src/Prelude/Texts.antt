-- ===== src/Prelude/Texts.antt =====
-- Rust's strings as the lists of their characters' code points, with the functions of the
-- standard library that the components call.
use Prim.Native.Nat.{ℕ, zero, suc, ◌+◌, ◌/◌, ◌%◌}
use Prim.Native.Char.{code}
use Prim.Native.String.{String}
use mathlib.Core.Path.{◌≡◌, refl, ap₂}
use mathlib.Core.Logic.{◌≢◌, ◌⊎◌, inl, inr}
use mathlib.Core.Bool.{Bool, true, false, ◌&&◌, ◌||◌}
use mathlib.Core.List.{List, [], ◌∷◌, ◌++◌}
use native.Mathlib.Omega.{arith}
use tulpje.Prelude.Tests.{◌==◌, ==_iff, ==_refl, if◌then◌else◌, Bool-cases}

abbrev pub Text : Type 0
Text = List ℕ

-- A literal's characters.
abbrev pub text : String → Text
text String.[] = []
text (String.◌∷◌ c s) = code c ∷ text s

abbrev pub same : Text → Text → Bool
same [] [] = true
same [] (_ ∷ _) = false
same (_ ∷ _) [] = false
same (c ∷ s) (d ∷ t) = (c == d) && same s t

abbrev pub starts_with : Text → Text → Bool
starts_with [] s = true
starts_with (_ ∷ _) [] = false
starts_with (p ∷ pat) (c ∷ s) = (p == c) && starts_with pat s

abbrev pub ends_with : Text → Text → Bool
ends_with suffix [] = same [] suffix
ends_with suffix (c ∷ s) = same (c ∷ s) suffix || ends_with suffix s

-- `split(pattern).next()` for a pattern that is not empty: what stands before its first
-- occurrence, or the whole text.
abbrev pub before : Text → Text → Text
before pat [] = []
before pat (c ∷ s) = let rest = before pat s in if starts_with pat (c ∷ s) then [] else (c ∷ rest)

pub same_refl : (s : Text) → same s s ≡ true
same_refl [] = refl
same_refl (c ∷ s) = ground (arith, same_refl s, ==_refl c)

pub same→eq : (s t : Text) → same s t ≡ true → s ≡ t
same→eq [] [] h = refl
same→eq [] (_ ∷ _) h = ground arith
same→eq (_ ∷ _) [] h = ground arith
same→eq (c ∷ s) (d ∷ t) h = elim (Bool-cases (c == d)) [
  | inl e ↦ elim (Bool-cases (same s t)) [
    | inl f ↦ ap₂ ◌∷◌ ((==_iff c d).0 e) (same→eq s t f)
    | inr f ↦ ground arith
  ]
  | inr e ↦ ground arith
]

pub same_neq : (s t : Text) → s ≢ t → same s t ≡ false
same_neq s t n = elim (Bool-cases (same s t)) [ inl e ↦ elim (n (same→eq s t e)) [ ] | inr e ↦ e ]

pub same→neq : (s t : Text) → same s t ≡ false → s ≢ t
same→neq s t h e = ground (arith, same_refl s)

pub Text-cases : (s t : Text) → (s ≡ t) ⊎ (s ≢ t)
Text-cases s t = elim (Bool-cases (same s t)) [
  | inl e ↦ inl (same→eq s t e)
  | inr e ↦ inr (same→neq s t e)
]

pub ends_with-append : (s suffix : Text) → ends_with suffix (s ++ suffix) ≡ true
ends_with-append [] [] = refl
ends_with-append [] (c ∷ suffix) = ground (arith, same_refl suffix, ==_refl c)
ends_with-append (c ∷ s) suffix = ground (arith, ends_with-append s suffix)

-- A number's decimal digits, at most as many as the fuel.
abbrev pub decimal : ℕ → ℕ → Text
decimal zero n = []
decimal (suc fuel) n =
    let rest = decimal fuel (n / 10) in
    if n / 10 == 0 then ((b'0' + n % 10) ∷ []) else rest ++ ((b'0' + n % 10) ∷ [])

-- `join(separator)`.
abbrev pub join : Text → List Text → Text
join separator [] = []
join separator (s ∷ []) = s
join separator (s ∷ t ∷ ss) = s ++ (separator ++ join separator (t ∷ ss))
