-- ===== src/Framework/ColorText.antt =====
-- Printing and parsing of colors (crates/tulpje-framework/src/color.rs), and the red, green and blue
-- parts of `from_rgb`.
use tulpje.Prelude.{
  ℕ, zero, suc, true, false, Option, none, some, [], ◌∷◌, ◌++◌, ◌≡◌, refl, sym, ap, ◌∙◌, ◌↔◌, inl,
  inr, ◌+◌, ◌*◌, ◌/◌, ◌%◌, ◌^◌, ◌<◌, ltb, ◌==◌, arith, if◌then◌else◌, Bool-cases, Text,
}
use tulpje.Framework.Color.{
  Color, from_rgb, trim_hash, hex_digit, hex_digits, from_str_radix, from_str, upper_digit,
  upper_hex, padded_hex, to_string,
}

lt→ltb : (a b : ℕ) → a < b → ltb a b ≡ true
lt→ltb a b h = ground arith

hex_digit-upper_digit : (d : ℕ) → d < 16 → hex_digit (upper_digit d) ≡ some d
hex_digit-upper_digit d h = ground arith

append_snoc : (s : Text) (c : ℕ) (t : Text) → (s ++ (c ∷ [])) ++ t ≡ s ++ (c ∷ t)
append_snoc [] c t = refl
append_snoc (d ∷ s) c t = ap (λ u. d ∷ u) (append_snoc s c t)

hex_digits-step :
    (c acc d : ℕ) (s : Text)
    → hex_digit c ≡ some d
    → acc * 16 + d < 2 ^ 32
    → hex_digits acc (c ∷ s) ≡ hex_digits (acc * 16 + d) s
hex_digits-step c acc d s e h =
    ap
      (λ o. elim o as (λ _. Option ℕ) [
        | none ↦ none
        | some k ↦ elim (ltb (acc * 16 + k) (2 ^ 32)) [
          | true ↦ hex_digits (acc * 16 + k) s
          | false ↦ none
        ]
      ])
      e
    ∙ ap (λ b. elim b as (λ _. Option ℕ) [ true ↦ hex_digits (acc * 16 + d) s | false ↦ none ])
        (lt→ltb (acc * 16 + d) (2 ^ 32) h)

hex_digits-digit :
    (n : ℕ) (s : Text)
    → n < 2 ^ 32
    → hex_digits (n / 16) (upper_digit (n % 16) ∷ s) ≡ hex_digits n s
hex_digits-digit n s h =
    hex_digits-step (upper_digit (n % 16)) (n / 16) (n % 16) s
      (hex_digit-upper_digit (n % 16) (omega arith)) (omega arith)
    ∙ ap (λ k. hex_digits k s) (omega arith)

hex_digits-upper_hex :
    (width n : ℕ) (s : Text)
    → n < 16 ^ width
    → n < 2 ^ 32
    → hex_digits 0 (upper_hex width n ++ s) ≡ hex_digits n s
hex_digits-upper_hex zero n s b h = ap (λ k. hex_digits k s) (omega arith)
hex_digits-upper_hex (suc width) n s b h =
    ap (hex_digits 0) (append_snoc (upper_hex width (n / 16)) (upper_digit (n % 16)) s)
    ∙ hex_digits-upper_hex width (n / 16) (upper_digit (n % 16) ∷ s) (omega arith) (omega arith)
    ∙ hex_digits-digit n s h

-- A digit leads the printed number.
abbrev Leads : Text → Type 0
Leads s = (d : ℕ) × (t : Text) × (d < 16) × (s ≡ upper_digit d ∷ t)

upper_hex-Leads : (width n : ℕ) → Leads (upper_hex (suc width) n)
upper_hex-Leads zero n = (n % 16, [], omega arith, refl)
upper_hex-Leads (suc width) n =
    let (d, t, h, e) = upper_hex-Leads width (n / 16) in
    (d, t ++ (upper_digit (n % 16) ∷ []), h, ap (λ s. s ++ (upper_digit (n % 16) ∷ [])) e)

trim_hash-other : (c : ℕ) (t : Text) → (c == b'#') ≡ false → trim_hash (c ∷ t) ≡ c ∷ t
trim_hash-other c t e = ap (λ b. if b then trim_hash t else (c ∷ t)) e

from_str_radix-other :
    (c : ℕ) (t : Text) → (c == b'+') ≡ false → from_str_radix (c ∷ t) ≡ hex_digits 0 (c ∷ t)
from_str_radix-other c [] e = refl
from_str_radix-other c (d ∷ t) e =
    ap (λ b. if b then hex_digits 0 (d ∷ t) else hex_digits 0 (c ∷ d ∷ t)) e

upper_digit_plain :
    (d : ℕ) → d < 16 → ((upper_digit d == b'#') ≡ false) × ((upper_digit d == b'+') ≡ false)
upper_digit_plain d h = (ground arith, ground arith)

from_str_radix-Leads : (s : Text) → Leads s → from_str_radix (trim_hash s) ≡ hex_digits 0 s
from_str_radix-Leads s (d, t, h, e) =
    ap (λ u. from_str_radix (trim_hash u)) e
    ∙ ap from_str_radix (trim_hash-other (upper_digit d) t (upper_digit_plain d h).0)
    ∙ from_str_radix-other (upper_digit d) t (upper_digit_plain d h).1
    ∙ ap (hex_digits 0) (sym e)

append_nil : (s : Text) → s ++ [] ≡ s
append_nil [] = refl
append_nil (c ∷ s) = ap (λ u. c ∷ u) (append_nil s)

parse-upper_hex :
    (width n : ℕ)
    → n < 16 ^ suc width
    → n < 2 ^ 32
    → from_str_radix (trim_hash (upper_hex (suc width) n)) ≡ some n
parse-upper_hex width n b h =
    from_str_radix-Leads (upper_hex (suc width) n) (upper_hex-Leads width n)
    ∙ ap (hex_digits 0) (sym (append_nil (upper_hex (suc width) n)))
    ∙ hex_digits-upper_hex (suc width) n [] b h

parse-padded_hex : (n : ℕ) → n < 2 ^ 32 → from_str_radix (trim_hash (padded_hex n)) ≡ some n
parse-padded_hex n h = elim (Bool-cases (ltb n (2 ^ 24))) [
  | inl e ↦
      ap
        (λ b. from_str_radix (
          trim_hash
            (if b then upper_hex 6 n else if ltb n (2 ^ 28) then upper_hex 7 n else upper_hex 8 n)))
        e
      ∙ parse-upper_hex 5 n (ground arith) h
  | inr e ↦ elim (Bool-cases (ltb n (2 ^ 28))) [
    | inl f ↦
        ap
          (λ b. from_str_radix (
            trim_hash (
              if b
              then upper_hex 6 n
              else if ltb n (2 ^ 28)
              then upper_hex 7 n
              else upper_hex 8 n)))
          e
        ∙ ap (λ b. from_str_radix (trim_hash (if b then upper_hex 7 n else upper_hex 8 n))) f
        ∙ parse-upper_hex 6 n (ground arith) h
    | inr f ↦
        ap
          (λ b. from_str_radix (
            trim_hash (
              if b
              then upper_hex 6 n
              else if ltb n (2 ^ 28)
              then upper_hex 7 n
              else upper_hex 8 n)))
          e
        ∙ ap (λ b. from_str_radix (trim_hash (if b then upper_hex 7 n else upper_hex 8 n))) f
        ∙ parse-upper_hex 7 n (ground arith) h
  ]
]

-- A color of 32 bits that is printed is parsed back as itself.
pub from_str-to_string :
    (color : Color) → color.value < 2 ^ 32 → from_str (to_string color) ≡ some color
unfolding from_str to_string
from_str-to_string color h =
    ap (λ o. elim o as (λ _. Option Color) [ none ↦ none | some n ↦ some (record { value = n }) ])
      (parse-padded_hex color.value h)

-- `from_rgb` of three bytes is the number that is printed as red, green and blue only when blue is
-- zero and red is green: it puts blue into the fourth byte.
pub from_rgb_iff :
    (r g b : ℕ)
    → r < 256
    → g < 256
    → b < 256
    → ((from_rgb r g b).value ≡ 2 ^ 16 * r + 2 ^ 8 * g + b) ↔ ((b ≡ 0) × (r ≡ g))
unfolding from_rgb
from_rgb_iff r g b hr hg hb = (λ e. (omega arith, omega arith), λ (e, f). omega arith)
