-- ===== src/Framework/Color.antt =====
-- Colors and their hexadecimal form (crates/tulpje-framework/src/color.rs).
use tulpje.Prelude.{
  ℕ, zero, suc, true, false, Option, none, some, [], ◌∷◌, ◌++◌, ◌+◌, ◌-◌, ◌*◌, ◌/◌, ◌%◌, ◌^◌, ltb,
  leb, ◌==◌, ◌&&◌, if◌then◌else◌, Text,
}

pub record Color : Type 0 where
  pub value : ℕ

abbrev pub default_color : Color
default_color = record { value = 10070709 }

-- `u32::from_le_bytes([0, r, g, b])`.
unfoldable pub from_rgb : ℕ → ℕ → ℕ → Color
from_rgb r g b = record { value = 0 + 2 ^ 8 * r + 2 ^ 16 * g + 2 ^ 24 * b }

-- `trim_start_matches("#")`.
abbrev pub trim_hash : Text → Text
trim_hash [] = []
trim_hash (c ∷ s) = let rest = trim_hash s in if c == b'#' then rest else (c ∷ s)

abbrev pub hex_digit : ℕ → Option ℕ
hex_digit c =
    if leb b'0' c && leb c b'9'
    then some (c - b'0')
    else if leb b'a' c && leb c b'f'
    then some (c - b'a' + 10)
    else if leb b'A' c && leb c b'F'
    then some (c - b'A' + 10)
    else none

-- The digits of `u32::from_str_radix(_, 16)`, with the overflow of 32 bits as an error.
abbrev pub hex_digits : ℕ → Text → Option ℕ
hex_digits acc [] = some acc
hex_digits acc (c ∷ s) = elim (hex_digit c) [
  | none ↦ none
  | some d ↦ elim (ltb (acc * 16 + d) (2 ^ 32)) [
    | true ↦ hex_digits (acc * 16 + d) s
    | false ↦ none
  ]
]

-- `u32::from_str_radix(_, 16)`: an empty text and a lone sign are errors, and a plus may lead.
abbrev pub from_str_radix : Text → Option ℕ
from_str_radix [] = none
from_str_radix (c ∷ []) = hex_digits 0 (c ∷ [])
from_str_radix (c ∷ d ∷ s) = if c == b'+' then hex_digits 0 (d ∷ s) else hex_digits 0 (c ∷ d ∷ s)

unfoldable pub from_str : Text → Option Color
from_str s = elim (from_str_radix (trim_hash s)) [
  | none ↦ none
  | some n ↦ some (record { value = n })
]

abbrev pub upper_digit : ℕ → ℕ
upper_digit d = if ltb d 10 then b'0' + d else b'A' + (d - 10)

-- The last `width` hexadecimal digits.
abbrev pub upper_hex : ℕ → ℕ → Text
upper_hex zero n = []
upper_hex (suc width) n = upper_hex width (n / 16) ++ (upper_digit (n % 16) ∷ [])

-- `{:06X}` of a 32-bit number: eight digits at most, of which the first two are written when they
-- are needed.
abbrev pub padded_hex : ℕ → Text
padded_hex n =
    if ltb n (2 ^ 24)
    then upper_hex 6 n
    else if ltb n (2 ^ 28)
    then upper_hex 7 n
    else upper_hex 8 n

unfoldable pub to_string : Color → Text
to_string color = b'#' ∷ padded_hex color.value
