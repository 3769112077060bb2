-- ===== src/Pluralkit/ShortId.antt =====
-- Short identifiers of systems (crates/tulpje-mod-pluralkit/src/util.rs, `SystemRef::from_str`).
use tulpje.Prelude.{
  ℕ, Bool, true, false, not, ◌&&◌, Option, none, some, [], ◌∷◌, ◌≡◌, refl, arith, ◌≤◌, ◌==◌, leb,
  if-rule, Option-rule, Text, All, map, filter,
}
use tulpje.Pluralkit.Util.{
  to_ascii_lowercase, normalize_short_id, trim_start, trim_end, byte_len, SystemRef, id, uuid,
  discord_id, RefText, from_long, from_normalized, from_str,
}

-- A character of a normalized identifier: no hyphen and no letter from A to Z.
abbrev pub Plain : ℕ → Type 0
Plain c = ((c == b'-') ≡ false) × ((leb b'A' c && leb c b'Z') ≡ false)

to_ascii_lowercase-Plain : (c : ℕ) → (c == b'-') ≡ false → Plain (to_ascii_lowercase c)
to_ascii_lowercase-Plain c h = (ground arith, ground arith)

map-Plain : (s : Text) → All Plain (map to_ascii_lowercase (filter (λ c. not (c == b'-')) s))
map-Plain [] = tt
map-Plain (c ∷ s) = go (c == b'-') refl (map-Plain s)
  where
    go :
        (b : Bool)
        → (c == b'-') ≡ b
        → All Plain (map to_ascii_lowercase (filter (λ c. not (c == b'-')) s))
        → All Plain (
            map to_ascii_lowercase (elim (not b) as (λ _. Text) [
              | true ↦ c ∷ filter (λ c. not (c == b'-')) s
              | false ↦ filter (λ c. not (c == b'-')) s
            ]))
    go true e h = h
    go false e h = (to_ascii_lowercase-Plain c e, h)

normalize_short_id-Plain : (s : Text) → All Plain (normalize_short_id s)
unfolding normalize_short_id
normalize_short_id-Plain s = map-Plain (trim_end (trim_start s))

-- A reference that is read as a short identifier has five or six bytes, without hyphens and without
-- the letters from A to Z.
abbrev pub IsShort : Option SystemRef → Type 0
IsShort (some (id t)) = (5 ≤ byte_len t) × (byte_len t ≤ 6) × All Plain t
IsShort _ = Unit {0}

from_long-IsShort : (refs : RefText) (s : Text) → IsShort (from_long refs s)
from_long-IsShort refs s =
    Option-rule IsShort (refs.parse_id s)
      (elim (refs.parse_uuid s) as (λ _. Option SystemRef) [ some u ↦ some (uuid u) | none ↦ none ])
      (λ d. some (discord_id d))
      (λ _. Option-rule IsShort (refs.parse_uuid s) none (λ u. some (uuid u)) (λ _. tt) (λ _ _. tt))
      (λ _ _. tt)

-- Whatever text a reference is read from, a short identifier that comes out of it has five or six
-- bytes, and neither a hyphen nor a letter from A to Z.
pub from_str-IsShort : (refs : RefText) (s : Text) → IsShort (from_str refs s)
unfolding from_str
from_str-IsShort refs s =
    if-rule IsShort (leb 5 (byte_len s) && leb (byte_len s) 7)
      (from_normalized refs s (normalize_short_id s)) (from_long refs s)
      (λ _.
        if-rule IsShort
          (leb 5 (byte_len (normalize_short_id s)) && leb (byte_len (normalize_short_id s)) 6)
          (some (id (normalize_short_id s))) (from_long refs s)
          (λ e. (ground arith, ground arith, normalize_short_id-Plain s))
          (λ _. from_long-IsShort refs s))
      (λ _. from_long-IsShort refs s)
