-- ===== src/Pluralkit/Util.antt =====
-- Members, system references and colors (crates/tulpje-mod-pluralkit/src/util.rs).
use tulpje.Prelude.{
  ℕ, Bool, not, ◌&&◌, ◌||◌, Option, none, some, [], ◌∷◌, ◌+◌, leb, ltb, ◌==◌, if◌then◌else◌, Text,
  map, filter,
}
use tulpje.Framework.Color.{Color, from_str as color_from_str, default_color}

-- The fields of PluralKit's member that the module reads.
pub record Member : Type 0 where
  pub uuid : ℕ
  pub name : Text
  pub display_name : Option Text
  pub color : Option Text

unfoldable pub get_member_name : Member → Text
get_member_name member = elim member.display_name [ none ↦ member.name | some name ↦ name ]

-- Unicode's White_Space, which `trim` removes at both ends.
abbrev pub is_whitespace : ℕ → Bool
is_whitespace c =
    (leb 9 c && leb c 13)
    || (c == 32)
    || (c == 133)
    || (c == 160)
    || (c == 5760)
    || (leb 8192 c && leb c 8202)
    || (c == 8232)
    || (c == 8233)
    || (c == 8239)
    || (c == 8287)
    || (c == 12288)

abbrev pub trim_start : Text → Text
trim_start [] = []
trim_start (c ∷ s) = let rest = trim_start s in if is_whitespace c then rest else (c ∷ s)

abbrev pub cons_trimmed : ℕ → Text → Text
cons_trimmed c [] = if is_whitespace c then [] else (c ∷ [])
cons_trimmed c (d ∷ s) = c ∷ d ∷ s

abbrev pub trim_end : Text → Text
trim_end [] = []
trim_end (c ∷ s) = cons_trimmed c (trim_end s)

abbrev pub to_ascii_lowercase : ℕ → ℕ
to_ascii_lowercase c = if leb b'A' c && leb c b'Z' then c + 32 else c

unfoldable pub normalize_short_id : Text → Text
normalize_short_id s =
    map to_ascii_lowercase (filter (λ c. not (c == b'-')) (trim_end (trim_start s)))

-- `str::len` counts the bytes of the UTF-8.
abbrev pub len_utf8 : ℕ → ℕ
len_utf8 c = if ltb c 128 then 1 else if ltb c 2048 then 2 else if ltb c 65536 then 3 else 4

abbrev pub byte_len : Text → ℕ
byte_len [] = 0
byte_len (c ∷ s) = len_utf8 c + byte_len s

pub data SystemRef : Type 0 where
  discord_id : ℕ → SystemRef
  uuid : ℕ → SystemRef
  id : Text → SystemRef

-- `Id::<UserMarker>::from_str` and `Uuid::from_str`, and their printing.
pub record RefText : Type 0 where
  pub parse_id : Text → Option ℕ
  pub parse_uuid : Text → Option ℕ
  pub print_id : ℕ → Text
  pub print_uuid : ℕ → Text

abbrev pub from_long : RefText → Text → Option SystemRef
from_long refs s = elim (refs.parse_id s) [
  | some discord ↦ some (discord_id discord)
  | none ↦ elim (refs.parse_uuid s) [ some u ↦ some (uuid u) | none ↦ none ]
]

abbrev pub from_normalized : RefText → Text → Text → Option SystemRef
from_normalized refs s normalized =
    if leb 5 (byte_len normalized) && leb (byte_len normalized) 6
    then some (id normalized)
    else from_long refs s

unfoldable pub from_str : RefText → Text → Option SystemRef
from_str refs s =
    if leb 5 (byte_len s) && leb (byte_len s) 7
    then from_normalized refs s (normalize_short_id s)
    else from_long refs s

unfoldable pub to_string : RefText → SystemRef → Text
to_string refs (id s) = s
to_string refs (discord_id user) = refs.print_id user
to_string refs (uuid u) = refs.print_uuid u

unfoldable pub pk_color_to_discord : Option Text → ℕ
pk_color_to_discord none = default_color.value
pk_color_to_discord (some hex) =
    (elim (color_from_str hex) as (λ _. Color) [ none ↦ default_color | some color ↦ color ]).value
