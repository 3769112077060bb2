-- ===== src/Tests/Roles.antt =====
-- The counters and the second run of the role update (crates/tulpje-mod-pluralkit/src/roles), and
-- colors (crates/tulpje-framework/src/color.rs), at concrete inputs.
use mathlib.Core.List.{Memᴰ}
use tulpje.Prelude.{
  ℕ, Bool, true, false, Option, none, some, List, [], ◌∷◌, ◌≡◌, ◌≢◌, refl, sym, ap, ◌∙◌, arith,
  ◌==◌, if◌then◌else◌, Text, text, ==_iff, same, same→eq, same→neq, if-rule, ◌↔◌, ◌+◌, ◌*◌, ◌^◌,
  ◌||◌, is_some, subst,
}
use tulpje.Framework.Color.{from_rgb, from_str, to_string}
use tulpje.Framework.ColorText.{from_str-to_string, from_rgb_iff}
use tulpje.Pluralkit.Util
use tulpje.Pluralkit.ShortId.{IsShort, from_str-IsShort}
use tulpje.Pluralkit.Util.{Member, RefText, get_member_name, pk_color_to_discord}
use tulpje.Pluralkit.Roles.Stats.{role_change_message}
use tulpje.Pluralkit.Roles.Ops.{
  Role, MemberRole, desired_role, get_desired_roles, get_current_roles, get_role_ops,
}
use tulpje.Pluralkit.Roles.Run.{RoleApi}
use tulpje.Pluralkit.Roles.Discord.{Look, look, Documented, Exactly}
use tulpje.Pluralkit.Roles.Converge.{Enumerates}
use tulpje.Pluralkit.Roles.Update.{UniqueAlters, Snapshot, Updated}
use tulpje.Pluralkit.Roles.Settled.{Updated-get_role_ops}

from_str-to_string_example :
    from_str (to_string (record { value = 15658734 })) ≡ some (record { value = 15658734 })
from_str-to_string_example = from_str-to_string (record { value = 15658734 }) (omega arith)

from_rgb_iff_example :
    ((from_rgb 255 0 0).value ≡ 2 ^ 16 * 255 + 2 ^ 8 * 0 + 0)
    ↔ (◌≡◌ {A = ℕ} 0 0 × ◌≡◌ {A = ℕ} 255 0)
from_rgb_iff_example = from_rgb_iff 255 0 0 (omega arith) (omega arith) (omega arith)

abbrev ann : Text
ann = text "Ann (Alter)"

abbrev settled_members : List Member
settled_members = record { uuid = 11; name = text "Ann"; display_name = none; color = none } ∷ []

abbrev settled_roles : List Role
settled_roles = record { id = 1; name = ann; color = 10070709; mentionable = true } ∷ []

-- A guild with the one role, in which every call fails.
abbrev Shows : Type 0
Shows = ℕ → Option Look

abbrev shows : Shows → ℕ → Option Look
shows g = g

abbrev settled_guild : Shows
settled_guild i = if i == 1 then some (look ann 10070709 true) else none

abbrev silent_api : RoleApi Shows
silent_api = record {
  update_role = λ _ _ _ _. none;
  create_role = λ _ _ _ _. none;
  delete_role = λ _ _. none;
  add_member_role = λ _ g. some g;
}

none≢some_shows : (g : Shows) → none ≢ some g
none≢some_shows g e = ground arith

none≢some_created : (p : Shows × Option ℕ) → none ≢ some p
none≢some_created p e = ground arith

none≢some_look : (l : Look) → none ≢ some l
none≢some_look l e = ground arith

silent_documented : Documented silent_api shows
silent_documented = record {
  updates = λ id color m g g' e i. elim (none≢some_shows g' e) [ ];
  creates = λ name color m g g' id e. elim (none≢some_created (g', some id) e) [ ];
  deletes = λ id g g' e i. elim (none≢some_shows g' e) [ ];
  assigns =
      λ id g g' e i. sym (ap (λ o. elim o as (λ _. Option Look) [ none ↦ none | some h ↦ h i ]) e);
}

settled_look :
    (i : ℕ) (l : Look) → settled_guild i ≡ some l → (i ≡ 1) × (look ann 10070709 true ≡ l)
settled_look i l =
    if-rule (λ o. o ≡ some l → (i ≡ 1) × (look ann 10070709 true ≡ l)) (i == 1) _ _
      (λ e f. ((==_iff i 1).0 e, ap (λ o. elim o as (λ _. Look) [ none ↦ l | some m ↦ m ]) f))
      (λ _ f. elim (none≢some_look l f) [ ])

settled_Updated :
    Updated shows silent_api silent_documented settled_members settled_guild settled_guild
unfolding get_desired_roles desired_role get_member_name pk_color_to_discord
settled_Updated = (
  λ k a.
      if-rule (Exactly shows settled_guild k) (same k ann) _ _
        (λ e. (
          1,
          (
            ap (λ j. some (look j 10070709 true)) (sym (same→eq k ann e)),
            λ j l f n. (settled_look j l f).0,
          ),
        ))
        (λ e i l f n. same→neq k ann e (sym n ∙ ap (λ m. m.name) (sym (settled_look i l f).1))),
  λ i l a. (λ e. e, λ e. e),
)

settled_Snapshot : Snapshot shows settled_guild settled_roles
settled_Snapshot = record {
  listed = listed;
  complete = λ i l e.
      let (at, is) = settled_look i l e in (_, Memᴰ.head refl, sym at, ap (λ m. m.name) is);
}
  where
    shown : Role → Type 0
    shown r = settled_guild r.id ≡ some (look r.name r.color r.mentionable)

    listed : (r : Role) → Memᴰ r settled_roles → shown r
    listed r (Memᴰ.head q) = subst shown (sym q) refl
    listed r (Memᴰ.tail h) = elim h [ ]

settled_UniqueAlters : UniqueAlters settled_roles
settled_UniqueAlters r s (Memᴰ.head p) (Memᴰ.head q) a e = ap (λ r. r.id) (p ∙ sym q)
settled_UniqueAlters r s (Memᴰ.tail h) j a e = elim h [ ]
settled_UniqueAlters r s (Memᴰ.head p) (Memᴰ.tail h) a e = elim h [ ]

settled_order :
    (a : Bool) (x u : MemberRole)
    → (is_some (if a then some x else none) || is_some (if a then some u else none)) ≡ (a || false)
settled_order true x u = refl
settled_order false x u = refl

settled_Enumerates :
    Enumerates (ann ∷ []) (get_current_roles settled_roles) (get_desired_roles settled_members)
unfolding get_current_roles get_desired_roles desired_role get_member_name
settled_Enumerates = record {
  distinct = (refl, tt);
  keys_only = λ k h. settled_order (same k ann) _ _ ∙ h;
  all_keys = λ k h. sym (settled_order (same k ann) _ _) ∙ h;
}

Updated-get_role_ops_example :
    get_role_ops (ann ∷ []) (get_current_roles settled_roles) (get_desired_roles settled_members)
    ≡ some []
Updated-get_role_ops_example =
    Updated-get_role_ops shows silent_api silent_documented settled_members settled_guild
      settled_guild settled_roles (ann ∷ []) settled_Updated settled_Snapshot settled_UniqueAlters
      settled_Enumerates

abbrev no_refs : RefText
no_refs = record {
  parse_id = λ _. none;
  parse_uuid = λ _. none;
  print_id = λ _. [];
  print_uuid = λ _. [];
}

from_str-IsShort_example : IsShort (Util.from_str no_refs (text "ABC-de"))
from_str-IsShort_example = from_str-IsShort no_refs (text "ABC-de")

short_run : Util.from_str no_refs (text "ABC-de") ≡ some (Util.id (text "abcde"))
unfolding Util.from_str Util.normalize_short_id
short_run = refl

message_run :
    role_change_message (record { create = 1; update = 2; delete = 0; assign = 1 }) (text "will be")
    ≡ text "1 role will be created, 2 will be updated, 1 will be assigned"
unfolding role_change_message
message_run = refl
