-- ===== src/Pluralkit/Roles/Ops.antt =====
-- The current and the desired roles of a guild and the operations that lead from the one to the
-- other (crates/tulpje-mod-pluralkit/src/roles/update.rs).
use tulpje.Prelude.{
  ℕ, Bool, true, false, not, ◌||◌, Option, none, some, List, [], ◌∷◌, ◌++◌, ◌==◌, if◌then◌else◌,
  Text, text, before, ends_with, get, collect, map, filter, ◌%◌, ◌^◌, ◌+◌,
}
use tulpje.Pluralkit.Util.{Member, get_member_name, pk_color_to_discord}

-- The fields of Discord's role that the module reads.
pub record Role : Type 0 where
  pub id : ℕ
  pub name : Text
  pub color : ℕ
  pub mentionable : Bool

pub record MemberRole : Type 0 where
  pub role_id : Option ℕ
  pub uuid : Option ℕ
  pub name : Text
  pub color : ℕ
  pub mentionable : Bool

abbrev pub same_bool : Bool → Bool → Bool
same_bool true b = b
same_bool false b = not b

unfoldable pub should_update : MemberRole → MemberRole → Bool
should_update current desired =
    not (current.color == desired.color) || not (same_bool current.mentionable desired.mentionable)

pub data ChangeOperation : Type 0 where
  create : (name : Text) (uuid color : ℕ) → ChangeOperation
  delete : (id : ℕ) → ChangeOperation
  update : (id color : ℕ) (mentionable : Bool) → ChangeOperation

abbrev pub RoleMap : Type 0
RoleMap = List (Text × MemberRole)

abbrev pub alter : Text
alter = text " (Alter)"

-- A member's role: the name up to its first parenthesis, and the color.
unfoldable pub desired_role : Member → MemberRole
desired_role member = record {
  role_id = none;
  uuid = some member.uuid;
  name = before (text " (") (get_member_name member) ++ alter;
  color = pk_color_to_discord member.color;
  mentionable = true;
}

abbrev pub named : MemberRole → Text × MemberRole
named role = (role.name, role)

unfoldable pub get_desired_roles : List Member → RoleMap
get_desired_roles members = collect (map (λ m. named (desired_role m)) members)

abbrev pub current_role : Role → MemberRole
current_role role = record {
  role_id = some role.id;
  uuid = none;
  name = role.name;
  color = role.color;
  mentionable = role.mentionable;
}

unfoldable pub get_current_roles : List Role → RoleMap
get_current_roles roles =
    collect (map (λ r. named (current_role r)) (filter (λ r. ends_with alter r.name) roles))

abbrev pub with_id : (ℕ → ChangeOperation) → Option ℕ → Option (Option ChangeOperation)
with_id op none = none
with_id op (some id) = some (some (op id))

-- `unwrap_or_default` of a UUID.
abbrev pub uuid_or_nil : Option ℕ → ℕ
uuid_or_nil none = 0
uuid_or_nil (some uuid) = uuid

-- The match on a name's current and desired role; `none` is a panic.
unfoldable pub role_op : Option MemberRole → Option MemberRole → Option (Option ChangeOperation)
role_op (some current) (some desired) =
    if should_update current desired
    then with_id (λ id. update id desired.color desired.mentionable) current.role_id
    else some none
role_op none (some desired) =
    some (some (create desired.name (uuid_or_nil desired.uuid) desired.color))
role_op (some current) none = with_id delete current.role_id
role_op none none = none

abbrev pub push_op :
    Option (Option ChangeOperation) → Option (List ChangeOperation) → Option (List ChangeOperation)
push_op none rest = none
push_op (some o) none = none
push_op (some none) (some ops) = some ops
push_op (some (some op)) (some ops) = some (op ∷ ops)

-- `get_role_ops` on the order in which the set of both maps' keys hands out its names.
unfoldable pub get_role_ops : List Text → RoleMap → RoleMap → Option (List ChangeOperation)
get_role_ops [] current desired = some []
get_role_ops (name ∷ order) current desired =
    push_op (role_op (get name current) (get name desired)) (get_role_ops order current desired)

-- The counts (create, delete, update), of 16 bits each.
abbrev pub count_op : ChangeOperation → ℕ × ℕ × ℕ → ℕ × ℕ × ℕ
count_op (create _ _ _) (created, deleted, updated) = ((created + 1) % 2 ^ 16, deleted, updated)
count_op (delete _) (created, deleted, updated) = (created, (deleted + 1) % 2 ^ 16, updated)
count_op (update _ _ _) (created, deleted, updated) = (created, deleted, (updated + 1) % 2 ^ 16)

unfoldable pub count_ops : List ChangeOperation → ℕ × ℕ × ℕ → ℕ × ℕ × ℕ
count_ops [] counts = counts
count_ops (op ∷ ops) counts = count_ops ops (count_op op counts)
