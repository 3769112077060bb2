-- ===== src/Pluralkit/Roles/Messages.antt =====
-- The limits of a guild's roles and the messages about them
-- (crates/tulpje-mod-pluralkit/src/roles: constants.rs, prompts.rs, update.rs).
use tulpje.Prelude.{
  ℕ, ◌++◌, ◌+◌, ◌-◌, ◌==◌, ltb, leb, if◌then◌else◌, Text, text, decimal, String, [],
}
use tulpje.Pluralkit.Roles.Stats.{UpdateCounts, role_change_message}

abbrev pub discord_role_limit : ℕ
discord_role_limit = 250

abbrev pub remaining_role_warning : ℕ
remaining_role_warning = 10

-- A number of 64 bits.
abbrev pub number : ℕ → Text
number n = decimal 20 n

abbrev pub noun : ℕ → String → String → Text
noun n one many = if n == 1 then text one else text many

unfoldable pub role_limit_message : ℕ → ℕ → Text
role_limit_message member_count existing_role_count =
    let combined_count = member_count + existing_role_count in
    text "### Error\nThis server currently has "
    ++ number existing_role_count
    ++ text " "
    ++ noun existing_role_count "role" "roles"
    ++ text ", adding roles for "
    ++ number member_count
    ++ text " sytem "
    ++ noun member_count "member" "members"
    ++ text " would leave you with "
    ++ number combined_count
    ++ text " "
    ++ noun combined_count "role" "roles"
    ++ text " which is "
    ++ number (combined_count - discord_role_limit)
    ++ text " more than discord's limit of "
    ++ number discord_role_limit
    ++ text " roles"

unfoldable pub near_limit_message : ℕ → ℕ → Text
near_limit_message system_member_count existing_role_count =
    let combined_count = system_member_count + existing_role_count in
    let remaining_count = discord_role_limit - combined_count in
    text "### Warning\nThis server currently has "
    ++ number existing_role_count
    ++ text " "
    ++ noun existing_role_count "role" "roles"
    ++ text ", adding roles for "
    ++ number system_member_count
    ++ text " sytem "
    ++ noun system_member_count "member" "members"
    ++ text " would leave you with "
    ++ number combined_count
    ++ text " "
    ++ noun combined_count "role" "roles"
    ++ text " which is close to discord's limit of "
    ++ number discord_role_limit
    ++ text " roles,leaving you with "
    ++ number remaining_count
    ++ text " remaining "
    ++ noun remaining_count "role" "roles"
    ++ text ", is that okay?"

unfoldable pub confirm_message : UpdateCounts → Text
confirm_message total = text "### Update Roles?\n" ++ role_change_message total (text "will be")

unfoldable pub success_message : UpdateCounts → Text
success_message counts = text "### Member Roles Updated\n" ++ role_change_message counts []

pub data Limit : Type 0 where
  over_limit : Limit
  near_limit : Limit
  within_limit : Limit

-- The command's checks of members and of the roles that are not members' roles.
unfoldable pub check_limit : ℕ → ℕ → Limit
check_limit system_member_count roles_without_member_roles =
    let total_roles_with_members = system_member_count + roles_without_member_roles in
    if ltb discord_role_limit total_roles_with_members
    then over_limit
    else if leb (discord_role_limit - remaining_role_warning) total_roles_with_members
    then near_limit
    else within_limit
