-- ===== src/Pluralkit/Roles/Stats.antt =====
-- The counters of a role update and the message made of them
-- (crates/tulpje-mod-pluralkit/src/roles/update_stats.rs and prompts.rs).
use tulpje.Prelude.{
  ℕ, Bool, true, false, List, [], ◌∷◌, ◌++◌, ◌+◌, ◌%◌, ◌^◌, ltb, ◌==◌, if◌then◌else◌, Text, text,
  decimal, join, String,
}
use tulpje.Pluralkit.Util.{trim_start, trim_end}

pub record UpdateCounts : Type 0 where
  pub create : ℕ
  pub update : ℕ
  pub delete : ℕ
  pub assign : ℕ

abbrev pub new_counts : UpdateCounts
new_counts = record { create = 0; update = 0; delete = 0; assign = 0 }

abbrev pub with_counts : ℕ → ℕ → ℕ → ℕ → UpdateCounts
with_counts create update delete assign = record {
  create = create;
  update = update;
  delete = delete;
  assign = assign;
}

-- The sum of 16-bit numbers.
unfoldable pub sum : UpdateCounts → ℕ
sum counts = (counts.create + counts.update + counts.delete + counts.assign) % 2 ^ 16

pub record UpdateStats : Type 0 where
  pub done : UpdateCounts
  pub total : UpdateCounts

unfoldable pub new_stats : ℕ → ℕ → ℕ → ℕ → UpdateStats
new_stats create update delete assign = record {
  done = new_counts;
  total = with_counts create update delete assign;
}

abbrev pub part : ℕ → String → List (ℕ × Text) → List (ℕ × Text)
part count verb rest = if ltb 0 count then ((count, text verb) ∷ rest) else rest

abbrev pub change_parts : UpdateCounts → List (ℕ × Text)
change_parts counts =
    part counts.create "created" (
      part counts.update "updated"
        (part counts.delete "deleted" (part counts.assign "assigned" [])))

-- The first part names what is counted.
abbrev pub render : Text → Bool → List (ℕ × Text) → List Text
render infix_text first [] = []
render infix_text true ((count, verb) ∷ parts) =
    (decimal 5 count
      ++ text " "
      ++ (if count == 1 then text "role" else text "roles")
      ++ text " "
      ++ infix_text
      ++ verb)
    ∷ render infix_text false parts
render infix_text false ((count, verb) ∷ parts) =
    (decimal 5 count ++ text " " ++ infix_text ++ verb) ∷ render infix_text false parts

abbrev pub spaced : Text → Text
spaced [] = []
spaced (c ∷ s) = trim_end (trim_start (c ∷ s)) ++ text " "

unfoldable pub role_change_message : UpdateCounts → Text → Text
role_change_message counts infix_text =
    join (text ", ") (render (spaced infix_text) true (change_parts counts))

abbrev pub progress_part : ℕ → ℕ → String → List (ℕ × ℕ × Text) → List (ℕ × ℕ × Text)
progress_part done total verb rest = if ltb 0 total then ((done, total, text verb) ∷ rest) else rest

-- The parts of the message that `update_role_progress` sends.
unfoldable pub progress_parts : UpdateStats → List (ℕ × ℕ × Text)
progress_parts stats = progress_part stats.done.create stats.total.create "created" (
    progress_part stats.done.update stats.total.update "updated" (
      progress_part stats.done.delete stats.total.delete "deleted"
        (progress_part stats.done.assign stats.total.assign "assigned" [])))
