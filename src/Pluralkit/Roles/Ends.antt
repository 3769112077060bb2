-- ===== src/Pluralkit/Roles/Ends.antt =====
-- The ends of the command `pk roles update`: its replies and prompts, and the limit of roles
-- (crates/tulpje-mod-pluralkit/src/roles/update.rs, `handle`).
use tulpje.Prelude.{
  ℕ, Bool, true, false, Option, none, some, ◌≢◌, ap, arith, ◌+◌, ◌≤◌, if◌then◌else◌, Text, ltb, leb,
  ◌-◌, inl, inr, Bool-cases, if-rule,
}
use tulpje.Pluralkit.Roles.Run.{Progress}
use tulpje.Pluralkit.Roles.Step.{Landed}
use tulpje.Pluralkit.Roles.Messages.{
  Limit, over_limit, near_limit, within_limit, check_limit, discord_role_limit,
  remaining_role_warning,
}
use tulpje.Pluralkit.Roles.Handle.{
  Env, Outcome, panicked, failed, told, canceled, updated_roles, finish, ask, reply,
}
use tulpje.Pluralkit.Roles.Messages.{success_message}

-- The command does not panic, and where it updates, the property holds.
abbrev pub Ends : {G : Type 0} → (Progress G → Type 0) → Outcome G → Type 0
Ends P panicked = ⊥
Ends P failed = Unit {0}
Ends P (told _) = Unit {0}
Ends P canceled = Unit {0}
Ends P (updated_roles p) = P p

abbrev near_limit_or : ℕ → Limit
near_limit_or total =
    if leb (discord_role_limit - remaining_role_warning) total then near_limit else within_limit

pub check_limit-le : (a b : ℕ) → check_limit a b ≢ over_limit → a + b ≤ discord_role_limit
unfolding check_limit
check_limit-le a b h = elim (Bool-cases (ltb discord_role_limit (a + b))) [
  | inl e ↦ elim (h (ap (λ c. if c then over_limit else near_limit_or (a + b)) e)) [ ]
  | inr e ↦ ground arith
]

module _ {G : Type 0} (env : Env G) where
  pub finish-Ends :
      (P : Progress G → Type 0) (o : Option (Progress G)) → Landed P o → Ends P (finish env o)
  finish-Ends P none h = tt
  finish-Ends P (some p) h =
      if-rule (Ends P) (env.delivers (success_message p.done)) (updated_roles p) failed (λ _. h)
        (λ _. tt)

  pub reply-Ends : (P : Progress G → Type 0) (message : Text) → Ends P (reply env message)
  unfolding reply
  reply-Ends P message =
      if-rule (Ends P) (env.delivers message) (told message) failed (λ _. tt) (λ _. tt)

  pub ask-Ends :
      (P : Progress G → Type 0) (answer : Option Bool) (go_on : Outcome G)
      → Ends P go_on
      → Ends P (ask env answer go_on)
  ask-Ends P none go_on h = tt
  ask-Ends P (some false) go_on h = tt
  ask-Ends P (some true) go_on h = h
