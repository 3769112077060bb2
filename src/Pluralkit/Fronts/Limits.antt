-- ===== src/Pluralkit/Fronts/Limits.antt =====
-- No guild follows too many systems, or one of them twice
-- (crates/tulpje-mod-pluralkit/src/notify/add.rs).
use tulpje.Prelude.{
  ℕ, Bool, ◌&&◌, List, [], ◌∷◌, ◌≡◌, ◌≤◌, ◌<◌, ◌+◌, subst, arith, length, filter, ◌==◌, Bool-cases,
  inl, inr, ==_iff, if◌then◌else◌,
}
use tulpje.Pluralkit.Database.Tables.{NotifySystemRow}
use tulpje.Pluralkit.Database.Systems.{upsert}
use tulpje.Pluralkit.Database.Notify.{is_follow}

abbrev pub of_guild : ℕ → List NotifySystemRow → ℕ
of_guild guild fs = length (filter (λ f. f.guild_id == guild) fs)

abbrev pub times : ℕ → ℕ → List NotifySystemRow → ℕ
times guild system fs = length (filter (is_follow guild system) fs)

-- At most fifty follows in a guild, each once.
pub record IsBounded (fs : List NotifySystemRow) : Type 0 where
  pub limited : (guild : ℕ) → of_guild guild fs ≤ 50
  pub once : (guild system : ℕ) → times guild system fs ≤ 1

filter-filter-le :
    (p q : NotifySystemRow → Bool) (fs : List NotifySystemRow)
    → length (filter p (filter q fs)) ≤ length (filter p fs)
filter-filter-le p q [] = omega arith
filter-filter-le p q (f ∷ fs) = ground (arith, filter-filter-le p q fs)

pub filter-IsBounded :
    (p : NotifySystemRow → Bool) (fs : List NotifySystemRow)
    → IsBounded fs
    → IsBounded (filter p fs)
filter-IsBounded p fs h = record {
  limited =
      λ guild. omega (arith, h.limited guild, filter-filter-le (λ f. f.guild_id == guild) p fs);
  once = λ guild system.
      omega (arith, h.once guild system, filter-filter-le (is_follow guild system) p fs);
}

-- The rows after `add_notify_system`.
abbrev pub with_follow : ℕ → ℕ → List NotifySystemRow → List NotifySystemRow
with_follow guild system =
    upsert (is_follow guild system) (λ f. record f { system_uuid = system })
      (record { guild_id = guild; system_uuid = system })

of_guild-with_follow :
    (g guild system : ℕ) (fs : List NotifySystemRow)
    → of_guild g (with_follow guild system fs) ≤ of_guild g fs + (if guild == g then 1 else 0)
of_guild-with_follow g guild system [] = ground arith
of_guild-with_follow g guild system (f ∷ fs) =
    ground (arith, of_guild-with_follow g guild system fs)

times-with_follow-other :
    (g s guild system : ℕ) (fs : List NotifySystemRow)
    → times g s (with_follow guild system fs)
      ≤ times g s fs + (if guild == g && system == s then 1 else 0)
times-with_follow-other g s guild system [] = ground arith
times-with_follow-other g s guild system (f ∷ fs) =
    ground (arith, times-with_follow-other g s guild system fs)

times-with_follow-same :
    (guild system : ℕ) (fs : List NotifySystemRow)
    → times guild system fs ≤ 1
    → times guild system (with_follow guild system fs) ≤ 1
times-with_follow-same guild system [] h = ground arith
times-with_follow-same guild system (f ∷ fs) h =
    ground (arith, times-with_follow-same guild system fs)

times-with_follow :
    (g s guild system : ℕ) (fs : List NotifySystemRow)
    → times g s fs ≤ 1
    → times g s (with_follow guild system fs) ≤ 1
times-with_follow g s guild system fs h = elim (Bool-cases (guild == g && system == s)) [
  | inl e ↦
      subst (λ g. times g s (with_follow guild system fs) ≤ 1) ((==_iff guild g).0 (ground arith))
        (subst (λ s. times guild s (with_follow guild system fs) ≤ 1)
          ((==_iff system s).0 (ground arith))
          (times-with_follow-same guild system fs (
            let a : guild ≡ g = (==_iff guild g).0 (ground arith) in
            let b : system ≡ s = (==_iff system s).0 (ground arith) in rw (a, b) h)))
  | inr e ↦
      let t : times g s (with_follow guild system fs) ≤ times g s fs + 0 =
        rw e at (times-with_follow-other g s guild system fs) in
      omega arith
]

pub with_follow-IsBounded :
    (guild system : ℕ) (fs : List NotifySystemRow)
    → IsBounded fs
    → of_guild guild fs < 50
    → IsBounded (with_follow guild system fs)
with_follow-IsBounded guild system fs h room = record {
  limited =
      λ g. ground (arith, of_guild-with_follow g guild system fs, h.limited g, ==_iff guild g);
  once = λ g s. times-with_follow g s guild system fs (h.once g s);
}
