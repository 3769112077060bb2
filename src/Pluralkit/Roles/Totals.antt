-- ===== src/Pluralkit/Roles/Totals.antt =====
-- Carrying out the operations when every call answers, and what is counted then
-- (crates/tulpje-mod-pluralkit/src/roles/update.rs, `handle`).
use tulpje.Prelude.{
  ℕ, suc, Bool, true, Option, none, some, List, [], ◌∷◌, ◌≡◌, refl, sym, ap, ◌∙◌, subst, arith,
  Text,
}
use tulpje.Pluralkit.Roles.Stats.{UpdateCounts}
use tulpje.Pluralkit.Roles.Ops.{ChangeOperation, create, delete, update, count_op, count_ops}
use tulpje.Pluralkit.Roles.Run.{
  RoleApi, Progress, run_op, run_ops, report, updated, created, deleted,
}
use tulpje.Pluralkit.Roles.Converge.{Returns}

-- The counters as `count_ops` orders them.
abbrev pub counted : UpdateCounts → ℕ × ℕ × ℕ
counted counts = (counts.create, counts.delete, counts.update)

module _ {G : Type 0} (api : RoleApi G) where
  -- No call on the guild's roles fails.
  pub record Answering : Type 0 where
    pub updates :
        (id color : ℕ) (m : Bool) (g : G) → (g' : G) × (api.update_role id color m g ≡ some g')
    pub creates :
        (name : Text) (color : ℕ) (m : Bool) (g : G)
        → (g' : G) × (id : ℕ) × (api.create_role name color m g ≡ some (g', some id))
    pub deletes : (id : ℕ) (g : G) → (g' : G) × (api.delete_role id g ≡ some g')

  run_op-counted :
      Answering
      → (op : ChangeOperation) (p : Progress G)
      → Returns (λ p'. counted p'.done ≡ count_op op (counted p.done)) (run_op api op p)
  unfolding run_op
  run_op-counted answers (update id color m) p =
      let (g', e) = answers.updates id color m p.guild in
      subst
        (λ o.
          Returns (λ p'. counted p'.done ≡ count_op (update id color m) (counted p.done))
            (updated api p o))
        (sym e) refl
  run_op-counted answers (create name uuid color) p =
      let (g', id, e) = answers.creates name color true p.guild in
      subst
        (λ o.
          Returns (λ p'. counted p'.done ≡ count_op (create name uuid color) (counted p.done))
            (created api name p o))
        (sym e) refl
  run_op-counted answers (delete id) p =
      let (g', e) = answers.deletes id p.guild in
      subst
        (λ o.
          Returns (λ p'. counted p'.done ≡ count_op (delete id) (counted p.done)) (deleted api p o))
        (sym e) refl

  report-done : (idx : ℕ) (p : Progress G) → (report api idx p).done ≡ p.done
  report-done idx p = ground arith

  -- When no call fails, all operations are carried out, and the counters then show as many created,
  -- deleted and updated roles as were announced before.
  run_ops-counted :
      Answering
      → (idx : ℕ) (ops : List ChangeOperation) (p : Progress G)
      → Returns (λ p'. counted p'.done ≡ count_ops ops (counted p.done)) (run_ops api idx ops p)
  unfolding run_ops count_ops
  run_ops-counted answers idx [] p = refl
  run_ops-counted answers idx (op ∷ ops) p =
      go (run_op api op p) (run_op-counted answers op p)
        (λ p'. run_ops-counted answers (suc idx) ops (report api idx p'))
    where
      go :
          (o : Option (Progress G))
          → Returns (λ p'. counted p'.done ≡ count_op op (counted p.done)) o
          → ((p₁ : Progress G)
              → Returns
                  (λ p'. counted p'.done ≡ count_ops ops (counted (report api idx p₁).done))
                  (run_ops api (suc idx) ops (report api idx p₁)))
          → Returns
              (λ p'. counted p'.done ≡ count_ops ops (count_op op (counted p.done)))
              (elim o as (λ _. Option (Progress G)) [
                | none ↦ none
                | some p' ↦ run_ops api (suc idx) ops (report api idx p')
              ])
      go none h rest = h
      go (some p₁) h rest =
          subst
            (λ c.
              Returns (λ p'. counted p'.done ≡ count_ops ops c)
                (run_ops api (suc idx) ops (report api idx p₁)))
            (ap counted (report-done idx p₁) ∙ h) (rest p₁)
