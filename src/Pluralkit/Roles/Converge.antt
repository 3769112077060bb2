-- ===== src/Pluralkit/Roles/Converge.antt =====
-- Carrying out all the operations that `get_role_ops` finds
-- (crates/tulpje-mod-pluralkit/src/roles/update.rs, `get_role_ops` and `handle`).
use tulpje.Prelude.{
  ℕ, suc, true, false, Option, none, some, List, [], ◌∷◌, ◌≡◌, ◌≢◌, inl, inr, sym, ap, ◌∙◌, subst,
  arith, Text, ◌||◌, is_some, get, contains, DistinctTexts, same, same_refl, same→neq, same_neq,
  Text-cases,
}
use tulpje.Pluralkit.Roles.Ops.{ChangeOperation, RoleMap, role_op, push_op, get_role_ops}
use tulpje.Pluralkit.Roles.Run.{RoleApi, Progress, run_op, run_ops, report}
use tulpje.Pluralkit.Roles.Discord.{
  Look, Documented, Exactly, Describes, Same, SameBut, SameBut-at, Exactly-SameAt, Describes-SameAt,
}
use tulpje.Pluralkit.Roles.Step.{Landed, Fixes, StepFixes, Desires, role_op-StepFixes}

abbrev pub Returns : {A : Type 0} → (A → Type 0) → Option A → Type 0
Returns P none = ⊥
Returns P (some a) = P a

-- A set's names in the order in which it hands them out: each once, and each a key of a map.
pub record Enumerates (order : List Text) (current desired : RoleMap) : Type 0 where
  pub distinct : DistinctTexts order
  pub keys_only :
      (k : Text)
      → contains k order ≡ true
      → (is_some (get k current) || is_some (get k desired)) ≡ true
  pub all_keys :
      (k : Text)
      → (is_some (get k current) || is_some (get k desired)) ≡ true
      → contains k order ≡ true

contains_neq :
    (k j : Text) (order : List Text) → contains j order ≡ false → contains k order ≡ true → k ≢ j
contains_neq k j order f t e = ground (arith, ap (λ i. contains i order) e)

pub contains_head : (k : Text) (order : List Text) → contains k (k ∷ order) ≡ true
contains_head k order = ground (arith, same_refl k)

pub contains_or :
    (j k : Text) (order : List Text) → contains j order ≡ true → contains j (k ∷ order) ≡ true
contains_or j k order h = ground arith

pub contains-tail :
    (j k : Text) (order : List Text)
    → j ≢ k
    → contains j (k ∷ order) ≡ true
    → contains j order ≡ true
contains-tail j k order n h = ground (arith, same_neq j k n)

contains-cons :
    (j k : Text) (order : List Text)
    → contains j (k ∷ order) ≡ false
    → (same j k ≡ false) × (contains j order ≡ false)
contains-cons j k order h = (ground arith, ground arith)

module _ {G : Type 0} (role : G → ℕ → Option Look) (api : RoleApi G)
    (documented : Documented api role) where
  -- The names of the order are as desired, and the roles of all other names are as before.
  abbrev pub Fixed : List Text → RoleMap → G → G → Type 0
  Fixed order desired g g' =
      ((k : Text) → contains k order ≡ true → Exactly role g' k (get k desired))
      × ((i : ℕ) (l : Look) → contains l.name order ≡ false → Same role g g' i l)

  abbrev pub FixesAll :
      ℕ → Progress G → List Text → RoleMap → Option (List ChangeOperation) → Type 0
  FixesAll idx p order desired o =
      Returns (λ ops. Landed (λ p'. Fixed order desired p.guild p'.guild) (run_ops api idx ops p)) o

  Fixed-cons :
      (k : Text) (order : List Text) (desired : RoleMap) (g g₁ g₂ : G)
      → contains k order ≡ false
      → Exactly role g₁ k (get k desired)
      → SameBut role g g₁ k
      → Fixed order desired g₁ g₂
      → Fixed (k ∷ order) desired g g₂
  Fixed-cons k order desired g g₁ g₂ new exact but (fixed, others) = (
    λ j h. elim (Text-cases j k) [
      | inl e ↦
          subst (λ j. Exactly role g₂ j (get j desired)) (sym e)
            (Exactly-SameAt role g₁ g₂ k (get k desired)
              (λ i l n. others i l (ap (λ j. contains j order) n ∙ new)) exact)
      | inr n ↦ fixed j (contains-tail j k order n h)
    ],
    λ i l h.
        let (other, out) = contains-cons l.name k order h in
        let first = but i l (same→neq l.name k other) in
        let second = others i l out in (λ e. second.0 (first.0 e), λ e. first.1 (second.1 e)),
  )

  pub report-guild : (idx : ℕ) (p : Progress G) → (report api idx p).guild ≡ p.guild
  report-guild idx p = ground arith

  pub Landed-mono :
      (P Q : Progress G → Type 0) (o : Option (Progress G))
      → ((p : Progress G) → P p → Q p)
      → Landed P o
      → Landed Q o
  Landed-mono P Q none f h = tt
  Landed-mono P Q (some p) f h = f p h

  run_ops-cons :
      (idx : ℕ) (p : Progress G) (op : ChangeOperation) (ops : List ChangeOperation)
      (P Q : Progress G → Type 0)
      → Landed P (run_op api op p)
      → ((p' : Progress G) → P p' → Landed Q (run_ops api (suc idx) ops (report api idx p')))
      → Landed Q (run_ops api idx (op ∷ ops) p)
  unfolding run_ops
  run_ops-cons idx p op ops P Q h f = go (run_op api op p) h
    where
      go :
          (o : Option (Progress G))
          → Landed P o
          → Landed Q (elim o as (λ _. Option (Progress G)) [
            | none ↦ none
            | some p' ↦ run_ops api (suc idx) ops (report api idx p')
          ])
      go none h = tt
      go (some p') h = f p' h

  -- The pending names are described by the current map.
  abbrev pub Pending : List Text → RoleMap → G → Type 0
  Pending order current g =
      (k : Text) → contains k order ≡ true → Describes role g k (get k current)

  Pending-tail :
      (k : Text) (order : List Text) (current : RoleMap) (g g' : G)
      → contains k order ≡ false
      → SameBut role g g' k
      → Pending (k ∷ order) current g
      → Pending order current g'
  Pending-tail k order current g g' new but pending j h =
      let n = contains_neq j k order new h in
      Describes-SameAt role g g' j (get j current) (SameBut-at role g g' k j but n)
        (pending j (contains_or j k order h))

  FixesAll-cons :
      (idx : ℕ) (p : Progress G) (k : Text) (order : List Text) (desired : RoleMap)
      (o : Option (Option ChangeOperation)) (rest : Option (List ChangeOperation))
      → contains k order ≡ false
      → StepFixes role api documented p k (get k desired) o
      → ((idx : ℕ) (p' : Progress G)
          → SameBut role p.guild p'.guild k
          → FixesAll idx p' order desired rest)
      → FixesAll idx p (k ∷ order) desired (push_op o rest)
  FixesAll-cons idx p k order desired none rest new step f = elim step [ ]
  FixesAll-cons idx p k order desired (some o) none new step f =
      elim (f idx p (λ i l n. (λ e. e, λ e. e))) [ ]
  FixesAll-cons idx p k order desired (some none) (some ops) new step f =
      Landed-mono (λ p'. Fixed order desired p.guild p'.guild)
        (λ p'. Fixed (k ∷ order) desired p.guild p'.guild) (run_ops api idx ops p)
        (λ p' h.
          Fixed-cons k order desired p.guild p.guild p'.guild new step (λ i l n. (λ e. e, λ e. e))
            h)
        (f idx p (λ i l n. (λ e. e, λ e. e)))
  FixesAll-cons idx p k order desired (some (some op)) (some ops) new step f =
      run_ops-cons idx p op ops (λ p'. Fixes role api documented p.guild k (get k desired) p'.guild)
        (λ p'. Fixed (k ∷ order) desired p.guild p'.guild) step
        (λ p₁ (exact, but).
          let same_guild = report-guild idx p₁ in
          Landed-mono (λ p'. Fixed order desired (report api idx p₁).guild p'.guild)
            (λ p'. Fixed (k ∷ order) desired p.guild p'.guild)
            (run_ops api (suc idx) ops (report api idx p₁))
            (λ p' h.
              Fixed-cons k order desired p.guild p₁.guild p'.guild new exact but
                (subst (λ g. Fixed order desired g p'.guild) same_guild h))
            (f (suc idx) (report api idx p₁)
              (subst (λ g. SameBut role p.guild g k) (sym same_guild) but)))

  pub get_role_ops-FixesAll :
      (order : List Text) (current desired : RoleMap) (idx : ℕ) (p : Progress G)
      → DistinctTexts order
      → ((k : Text)
          → contains k order ≡ true
          → (is_some (get k current) || is_some (get k desired)) ≡ true)
      → ((k : Text) → Desires role api documented k (get k desired))
      → Pending order current p.guild
      → FixesAll idx p order desired (get_role_ops order current desired)
  unfolding get_role_ops run_ops
  get_role_ops-FixesAll [] current desired idx p distinct known desires pending =
      (λ k h. ground arith, λ i l h. (λ e. e, λ e. e))
  get_role_ops-FixesAll (k ∷ order) current desired idx p (new, distinct) known desires pending =
      FixesAll-cons idx p k order desired (role_op (get k current) (get k desired))
        (get_role_ops order current desired) new
        (role_op-StepFixes role api documented p k (get k current) (get k desired)
          (pending k (contains_head k order)) (desires k) (known k (contains_head k order)))
        (λ idx p' but.
          get_role_ops-FixesAll order current desired idx p' distinct
            (λ j h. known j (contains_or j k order h)) desires
            (Pending-tail k order current p.guild p'.guild new but pending))
