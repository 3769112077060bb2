-- ===== src/Pluralkit/Fronts/Polled.antt =====
-- What a poll of a system tells and records (crates/tulpje-mod-pluralkit/src/fronters/shared.rs,
-- `update_system_fronters`).
use tulpje.Prelude.{
  ℕ, Bool, true, false, Option, none, some, List, [], ◌≡◌, refl, sym, subst, arith, same, same→eq,
  same_refl, ap,
}
use tulpje.Pluralkit.Database.Tables.{ModPkSystem, ModPkSystemFronters}
use tulpje.Pluralkit.Database.Action.{World, Action, Ends, ◌>>=◌, pure}
use tulpje.Pluralkit.Database.Rules.{bind-rule, query-rule, moved}
use tulpje.Pluralkit.Database.Fronters.{
  front_of, touch_front, differs, did_fronters_change, get_fronters, update_fronters,
  update_fronters_timestamp,
}
use tulpje.Pluralkit.Fronts.Remote.{Remote}
use tulpje.Pluralkit.Fronts.Shared.{
  Outcome, done, private, not_found, other, Fronters, FrontChange, unchanged, changed, read_front,
  uuids, members_of, switch_time, record_change, record_front, update_system_fronters,
  get_system_fronters,
}
use tulpje.Pluralkit.Fronts.Recorded.{Row, saved, touch_front-Row, write_front-Row}

-- The saved front is this one, in this order; without a row, none is.
abbrev pub IsSaved : List ℕ → Option ModPkSystemFronters → Type 0
IsSaved fs none = ⊥
IsSaved fs (some f) = f.fronters ≡ fs

differs-false : (fs : List ℕ) (o : Option ModPkSystemFronters) → differs fs o ≡ false → IsSaved fs o
differs-false fs none h = cc
differs-false fs (some f) h = same→eq f.fronters fs (ground arith)

differs-true : (fs : List ℕ) (o : Option ModPkSystemFronters) → differs fs o ≡ true → ¬ IsSaved fs o
differs-true fs none h k = k
differs-true fs (some f) h k = ground (arith, same_refl fs, ap (λ x. same x fs) k)

saved-IsSaved : (fs : List ℕ) (o : Option ModPkSystemFronters) → IsSaved fs o → saved o ≡ fs
saved-IsSaved fs none h = elim h [ ]
saved-IsSaved fs (some f) h = h

module _ {G : Type 0} (remote : Remote G) (s : ModPkSystem) (w : World G) where
  -- PluralKit's answer, and the world after it and after the first statement.
  abbrev pub answer : Outcome (Option Fronters)
  answer = read_front (remote.get_system_fronters (remote.refs.print_uuid s.uuid) w.outside).0

  abbrev pub after_answer : G
  after_answer = (remote.get_system_fronters (remote.refs.print_uuid s.uuid) w.outside).1

  abbrev pub after_statement : G
  after_statement = (remote.postgres.statement after_answer).1

  -- Only the system's row may differ, and only its time.
  abbrev pub Touched : World G → G → Type 0
  Touched w' g =
      (now : ℕ) × ((remote.postgres.statement g).0 ≡ some now)
      × Row s.uuid w.tables w'.tables (saved (front_of s.uuid w.tables)) now

  abbrev pub Tells : Option (Outcome FrontChange) → World G → Type 0
  Tells none w' = w'.tables ≡ w.tables
  Tells (some other) w' = (answer ≡ other) × (w'.tables ≡ w.tables)
  Tells (some private) w' = (answer ≡ private) × Touched w' after_answer
  Tells (some not_found) w' = (answer ≡ not_found) × Touched w' after_answer
  Tells (some (done unchanged)) w' =
      (front : Option Fronters) × (answer ≡ done front)
      × IsSaved (uuids front) (front_of s.uuid w.tables)
      × Touched w' after_statement
  Tells (some (done (changed switch))) w' =
      (front : Option Fronters) × (answer ≡ done front)
      × (¬ IsSaved (uuids front) (front_of s.uuid w.tables))
      × (switch.fronters ≡ members_of front)
      × Row s.uuid w.tables w'.tables (uuids front) (remote.utc_now after_statement).0

  abbrev Settled : G → Option (Unit {0}) → World G → Type 0
  Settled g none w' = w'.tables ≡ w.tables
  Settled g (some _) w' = Touched w' g

  -- A statement that touches the row, and then a value.
  touching :
      (g : G) (v : World G) (o : Outcome FrontChange)
      (P : Option (Outcome FrontChange) → World G → Type 0)
      → v.tables ≡ w.tables
      → v.outside ≡ g
      → ((w' : World G) → w'.tables ≡ w.tables → P none w')
      → ((w' : World G) → Touched w' g → P (some o) w')
      → Ends P ((update_fronters_timestamp remote.postgres s.uuid >>= λ _. pure o) v)
  unfolding update_fronters_timestamp
  touching g v o P kept now_at failed taken =
      bind-rule (Settled g) P _ (λ _. pure o) v
        (query-rule (Settled g) remote.postgres _ v (λ _. kept) (λ now _ _. kept)
          (λ now a t e f. (
            now,
            subst (λ g. (remote.postgres.statement g).0 ≡ some now) now_at e,
            touch_front-Row s.uuid now w.tables t a
                (subst (λ t'. touch_front s.uuid now t' ≡ some (a, t)) kept f),
          )))
        failed (λ a w' q. taken w' q)

  abbrev Compared : List ℕ → Option Bool → World G → Type 0
  Compared fs none w' = w'.tables ≡ w.tables
  Compared fs (some b) w' =
      (w'.tables ≡ w.tables)
      × (w'.outside ≡ after_statement)
      × (b ≡ differs fs (front_of s.uuid w.tables))

  compare-lem :
      (fs : List ℕ)
      → Ends (Compared fs) (did_fronters_change remote.postgres s.uuid fs (moved w after_answer))
  unfolding did_fronters_change get_fronters
  compare-lem fs =
      bind-rule Fetched (Compared fs) _ _ (moved w after_answer)
        (query-rule Fetched remote.postgres _ (moved w after_answer) (λ _. refl) (λ now _ _. refl)
          (λ now a t _ e. (ground arith, refl, ground arith)))
        (λ w' e. e) (λ a w' (e, f, g). (e, f, ap (differs fs) g))
    where
      Fetched : Option (Option ModPkSystemFronters) → World G → Type 0
      Fetched none w' = w'.tables ≡ w.tables
      Fetched (some o) w' =
          (w'.tables ≡ w.tables) × (w'.outside ≡ after_statement) × (o ≡ front_of s.uuid w.tables)

  abbrev Written : List ℕ → Option (Unit {0}) → World G → Type 0
  Written fs none w' = w'.tables ≡ w.tables
  Written fs (some _) w' = Row s.uuid w.tables w'.tables fs (remote.utc_now after_statement).0

  write-lem :
      (fs : List ℕ) (v : World G)
      → v.tables ≡ w.tables
      → v.outside ≡ after_statement
      → Ends (Written fs) (
          update_fronters remote.postgres
            (remote.utc_now v.outside).0
            s.uuid
            fs
            (moved v (remote.utc_now v.outside).1))
  unfolding update_fronters
  write-lem fs v kept now_at =
      query-rule (Written fs) remote.postgres _ (moved v (remote.utc_now v.outside).1) (λ _. kept)
        (λ now _ _. kept)
        (λ now a t _ e.
          subst (λ g. Row s.uuid w.tables t fs (remote.utc_now g).0) now_at
            (subst (λ t'. Row s.uuid t' t fs (remote.utc_now v.outside).0) kept
              (write_front-Row s.uuid fs (remote.utc_now v.outside).0 v.tables t a e)))

  abbrev Changes : Option Fronters → Option (Outcome FrontChange) → World G → Type 0
  Changes front none w' = w'.tables ≡ w.tables
  Changes front (some (done (changed switch))) w' =
      (switch.fronters ≡ members_of front)
      × Row s.uuid w.tables w'.tables (uuids front) (remote.utc_now after_statement).0
  Changes front (some _) w' = ⊥

  abbrev tell_change : Option Fronters → Unit {0} → Action G (Outcome FrontChange)
  tell_change front _ = do
    time ← switch_time remote front
    pure (done (changed (record { fronters = members_of front; timestamp = time })))

  change-lem :
      (front : Option Fronters) (v : World G)
      → v.tables ≡ w.tables
      → v.outside ≡ after_statement
      → Ends (Changes front) (record_change remote s.uuid front true v)
  unfolding ◌>>=◌
  change-lem none v unchanged_tables now_at =
      bind-rule (Written []) (Changes none)
        (update_fronters remote.postgres (remote.utc_now v.outside).0 s.uuid []) (tell_change none)
        (moved v (remote.utc_now v.outside).1) (write-lem [] v unchanged_tables now_at) (λ w' e. e)
        (λ a w' h. (refl, h))
  change-lem (some f) v unchanged_tables now_at =
      bind-rule (Written (uuids (some f))) (Changes (some f))
        (update_fronters remote.postgres (remote.utc_now v.outside).0 s.uuid (uuids (some f)))
        (tell_change (some f)) (moved v (remote.utc_now v.outside).1)
        (write-lem (uuids (some f)) v unchanged_tables now_at) (λ w' e. e) (λ a w' h. (refl, h))

  settle :
      (front : Option Fronters) (b : Bool) (v : World G)
      → answer ≡ done front
      → v.tables ≡ w.tables
      → v.outside ≡ after_statement
      → b ≡ differs (uuids front) (front_of s.uuid w.tables)
      → Ends Tells (record_change remote s.uuid front b v)
  settle front false v e kept now_at d =
      touching after_statement v (done unchanged) Tells kept now_at (λ w' h. h)
        (λ w' h. (front, e, differs-false (uuids front) (front_of s.uuid w.tables) (sym d), h))
  settle front true v e kept now_at d =
      let (r, w') = record_change remote s.uuid front true v in
      told r w' (change-lem front v kept now_at)
    where
      told : (r : Option (Outcome FrontChange)) (w' : World G) → Changes front r w' → Tells r w'
      told none w' h = h
      told (some (done (changed switch))) w' (m, row) =
          (front, e, differs-true (uuids front) (front_of s.uuid w.tables) (sym d), m, row)
      told (some (done unchanged)) w' h = elim h [ ]
      told (some private) w' h = elim h [ ]
      told (some not_found) w' h = elim h [ ]
      told (some other) w' h = elim h [ ]

  recorded :
      (o : Outcome (Option Fronters))
      → answer ≡ o
      → Ends Tells (record_front remote s.uuid o (moved w after_answer))
  recorded (done front) e =
      bind-rule (Compared (uuids front)) Tells _ (record_change remote s.uuid front)
        (moved w after_answer) (compare-lem (uuids front)) (λ w' h. h)
        (λ b w' (kept, now_at, d). settle front b w' e kept now_at d)
  recorded private e =
      touching after_answer (moved w after_answer) private Tells refl refl (λ w' h. h)
        (λ w' h. (e, h))
  recorded not_found e =
      touching after_answer (moved w after_answer) not_found Tells refl refl (λ w' h. h)
        (λ w' h. (e, h))
  recorded other e = (e, refl)

  -- A poll that tells of a change was given another front than the saved one, in members or in
  -- their order, and has saved it; one that tells of none was given the saved front; a private or
  -- unknown system keeps its saved front. In these cases the system's row has the time of the
  -- poll. An error, or another answer of PluralKit, leaves all tables as they were, and no other
  -- row ever changes.
  pub update_system_fronters-Tells : Ends Tells (update_system_fronters remote s w)
  unfolding update_system_fronters get_system_fronters ◌>>=◌
  update_system_fronters-Tells = recorded answer refl
