-- ===== src/Pluralkit/Fronts/Starved.antt =====
-- A service that polls the same systems again and again
-- (crates/tulpje-mod-pluralkit/src/front_update_service.rs).
use tulpje.Prelude.{
  ℕ, zero, suc, Bool, true, false, not, ◌&&◌, ◌≤◌, Option, none, some, List, [], ◌∷◌, ◌++◌, ◌≡◌,
  refl, sym, subst, ◌∙◌, ap, if◌then◌else◌, if-rule, arith, inl, inr, length, map, filter, any,
  Text,
}
use tulpje.Pluralkit.Database.Tables.{Tables, ModPkSystem}
use tulpje.Pluralkit.Database.Action.{World, Ends, select, ◌>>=◌, recover_error}
use tulpje.Pluralkit.Database.Rules.{bind-rule, query-rule}
use tulpje.Pluralkit.Database.Systems.{sort_by, is_none, is_tracked}
use tulpje.Pluralkit.Database.Sorted.{In, filter-In, take-In, sort_by-In}
use tulpje.Pluralkit.Database.Fronters.{
  front_updated, nulls_first, is_due, get_tracked_system_count, get_system_count,
  get_systems_to_update,
}
use tulpje.Pluralkit.Fronts.Remote.{Remote}
use tulpje.Pluralkit.Fronts.Shared.{other, read_front, get_system_fronters, update_system_fronters}
use tulpje.Pluralkit.Fronts.Tasks.{process_system}
use tulpje.Pluralkit.Fronts.Services.{process_fronts, front_tick}
use tulpje.Pluralkit.Fronts.Notified.{any-append, map-append, append_assoc}
use tulpje.Pluralkit.Fronts.First.{count-sort_by, take-marked}
use tulpje.Pluralkit.Fronts.Picks.{no_fresher, picks, picks_order}

-- A front has been stored for the system.
abbrev pub is_recorded : Tables → ModPkSystem → Bool
is_recorded t s = not (is_none (front_updated t s))

-- The service should poll the system, and has nothing about it yet.
abbrev pub is_new : Tables → ModPkSystem → Bool
is_new t s = is_none (front_updated t s) && is_tracked t s.uuid

-- Every such system is due.
count-due :
    (now : ℕ) (t : Tables) (ss : List ModPkSystem)
    → length (filter (is_new t) ss)
      ≤ length (filter (λ s. is_none (front_updated t s)) (filter (is_due now t) ss))
unfolding is_due
count-due now t [] = ground arith
count-due now t (s ∷ ss) = ground (arith, count-due now t ss)

nulls_before : (a b : Option ℕ) → is_none a ≡ false → is_none b ≡ true → nulls_first a b ≡ false
nulls_before none b h k = cc
nulls_before (some a) none h k = refl
nulls_before (some a) (some b) h k = cc

-- Five new systems leave no place for one that is recorded.
picks-new :
    (now : ℕ) (t : Tables) (s : ModPkSystem)
    → 5 ≤ length (filter (is_new t) t.systems)
    → In s (picks now t)
    → In s t.systems × (is_new t s ≡ true)
unfolding is_due
picks-new now t s five m =
    let due = filter (is_due now t) t.systems in
    let (a, d) =
      filter-In (is_due now t) s t.systems
        (sort_by-In (no_fresher t) s due (take-In 5 s (sort_by (no_fresher t) due) m)) in
    let e =
      take-marked (no_fresher t) (λ s. is_none (front_updated t s))
        (λ x y. nulls_before (front_updated t x) (front_updated t y)) 5 s
        (sort_by (no_fresher t) due) (picks_order now t)
        (omega (
          arith,
          five,
          count-due now t t.systems,
          count-sort_by (no_fresher t) (λ s. is_none (front_updated t s)) due,
        ))
        m in
    (a, ground (arith, d, e))

-- The loop of the service, which a panic ends.
unfoldable pub front_ticks : {G : Type 0} → Remote G → ℕ → World G → World G
front_ticks remote zero w = w
front_ticks remote (suc n) w =
    let w' = (front_tick remote w).1 in
    let rest = front_ticks remote n w' in if w'.panicked then w' else rest

module _ {G : Type 0} (remote : Remote G) (log : G → List Text) where
  abbrev reference : ModPkSystem → Text
  reference s = remote.refs.print_uuid s.uuid

  -- PluralKit's log of the requests for fronts, the latest in front.
  pub record Requests : Type 0 where
    pub statement_quiet : (g : G) → log (remote.postgres.statement g).1 ≡ log g
    pub front_logged :
        (reference : Text) (g : G)
        → log (remote.get_system_fronters reference g).1 ≡ reference ∷ log g

  -- PluralKit's answer for the system's front is an error other than the two that are told apart,
  -- or cannot be read, whenever it is asked.
  abbrev pub Fails : ModPkSystem → Type 0
  Fails s = (g : G) → read_front (remote.get_system_fronters (reference s) g).0 ≡ other

  -- At least five systems are new, and PluralKit fails for each new one.
  pub record Starves (t : Tables) : Type 0 where
    pub crowded : 5 ≤ length (filter (is_new t) t.systems)
    pub failing : (s : ModPkSystem) → In s t.systems → is_new t s ≡ true → Fails s

  -- The tables stay, and only systems that are not recorded have been asked for.
  pub record Asks (w w' : World G) : Type 0 where
    pub same : w'.tables ≡ w.tables
    pub asked : List ModPkSystem
    pub logged : log w'.outside ≡ map reference asked ++ log w.outside
    pub new : any (is_recorded w.tables) asked ≡ false

  module _ (h : Requests) where
    quiet-Asks :
        (w w' : World G) → w'.tables ≡ w.tables → log w'.outside ≡ log w.outside → Asks w w'
    quiet-Asks w w' e l = record { same = e; asked = []; logged = l; new = refl }

    then-Asks : (u v w : World G) → Asks u v → Asks v w → Asks u w
    then-Asks u v w a b = record {
      same = b.same ∙ a.same;
      asked = b.asked ++ a.asked;
      logged =
          b.logged
          ∙ ap (λ l. map reference b.asked ++ l) a.logged
          ∙ sym (append_assoc (map reference b.asked) (map reference a.asked) (log u.outside))
          ∙ ap (λ l. l ++ log u.outside) (sym (map-append reference b.asked a.asked));
      new = ground (
        arith,
        any-append (is_recorded u.tables) b.asked a.asked,
        a.new,
        subst (λ t. any (is_recorded t) b.asked ≡ false) a.same b.new,
      );
    }

    process_system-ends :
        (s : ModPkSystem) (w : World G)
        → Fails s
        → (process_system remote s w).1
          ≡ record w { outside = (remote.get_system_fronters (reference s) w.outside).1 }
    unfolding process_system update_system_fronters get_system_fronters ◌>>=◌
    process_system-ends s w f = rw (f w.outside) refl

    process_system-Asks :
        (s : ModPkSystem) (w : World G)
        → Fails s
        → is_new w.tables s ≡ true
        → Asks w (process_system remote s w).1
    process_system-Asks s w f n =
        let e = process_system-ends s w f in
        record {
          same = ap (λ (w : World G). w.tables) e;
          asked = s ∷ [];
          logged = ap (λ (w : World G). log w.outside) e ∙ h.front_logged (reference s) w.outside;
          new = ground arith;
        }

    process_fronts-Asks :
        (systems : List ModPkSystem) (w : World G)
        → ((s : ModPkSystem) → In s systems → Fails s × (is_new w.tables s ≡ true))
        → Asks w (process_fronts remote systems w).1
    unfolding process_fronts recover_error
    process_fronts-Asks [] w f = quiet-Asks w w refl refl
    process_fronts-Asks (s ∷ systems) w f =
        let v = (process_system remote s w).1 in
        let (d, n) = f s (inl refl) in
        let a = process_system-Asks s w d n in
        bind-rule (λ o u. u ≡ v) (λ o u. Asks w u) _ _ w
          (if-rule (λ (e : Option (Option (Unit {0})) × World G). e.1 ≡ v) v.panicked (none, v)
            (some (process_system remote s w).0, v) (λ _. refl) (λ _. refl))
          (λ u e. subst (Asks w) (sym e) a)
          λ _ u e. then-Asks w u (process_fronts remote systems u).1 (subst (Asks w) (sym e) a) (
            process_fronts-Asks systems u (λ r m.
              let (d, n) = f r (inr m) in
              (
                d,
                subst (λ t. is_new t r ≡ true) (sym (ap (λ (w : World G). w.tables) e ∙ a.same)) n,
              )))

    select-Asks :
        {A : Type 0} (read : ℕ → Tables → A) (w : World G)
        → Asks w (select remote.postgres read w).1
    select-Asks read w =
        query-rule (λ o w'. Asks w w') remote.postgres _ w
          (λ _. quiet-Asks w _ refl (h.statement_quiet w.outside))
          (λ now _ _. quiet-Asks w _ refl (h.statement_quiet w.outside))
          (λ now a t _ e. quiet-Asks w _ (ground arith) (h.statement_quiet w.outside))

    abbrev Chosen : World G → Option (List ModPkSystem) → World G → Type 0
    Chosen w none w' = Asks w w'
    Chosen w (some systems) w' = Asks w w' × (now : ℕ) × (systems ≡ picks now w.tables)

    get_systems_to_update-Chosen :
        (w : World G) → Ends (Chosen w) (get_systems_to_update remote.postgres w)
    unfolding get_systems_to_update
    get_systems_to_update-Chosen w =
        query-rule (Chosen w) remote.postgres _ w
          (λ _. quiet-Asks w _ refl (h.statement_quiet w.outside))
          (λ now _ _. quiet-Asks w _ refl (h.statement_quiet w.outside))
          (λ now a t _ e.
            (quiet-Asks w _ (ground arith) (h.statement_quiet w.outside), now, ground arith))

    polled :
        (w w' : World G) (systems : List ModPkSystem)
        → Starves w.tables
        → Asks w w'
        → (now : ℕ) × (systems ≡ picks now w.tables)
        → Asks w (process_fronts remote systems w').1
    polled w w' systems f a (now, e) = then-Asks w w' (process_fronts remote systems w').1 a (
        process_fronts-Asks systems w' (λ s m.
          let (i, n) = picks-new now w.tables s f.crowded (subst (In s) e m) in
          (f.failing s i n, subst (λ t. is_new t s ≡ true) (sym a.same) n)))

    front_tick-Asks : (w : World G) → Starves w.tables → Asks w (front_tick remote w).1
    unfolding front_tick get_tracked_system_count get_system_count
    front_tick-Asks w f =
        bind-rule (λ o v. Asks w v) (λ o v. Asks w v) _ _ w (select-Asks _ w) (λ w' a. a)
          λ _ w₁ a₁.
            bind-rule (λ o v. Asks w v) (λ o v. Asks w v) _ _ w₁
              (then-Asks w w₁ _ a₁ (select-Asks _ w₁)) (λ w' a. a)
              λ _ w₂ a₂.
                bind-rule (Chosen w₂) (λ o v. Asks w v) _ _ w₂ (get_systems_to_update-Chosen w₂)
                  (λ w' a. then-Asks w w₂ w' a₂ a)
                  (λ systems w₃ (a, now, p).
                    then-Asks w w₂ _ a₂
                      (polled w₂ w₃ systems (subst Starves (sym a₂.same) f) a (now, p)))

    -- While at least five systems that should be polled have no stored front, and PluralKit gives
    -- another error than the two that are told apart for each of them, whenever it is asked, any
    -- number of ticks leaves the tables as they are, and asks only for systems without a stored
    -- front: one with a stored front is not polled, however old the front is.
    pub front_ticks-Starves :
        (n : ℕ) (w : World G) → Starves w.tables → Asks w (front_ticks remote n w)
    unfolding front_ticks
    front_ticks-Starves zero w f = quiet-Asks w w refl refl
    front_ticks-Starves (suc n) w f =
        let v = (front_tick remote w).1 in
        let a = front_tick-Asks w f in
        if-rule (Asks w) v.panicked v (front_ticks remote n v) (λ _. a)
          (λ _.
            then-Asks w v (front_ticks remote n v) a
              (front_ticks-Starves n v (subst Starves (sym a.same) f)))
