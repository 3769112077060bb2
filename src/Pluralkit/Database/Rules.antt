-- ===== src/Pluralkit/Database/Rules.antt =====
-- What holds at the end of an action, from what holds at the end of its steps.
use tulpje.Prelude.{ℕ, if-rule, Option, none, some, ◌≡◌, refl, arith}
use tulpje.Pluralkit.Database.Tables.{Tables}
use tulpje.Pluralkit.Database.Action.{
  World, Postgres, Action, Ends, continue, finish, stated, query, select, recover, recover_error,
  expect, ◌>>=◌,
}

module _ {G : Type 0} where
  abbrev pub moved : World G → G → World G
  moved w g = record w { outside = g }

  continue-rule :
      {A B : Type 0} (Q : Option A → World G → Type 0) (P : Option B → World G → Type 0)
      (f : A → Action G B) (r : Option A) (w : World G)
      → Q r w
      → ((w' : World G) → Q none w' → P none w')
      → ((a : A) (w' : World G) → Q (some a) w' → Ends P (f a w'))
      → Ends P (continue r f w)
  continue-rule Q P f none w h failed next = failed w h
  continue-rule Q P f (some a) w h failed next = next a w h

  -- The second step begins where the first has ended.
  pub bind-rule :
      {A B : Type 0} (Q : Option A → World G → Type 0) (P : Option B → World G → Type 0)
      (m : Action G A) (f : A → Action G B) (w : World G)
      → Ends Q (m w)
      → ((w' : World G) → Q none w' → P none w')
      → ((a : A) (w' : World G) → Q (some a) w' → Ends P (f a w'))
      → Ends P ((m >>= f) w)
  unfolding ◌>>=◌
  bind-rule Q P m f w h = continue-rule Q P f (m w).0 (m w).1 h

  module _ {A : Type 0} (P : Option A → World G → Type 0) (run : ℕ → Tables → Option (A × Tables))
      (w : World G) where
    finish-rule :
        (o : Option (A × Tables))
        → (o ≡ none → P none w)
        → ((a : A) (t : Tables) → o ≡ some (a, t) → P (some a) (record w { tables = t }))
        → Ends P (finish o w)
    finish-rule none failed next = failed refl
    finish-rule (some (a, t)) failed next = next a t refl

    stated-rule :
        (answer : Option ℕ)
        → (answer ≡ none → P none w)
        → ((now : ℕ) → answer ≡ some now → run now w.tables ≡ none → P none w)
        → ((now : ℕ) (a : A) (t : Tables)
            → answer ≡ some now
            → run now w.tables ≡ some (a, t)
            → P (some a) (record w { tables = t }))
        → Ends P (stated run answer w)
    stated-rule none down refused taken = down refl
    stated-rule (some now) down refused taken =
        finish-rule (run now w.tables) (refused now refl) (λ a t e. taken now a t refl e)

  -- A statement is not answered, or refused, or carried out.
  pub query-rule :
      {A : Type 0} (P : Option A → World G → Type 0) (pg : Postgres G)
      (run : ℕ → Tables → Option (A × Tables)) (w : World G)
      → let (answer, g) = pg.statement w.outside in
        (answer ≡ none → P none (moved w g))
        → ((now : ℕ) → answer ≡ some now → run now w.tables ≡ none → P none (moved w g))
        → ((now : ℕ) (a : A) (t : Tables)
            → answer ≡ some now
            → run now w.tables ≡ some (a, t)
            → P (some a) (record w { tables = t; outside = g }))
        → Ends P (query pg run w)
  unfolding query
  query-rule P pg run w =
      stated-rule P run (moved w (pg.statement w.outside).1) (pg.statement w.outside).0

  -- A statement that is answered.
  pub query-answered :
      {A : Type 0} (P : Option A → World G → Type 0) (pg : Postgres G)
      (run : ℕ → Tables → Option (A × Tables)) (w : World G)
      → (now : ℕ) × ((pg.statement w.outside).0 ≡ some now)
      → ((now : ℕ) → run now w.tables ≡ none → P none (moved w (pg.statement w.outside).1))
      → ((now : ℕ) (a : A) (t : Tables)
          → run now w.tables ≡ some (a, t)
          → P (some a) (record w { tables = t; outside = (pg.statement w.outside).1 }))
      → Ends P (query pg run w)
  query-answered P pg run w (now, up) refused taken =
      query-rule P pg run w (λ e. cc) (λ now _ e. refused now e) (λ now a t _ e. taken now a t e)

  pub select-tables :
      {A : Type 0} (pg : Postgres G) (read : ℕ → Tables → A) (w : World G)
      → (select pg read w).1.tables ≡ w.tables
  select-tables pg read w =
      query-rule (λ o w'. w'.tables ≡ w.tables) pg _ w (λ _. refl) (λ now _ _. refl)
        (λ now a t _ e. ground arith)

  -- A property of the tables that a part of the program keeps.
  pub record Keeps {A : Type 0} (I : Tables → Type 0) (m : Action G A) : Type 0 where
    pub keeps : (w : World G) → I w.tables → I (m w).1.tables

  pub bind-Keeps :
      {A B : Type 0} {I : Tables → Type 0} {m : Action G A} {f : A → Action G B}
      → Keeps I m
      → ((a : A) → Keeps I (f a))
      → Keeps I (m >>= f)
  bind-Keeps {I} {m} {f} h k = record {
    keeps = λ w i.
        bind-rule (λ r w'. I w'.tables) (λ r w'. I w'.tables) m f w (h.keeps w i) (λ w' i. i)
          (λ a w' i. (k a).keeps w' i);
  }

  pub recover-Keeps :
      {A : Type 0} {I : Tables → Type 0} {m : Action G A} → Keeps I m → Keeps I (recover m)
  unfolding recover
  recover-Keeps h = record { keeps = h.keeps }

  pub recover_error-Keeps :
      {A : Type 0} {I : Tables → Type 0} {m : Action G A} → Keeps I m → Keeps I (recover_error m)
  unfolding recover_error
  recover_error-Keeps {A} {I} {m} h = record {
    keeps = λ w i.
        if-rule (λ (e : Option (Option A) × World G). I e.1.tables) (m w).1.panicked (none, (m w).1)
          (some (m w).0, (m w).1) (λ _. h.keeps w i) (λ _. h.keeps w i);
  }

  pub expect-Keeps : {A : Type 0} {I : Tables → Type 0} (a : Option A) → Keeps I (expect a)
  expect-Keeps none = record { keeps = λ w i. i }
  expect-Keeps (some a) = record { keeps = λ w i. i }

  pub query-Keeps :
      {A : Type 0} {I : Tables → Type 0} (pg : Postgres G) {run : ℕ → Tables → Option (A × Tables)}
      → ((now : ℕ) (t : Tables) (a : A) (t' : Tables) → run now t ≡ some (a, t') → I t → I t')
      → Keeps I (query pg run)
  query-Keeps {I} pg {run} h = record {
    keeps = λ w i.
        query-rule (λ r w'. I w'.tables) pg run w (λ _. i) (λ now _ _. i)
          (λ now a t _ e. h now w.tables a t e i);
  }
