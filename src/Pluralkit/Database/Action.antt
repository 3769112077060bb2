-- ===== src/Pluralkit/Database/Action.antt =====
-- Code that asks the database and the world outside, one answer after the other. An error ends it
-- and takes nothing back.
use tulpje.Prelude.{ℕ, Bool, true, Option, none, some, if◌then◌else◌}
use tulpje.Pluralkit.Database.Tables.{Tables}

-- The tables, everything outside that answers, and whether the task has panicked, which ends it.
pub record World (G : Type 0) : Type 0 where
  pub tables : Tables
  pub outside : G
  pub panicked : Bool

-- Postgres takes the next statement at a time, its `NOW()`, or fails and changes nothing.
pub record Postgres (G : Type 0) : Type 0 where
  pub statement : G → Option ℕ × G

-- `none` is an error, or the end by a panic, which sets the mark.
abbrev pub Action : Type 0 → Type 0 → Type 0
Action G A = World G → Option A × World G

module _ {G A : Type 0} where
  abbrev pub pure : A → Action G A
  pure a w = (some a, w)

  abbrev pub fail : Action G A
  fail w = (none, w)

  -- `if let Err(err)`, or `match`, on an action that cannot panic: the error is logged.
  unfoldable pub recover : Action G A → Action G (Option A)
  recover m w = let (r, w') = m w in (some r, w')

  -- `expect`, `unwrap` and an index: a panic where there is nothing.
  abbrev pub marked : Option A → World G → World G
  marked none w = record w { panicked = true }
  marked (some _) w = w

  abbrev pub expect : Option A → Action G A
  expect a w = (a, marked a w)

  -- The task that runs the action goes on after an error, and not after a panic.
  unfoldable pub recover_error : Action G A → Action G (Option A)
  recover_error m w = let (r, w') = m w in if w'.panicked then (none, w') else (some r, w')

  -- A call of the world outside, which cannot touch the tables.
  abbrev pub ask : (G → A × G) → Action G A
  ask call w = let (a, g) = call w.outside in (some a, record w { outside = g })

  abbrev pub finish : Option (A × Tables) → World G → Option A × World G
  finish none w = (none, w)
  finish (some (a, t)) w = (some a, record w { tables = t })

  abbrev pub stated : (ℕ → Tables → Option (A × Tables)) → Option ℕ → World G → Option A × World G
  stated run none w = (none, w)
  stated run (some now) w = finish (run now w.tables) w

  -- A statement; one that breaks a constraint is an error.
  unfoldable pub query : Postgres G → (ℕ → Tables → Option (A × Tables)) → Action G A
  query pg run w =
      let (answer, g) = pg.statement w.outside in stated run answer (record w { outside = g })

  -- `SELECT`: the tables stay.
  abbrev pub select : Postgres G → (ℕ → Tables → A) → Action G A
  select pg read = query pg (λ now t. some (read now t, t))

  -- What holds at the end, whether by a value or by an error.
  abbrev pub Ends : (Option A → World G → Type 0) → Option A × World G → Type 0
  Ends P e = P e.0 e.1

module _ {G A B : Type 0} where
  abbrev pub continue : Option A → (A → Action G B) → Action G B
  continue none f w = (none, w)
  continue (some a) f w = f a w

infixl 5 ◌>>=◌ ◌>>◌
unfoldable pub ◌>>=◌ : {G A B : Type 0} → Action G A → (A → Action G B) → Action G B
◌>>=◌ m f w = let (r, w') = m w in continue r f w'

abbrev pub ◌>>◌ : {G A B : Type 0} → Action G A → Action G B → Action G B
m >> k = m >>= λ _. k
