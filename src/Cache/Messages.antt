-- ===== src/Cache/Messages.antt =====
-- The newest messages of a channel in the cache (crates/tulpje-cache/src/event/message.rs).
use tulpje.Prelude.{
  ℕ, suc, Bool, true, false, not, ◌++◌, ◌&&◌, ◌||◌, Option, none, some, List, [], ◌∷◌, ◌==◌, leb,
  if◌then◌else◌, length, any,
}

-- `pop_back`.
abbrev pub pop_back : List ℕ → List ℕ
pop_back [] = []
pop_back (x ∷ []) = []
pop_back (x ∷ y ∷ xs) = x ∷ pop_back (y ∷ xs)

abbrev pub last : List ℕ → Option ℕ
last [] = none
last (x ∷ []) = some x
last (x ∷ y ∷ xs) = last (y ∷ xs)

-- `MessageCreate` on the channel's messages, the newest first: the list after it, and the message
-- that leaves the cache.
unfoldable pub push_message : ℕ → ℕ → List ℕ → List ℕ × Option ℕ
push_message size id ids =
    if leb size (length ids) then (id ∷ pop_back ids, last ids) else (id ∷ ids, none)

-- `MessageDelete`: the first position of the message.
unfoldable pub delete_message : ℕ → List ℕ → List ℕ
delete_message id [] = []
delete_message id (x ∷ xs) = let rest = delete_message id xs in if x == id then xs else (x ∷ rest)

unfoldable pub delete_messages : List ℕ → List ℕ → List ℕ
delete_messages [] ids = ids
delete_messages (d ∷ ds) ids = delete_messages ds (delete_message d ids)

-- The channel's list and the messages that have a row.
pub record Messages : Type 0 where
  pub ids : List ℕ
  pub row : ℕ → Bool

-- A command of redis that is carried out; `no_change` stands for those that change neither, as `HGET`
-- or the caching of the author.
abbrev pub Command : Type 0
Command = Messages → Messages

abbrev pub no_change : Command
no_change m = m

abbrev pub store_ids : List ℕ → Command
store_ids ids m = record m { ids = ids }

abbrev pub store_row : ℕ → Command
store_row id m = record m { row = λ i. (i == id) || m.row i }

abbrev pub drop_row : ℕ → Command
drop_row id m = record m { row = λ i. m.row i && not (i == id) }

abbrev pub drop_out : Option ℕ → List Command
drop_out none = []
drop_out (some out) = drop_row out ∷ []

-- Without messages there is no command.
abbrev pub drop_rows : List ℕ → List Command
drop_rows [] = []
drop_rows (d ∷ ds) = (λ m. record m { row = λ i. m.row i && not (any (λ d. i == d) (d ∷ ds)) }) ∷ []

-- `?` after each command: the first that fails ends the event with an error, and what was done
-- before it stays.
unfoldable pub carry_out : (ℕ → Bool) → List Command → Messages → Messages × Bool
carry_out answers [] m = (m, true)
carry_out answers (command ∷ commands) m =
    let rest = carry_out (λ k. answers (suc k)) commands (command m) in
    if answers 0 then rest else (m, false)

-- The message that leaves goes before the new one comes.
unfoldable pub create : ℕ → ℕ → (ℕ → Bool) → Messages → Messages × Bool
create size id answers m =
    let (ids, out) = push_message size id m.ids in
    carry_out answers (no_change ∷ no_change ∷ drop_out out ++ (store_ids ids ∷ store_row id ∷ []))
      m

-- The list is written only if the message was in it.
abbrev pub unlist : ℕ → List ℕ → List Command
unlist id ids = if any (λ i. i == id) ids then (store_ids (delete_message id ids) ∷ []) else []

unfoldable pub delete : ℕ → (ℕ → Bool) → Messages → Messages × Bool
delete id answers m = carry_out answers (drop_row id ∷ no_change ∷ unlist id m.ids) m

unfoldable pub delete_bulk : List ℕ → (ℕ → Bool) → Messages → Messages × Bool
delete_bulk ds answers m =
    carry_out answers (no_change ∷ drop_rows ds ++ (store_ids (delete_messages ds m.ids) ∷ [])) m

-- A message whose row is there is only replaced; otherwise it comes before another leaves.
abbrev pub list_updated : ℕ → ℕ → Messages → List Command
list_updated size id m =
    let (ids, out) = push_message size id m.ids in
    if m.row id then [] else (no_change ∷ drop_out out ++ (store_ids ids ∷ []))

unfoldable pub update : ℕ → ℕ → (ℕ → Bool) → Messages → Messages × Bool
update size id answers m = carry_out answers (no_change ∷ store_row id ∷ list_updated size id m) m

pub data MessageEvent : Type 0 where
  created : ℕ → MessageEvent
  deleted : ℕ → MessageEvent
  bulk_deleted : List ℕ → MessageEvent
  updated : ℕ → MessageEvent

-- The event, and which of its commands redis answers.
unfoldable pub handle : ℕ → MessageEvent → (ℕ → Bool) → Messages → Messages × Bool
handle size (created id) answers m = create size id answers m
handle size (deleted id) answers m = delete id answers m
handle size (bulk_deleted ds) answers m = delete_bulk ds answers m
handle size (updated id) answers m = update size id answers m

abbrev pub no_messages : Messages
no_messages = record { ids = []; row = λ _. false }

-- The events of one channel, one after the other; after an error the next event is handled all the
-- same.
unfoldable pub run : ℕ → List (MessageEvent × (ℕ → Bool)) → Messages → Messages
run size [] m = m
run size ((e, answers) ∷ es) m = run size es (handle size e answers m).0
