-- ===== src/Tests/Cache.antt =====
-- The cache's theorems (crates/tulpje-cache) at concrete inputs.
use tulpje.Prelude.{ℕ, Bool, ltb, true, false, none, some, List, [], ◌∷◌, ◌≡◌, refl, arith, text}
use tulpje.Cache.Reactions.{
  EmojiReactionType, custom, unicode, Reaction, new_reaction, ReactionEvent, removed_emoji,
  add_reaction, remove_reaction, handle,
}
use tulpje.Cache.Counting.{count_of, Gives, Tidy, Roomy}
use tulpje.Cache.ReactionEvents.{remove_reaction-add_reaction, handle-Tidy}
use tulpje.Cache.Messages.{
  MessageEvent, created, deleted, bulk_deleted, updated, Messages, run, no_messages, carry_out,
  push_message, delete, delete_bulk, delete_message,
}
use tulpje.Cache.MessageList.{Agrees, run-Agrees}

abbrev heart : EmojiReactionType
heart = custom false 5 none

abbrev star : EmojiReactionType
star = unicode (text "star")

abbrev sample_reactions : List Reaction
sample_reactions = new_reaction heart false ∷ new_reaction star true ∷ []

sample_Tidy : Tidy sample_reactions
unfolding tulpje.Cache.Reactions.reactions_eq
sample_Tidy = (omega arith, refl, (omega arith, refl, tt))

sample_Roomy : Roomy sample_reactions
sample_Roomy = (omega arith, (omega arith, tt))

remove_reaction-add_reaction_example :
    Gives
      (λ rs₁.
        Gives
          (λ rs₂. (e : EmojiReactionType) → count_of e rs₂ ≡ count_of e sample_reactions)
          (remove_reaction (some (some 3)) 3 star rs₁))
      (add_reaction (some (some 3)) 3 star sample_reactions)
remove_reaction-add_reaction_example =
    remove_reaction-add_reaction (some 3) 3 star sample_reactions sample_Tidy sample_Roomy

handle-Tidy_example : Gives Tidy (handle (some none) (removed_emoji heart) sample_reactions)
handle-Tidy_example =
    handle-Tidy none (removed_emoji heart) sample_reactions sample_Tidy sample_Roomy

-- Redis answers all commands, or none from the n-th on.
abbrev always : ℕ → Bool
always _ = true

all_answered : (k : ℕ) → always k ≡ true
all_answered k = refl

abbrev until : ℕ → ℕ → Bool
until n k = ltb k n

abbrev sample_events : List (MessageEvent × (ℕ → Bool))
sample_events =
    (created 1, always)
    ∷ (created 2, always)
    ∷ (updated 7, always)
    ∷ (created 3, always)
    ∷ (deleted 2, always)
    ∷ (bulk_deleted (7 ∷ 1 ∷ []), always)
    ∷ []

run-Agrees_example : Agrees 2 (run 2 sample_events no_messages)
unfolding run tulpje.Cache.Messages.handle tulpje.Cache.Messages.create tulpje.Cache.Messages.update
    carry_out push_message delete delete_bulk delete_message
run-Agrees_example = run-Agrees 2 sample_events (
  all_answered,
  refl,
  (
    all_answered,
    refl,
    (all_answered, tt, (all_answered, refl, (all_answered, tt, (all_answered, tt, tt)))),
  ),
)

-- An error after the row was dropped leaves the message in the list.
interrupted : (run 2 ((created 1, always) ∷ (deleted 1, until 1) ∷ []) no_messages).ids ≡ 1 ∷ []
unfolding run tulpje.Cache.Messages.handle tulpje.Cache.Messages.create delete carry_out
    push_message delete_message
interrupted = refl

interrupted_row :
    (run 2 ((created 1, always) ∷ (deleted 1, until 1) ∷ []) no_messages).row 1 ≡ false
unfolding run tulpje.Cache.Messages.handle tulpje.Cache.Messages.create delete carry_out
    push_message delete_message
interrupted_row = refl
