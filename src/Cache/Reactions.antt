-- ===== src/Cache/Reactions.antt =====
-- The reactions of a cached message (crates/tulpje-cache/src/event/reaction.rs).
use tulpje.Prelude.{
  ℕ, Bool, false, not, ◌&&◌, Option, none, some, List, [], ◌∷◌, ◌+◌, ◌-◌, ◌==◌, ltb, if◌then◌else◌,
  Text, same, filter, ◌||◌, ◌%◌, ◌^◌,
}
use tulpje.Cache.Repository.{answer}

-- twilight's types of an emoji and of a reaction, by the fields that are read or written.
pub data EmojiReactionType : Type 0 where
  custom : (animated : Bool) (id : ℕ) (name : Option Text) → EmojiReactionType
  unicode : (name : Text) → EmojiReactionType

pub record Reaction : Type 0 where
  pub count : ℕ
  pub burst : ℕ
  pub normal : ℕ
  pub emoji : EmojiReactionType
  pub me : Bool
  pub me_burst : Bool

unfoldable pub reactions_eq : EmojiReactionType → EmojiReactionType → Bool
reactions_eq (custom _ a _) (custom _ b _) = a == b
reactions_eq (unicode a) (unicode b) = same a b
reactions_eq (custom _ _ _) (unicode _) = false
reactions_eq (unicode _) (custom _ _ _) = false

-- Whether the cached current user, if there is one, is the user of the event.
abbrev pub is_user : Option ℕ → ℕ → Bool
is_user none user = false
is_user (some current) user = current == user

abbrev pub new_reaction : EmojiReactionType → Bool → Reaction
new_reaction emoji me = record {
  count = 1;
  burst = 0;
  normal = 1;
  emoji = emoji;
  me = me;
  me_burst = false;
}

abbrev pub count_more : Bool → Reaction → Reaction
count_more mine r = record r { me = r.me || mine; count = (r.count + 1) % 2 ^ 64 }

abbrev pub count_less : Bool → Reaction → Reaction
count_less mine r = record r { me = r.me && not mine; count = r.count - 1 }

-- The current user is read from the cache only where the answer matters; `none` is an error.
abbrev pub more_of : Option (Option ℕ) → ℕ → Reaction → Option Reaction
more_of current user r =
    if r.me
    then some (count_more false r)
    else answer current (λ c. some (count_more (is_user c user) r))

abbrev pub push_result : Reaction → Option (List Reaction) → Option (List Reaction)
push_result r none = none
push_result r (some rs) = some (r ∷ rs)

abbrev pub place : Option Reaction → List Reaction → Option (List Reaction)
place none rs = none
place (some r) rs = some (r ∷ rs)

-- `ReactionAdd`: the first reaction of the emoji counts one more, or a new one is last.
unfoldable pub add_reaction :
    Option (Option ℕ) → ℕ → EmojiReactionType → List Reaction → Option (List Reaction)
add_reaction current user emoji [] =
    answer current (λ c. some (new_reaction emoji (is_user c user) ∷ []))
add_reaction current user emoji (r ∷ rs) =
    let rest = add_reaction current user emoji rs in
    if reactions_eq r.emoji emoji then place (more_of current user r) rs else push_result r rest

abbrev pub without : EmojiReactionType → List Reaction → List Reaction
without emoji rs = filter (λ r. not (reactions_eq r.emoji emoji)) rs

-- A reaction that counts more than one is kept with one less, and otherwise it is to go.
abbrev pub less_of : Option (Option ℕ) → ℕ → Reaction → Option (Option Reaction)
less_of current user r =
    if r.me
    then answer current
        (λ c. some (if ltb 1 r.count then some (count_less (is_user c user) r) else none))
    else some (if ltb 1 r.count then some (count_less false r) else none)

abbrev pub place_less :
    EmojiReactionType → Option (Option Reaction) → List Reaction → Option (List Reaction)
place_less emoji none rs = none
place_less emoji (some none) rs = some (without emoji rs)
place_less emoji (some (some r)) rs = some (r ∷ rs)

-- `ReactionRemove`: the first reaction of the emoji counts one less, or all reactions of the emoji
-- go. The reactions before the first one are of other emojis, so that `retain` keeps them.
unfoldable pub remove_reaction :
    Option (Option ℕ) → ℕ → EmojiReactionType → List Reaction → Option (List Reaction)
remove_reaction current user emoji [] = some []
remove_reaction current user emoji (r ∷ rs) =
    let rest = remove_reaction current user emoji rs in
    if reactions_eq r.emoji emoji
    then place_less emoji (less_of current user r) rs
    else push_result r rest

-- `ReactionRemoveEmoji`: the first reaction of the emoji goes.
unfoldable pub remove_emoji : EmojiReactionType → List Reaction → List Reaction
remove_emoji emoji [] = []
remove_emoji emoji (r ∷ rs) =
    let rest = remove_emoji emoji rs in if reactions_eq r.emoji emoji then rs else (r ∷ rest)

pub data ReactionEvent : Type 0 where
  added : (user : ℕ) (emoji : EmojiReactionType) → ReactionEvent
  removed : (user : ℕ) (emoji : EmojiReactionType) → ReactionEvent
  removed_all : ReactionEvent
  removed_emoji : (emoji : EmojiReactionType) → ReactionEvent

unfoldable pub handle : Option (Option ℕ) → ReactionEvent → List Reaction → Option (List Reaction)
handle current (added user emoji) rs = add_reaction current user emoji rs
handle current (removed user emoji) rs = remove_reaction current user emoji rs
handle current removed_all rs = some []
handle current (removed_emoji emoji) rs = some (remove_emoji emoji rs)

abbrev pub stored : Option (List Reaction) → Option (Option (List Reaction))
stored none = none
stored (some rs) = some (some rs)

-- The event on the answer of the cache about its message: the reactions that are written back, if
-- any.
unfoldable pub update :
    Option (Option ℕ)
    → ReactionEvent
    → Option (Option (List Reaction))
    → Option (Option (List Reaction))
update current event none = none
update current event (some none) = some none
update current event (some (some rs)) = stored (handle current event rs)
