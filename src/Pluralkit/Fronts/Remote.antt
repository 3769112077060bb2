-- ===== src/Pluralkit/Fronts/Remote.antt =====
-- What answers outside: postgres, the clock, PluralKit and Discord, as the code of
-- crates/tulpje-mod-pluralkit/src calls them.
use tulpje.Prelude.{ℕ, Bool, true, false, Option, none, some, List, Text}
use tulpje.Pluralkit.Util.{Member, RefText}
use tulpje.Pluralkit.Database.Tables.{ModPkSystem}
use tulpje.Pluralkit.Database.Action.{Postgres, Action}

-- `StringOrStruct<Member>`.
pub data Listed : Type 0 where
  string : Listed
  struct : Member → Listed

-- PluralKit's switch; its time in seconds, where it is one that chrono has.
pub record PkSwitch : Type 0 where
  pub members : List Listed
  pub timestamp : Option ℕ

-- PluralKit's answers: an error may have a code.
pub data FrontAnswer : Type 0 where
  front_is : Option PkSwitch → FrontAnswer
  front_error : ℕ → FrontAnswer
  front_failed : FrontAnswer

pub data SystemAnswer : Type 0 where
  system_is : ModPkSystem → SystemAnswer
  system_error : ℕ → SystemAnswer
  system_failed : SystemAnswer

pub record Embed : Type 0 where
  pub title : Text
  pub thumbnail : Option Text
  pub description : Text
  pub timestamp : ℕ

-- A component is a warning with this text.
pub data GuildNotification : Type 0 where
  switch_embed : Embed → GuildNotification
  not_found_notice : Text → GuildNotification
  private_notice : Text → GuildNotification

-- What the builder of embeds takes: image addresses, times, and whole embeds.
pub record EmbedRules : Type 0 where
  pub image_url : Text → Bool
  pub in_range : ℕ → Bool
  pub validate : Embed → Bool

-- Discord's channel; a position is never negative.
pub record Channel : Type 0 where
  pub id : ℕ
  pub guild_id : Option ℕ
  pub parent_id : Option ℕ
  pub name : Option Text
  pub position : Option ℕ

-- Discord's answer about one channel, with the one code that is told apart.
pub data ChannelAnswer {ℓ} (A : Type ℓ) : Type ℓ where
  answered : A → ChannelAnswer A
  unknown_channel : ChannelAnswer A
  channel_failed : ChannelAnswer A

-- `none` and `false` are errors.
pub record Remote (G : Type 0) : Type 0 where
  pub postgres : Postgres G
  pub refs : RefText
  pub embed_rules : EmbedRules
  pub utc_now : G → ℕ × G
  pub get_system_fronters : (reference : Text) → G → FrontAnswer × G
  pub get_system : (reference : Text) → G → SystemAnswer × G
  pub create_message : (channel : ℕ) → GuildNotification → G → ChannelAnswer (Unit {0}) × G
  pub get_guild : (guild : ℕ) → G → Bool × G
  pub get_channel : (channel : ℕ) → G → ChannelAnswer Channel × G
  pub guild_channels : (guild : ℕ) → G → Option (List Channel) × G
  pub delete_channel : (channel : ℕ) → G → Bool × G
  pub create_channel : (guild : ℕ) (name : Text) (position parent : ℕ) → G → Option Channel × G
  pub move_channel : (channel position : ℕ) → G → Bool × G
  -- The order in which a hash set or a hash map hands out its texts.
  pub hash_order : List Text → List Text
  -- A reply to the user of a command.
  pub respond : Text → G → Bool × G

abbrev pub succeed : Bool → Option (Unit {0})
succeed true = some tt
succeed false = none

module _ {G : Type 0} where
  -- A call that may fail.
  abbrev pub attempt : {A : Type 0} → (G → Option A × G) → Action G A
  attempt call w = let (a, g) = call w.outside in (a, record w { outside = g })

  abbrev pub must : (G → Bool × G) → Action G (Unit {0})
  must call w = let (b, g) = call w.outside in (succeed b, record w { outside = g })

  -- `unwrap`, `expect` and `?` on a value.
  abbrev pub take_value : {A : Type 0} → Option A → Action G A
  take_value a w = (a, w)
