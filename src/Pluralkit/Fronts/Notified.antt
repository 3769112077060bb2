-- ===== src/Pluralkit/Fronts/Notified.antt =====
-- A round of notifications (crates/tulpje-mod-pluralkit/src/fronters/tasks.rs,
-- `notify_guilds_for_system` and `notify_guild`).
use tulpje.Prelude.{
  ℕ, Bool, true, false, not, ◌&&◌, ◌||◌, Option, none, some, List, [], ◌∷◌, ◌++◌, ◌≡◌, ◌⊎◌, refl,
  sym, subst, ◌∙◌, arith, inl, inr, Bool-cases, map, filter, any, ◌==◌, ap, ==_iff,
}
use tulpje.Pluralkit.Database.Tables.{Tables, NotifySystemRow, NotifyChannelRow}
use tulpje.Pluralkit.Database.Action.{World}
use tulpje.Pluralkit.Database.Systems.{find}
use tulpje.Pluralkit.Fronts.Remote.{
  Remote, ChannelAnswer, answered, unknown_channel, channel_failed, GuildNotification,
}
use tulpje.Pluralkit.Fronts.Notices.{keep_told}

-- A message to a guild's channel, with Discord's answer.
pub record Notice : Type 0 where
  pub guild : ℕ
  pub channel : ℕ
  pub answer : ChannelAnswer (Unit {0})

abbrev pub LogEntry : Type 0
LogEntry = ℕ × GuildNotification × ChannelAnswer (Unit {0})

abbrev pub entry : GuildNotification → Notice → LogEntry
entry n x = (x.channel, n, x.answer)

-- Postgres answers every statement, and Discord's log of the messages is written by messages only,
-- the latest in front.
pub record Logged {G : Type 0} (remote : Remote G) (log : G → List LogEntry) : Type 0 where
  pub up : (g : G) → (now : ℕ) × ((remote.postgres.statement g).0 ≡ some now)
  pub statement_quiet : (g : G) → log (remote.postgres.statement g).1 ≡ log g
  pub front_quiet :
      (reference : List ℕ) (g : G) → log (remote.get_system_fronters reference g).1 ≡ log g
  pub message_logged :
      (channel : ℕ) (n : GuildNotification) (g : G)
      → log (remote.create_message channel n g).1
        ≡ (channel, n, (remote.create_message channel n g).0) ∷ log g

abbrev pub is_unknown : ChannelAnswer (Unit {0}) → Bool
is_unknown (answered _) = false
is_unknown unknown_channel = true
is_unknown channel_failed = false

abbrev pub is_failed : ChannelAnswer (Unit {0}) → Bool
is_failed (answered _) = false
is_failed unknown_channel = false
is_failed channel_failed = true

abbrev pub concerns : ℕ → Notice → Bool
concerns guild x = x.guild == guild

-- Discord does not know the guild's channel.
abbrev pub bounces : ℕ → Notice → Bool
bounces guild x = x.guild == guild && is_unknown x.answer

-- The guild has been told, or has no channel to tell it in.
abbrev pub informs : ℕ → Notice → Bool
informs guild x = x.guild == guild && not (is_failed x.answer)

abbrev pub stays : List Notice → NotifySystemRow → Bool
stays ns f = not (any (bounces f.guild_id) ns)

abbrev pub is_in : List ℕ → ℕ → Bool
is_in guilds guild = any (λ g. guild == g) guilds

abbrev pub channel_row : ℕ → Tables → Option NotifyChannelRow
channel_row guild t = find (λ c. c.guild_id == guild) t.channels

-- The channel is set for the guild.
abbrev pub is_set : Tables → ℕ → ℕ → Bool
is_set t guild channel = any (λ c. c.guild_id == guild && c.channel_id == channel) t.channels

-- The notice is not in the channel that is set for its guild.
abbrev pub strays : Tables → Notice → Bool
strays t x = not (is_set t x.guild x.channel)

pub any-append :
    {A : Type 0} (p : A → Bool) (xs ys : List A) → any p (xs ++ ys) ≡ (any p xs || any p ys)
any-append p [] ys = refl
any-append p (x ∷ xs) ys = ground (arith, any-append p xs ys)

pub map-append :
    {A B : Type 0} (f : A → B) (xs ys : List A) → map f (xs ++ ys) ≡ map f xs ++ map f ys
map-append f [] ys = refl
map-append f (x ∷ xs) ys = ap (λ zs. f x ∷ zs) (map-append f xs ys)

pub append_assoc : {A : Type 0} (xs ys zs : List A) → (xs ++ ys) ++ zs ≡ xs ++ (ys ++ zs)
append_assoc [] ys zs = refl
append_assoc (x ∷ xs) ys zs = ap (λ vs. x ∷ vs) (append_assoc xs ys zs)

pub filter-stays :
    (ns ms : List Notice) (fs : List NotifySystemRow)
    → filter (stays (ns ++ ms)) fs ≡ filter (stays ns) (filter (stays ms) fs)
filter-stays ns ms [] = refl
filter-stays ns ms (f ∷ fs) =
    ground (arith, filter-stays ns ms fs, any-append (bounces f.guild_id) ns ms)

filter-all : (fs : List NotifySystemRow) → fs ≡ filter (stays []) fs
filter-all [] = refl
filter-all (f ∷ fs) = ap (λ gs. f ∷ gs) (filter-all fs)

pub find-filter-none :
    (p q : NotifyChannelRow → Bool) (cs : List NotifyChannelRow)
    → find p cs ≡ none
    → find p (filter q cs) ≡ none
find-filter-none p q [] h = refl
find-filter-none p q (c ∷ cs) h = ground (arith, find-filter-none p q cs)

pub any-filter :
    (p q : NotifyChannelRow → Bool) (cs : List NotifyChannelRow)
    → any p (filter q cs) ≡ true
    → any p cs ≡ true
any-filter p q [] h = h
any-filter p q (c ∷ cs) h = ground (arith, any-filter p q cs)

-- What is found for a guild is set for it.
pub find-is_set :
    (guild channel : ℕ) (cs : List NotifyChannelRow)
    → elim (find (λ (c : NotifyChannelRow). c.guild_id == guild) cs) [
      | none ↦ none
      | some c ↦ some c.channel_id
    ]
      ≡ some channel
    → any (λ (c : NotifyChannelRow). c.guild_id == guild && c.channel_id == channel) cs ≡ true
find-is_set guild channel [] h = cc
find-is_set guild channel (c ∷ cs) h = ground (arith, find-is_set guild channel cs)

pub any-strays :
    (t t' : Tables) (ns : List Notice)
    → ((k c : ℕ) → is_set t' k c ≡ true → is_set t k c ≡ true)
    → any (strays t') ns ≡ false
    → any (strays t) ns ≡ false
any-strays t t' [] h e = refl
any-strays t t' (x ∷ ns) h e = ground (arith, any-strays t t' ns h, h x.guild x.channel)

module _ {G : Type 0} (remote : Remote G) (log : G → List LogEntry) (n : GuildNotification) where
  -- The guilds that were to be told, those that count as told, and the messages.
  pub record Round (v v' : World G) (guilds told : List ℕ) (ns : List Notice) : Type 0 where
    pub logged : log v'.outside ≡ map (entry n) ns ++ log v.outside
    pub kept : v'.tables.follows ≡ filter (stays ns) v.tables.follows
    pub tells : (k : ℕ) → is_in told k ≡ any (informs k) ns
    pub only : (k : ℕ) → any (concerns k) ns ≡ true → is_in guilds k ≡ true
    pub complete :
        (k : ℕ)
        → is_in guilds k ≡ true
        → (any (concerns k) ns ≡ true) ⊎ (channel_row k v'.tables ≡ none)
    pub fewer : (k : ℕ) → channel_row k v.tables ≡ none → channel_row k v'.tables ≡ none
    pub addressed : any (strays v.tables) ns ≡ false
    pub unset : (k c : ℕ) → is_set v'.tables k c ≡ true → is_set v.tables k c ≡ true

  is_in-keep_told :
      (k guild : ℕ) (r : Option (Unit {0})) (told : List ℕ)
      → is_in (keep_told guild r told) k ≡ (is_in told k || is_in (keep_told guild r []) k)
  is_in-keep_told k guild none told = ground arith
  is_in-keep_told k guild (some _) told = ground arith

  pub then-Round :
      (v v₁ v₂ : World G) (guild : ℕ) (guilds told : List ℕ) (r : Option (Unit {0}))
      (ns ms : List Notice)
      → Round v v₁ (guild ∷ []) (keep_told guild r []) ms
      → Round v₁ v₂ guilds told ns
      → Round v v₂ (guild ∷ guilds) (keep_told guild r told) (ns ++ ms)
  then-Round v v₁ v₂ guild guilds told r ns ms a b = record {
    logged =
        b.logged
        ∙ ap (λ l. map (entry n) ns ++ l) a.logged
        ∙ sym (append_assoc (map (entry n) ns) (map (entry n) ms) (log v.outside))
        ∙ ap (λ l. l ++ log v.outside) (sym (map-append (entry n) ns ms));
    kept = b.kept ∙ ap (filter (stays ns)) a.kept ∙ sym (filter-stays ns ms v.tables.follows);
    tells = λ k.
        ground (
          arith,
          is_in-keep_told k guild r told,
          a.tells k,
          b.tells k,
          any-append (informs k) ns ms,
        );
    only = λ k h. ground (arith, a.only k, b.only k, any-append (concerns k) ns ms);
    complete = λ k h. elim (Bool-cases (is_in (guild ∷ []) k)) [
      | inl here ↦ elim (a.complete k here) [
        | inl e ↦ inl (ground (arith, any-append (concerns k) ns ms))
        | inr e ↦ inr (b.fewer k e)
      ]
      | inr there ↦ elim (b.complete k (ground arith)) [
        | inl e ↦ inl (ground (arith, any-append (concerns k) ns ms))
        | inr e ↦ inr e
      ]
    ];
    fewer = λ k h. b.fewer k (a.fewer k h);
    addressed = ground (
      arith,
      any-append (strays v.tables) ns ms,
      any-strays v.tables v₁.tables ns a.unset b.addressed,
      a.addressed,
    );
    unset = λ k c h. a.unset k c (b.unset k c h);
  }

  -- A guild without a channel gets no message.
  pub silent-Round :
      (v v' : World G) (guild : ℕ)
      → v'.tables ≡ v.tables
      → log v'.outside ≡ log v.outside
      → channel_row guild v.tables ≡ none
      → Round v v' (guild ∷ []) [] []
  silent-Round v v' guild same quiet missing = record {
    logged = quiet;
    kept = ap (λ t. t.follows) same ∙ filter-all v.tables.follows;
    tells = λ k. refl;
    only = λ k e. cc;
    complete = λ k e. inr (
        subst (λ k. channel_row k v'.tables ≡ none) (sym ((==_iff k guild).0 (ground arith)))
          (ap (channel_row guild) same ∙ missing));
    fewer = λ k e. ap (channel_row k) same ∙ e;
    addressed = refl;
    unset = λ k c e. subst (λ t. is_set t k c ≡ true) same e;
  }

  -- A guild that gets one message.
  pub message-Round :
      (v v' : World G) (guild channel : ℕ) (a : ChannelAnswer (Unit {0})) (told : List ℕ)
      → log v'.outside ≡ (channel, n, a) ∷ log v.outside
      → v'.tables.follows
        ≡ filter
            (stays (record { guild = guild; channel = channel; answer = a } ∷ []))
            v.tables.follows
      → ((k : ℕ) → is_in told k ≡ (guild == k && not (is_failed a)))
      → ((k : ℕ) → channel_row k v.tables ≡ none → channel_row k v'.tables ≡ none)
      → is_set v.tables guild channel ≡ true
      → ((k c : ℕ) → is_set v'.tables k c ≡ true → is_set v.tables k c ≡ true)
      → Round v v' (guild ∷ []) told (record { guild = guild; channel = channel; answer = a } ∷ [])
  message-Round v v' guild channel a told l f t c i u = record {
    logged = l;
    kept = f;
    tells = λ k. ground (arith, t k);
    only = λ k e. ground arith;
    complete = λ k e. inl (ground arith);
    fewer = c;
    addressed = ground (arith, i);
    unset = u;
  }
