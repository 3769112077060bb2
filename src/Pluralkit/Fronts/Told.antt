-- ===== src/Pluralkit/Fronts/Told.antt =====
-- What one round of notifications and the end of following have done
-- (crates/tulpje-mod-pluralkit/src/fronters/tasks.rs).
use tulpje.Prelude.{
  ℕ, not, Option, none, some, List, [], ◌∷◌, ◌≡◌, refl, sym, subst, ◌∙◌, arith, filter, any, ◌==◌,
  ◌&&◌, true, ap,
}
use tulpje.Pluralkit.Database.Tables.{Tables, NotifySystemRow, NotifyChannelRow}
use tulpje.Pluralkit.Database.Action.{World, Ends, recover, ◌>>=◌}
use tulpje.Pluralkit.Database.Rules.{bind-rule, query-answered, moved}
use tulpje.Pluralkit.Database.Systems.{find}
use tulpje.Pluralkit.Database.Notify.{
  get_notify_channel, delete_notify_channel, delete_notify_systems,
}
use tulpje.Pluralkit.Fronts.Remote.{
  Remote, ChannelAnswer, answered, unknown_channel, channel_failed, GuildNotification,
}
use tulpje.Pluralkit.Fronts.Notices.{notify_guild, tell, after_message, notify_guilds, keep_told}
use tulpje.Pluralkit.Fronts.Notified.{
  Notice, LogEntry, Logged, stays, channel_row, Round, then-Round, silent-Round, message-Round,
  find-filter-none, is_set, find-is_set, any-filter,
}

module _ {G : Type 0} (remote : Remote G) (log : G → List LogEntry) (n : GuildNotification)
    (h : Logged remote log) where
  -- What a notification of one guild has done.
  abbrev Done : (guild : ℕ) → World G → Option (Unit {0}) → World G → Type 0
  Done guild v r v' =
      (ns : List Notice) × Round remote log n v v' (guild ∷ []) (keep_told guild r []) ns

  module _ (guild channel : ℕ) (v : World G) (set : is_set v.tables guild channel ≡ true) where
    abbrev Cut : {A : Type 0} → Option A → World G → Type 0
    Cut none w' = ⊥
    Cut (some _) w' =
        (w'.tables.follows ≡ v.tables.follows)
        × ((k : ℕ) → channel_row k v.tables ≡ none → channel_row k w'.tables ≡ none)
        × ((k c : ℕ) → is_set w'.tables k c ≡ true → is_set v.tables k c ≡ true)
        × (log w'.outside ≡ (channel, n, unknown_channel) ∷ log v.outside)

    delete_notify_channel-Cut :
        (w : World G)
        → w.tables ≡ v.tables
        → log w.outside ≡ (channel, n, unknown_channel) ∷ log v.outside
        → Ends Cut (delete_notify_channel remote.postgres channel w)
    unfolding delete_notify_channel
    delete_notify_channel-Cut w same logged =
        query-answered Cut remote.postgres _ w (h.up w.outside) (λ now e. ground arith)
          (λ now a t e. (
            ground arith,
            λ k m.
                let gone : find (λ (c : NotifyChannelRow). c.guild_id == k) w.tables.channels
                    ≡ none =
                  ap (channel_row k) same ∙ m in
                let cs : filter (λ (c : NotifyChannelRow). not (c.channel_id == channel))
                      w.tables.channels
                    ≡ t.channels =
                  ground arith in
                subst (λ cs. find (λ (c : NotifyChannelRow). c.guild_id == k) cs ≡ none) cs
                  (find-filter-none (λ c. c.guild_id == k) (λ c. not (c.channel_id == channel))
                    w.tables.channels gone),
            λ k c m.
                let cs : t.channels
                    ≡ filter (λ (c : NotifyChannelRow). not (c.channel_id == channel))
                        w.tables.channels =
                  ground arith in
                subst (λ t. is_set t k c ≡ true) same
                  (any-filter (λ r. r.guild_id == k && r.channel_id == c)
                    (λ c. not (c.channel_id == channel)) w.tables.channels
                    (subst
                      (λ cs.
                        any (λ (r : NotifyChannelRow). r.guild_id == k && r.channel_id == c) cs
                        ≡ true)
                      cs m)),
            h.statement_quiet w.outside ∙ logged,
          ))

    filter-of_guild :
        (fs : List NotifySystemRow)
        → filter (λ f. not (f.guild_id == guild)) fs
          ≡ filter
              (stays (record { guild = guild; channel = channel; answer = unknown_channel } ∷ []))
              fs
    filter-of_guild [] = refl
    filter-of_guild (f ∷ fs) = ground (arith, filter-of_guild fs)

    abbrev Last : {A : Type 0} → Option A → World G → Type 0
    Last none w' = ⊥
    Last (some _) w' = Done guild v (some tt) w'

    delete_notify_systems-Last :
        (w : World G) → Cut (some tt) w → Ends Last (delete_notify_systems remote.postgres guild w)
    unfolding delete_notify_systems
    delete_notify_systems-Last w (f, c, i, l) =
        query-answered Last remote.postgres _ w (h.up w.outside) (λ now e. ground arith)
          (λ now a t e. (
            _,
            message-Round remote log n v
                (record w { tables = t; outside = (remote.postgres.statement w.outside).1 }) guild
                channel unknown_channel (guild ∷ []) (h.statement_quiet w.outside ∙ l)
                (let fs : t.follows ≡ filter (λ f. not (f.guild_id == guild)) w.tables.follows =
                    ground arith in
                  fs
                  ∙ ap (filter (λ f. not (f.guild_id == guild))) f
                  ∙ filter-of_guild v.tables.follows)
                (λ k. ground arith)
                (λ k m.
                  let cs : w.tables.channels ≡ t.channels = ground arith in
                  subst (λ cs. find (λ (c : NotifyChannelRow). c.guild_id == k) cs ≡ none) cs
                    (c k m))
                set
                (λ k c m.
                  let cs : t.channels ≡ w.tables.channels = ground arith in
                  i k c (
                    subst
                      (λ cs.
                        any (λ (r : NotifyChannelRow). r.guild_id == k && r.channel_id == c) cs
                        ≡ true)
                      cs m)),
          ))

    after_message-Done :
        (a : ChannelAnswer (Unit {0})) (w : World G)
        → w.tables ≡ v.tables
        → log w.outside ≡ (channel, n, a) ∷ log v.outside
        → Ends (Done guild v) (after_message remote guild channel a w)
    after_message-Done (answered u) w same logged = (
      _,
      message-Round remote log n v w guild channel (answered u) (guild ∷ []) logged
          (ap (λ t. t.follows) same ∙ filter-kept v.tables.follows) (λ k. ground arith)
          (λ k m. ap (channel_row k) same ∙ m) set
          (λ k c m. subst (λ t. is_set t k c ≡ true) same m),
    )
      where
        filter-kept :
            (fs : List NotifySystemRow)
            → fs
              ≡ filter
                  (stays (record { guild = guild; channel = channel; answer = answered u } ∷ []))
                  fs
        filter-kept [] = refl
        filter-kept (f ∷ fs) = ground (arith, filter-kept fs)
    after_message-Done unknown_channel w same logged =
        bind-rule Cut (Done guild v) _ _ w (delete_notify_channel-Cut w same logged)
          (λ w' e. elim e [ ])
          λ _ w₁ c.
            bind-rule Last (Done guild v) _ _ w₁ (delete_notify_systems-Last w₁ c)
              (λ w' e. elim e [ ]) (λ _ w' d. d)
    after_message-Done channel_failed w same logged = (
      _,
      message-Round remote log n v w guild channel channel_failed [] logged
          (ap (λ t. t.follows) same ∙ filter-kept v.tables.follows) (λ k. ground arith)
          (λ k m. ap (channel_row k) same ∙ m) set
          (λ k c m. subst (λ t. is_set t k c ≡ true) same m),
    )
      where
        filter-kept :
            (fs : List NotifySystemRow)
            → fs
              ≡ filter
                  (stays
                    (record { guild = guild; channel = channel; answer = channel_failed } ∷ []))
                  fs
        filter-kept [] = refl
        filter-kept (f ∷ fs) = ground (arith, filter-kept fs)

  abbrev channel_of : ℕ → Tables → Option ℕ
  channel_of guild t = elim (channel_row guild t) [ none ↦ none | some c ↦ some c.channel_id ]

  tell-Done :
      (guild : ℕ) (v w : World G)
      → w.tables ≡ v.tables
      → log w.outside ≡ log v.outside
      → (c : Option ℕ) → c ≡ channel_of guild v.tables
      → Ends (Done guild v) (tell remote guild n c w)
  unfolding ◌>>=◌
  tell-Done guild v w same quiet none e =
      ([], silent-Round remote log n v w guild same quiet (ground arith))
  tell-Done guild v w same quiet (some channel) e =
      after_message-Done guild channel v (find-is_set guild channel v.tables.channels (sym e))
        (remote.create_message channel n w.outside).0
        (moved w (remote.create_message channel n w.outside).1) same
        (h.message_logged channel n w.outside
          ∙ ap (λ l. (channel, n, (remote.create_message channel n w.outside).0) ∷ l) quiet)

  abbrev Channel : ℕ → World G → Option (Option ℕ) → World G → Type 0
  Channel guild v none w = ⊥
  Channel guild v (some c) w =
      (w.tables ≡ v.tables) × (log w.outside ≡ log v.outside) × (c ≡ channel_of guild v.tables)

  notify_guild-Done :
      (guild : ℕ) (v : World G) → Ends (Done guild v) (notify_guild remote guild n v)
  unfolding notify_guild get_notify_channel
  notify_guild-Done guild v =
      bind-rule (Channel guild v) (Done guild v) _ (tell remote guild n) v
        (query-answered (Channel guild v) remote.postgres _ v (h.up v.outside)
          (λ now e. ground arith)
          (λ now a t e. (ground arith, h.statement_quiet v.outside, ground arith)))
        (λ w e. elim e [ ]) (λ c w (same, quiet, e). tell-Done guild v w same quiet c e)

  -- The guilds of a round, and the messages that it sent.
  abbrev pub Rounds : List ℕ → World G → Option (List ℕ) → World G → Type 0
  Rounds guilds v none v' = ⊥
  Rounds guilds v (some told) v' = (ns : List Notice) × Round remote log n v v' guilds told ns

  empty-Round : (v : World G) → Round remote log n v v [] [] []
  empty-Round v = record {
    logged = refl;
    kept = filter-none v.tables.follows;
    tells = λ k. refl;
    only = λ k e. cc;
    complete = λ k e. cc;
    fewer = λ k e. e;
    addressed = refl;
    unset = λ k c e. e;
  }
    where
      filter-none : (fs : List NotifySystemRow) → fs ≡ filter (stays []) fs
      filter-none [] = refl
      filter-none (f ∷ fs) = ap (λ gs. f ∷ gs) (filter-none fs)

  pub notify_guilds-Rounds :
      (guilds : List ℕ) (v : World G) → Ends (Rounds guilds v) (notify_guilds remote guilds n v)
  unfolding notify_guilds recover
  notify_guilds-Rounds [] v = ([], empty-Round v)
  notify_guilds-Rounds (guild ∷ guilds) v =
      bind-rule (Caught guild) (Rounds (guild ∷ guilds) v) (recover (notify_guild remote guild n)) _
        v (recovered guild) (λ w e. elim e [ ])
        λ r w (ms, a).
          bind-rule (Rounds guilds w) (Rounds (guild ∷ guilds) v) _ _ w
            (notify_guilds-Rounds guilds w) (λ w' e. elim e [ ])
            (λ told w' (ns, b). (_, then-Round remote log n v w w' guild guilds told r ns ms a b))
    where
      Caught : (guild : ℕ) → Option (Option (Unit {0})) → World G → Type 0
      Caught guild none w = ⊥
      Caught guild (some r) w = Done guild v r w

      recovered : (guild : ℕ) → Ends (Caught guild) (recover (notify_guild remote guild n) v)
      recovered guild = notify_guild-Done guild v
