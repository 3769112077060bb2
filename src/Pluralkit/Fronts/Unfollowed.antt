-- ===== src/Pluralkit/Fronts/Unfollowed.antt =====
-- The end of following a system that is private or gone
-- (crates/tulpje-mod-pluralkit/src/fronters/tasks.rs, `process_system`).
use tulpje.Prelude.{
  ℕ, Bool, true, false, not, ◌&&◌, Option, none, some, List, [], ◌∷◌, ◌++◌, ◌≡◌, ◌⊎◌, refl, sym,
  subst, ◌∙◌, arith, inl, inr, map, filter, any, ◌==◌, ap, if◌then◌else◌,
}
use tulpje.Pluralkit.Database.Tables.{Tables, ModPkSystem, NotifySystemRow, NotifyChannelRow}
use tulpje.Pluralkit.Database.Action.{World, Ends, ◌>>=◌}
use tulpje.Pluralkit.Database.Rules.{bind-rule, query-answered, moved}
use tulpje.Pluralkit.Database.Systems.{has_system, find}
use tulpje.Pluralkit.Database.Fronters.{update_fronters_timestamp}
use tulpje.Pluralkit.Database.Notify.{
  is_follow, get_notify_guilds_for_system, remove_notify_system_from_guilds,
}
use tulpje.Pluralkit.Fronts.Remote.{Remote, GuildNotification, not_found_notice, private_notice}
use tulpje.Pluralkit.Fronts.Shared.{
  Outcome, private, not_found, Fronters, FrontChange, read_front, record_front, get_system_fronters,
  update_system_fronters,
}
use tulpje.Pluralkit.Fronts.Notices.{
  not_found_text, private_text, unfollow, notify_guilds, notify_guilds_for_system,
  notify_system_not_found, notify_front_private,
}
use tulpje.Pluralkit.Fronts.Tasks.{act, process_system}
use tulpje.Pluralkit.Fronts.Notified.{
  Notice, LogEntry, entry, Logged, concerns, informs, stays, is_in, channel_row, Round, strays,
  any-strays,
}
use tulpje.Pluralkit.Fronts.Told.{Rounds, notify_guilds-Rounds}

-- The follow outlives the notices: Discord knows the guild's channel, and it is another system's
-- or the guild has not been told.
abbrev pub survives : ModPkSystem → List Notice → NotifySystemRow → Bool
survives s ns f = stays ns f && not (f.system_uuid == s.uuid && any (informs f.guild_id) ns)

abbrev pub does_follow : ℕ → ModPkSystem → Tables → Bool
does_follow guild s t = any (is_follow guild s.uuid) t.follows

is_in-guilds :
    (k u : ℕ) (fs : List NotifySystemRow)
    → is_in (map (λ f. f.guild_id) (filter (λ f. f.system_uuid == u) fs)) k ≡ any (is_follow k u) fs
is_in-guilds k u [] = refl
is_in-guilds k u (f ∷ fs) = ground (arith, is_in-guilds k u fs)

filter-survives :
    (s : ModPkSystem) (ns : List Notice) (told : List ℕ) (fs : List NotifySystemRow)
    → ((k : ℕ) → is_in told k ≡ any (informs k) ns)
    → filter
        (λ f. not (f.system_uuid == s.uuid && any (λ g. f.guild_id == g) told))
        (filter (stays ns) fs)
      ≡ filter (survives s ns) fs
filter-survives s ns told [] h = refl
filter-survives s ns told (f ∷ fs) h = ground (arith, filter-survives s ns told fs h, h f.guild_id)

module _ {G : Type 0} (remote : Remote G) (log : G → List LogEntry) (h : Logged remote log)
    (s : ModPkSystem) where
  -- The notices of one system's end, and what follows then.
  pub record Over (n : GuildNotification) (w w' : World G) : Type 0 where
    pub notices : List Notice
    pub logged : log w'.outside ≡ map (entry n) notices ++ log w.outside
    pub set : any (strays w.tables) notices ≡ false
    pub kept : w'.tables.follows ≡ filter (survives s notices) w.tables.follows
    pub only : (k : ℕ) → any (concerns k) notices ≡ true → does_follow k s w.tables ≡ true
    pub complete :
        (k : ℕ)
        → does_follow k s w.tables ≡ true
        → (any (concerns k) notices ≡ true) ⊎ (channel_row k w'.tables ≡ none)

  -- It ends without an error.
  abbrev pub Ended : GuildNotification → World G → Option (Unit {0}) → World G → Type 0
  Ended n w none w' = ⊥
  Ended n w (some _) w' = Over n w w'

  module _ (n : GuildNotification) (w v : World G)
      (same_follows : v.tables.follows ≡ w.tables.follows)
      (same_channels : v.tables.channels ≡ w.tables.channels)
      (quiet : log v.outside ≡ log w.outside) where
    followers : List ℕ
    followers = map (λ f. f.guild_id) (filter (λ f. f.system_uuid == s.uuid) w.tables.follows)

    abbrev Told : Option (List ℕ) → World G → Type 0
    Told none w' = ⊥
    Told (some told) w' =
        (u : World G) × (u.tables.follows ≡ w.tables.follows)
        × (u.tables.channels ≡ w.tables.channels)
        × (log u.outside ≡ log w.outside)
        × (ns : List Notice) × Round remote log n u w' followers told ns

    Told-by :
        (guilds : List ℕ) (u : World G)
        → guilds ≡ followers
        → u.tables.follows ≡ w.tables.follows
        → u.tables.channels ≡ w.tables.channels
        → log u.outside ≡ log w.outside
        → (r : Option (List ℕ)) (w' : World G) → Rounds remote log n h guilds u r w'
        → Told r w'
    Told-by guilds u e f c l none w' m = elim m [ ]
    Told-by guilds u e f c l (some told) w' (ns, r) =
        (u, f, c, l, ns, subst (λ gs. Round remote log n u w' gs told ns) e r)

    told_lem : Ends Told (notify_guilds_for_system remote s n v)
    unfolding notify_guilds_for_system get_notify_guilds_for_system followers
    told_lem =
        bind-rule Listed Told _ _ v
          (query-answered Listed remote.postgres _ v (h.up v.outside) (λ now e. ground arith)
            (λ now a t e. (
              (let x : a
                      ≡ map (λ f. f.guild_id)
                          (filter (λ f. f.system_uuid == s.uuid) v.tables.follows) =
                    ground arith in
                  x
                  ∙ ap (λ fs. map (λ f. f.guild_id) (filter (λ f. f.system_uuid == s.uuid) fs))
                      same_follows),
              (let x : t.follows ≡ v.tables.follows = ground arith in x ∙ same_follows),
              (let x : t.channels ≡ v.tables.channels = ground arith in x ∙ same_channels),
              h.statement_quiet v.outside ∙ quiet,
            )))
          (λ w' e. elim e [ ])
          λ guilds u (e, f, c, l).
            let (r, w') = notify_guilds remote guilds n u in
            Told-by guilds u e f c l r w' (notify_guilds-Rounds remote log n h guilds u)
      where
        Listed : Option (List ℕ) → World G → Type 0
        Listed none w' = ⊥
        Listed (some guilds) w' =
            (guilds ≡ followers)
            × (w'.tables.follows ≡ w.tables.follows)
            × (w'.tables.channels ≡ w.tables.channels)
            × (log w'.outside ≡ log w.outside)

    -- From the guilds told to the end of their following.
    over :
        (u w₁ w₂ : World G) (told : List ℕ) (ns : List Notice)
        → u.tables.follows ≡ w.tables.follows
        → u.tables.channels ≡ w.tables.channels
        → log u.outside ≡ log w.outside
        → Round remote log n u w₁ followers told ns
        → w₂.tables.follows
          ≡ filter
              (λ f. not (f.system_uuid == s.uuid && any (λ g. f.guild_id == g) told))
              w₁.tables.follows
        → w₂.tables.channels ≡ w₁.tables.channels
        → log w₂.outside ≡ log w₁.outside
        → Over n w w₂
    unfolding followers
    over u w₁ w₂ told ns f c l r f₂ c₂ l₂ = record {
      notices = ns;
      set =
          any-strays w.tables u.tables ns
            (λ k i m.
              subst
                (λ cs.
                  any (λ (r : NotifyChannelRow). r.guild_id == k && r.channel_id == i) cs ≡ true)
                c m)
            r.addressed;
      logged = l₂ ∙ r.logged ∙ ap (λ m. map (entry n) ns ++ m) l;
      kept =
          f₂
          ∙ ap (filter (λ f. not (f.system_uuid == s.uuid && any (λ g. f.guild_id == g) told)))
              (r.kept ∙ ap (filter (stays ns)) f)
          ∙ filter-survives s ns told w.tables.follows r.tells;
      only = λ k e. sym (is_in-guilds k s.uuid w.tables.follows) ∙ r.only k e;
      complete = λ k e. elim (r.complete k (is_in-guilds k s.uuid w.tables.follows ∙ e)) [
        | inl m ↦ inl m
        | inr m ↦ inr (ap (λ cs. find (λ (c : NotifyChannelRow). c.guild_id == k) cs) c₂ ∙ m)
      ];
    }

    unfollow-Ended : Ends (Ended n w) (unfollow remote s n v)
    unfolding remove_notify_system_from_guilds
    unfollow-Ended =
        bind-rule Told (Ended n w) _ (remove_notify_system_from_guilds remote.postgres s.uuid) v
          told_lem (λ w' e. elim e [ ])
          λ told w₁ (u, f, c, l, ns, r).
            query-answered (Ended n w) remote.postgres _ w₁ (h.up w₁.outside)
              (λ now e. ground arith)
              (λ now a t e.
                over u w₁
                  (record w₁ { tables = t; outside = (remote.postgres.statement w₁.outside).1 })
                  told ns f c l r (ground arith) (ground arith) (h.statement_quiet w₁.outside))

  -- PluralKit's answer, and the notice that goes with it.
  abbrev pub ending : Bool → Outcome (Option Fronters)
  ending gone = if gone then not_found else private

  abbrev pub notice_of : Bool → GuildNotification
  notice_of gone =
      if gone then not_found_notice (not_found_text s) else private_notice (private_text s)

  module _ (w : World G) (known : has_system w.tables s.uuid ≡ true) where
    abbrev Marked : Bool → Option (Outcome FrontChange) → World G → Type 0
    Marked gone none w' = ⊥
    Marked gone (some o) w' =
        (o ≡ (if gone then not_found else private))
        × (w'.tables.follows ≡ w.tables.follows)
        × (w'.tables.channels ≡ w.tables.channels)
        × (log w'.outside ≡ log w.outside)

    abbrev Marking : Option (Unit {0}) → World G → Type 0
    Marking none w' = ⊥
    Marking (some _) w' =
        (w'.tables.follows ≡ w.tables.follows)
        × (w'.tables.channels ≡ w.tables.channels)
        × (log w'.outside ≡ log w.outside)

    marking :
        (g : G)
        → log g ≡ log w.outside
        → Ends Marking (update_fronters_timestamp remote.postgres s.uuid (moved w g))
    unfolding update_fronters_timestamp
    marking g l =
        query-answered Marking remote.postgres _ (moved w g) (h.up g) (λ now e. ground arith)
          (λ now a t e. (ground arith, ground arith, h.statement_quiet g ∙ l))

    marked :
        (gone : Bool) (g : G)
        → log g ≡ log w.outside
        → Ends (Marked gone) (record_front remote s.uuid (ending gone) (moved w g))
    marked true g l =
        bind-rule Marking (Marked true) _ _ (moved w g) (marking g l) (λ w' e. elim e [ ])
          (λ a w' (f, c, l). (refl, f, c, l))
    marked false g l =
        bind-rule Marking (Marked false) _ _ (moved w g) (marking g l) (λ w' e. elim e [ ])
          (λ a w' (f, c, l). (refl, f, c, l))

    polled :
        (gone : Bool)
        → read_front (remote.get_system_fronters (remote.refs.print_uuid s.uuid) w.outside).0
          ≡ ending gone
        → Ends (Marked gone) (update_system_fronters remote s w)
    unfolding update_system_fronters get_system_fronters ◌>>=◌
    polled gone e =
        let g = (remote.get_system_fronters (remote.refs.print_uuid s.uuid) w.outside).1 in
        subst (λ o. Ends (Marked gone) (record_front remote s.uuid o (moved w g))) (sym e)
          (marked gone g (h.front_quiet (remote.refs.print_uuid s.uuid) w.outside))

    acted :
        (gone : Bool) (o : Outcome FrontChange) (v : World G)
        → o ≡ (if gone then not_found else private)
        → v.tables.follows ≡ w.tables.follows
        → v.tables.channels ≡ w.tables.channels
        → log v.outside ≡ log w.outside
        → Ends (Ended (notice_of gone) w) (act remote s o v)
    unfolding notify_system_not_found notify_front_private
    acted true o v e f c l =
        subst (λ o. Ends (Ended (notice_of true) w) (act remote s o v)) (sym e)
          (unfollow-Ended (notice_of true) w v f c l)
    acted false o v e f c l =
        subst (λ o. Ends (Ended (notice_of false) w) (act remote s o v)) (sym e)
          (unfollow-Ended (notice_of false) w v f c l)

    -- While postgres answers, a stored system whose front is private or that PluralKit no longer
    -- has is processed without an error: each notice goes to a guild that follows it, in a channel
    -- that was set for this guild at the start, and every such guild that still has a channel at
    -- the end gets one. Afterwards a guild follows what it followed before, except this system
    -- where Discord took the notice, and except everything where Discord does not know the
    -- guild's channel.
    pub process_system-Ended :
        (gone : Bool)
        → read_front (remote.get_system_fronters (remote.refs.print_uuid s.uuid) w.outside).0
          ≡ ending gone
        → Ends (Ended (notice_of gone) w) (process_system remote s w)
    unfolding process_system update_system_fronters get_system_fronters
    process_system-Ended gone e =
        bind-rule (Marked gone) (Ended (notice_of gone) w) _ (act remote s) w (polled gone e)
          (λ w' m. elim m [ ]) (λ o v (m, f, c, l). acted gone o v m f c l)
