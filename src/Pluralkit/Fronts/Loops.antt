-- ===== src/Pluralkit/Fronts/Loops.antt =====
-- The loops that delete and create a category's channels (crates/tulpje-mod-pluralkit/src/fronters/shared.rs,
-- `update_fronter_channels`), with Discord carrying out every call.
use tulpje.Prelude.{
  ℕ, true, Option, none, some, List, [], ◌∷◌, ◌≡◌, ◌≢◌, refl, sym, subst, ◌∙◌, ap, arith, inl, inr,
  Option-cases, if◌then◌else◌, Text, Text-cases, get, insert, remove, contains, DistinctTexts, ◌||◌,
  same, same_refl, same_neq, is_some, get-insert_same, get-insert_other, get-remove_same,
  get-remove_other,
}
use tulpje.Pluralkit.Database.Action.{World, Ends, continue, marked, ◌>>=◌}
use tulpje.Pluralkit.Database.Rules.{moved}
use tulpje.Pluralkit.Fronts.Remote.{Remote, Channel, succeed, must, attempt}
use tulpje.Pluralkit.Fronts.Channels.{ChannelMap, delete_channels, create_channels}
use tulpje.Pluralkit.Fronts.Discord.{
  Look, Documented, Frame, Frame-same, Frame-trans, Matches, listed_place,
}
use tulpje.Pluralkit.Fronts.Effects.{delete-Matches, create-Matches}

module _ {G : Type 0} (remote : Remote G) (guild : ℕ) (chan : G → ℕ → Option Look)
    (discord : Documented remote guild chan) (category : ℕ) where
  abbrev pub IsListed : G → ChannelMap → Type 0
  IsListed g m = Matches chan category (listed_place chan category) g m

  -- What the loops hand on: the map, the category that it matches, and all else as before.
  pub record Leaves (w w' : World G) (m' : ChannelMap) : Type 0 where
    pub tables : w'.tables ≡ w.tables
    pub matches : IsListed w'.outside m'
    pub frame : Frame chan category w.outside w'.outside

  abbrev pub Gone : List Text → ChannelMap → World G → Option ChannelMap → World G → Type 0
  Gone names m w none w' = ⊥
  Gone names m w (some m') w' =
      Leaves w w' m' × ((k : Text) → get k m' ≡ (if contains k names then none else get k m))

  Gone-step :
      (name : Text) (names : List Text) (m : ChannelMap) (w w₁ : World G)
      → w₁.tables ≡ w.tables
      → Frame chan category w.outside w₁.outside
      → (r : Option ChannelMap) (w' : World G) → Gone names (remove name m) w₁ r w'
      → Gone (name ∷ names) m w r w'
  Gone-step name names m w w₁ t f none w' h = h
  Gone-step name names m w w₁ t f (some m') w' (l, g) = (
    record {
      tables = l.tables ∙ t;
      matches = l.matches;
      frame = Frame-trans chan category w.outside w₁.outside w'.outside f l.frame;
    },
    λ k. elim (Text-cases k name) [
      | inl e ↦ ground (
        arith,
        g k,
        same_refl name,
        get-remove_same name m,
        ap (λ k. get k (remove name m)) e,
        ap (λ k. same k name) e,
      )
      | inr n ↦ ground (arith, g k, same_neq k name n, get-remove_other k name m n)
    ],
  )

  pub delete_channels-Gone :
      (names : List Text) (m : ChannelMap) (w : World G)
      → IsListed w.outside m
      → DistinctTexts names
      → ((k : Text) → contains k names ≡ true → is_some (get k m) ≡ true)
      → Ends (Gone names m w) (delete_channels remote names m w)
  unfolding delete_channels ◌>>=◌
  delete_channels-Gone [] m w l d known = (
    record {
      tables = refl;
      matches = l;
      frame = Frame-same chan category w.outside w.outside (λ i. refl);
    },
    λ k. refl,
  )
  delete_channels-Gone (name ∷ names) m w l d known = elim (Option-cases (get name m)) [
    | inl e ↦ cc (ap is_some e, known name (ground (arith, same_refl name)))
    | inr (c, e) ↦
        let g = (remote.delete_channel c.id w.outside).1 in
        let (done, effect) = discord.deletes c.id w.outside in
        let (l₁, f₁) = delete-Matches chan category w.outside g name c m l e effect in
        let rest = delete_channels remote names (remove name m) in
        let next = delete_channels-Gone names (remove name m) (moved w g) l₁ d.1 (λ k h.
          let apart : k ≢ name = λ q. cc (ap (λ k. contains k names) q, h, d.0) in
          ap is_some (get-remove_other k name m apart) ∙ known k (ground arith)) in
        subst
          (λ o. Ends (Gone (name ∷ names) m w) (
            continue o (λ (c : Channel). must (remote.delete_channel c.id) >>= λ _. rest)
              (marked o w)))
          (sym e)
          (subst
            (λ b. Ends (Gone (name ∷ names) m w) (continue (succeed b) (λ _. rest) (moved w g)))
            (sym done)
            (Gone-step name names m w (moved w g) refl f₁ (rest (moved w g)).0 (rest (moved w g)).1
              next))
  ]

  abbrev pub Made : List Text → ChannelMap → World G → Option ChannelMap → World G → Type 0
  Made names m w none w' = ⊥
  Made names m w (some m') w' =
      Leaves w w' m' × ((k : Text) → is_some (get k m') ≡ (contains k names || is_some (get k m)))

  Made-step :
      (name : Text) (names : List Text) (c : Channel) (m : ChannelMap) (w w₁ : World G)
      → w₁.tables ≡ w.tables
      → Frame chan category w.outside w₁.outside
      → (r : Option ChannelMap) (w' : World G) → Made names (insert name c m) w₁ r w'
      → Made (name ∷ names) m w r w'
  Made-step name names c m w w₁ t f none w' h = h
  Made-step name names c m w w₁ t f (some m') w' (l, g) = (
    record {
      tables = l.tables ∙ t;
      matches = l.matches;
      frame = Frame-trans chan category w.outside w₁.outside w'.outside f l.frame;
    },
    λ k. elim (Text-cases k name) [
      | inl e ↦ ground (
        arith,
        g k,
        same_refl name,
        get-insert_same name c m,
        ap (λ k. get k (insert name c m)) e,
        ap (λ k. same k name) e,
      )
      | inr n ↦ ground (arith, g k, same_neq k name n, get-insert_other k name c m n)
    ],
  )

  pub create_channels-Made :
      (pos : List (Text × ℕ)) (names : List Text) (m : ChannelMap) (w : World G)
      → IsListed w.outside m
      → DistinctTexts names
      → ((k : Text) → contains k names ≡ true → get k m ≡ none)
      → ((k : Text) → contains k names ≡ true → is_some (get k pos) ≡ true)
      → Ends (Made names m w) (create_channels remote guild category pos names m w)
  unfolding create_channels ◌>>=◌
  create_channels-Made pos [] m w l d new known = (
    record {
      tables = refl;
      matches = l;
      frame = Frame-same chan category w.outside w.outside (λ i. refl);
    },
    λ k. refl,
  )
  create_channels-Made pos (name ∷ names) m w l d new known = elim (Option-cases (get name pos)) [
    | inl e ↦ cc (ap is_some e, known name (ground (arith, same_refl name)))
    | inr (p, e) ↦
        let g = (remote.create_channel guild name p category w.outside).1 in
        let (c, done, fresh, shown, effect) = discord.creates name p category w.outside in
        let (l₁, f₁) =
          create-Matches chan category w.outside g name p c m l
            (new name (ground (arith, same_refl name))) fresh shown effect in
        let rest =
          λ (c : Channel). create_channels remote guild category pos names (insert name c m) in
        let next =
          create_channels-Made pos names (insert name c m) (moved w g) l₁ d.1
            (λ k h.
              let apart : k ≢ name = λ q. cc (ap (λ k. contains k names) q, h, d.0) in
              get-insert_other k name c m apart ∙ new k (ground arith))
            (λ k h. known k (ground arith)) in
        subst
          (λ o. Ends (Made (name ∷ names) m w) (
            continue o (λ (p : ℕ). attempt (remote.create_channel guild name p category) >>= rest)
              (marked o w)))
          (sym e)
          (subst (λ b. Ends (Made (name ∷ names) m w) (continue b rest (moved w g))) (sym done)
            (Made-step name names c m w (moved w g) refl f₁ (rest c (moved w g)).0
              (rest c (moved w g)).1 next))
  ]
