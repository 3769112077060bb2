-- ===== src/Pluralkit/Fronts/Reconciled.antt =====
-- The category after an update (crates/tulpje-mod-pluralkit/src/fronters/shared.rs,
-- `update_fronter_channels`).
use tulpje.Prelude.{
  ℕ, true, Option, none, some, List, [], ◌≡◌, ◌≢◌, refl, ◌∙◌, ap, arith, inl, inr, Option-cases,
  ==_iff, Text, get, keys, contains, collect, DistinctTexts, filter, is_some,
}
use tulpje.Pluralkit.Database.Action.{World}
use tulpje.Pluralkit.Database.Sorted.{In, In-filter, filter-In}
use tulpje.Pluralkit.Fronts.Remote.{Remote, Channel}
use tulpje.Pluralkit.Fronts.Channels.{ChannelMap, in_category}
use tulpje.Pluralkit.Fronts.Discord.{Look, look_of, voice, Documented, Frame, Matches, listed_place}
use tulpje.Pluralkit.Fronts.Names.{
  last_index, is_some-insert_all, get-insert_all-In, AllNamed, named-In,
}

-- A hash set or a hash map hands out its texts in some order, each once.
pub record Enumerates (order : List Text → List Text) : Type 0 where
  pub same_texts : (k : Text) (ks : List Text) → contains k (order ks) ≡ contains k ks
  pub distinct : (ks : List Text) → DistinctTexts ks → DistinctTexts (order ks)

module _ {G : Type 0} (remote : Remote G) (guild : ℕ) (chan : G → ℕ → Option Look)
    (category : ℕ) where
  -- The category's channels have names, and different ones.
  pub record Distinguished (g : G) : Type 0 where
    pub named_channels :
        (i : ℕ) (l : Look)
        → chan g i ≡ some l
        → l.parent ≡ some category
        → (k : Text) × (l.name ≡ some k)
    pub apart :
        (i j : ℕ) (l n : Look) (k : Text)
        → chan g i ≡ some l
        → l.parent ≡ some category
        → l.name ≡ some k
        → chan g j ≡ some n
        → n.parent ≡ some category
        → n.name ≡ some k
        → i ≡ j

  -- The category shows the name once, at the position, or not at all.
  abbrev pub ShowsName : G → Text → Option ℕ → Type 0
  ShowsName g k none =
      (i : ℕ) (l : Look) → chan g i ≡ some l → l.parent ≡ some category → l.name ≢ some k
  ShowsName g k (some p) =
      (i : ℕ) × (chan g i ≡ some (voice category k (some p)))
      × ((j : ℕ) (l : Look)
          → chan g j ≡ some l
          → l.parent ≡ some category
          → l.name ≡ some k
          → j ≡ i)

  -- The category shows exactly these names, each where it stands last.
  pub record Reconciled (names : List Text) (w w' : World G) : Type 0 where
    pub tables : w'.tables ≡ w.tables
    pub exact : (k : Text) → ShowsName w'.outside k (last_index 0 k names)
    pub others : Frame chan category w.outside w'.outside

  abbrev pub Reconciles : List Text → World G → Option (Unit {0}) → World G → Type 0
  Reconciles names w none w' = ⊥
  Reconciles names w (some _) w' = Reconciled names w w'

  in_category-parent : (c : Channel) → in_category category c ≡ true → c.parent_id ≡ some category
  in_category-parent c h = elim (Option-cases c.parent_id) [
    | inl e ↦ ground arith
    | inr (p, e) ↦ e ∙ ap some ((==_iff p category).0 (ground arith))
  ]

  parent-in_category : (c : Channel) → c.parent_id ≡ some category → in_category category c ≡ true
  parent-in_category c h = ground arith

  module _ (discord : Documented remote guild chan) (g : G) (d : Distinguished g) where
    abbrev pub listing : List Channel
    listing = filter (in_category category) (discord.lists g).0

    pub listing-AllNamed : AllNamed listing
    listing-AllNamed c m =
        let (i, e) = filter-In (in_category category) c (discord.lists g).0 m in
        d.named_channels c.id (look_of c) ((discord.lists g).2 c i) (in_category-parent c e)

    abbrev pub entries : ChannelMap
    entries = (named-In listing listing-AllNamed).0

    listing_sound :
        (k : Text) (c : Channel)
        → get k (collect entries) ≡ some c
        → chan g c.id ≡ some (voice category k c.position)
    listing_sound k c f =
        let (es, e, sound, whole) = named-In listing listing-AllNamed in
        elim (get-insert_all-In k c es [] f) [
          | inr impossible ↦ cc
          | inl m ↦
              let (i, n) = sound k c m in
              let (j, t) = filter-In (in_category category) c (discord.lists g).0 i in
              let p = in_category-parent c t in
              (discord.lists g).2 c j
              ∙ ap (λ q. some (record { name = q; parent = c.parent_id; position = c.position })) n
              ∙ ap (λ q. some (record { name = some k; parent = q; position = c.position })) p
        ]

    pub listing-keys : (k : Text) → is_some (get k (collect entries)) ≡ contains k (keys entries)
    listing-keys k = is_some-insert_all k entries [] ∙ ground arith

    -- The map at the start matches the category.
    pub listing-Matches : Matches chan category (listed_place chan category) g (collect entries)
    listing-Matches = record {
      sound = listing_sound;
      whole = λ k i l f p n.
          let (es, e, sound, whole) = named-In listing listing-AllNamed in
          let (c, m, at, shape) = (discord.lists g).3 i l f in
          let inside : In c listing =
            In-filter (in_category category) c (discord.lists g).0 m
              (parent-in_category c (ap (λ (x : Look). x.parent) shape ∙ p)) in
          let held : is_some (get k (collect entries)) ≡ true =
            listing-keys k ∙ whole k c inside (ap (λ (x : Look). x.name) shape ∙ n) in
          elim (Option-cases (get k (collect entries))) [
            | inl q ↦ cc (ap is_some q)
            | inr (b, q) ↦ (
              b,
              q,
              d.apart b.id i (voice category k b.position) l k (listing_sound k b q) refl refl f p
                  n,
            )
          ];
    }
