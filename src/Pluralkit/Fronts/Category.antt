-- ===== src/Pluralkit/Fronts/Category.antt =====
-- The update of a category carried out (crates/tulpje-mod-pluralkit/src/fronters/shared.rs,
-- `update_fronter_channels`).
use tulpje.Prelude.{
  ℕ, suc, ◌+◌, ◌≤◌, true, false, not, ◌&&◌, ◌||◌, Option, none, some, List, [], ◌∷◌, ◌≡◌, refl, sym,
  subst, ◌∙◌, ap, arith, inl, inr, Option-cases, if◌then◌else◌, Text, get, keys, contains, collect,
  filter, map, is_some, length,
}
use tulpje.Pluralkit.Util.{Member, get_member_name}
use tulpje.Pluralkit.Database.Action.{World, Action, Ends, continue, expect, marked, ◌>>=◌, pure}
use tulpje.Pluralkit.Database.Rules.{moved, bind-rule}
use tulpje.Pluralkit.Fronts.Remote.{Remote, Channel}
use tulpje.Pluralkit.Fronts.Channels.{
  ChannelMap, in_category, positions, set_of, difference, get_fronter_channels, delete_channels,
  create_channels, move_channels, reconcile, reconcile_listed, update_fronter_channels,
}
use tulpje.Pluralkit.Fronts.Discord.{
  Look, voice, Documented, Frame, Frame-same, Frame-trans, Matches,
}
use tulpje.Pluralkit.Fronts.Loops.{IsListed, Gone, Made, delete_channels-Gone, create_channels-Made}
use tulpje.Pluralkit.Fronts.Moves.{Moves, place, move_channels-Moves}
use tulpje.Pluralkit.Fronts.Names.{
  last_index, numbered, positions-numbered, contains-numbered, get-numbered, contains-set_of,
  set_of-Distinct, contains-difference, difference-Distinct, contains-keys, insert_all-Distinct,
  is_some-insert_all, named-In,
}
use tulpje.Pluralkit.Fronts.Reconciled.{
  Enumerates, Distinguished, ShowsName, Reconciles, listing, entries, listing-AllNamed,
  listing-keys, listing-Matches,
}

module _ {G : Type 0} (remote : Remote G) (guild : ℕ) (chan : G → ℕ → Option Look) (category : ℕ)
    (discord : Documented remote guild chan) (hashes : Enumerates remote.hash_order) (w : World G)
    (d : Distinguished remote guild chan category w.outside) (names : List Text) where
  abbrev current : ChannelMap
  current = entries remote guild chan category discord w.outside d

  abbrev listed : World G
  listed = moved w (remote.guild_channels guild w.outside).1

  abbrev pos : List (Text × ℕ)
  pos = collect (numbered 0 names)

  abbrev to_delete : List Text
  to_delete = remote.hash_order (difference (set_of (keys current)) (set_of names))

  abbrev to_create : List Text
  to_create = remote.hash_order (difference (set_of names) (set_of (keys current)))

  abbrev to_move : List Text
  to_move = remote.hash_order (keys pos)

  contains-to_delete :
      (k : Text) → contains k to_delete ≡ (contains k (keys current) && not (contains k names))
  contains-to_delete k =
      hashes.same_texts k (difference (set_of (keys current)) (set_of names))
      ∙ contains-difference k (set_of (keys current)) (set_of names)
      ∙ ground (arith, contains-set_of k (keys current), contains-set_of k names)

  contains-to_create :
      (k : Text) → contains k to_create ≡ (contains k names && not (contains k (keys current)))
  contains-to_create k =
      hashes.same_texts k (difference (set_of names) (set_of (keys current)))
      ∙ contains-difference k (set_of names) (set_of (keys current))
      ∙ ground (arith, contains-set_of k (keys current), contains-set_of k names)

  is_some-pos : (k : Text) → is_some (get k pos) ≡ contains k names
  is_some-pos k =
      is_some-insert_all k (numbered 0 names) [] ∙ ground (arith, contains-numbered k 0 names)

  contains-to_move : (k : Text) → contains k to_move ≡ contains k names
  contains-to_move k = hashes.same_texts k (keys pos) ∙ contains-keys k pos ∙ is_some-pos k

  -- The map of the listed channels matches the category after the listing too.
  IsListed-Matches : IsListed remote guild chan discord category listed.outside (collect current)
  IsListed-Matches =
      let m = listing-Matches remote guild chan category discord w.outside d in
      let kept = (discord.lists w.outside).4 in
      record {
        sound = λ k c e. kept c.id ∙ m.sound k c e;
        whole = λ k i l e p n. m.whole k i l (sym (kept i) ∙ e) p n;
      }

  abbrev Kept : ChannelMap → Type 0
  Kept m = (k : Text) → get k m ≡ (if contains k to_delete then none else get k (collect current))

  abbrev All : ChannelMap → ChannelMap → Type 0
  All kept m = (k : Text) → is_some (get k m) ≡ (contains k to_create || is_some (get k kept))

  -- After the deletions and the creations the map has the wanted names.
  wanted :
      (kept m : ChannelMap)
      → Kept kept
      → All kept m
      → (k : Text) → is_some (get k m) ≡ contains k names
  wanted kept m h a k = ground (
    arith,
    a k,
    h k,
    contains-to_create k,
    contains-to_delete k,
    listing-keys remote guild chan category discord w.outside d k,
  )

  -- What the map and the positions say of one name.
  shows :
      (w' : World G) (m : ChannelMap)
      → ((k : Text) → is_some (get k m) ≡ contains k names)
      → Matches chan category
          (place remote guild chan discord category pos m (λ k. contains k to_move || false))
          w'.outside
          m
      → (k : Text) → ShowsName remote guild chan category w'.outside k (last_index 0 k names)
  shows w' m held h k = go (last_index 0 k names) (get-numbered 0 k names [])
    where
      go :
          (o : Option ℕ)
          → get k pos ≡ elim o as (λ _. Option ℕ) [ none ↦ none | some i ↦ some i ]
          → ShowsName remote guild chan category w'.outside k o
      go none e = λ i l f p n.
          let (c, q, at) = h.whole k i l f p n in
          cc (ap is_some q, held k, sym (is_some-pos k), ap is_some e)
      go (some p) e =
          let there : contains k names ≡ true = sym (is_some-pos k) ∙ ap is_some e in
          elim (Option-cases (get k m)) [
            | inl q ↦ cc (ap is_some q, held k)
            | inr (c, q) ↦ (
              c.id,
              h.sound k c q
                  ∙ ap (λ x. some (voice category k x)) (ground (arith, contains-to_move k, e)),
              λ j l f r n.
                  let (b, t, at) = h.whole k j l f r n in
                  sym at ∙ ap (λ (x : Channel). x.id) (let u : b ≡ c = cc in u),
            )
          ]

  move : ChannelMap → Action G (Unit {0})
  move m = move_channels remote pos to_move m

  moved_lem :
      (kept m : ChannelMap) (w₂ : World G)
      → w₂.tables ≡ w.tables
      → Frame chan category w.outside w₂.outside
      → IsListed remote guild chan discord category w₂.outside m
      → Kept kept
      → All kept m
      → Ends (Reconciles remote guild chan category names w) (move m w₂)
  unfolding move
  moved_lem kept m w₂ t f l h a =
      let (r, w') = move_channels remote pos to_move m w₂ in
      go r w' (
        move_channels-Moves remote guild chan discord category pos m to_move (λ k. false) w₂ l
          (hashes.distinct (keys pos) (insert_all-Distinct (numbered 0 names) [] tt)) (λ k e. refl)
          (λ k e. is_some-pos k ∙ sym (contains-to_move k) ∙ e)
          (λ k e. wanted kept m h a k ∙ sym (contains-to_move k) ∙ e))
    where
      go :
          (r : Option (Unit {0})) (w' : World G)
          → Moves remote guild chan discord category pos m
              (λ k. contains k to_move || false)
              w₂
              r
              w'
          → Reconciles remote guild chan category names w r w'
      go none w' e = e
      go (some _) w' e = record {
        tables = e.tables ∙ t;
        exact = shows w' m (wanted kept m h a) e.matches;
        others = Frame-trans chan category w.outside w₂.outside w'.outside f e.frame;
      }

  absent_yet :
      (kept : ChannelMap) → Kept kept → (k : Text) → contains k to_create ≡ true → get k kept ≡ none
  absent_yet kept h k c = elim (Option-cases (get k (collect current))) [
    | inl e ↦ ground (arith, h k, e)
    | inr (b, e) ↦
        let unlisted : contains k (keys current) ≡ false = ground (arith, contains-to_create k) in
        cc (listing-keys remote guild chan category discord w.outside d k)
  ]

  create : ChannelMap → Action G ChannelMap
  create kept = create_channels remote guild category pos to_create kept

  changed :
      Ends (Reconciles remote guild chan category names w) (
        (delete_channels remote to_delete (collect current) >>= λ kept. create kept >>= move)
          listed)
  unfolding create
  changed =
      bind-rule (Gone remote guild chan discord category to_delete (collect current) listed)
        (Reconciles remote guild chan category names w)
        (delete_channels remote to_delete (collect current)) (λ kept. create kept >>= move) listed
        (delete_channels-Gone remote guild chan discord category to_delete (collect current) listed
          IsListed-Matches
          (hashes.distinct _ (
            difference-Distinct (set_of (keys current)) (set_of names)
              (set_of-Distinct (keys current))))
          (λ k e.
            listing-keys remote guild chan category discord w.outside d k
            ∙ ground (arith, contains-to_delete k)))
        (λ w' e. elim e [ ])
        λ kept w₁ (l, h).
          bind-rule (Made remote guild chan discord category to_create kept w₁)
            (Reconciles remote guild chan category names w) (create kept) move w₁
            (create_channels-Made remote guild chan discord category pos to_create kept w₁ l.matches
              (hashes.distinct _ (
                difference-Distinct (set_of names) (set_of (keys current)) (set_of-Distinct names)))
              (absent_yet kept h) (λ k e. is_some-pos k ∙ ground (arith, contains-to_create k)))
            (λ w' e. elim e [ ])
            (λ m w₂ (l₂, a).
              moved_lem kept m w₂ (l₂.tables ∙ l.tables)
                (Frame-trans chan category w.outside listed.outside w₂.outside
                  (Frame-same chan category w.outside listed.outside (discord.lists w.outside).4)
                  (Frame-trans chan category listed.outside w₁.outside w₂.outside l.frame l₂.frame))
                l₂.matches h a)

length-map : (members : List Member) → length (map get_member_name members) ≡ length members
length-map [] = refl
length-map (_ ∷ members) = ap suc (length-map members)

few_names :
    (members : List Member)
    → length members ≤ 65536
    → 0 + length (map get_member_name members) ≤ 65536
few_names members h = omega (arith, length-map members)

module _ {G : Type 0} (remote : Remote G) (guild : ℕ) (chan : G → ℕ → Option Look) (category : ℕ)
    (discord : Documented remote guild chan) (hashes : Enumerates remote.hash_order) (w : World G)
    (d : Distinguished remote guild chan category w.outside) where
  -- Where Discord carries out every call, the category's channels have different names and there
  -- are at most 65536 members, an update of the category succeeds, in whatever order the sets hand
  -- out the names. Then each member's name is shown by exactly one channel of the category, whose
  -- position is that of the last member of the name, no other name is shown there, and the
  -- channels outside the category are as they were.
  pub update_fronter_channels-Reconciles :
      (members : List Member)
      → length members ≤ 65536
      → Ends
          (Reconciles remote guild chan category (map get_member_name members) w)
          (update_fronter_channels remote guild category members w)
  unfolding update_fronter_channels get_fronter_channels create move ◌>>=◌
  update_fronter_channels-Reconciles members few =
      let names = map get_member_name members in
      let start = moved w (remote.guild_channels guild w.outside).1 in
      let (cs, listed_all, _, _, _) = discord.lists w.outside in
      let (es, named_all, _, _) =
        named-In (listing remote guild chan category discord w.outside d)
          (listing-AllNamed remote guild chan category discord w.outside d) in
      subst
        (λ (o : Option (List Channel)).
          let (r, w') =
            continue o (λ (cs : List Channel). pure (filter (in_category category) cs)) start in
          Ends (Reconciles remote guild chan category names w)
            (continue r (reconcile_listed remote guild category names) w'))
        (sym listed_all)
        (subst
          (λ (o : Option ChannelMap). Ends (Reconciles remote guild chan category names w) (
            continue o
              (λ (c : ChannelMap).
                expect (positions 0 names) >>= reconcile remote guild category names c)
              (marked o start)))
          (sym named_all)
          (subst
            (λ (o : Option (List (Text × ℕ))).
              Ends (Reconciles remote guild chan category names w)
                (continue o (reconcile remote guild category names es) (marked o start)))
            (sym (positions-numbered 0 names (few_names members few)))
            (changed remote guild chan category discord hashes w d names)))
