-- ===== src/Pluralkit/Fronts/Moves.antt =====
-- The loop that moves a category's channels (crates/tulpje-mod-pluralkit/src/fronters/shared.rs,
-- `update_fronter_channels`), with Discord carrying out every call.
use tulpje.Prelude.{
  ℕ, Bool, true, false, Option, none, some, List, [], ◌∷◌, ◌≡◌, ◌≢◌, refl, sym, subst, ◌∙◌, ap,
  arith, inl, inr, Bool-cases, Option-cases, ◌==◌, ==_iff, if◌then◌else◌, Text, get, contains,
  DistinctTexts, ◌||◌, same, same_refl, same_neq, is_some,
}
use tulpje.Pluralkit.Database.Action.{World, Ends, continue, expect, marked, ◌>>=◌}
use tulpje.Pluralkit.Database.Rules.{moved, bind-rule}
use tulpje.Pluralkit.Fronts.Remote.{Remote, Channel, succeed}
use tulpje.Pluralkit.Fronts.Channels.{ChannelMap, move_unless, move_channels, is_at}
use tulpje.Pluralkit.Fronts.Discord.{
  Look, Documented, Frame, Frame-same, Frame-trans, Matches, voice, placed,
}
use tulpje.Pluralkit.Fronts.Effects.{settle-Matches}

module _ {G : Type 0} (remote : Remote G) (guild : ℕ) (chan : G → ℕ → Option Look)
    (discord : Documented remote guild chan) (category : ℕ) where
  module _ (pos : List (Text × ℕ)) (m : ChannelMap) where
    -- The channels of the names that are done stand where they should.
    abbrev pub place : (Text → Bool) → Text → Channel → Option ℕ
    place done k c = if done k then get k pos else c.position

    pub record Moved (done : Text → Bool) (w w' : World G) : Type 0 where
      pub tables : w'.tables ≡ w.tables
      pub matches : Matches chan category (place done) w'.outside m
      pub frame : Frame chan category w.outside w'.outside

    abbrev pub Moves : (Text → Bool) → World G → Option (Unit {0}) → World G → Type 0
    Moves done w none w' = ⊥
    Moves done w (some _) w' = Moved done w w'

    Moves-step :
        (name : Text) (names : List Text) (done : Text → Bool) (w w₁ : World G)
        → w₁.tables ≡ w.tables
        → Frame chan category w.outside w₁.outside
        → (r : Option (Unit {0})) (w' : World G)
        → Moves (λ k. contains k names || (same k name || done k)) w₁ r w'
        → Moves (λ k. contains k (name ∷ names) || done k) w r w'
    Moves-step name names done w w₁ t f none w' h = h
    Moves-step name names done w w₁ t f (some _) w' h = record {
      tables = h.tables ∙ t;
      matches = record {
        sound = λ k c e. h.matches.sound k c e ∙ ap (λ q. some (voice category k q)) (ground arith);
        whole = h.matches.whole;
      };
      frame = Frame-trans chan category w.outside w₁.outside w'.outside f h.frame;
    }

    abbrev Stood : Text → (Text → Bool) → World G → Option (Unit {0}) → World G → Type 0
    Stood name done w none w' = ⊥
    Stood name done w (some _) w' = Moved (λ k. same k name || done k) w w'

    settled :
        (name : Text) (p : ℕ) (c : Channel) (done : Text → Bool) (w : World G) (g' : G)
        → Matches chan category (place done) w.outside m
        → get name m ≡ some c
        → get name pos ≡ some p
        → done name ≡ false
        → ((i : ℕ)
            → chan g' i ≡ (if i == c.id then placed p (chan w.outside i) else chan w.outside i))
        → Moved (λ k. same k name || done k) w (moved w g')
    settled name p c done w g' l e f new effect =
        let (h, frame) =
          settle-Matches chan category (place done) (place (λ k. same k name || done k)) w.outside
            g' name p c m l e (ground (arith, same_refl name))
            (λ j b n. ground (arith, same_neq j name n)) effect in
        record { tables = refl; matches = h; frame = frame }

    stands :
        (name : Text) (p : ℕ) (c : Channel) (done : Text → Bool) (w : World G)
        → Matches chan category (place done) w.outside m
        → get name m ≡ some c
        → get name pos ≡ some p
        → done name ≡ false
        → (b : Bool) → is_at p c ≡ b
        → Ends (Stood name done w) (move_unless remote b c.id p w)
    stands name p c done w l e f new true at =
        let here : c.position ≡ some p = ground arith in
        let old : chan w.outside c.id ≡ some (voice category name c.position) =
          l.sound name c e ∙ ap (λ q. some (voice category name q)) (ground arith) in
        settled name p c done w w.outside l e f new (λ i. elim (Bool-cases (i == c.id)) [
          | inl t ↦
              let same_id : i ≡ c.id = (==_iff i c.id).0 t in
              rw t (
                ap (chan w.outside) same_id
                ∙ old
                ∙ ap (λ q. some (voice category name q)) here
                ∙ ap (placed p) (sym (ap (chan w.outside) same_id ∙ old)))
          | inr t ↦ rw t refl
        ])
    stands name p c done w l e f new false at =
        let (ok, effect) = discord.moves c.id p w.outside in
        let g = (remote.move_channel c.id p w.outside).1 in
        subst (λ b. Ends (Stood name done w) (succeed b, moved w g)) (sym ok)
          (settled name p c done w g l e f new effect)

    pub move_channels-Moves :
        (names : List Text) (done : Text → Bool) (w : World G)
        → Matches chan category (place done) w.outside m
        → DistinctTexts names
        → ((k : Text) → contains k names ≡ true → done k ≡ false)
        → ((k : Text) → contains k names ≡ true → is_some (get k pos) ≡ true)
        → ((k : Text) → contains k names ≡ true → is_some (get k m) ≡ true)
        → Ends (Moves (λ k. contains k names || done k) w) (move_channels remote pos names m w)
    unfolding move_channels ◌>>=◌
    move_channels-Moves [] done w l d new known held = record {
      tables = refl;
      matches = l;
      frame = Frame-same chan category w.outside w.outside (λ i. refl);
    }
    move_channels-Moves (name ∷ names) done w l d new known held =
        elim (Option-cases (get name pos)) [
          | inl e ↦ cc (ap is_some e, known name (ground (arith, same_refl name)))
          | inr (p, e) ↦ elim (Option-cases (get name m)) [
            | inl e' ↦ cc (ap is_some e', held name (ground (arith, same_refl name)))
            | inr (c, e') ↦
                let rest = move_channels remote pos names m in
                let b = is_at p c in
                let done' = λ (k : Text). same k name || done k in
                subst
                  (λ o. Ends (Moves (λ k. contains k (name ∷ names) || done k) w) (
                    continue o
                      (λ (p : ℕ). expect (get name m) >>= λ (c : Channel).
                        move_unless remote (is_at p c) c.id p >>= λ _. rest)
                      (marked o w)))
                  (sym e)
                  (subst
                    (λ o. Ends (Moves (λ k. contains k (name ∷ names) || done k) w) (
                      continue o
                        (λ (c : Channel). move_unless remote (is_at p c) c.id p >>= λ _. rest)
                        (marked o w)))
                    (sym e')
                    (bind-rule (Stood name done w)
                      (Moves (λ k. contains k (name ∷ names) || done k) w)
                      (move_unless remote b c.id p) (λ _. rest) w
                      (stands name p c done w l e' e (new name (ground (arith, same_refl name))) b
                        refl)
                      (λ w' h. elim h [ ])
                      (λ _ w₁ h.
                        Moves-step name names done w w₁ h.tables h.frame (rest w₁).0 (rest w₁).1 (
                          move_channels-Moves names done' w₁ h.matches d.1
                            (λ k t.
                              let apart : k ≢ name =
                                λ q. cc (ap (λ k. contains k names) q, t, d.0) in
                              ground (arith, same_neq k name apart, new k))
                            (λ k t. known k (ground arith)) (λ k t. held k (ground arith))))))
          ]
        ]
