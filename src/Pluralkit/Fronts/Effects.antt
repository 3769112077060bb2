-- ===== src/Pluralkit/Fronts/Effects.antt =====
-- What a call of Discord does to a map of the category's channels
-- (crates/tulpje-mod-pluralkit/src/fronters/shared.rs).
use tulpje.Prelude.{
  ℕ, Option, none, some, ◌≡◌, ◌≢◌, ◌⊎◌, sym, subst, ◌∙◌, ap, arith, inl, inr, Bool-cases, ◌==◌,
  ==_iff, if◌then◌else◌, Text, get, insert, remove, Text-cases, get-insert_same, get-insert_other,
  get-remove_same, get-remove_other,
}
use tulpje.Pluralkit.Fronts.Remote.{Channel}
use tulpje.Pluralkit.Fronts.Channels.{ChannelMap}
use tulpje.Pluralkit.Fronts.Discord.{Look, look_of, voice, placed, Frame, Matches, listed_place}

module _ {G : Type 0} (chan : G → ℕ → Option Look) (category : ℕ) where
  name_of :
      (i : ℕ) (g : G) (j k : Text) (p q : Option ℕ)
      → chan g i ≡ some (voice category j p)
      → chan g i ≡ some (voice category k q)
      → j ≡ k
  name_of i g j k p q e f = cc

  -- One channel changes.
  record Put (g g' : G) (x : ℕ) (o : Option Look) : Type 0 where
    hit : chan g' x ≡ o
    miss : (i : ℕ) → i ≢ x → chan g' i ≡ chan g i

  put :
      (g g' : G) (x : ℕ) (o : ℕ → Option Look)
      → ((i : ℕ) → chan g' i ≡ (if i == x then o i else chan g i))
      → Put g g' x (o x)
  put g g' x o d = record { hit = ground (arith, d x); miss = λ i n. ground (arith, d i) }

  ℕ-cases : (i j : ℕ) → (i ≡ j) ⊎ (i ≢ j)
  ℕ-cases i j = elim (Bool-cases (i == j)) [
    | inl e ↦ inl ((==_iff i j).0 e)
    | inr e ↦ inr (λ f. ground arith)
  ]

  -- A change of a channel that is in the category, or in none, before and after.
  put-Frame :
      (g g' : G) (x : ℕ) (o : Option Look)
      → Put g g' x o
      → ((l : Look) → chan g x ≡ some l → l.parent ≡ some category)
      → ((l : Look) → o ≡ some l → l.parent ≡ some category)
      → Frame chan category g g'
  put-Frame g g' x o d before after = record {
    stay = λ i l e n. elim (ℕ-cases i x) [
      | inl f ↦ elim (n (before l (ap (chan g) (sym f) ∙ e))) [ ]
      | inr f ↦ d.miss i f ∙ e
    ];
    stem = λ i l e n. elim (ℕ-cases i x) [
      | inl f ↦ elim (n (after l (sym d.hit ∙ ap (chan g') (sym f) ∙ e))) [ ]
      | inr f ↦ sym (d.miss i f) ∙ e
    ];
  }

  pub delete-Matches :
      (g g' : G) (k : Text) (c : Channel) (m : ChannelMap)
      → Matches chan category (listed_place chan category) g m
      → get k m ≡ some c
      → ((i : ℕ) → chan g' i ≡ (if i == c.id then none else chan g i))
      → Matches chan category (listed_place chan category) g' (remove k m)
        × Frame chan category g g'
  delete-Matches g g' k c m h e d =
      let u = put g g' c.id (λ _. none) d in
      let old = h.sound k c e in
      (
        record {
          sound = λ j b f. elim (Text-cases j k) [
            | inl t ↦ cc (ap (λ j. get j (remove k m)) t, get-remove_same k m)
            | inr n ↦
                let kept = h.sound j b (sym (get-remove_other j k m n) ∙ f) in
                u.miss b.id (λ q.
                  n (name_of c.id g j k b.position c.position (ap (chan g) (sym q) ∙ kept) old))
                ∙ kept
          ];
          whole = λ j i l f p n. elim (ℕ-cases i c.id) [
            | inl q ↦ cc (u.hit, ap (chan g') q)
            | inr q ↦
                let (b, got, at) = h.whole j i l (sym (u.miss i q) ∙ f) p n in
                (
                  b,
                  get-remove_other j k m (λ t. q (
                        sym at
                        ∙ ap (λ (c : Channel). c.id)
                            (Option-some-inj b c (sym got ∙ ap (λ j. get j m) t ∙ e))))
                      ∙ got,
                  at,
                )
          ];
        },
        put-Frame g g' c.id none u (λ l f. cc) (λ l f. cc),
      )
    where
      Option-some-inj : (b c : Channel) → some b ≡ some c → b ≡ c
      Option-some-inj b c e = cc

  pub create-Matches :
      (g g' : G) (k : Text) (p : ℕ) (c : Channel) (m : ChannelMap)
      → Matches chan category (listed_place chan category) g m
      → get k m ≡ none
      → chan g c.id ≡ none
      → look_of c ≡ voice category k (some p)
      → ((i : ℕ) → chan g' i ≡ (if i == c.id then some (voice category k (some p)) else chan g i))
      → Matches chan category (listed_place chan category) g' (insert k c m)
        × Frame chan category g g'
  create-Matches g g' k p c m h absent fresh shown d =
      let u = put g g' c.id (λ _. some (voice category k (some p))) d in
      (
        record {
          sound = λ j b f. elim (Text-cases j k) [
            | inl t ↦
                let same_channel : b ≡ c =
                  cc (ap (λ j. get j (insert k c m)) t, get-insert_same k c m, f) in
                let at : c.position ≡ some p = cc in
                ap (λ (b : Channel). chan g' b.id) same_channel
                ∙ u.hit
                ∙ ap (λ q. some (voice category k q))
                    (sym at ∙ ap (λ (b : Channel). b.position) (sym same_channel))
                ∙ ap (λ k. some (voice category k b.position)) (sym t)
            | inr n ↦
                let kept = h.sound j b (sym (get-insert_other j k c m n) ∙ f) in
                u.miss b.id (λ q. cc (ap (chan g) q, kept, fresh)) ∙ kept
          ];
          whole = λ j i l f q n. elim (ℕ-cases i c.id) [
            | inl e ↦
                let named : j ≡ k = cc (ap (chan g') e, u.hit, f, n) in
                (
                  c,
                  subst (λ j. get j (insert k c m) ≡ some c) (sym named) (get-insert_same k c m),
                  sym e,
                )
            | inr e ↦
                let (b, got, at) = h.whole j i l (sym (u.miss i e) ∙ f) q n in
                (b, get-insert_other j k c m (λ t. cc (ap (λ j. get j m) t, got, absent)) ∙ got, at)
          ];
        },
        put-Frame g g' c.id (some (voice category k (some p))) u (λ l f. cc) (λ l f. cc),
      )

  -- A channel of the map is where it should be, or is moved there.
  pub settle-Matches :
      (place place' : Text → Channel → Option ℕ) (g g' : G) (k : Text) (p : ℕ) (c : Channel)
      (m : ChannelMap)
      → Matches chan category place g m
      → get k m ≡ some c
      → place' k c ≡ some p
      → ((j : Text) (b : Channel) → j ≢ k → place' j b ≡ place j b)
      → ((i : ℕ) → chan g' i ≡ (if i == c.id then placed p (chan g i) else chan g i))
      → Matches chan category place' g' m × Frame chan category g g'
  settle-Matches place place' g g' k p c m h e here there d =
      let u = put g g' c.id (λ i. placed p (chan g i)) d in
      let old = h.sound k c e in
      let new : chan g' c.id ≡ some (voice category k (some p)) = u.hit ∙ ap (placed p) old in
      (
        record {
          sound = λ j b f. elim (Text-cases j k) [
            | inl t ↦
                let same_channel : b ≡ c = cc (ap (λ j. get j m) t, f, e) in
                ap (λ (b : Channel). chan g' b.id) same_channel
                ∙ new
                ∙ ap (λ q. some (voice category k q)) (sym here ∙ ap (place' k) (sym same_channel))
                ∙ ap (λ k. some (voice category k (place' k b))) (sym t)
            | inr n ↦
                let kept = h.sound j b f in
                u.miss b.id (λ q.
                  n (name_of c.id g j k (place j b) (place k c) (ap (chan g) (sym q) ∙ kept) old))
                ∙ kept
                ∙ ap (λ q. some (voice category j q)) (sym (there j b n))
          ];
          whole = λ j i l f q n. elim (ℕ-cases i c.id) [
            | inl t ↦
                let named : j ≡ k = cc (ap (chan g') t, new, f, n) in
                (c, subst (λ j. get j m ≡ some c) (sym named) e, sym t)
            | inr t ↦ h.whole j i l (sym (u.miss i t) ∙ f) q n
          ];
        },
        put-Frame g g' c.id (placed p (chan g c.id)) u (λ l f. cc) (λ l f. cc (ap (placed p) old)),
      )
