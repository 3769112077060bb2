-- ===== src/Tests/FrontSample.antt =====
-- A concrete outside for the fronts (crates/tulpje-mod-pluralkit): postgres answers at a fixed time,
-- PluralKit always gives the same answer, and Discord keeps the channels of one guild in slots.
use tulpje.Prelude.{
  ℕ, zero, suc, ◌+◌, ◌<◌, true, false, Option, none, some, List, [], ◌∷◌, ◌≡◌, ◌⊎◌, refl, sym, ap,
  ◌∙◌, subst, arith, inl, inr, Bool-cases, Option-cases, ltb, ◌==◌, ==_iff, if◌then◌else◌, Text,
}
use tulpje.Pluralkit.Util.{RefText}
use tulpje.Pluralkit.Database.Tables.{ModPkSystem}
use tulpje.Pluralkit.Database.Action.{Postgres}
use tulpje.Pluralkit.Database.Sorted.{In}
use tulpje.Pluralkit.Fronts.Remote.{
  Remote, Channel, FrontAnswer, SystemAnswer, ChannelAnswer, answered, unknown_channel,
}
use tulpje.Pluralkit.Fronts.Discord.{Look, look_of, voice, placed, Documented}
use tulpje.Pluralkit.Fronts.Notified.{LogEntry, Logged}
use tulpje.Pluralkit.Fronts.Starved.{Requests}
use tulpje.Pluralkit.Fronts.Reconciled.{Enumerates}

abbrev pub system_at : ℕ → ModPkSystem
system_at u = record {
  id = (b'a' + u) ∷ [];
  uuid = u;
  name = none;
  avatar = none;
  created_at = 0;
  updated_at = 0;
}

-- Slots from `size` on are empty.
pub record Slots : Type 0 where
  pub size : ℕ
  pub at : ℕ → Option Look
  pub messages : List LogEntry
  pub asked : List Text

abbrev pub chan : Slots → ℕ → Option Look
chan g i = if ltb i g.size then g.at i else none

abbrev pub channel : ℕ → Look → Channel
channel i l = record {
  id = i;
  guild_id = some 1;
  parent_id = l.parent;
  name = l.name;
  position = l.position;
}

abbrev pub add_slot : (ℕ → Option Look) → ℕ → List Channel → List Channel
add_slot at i cs = elim (at i) [ none ↦ cs | some l ↦ channel i l ∷ cs ]

unfoldable pub rows : ℕ → (ℕ → Option Look) → List Channel
rows zero at = []
rows (suc n) at = add_slot at n (rows n at)

abbrev pub set_slot : Slots → ℕ → Option Look → Slots
set_slot g i o = record g { at = λ j. if j == i then o else g.at j }

-- The channel 9 is gone.
abbrev pub send : ℕ → ChannelAnswer (Unit {0})
send c = if c == 9 then unknown_channel else answered tt

abbrev pub new_slot : Text → ℕ → ℕ → Slots → Option Channel × Slots
new_slot name position parent g =
    let l = voice parent name (some position) in
    (some (channel g.size l), record (set_slot g g.size (some l)) { size = g.size + 1 })

abbrev pub sample_postgres : Postgres Slots
sample_postgres = record { statement = λ g. (some 1000000000, g) }

abbrev pub sample_refs : RefText
sample_refs = record {
  parse_id = λ s. none;
  parse_uuid = λ s. none;
  print_id = λ n. n ∷ [];
  print_uuid = λ n. n ∷ [];
}

unfoldable pub sample_remote : FrontAnswer → SystemAnswer → Remote Slots
unfolding rows
sample_remote front system = record {
  postgres = sample_postgres;
  refs = sample_refs;
  embed_rules = record { image_url = λ s. true; in_range = λ n. true; validate = λ e. true };
  utc_now = λ g. (1000000001, g);
  get_system_fronters = λ r g. (front, record g { asked = r ∷ g.asked });
  get_system = λ r g. (system, g);
  create_message = λ c n g. (send c, record g { messages = (c, n, send c) ∷ g.messages });
  get_guild = λ i g. (true, g);
  get_channel = λ c g. (unknown_channel, g);
  guild_channels = λ guild g. (some (rows g.size g.at), g);
  delete_channel = λ c g. (true, set_slot g c none);
  create_channel = λ guild name position parent g. new_slot name position parent g;
  move_channel = λ c p g. (true, set_slot g c (placed p (chan g c)));
  hash_order = λ ks. ks;
  respond = λ t g. (true, g);
}

pub sample_logged :
    (front : FrontAnswer) (system : SystemAnswer)
    → Logged (sample_remote front system) (λ g. g.messages)
unfolding sample_remote
sample_logged front system = record {
  up = λ g. (1000000000, refl);
  statement_quiet = λ g. refl;
  front_quiet = λ r g. refl;
  message_logged = λ c n g. refl;
}

pub sample_hashes :
    (front : FrontAnswer) (system : SystemAnswer)
    → Enumerates (sample_remote front system).hash_order
unfolding sample_remote
sample_hashes front system = record { same_texts = λ k ks. refl; distinct = λ ks d. d }

pub sample_requests :
    (front : FrontAnswer) (system : SystemAnswer)
    → Requests (sample_remote front system) (λ g. g.asked)
unfolding sample_remote
sample_requests front system = record { statement_quiet = λ g. refl; front_logged = λ r g. refl }

rows_sound :
    (n : ℕ) (at : ℕ → Option Look) (c : Channel)
    → In c (rows n at)
    → (c.id < n) × (at c.id ≡ some (look_of c))
unfolding rows
rows_sound zero at c m = elim m [ ]
rows_sound (suc n) at c m = elim (Option-cases (at n)) [
  | inl e ↦ let (b, f) = rows_sound n at c (subst (In c) (step_none e) m) in (omega arith, f)
  | inr (l, e) ↦
      elim (let k : In c (channel n l ∷ rows n at) = subst (In c) (step_some l e) m in k) [
        | inl q ↦ (
          omega (arith, ap (λ (x : Channel). x.id) q),
          ap (λ (x : Channel). at x.id) q ∙ e ∙ ap (λ (x : Channel). some (look_of x)) (sym q),
        )
        | inr k ↦ let (b, f) = rows_sound n at c k in (omega arith, f)
      ]
]
  where
    step_none : at n ≡ none → add_slot at n (rows n at) ≡ rows n at
    step_none e = ground arith

    step_some : (l : Look) → at n ≡ some l → add_slot at n (rows n at) ≡ channel n l ∷ rows n at
    step_some l e = ground arith

rows-whole :
    (n : ℕ) (at : ℕ → Option Look) (i : ℕ) (l : Look)
    → i < n
    → at i ≡ some l
    → In (channel i l) (rows n at)
unfolding rows
rows-whole zero at i l h e = absurd (omega arith)
rows-whole (suc n) at i l h e = elim (Bool-cases (i == n)) [
  | inl q ↦
      let same_slot : i ≡ n = (==_iff i n).0 q in
      subst (In (channel i l)) (sym (step_some l (ap at (sym same_slot) ∙ e)))
        (inl (ap (λ j. channel j l) same_slot))
  | inr q ↦
      let rest = rows-whole n at i l (ground arith) e in
      elim (Option-cases (at n)) [
        | inl f ↦ subst (In (channel i l)) (sym (step_none f)) rest
        | inr (k, f) ↦ subst (In (channel i l)) (sym (step_some k f)) (inr rest)
      ]
]
  where
    step_none : at n ≡ none → add_slot at n (rows n at) ≡ rows n at
    step_none e = ground arith

    step_some : (l : Look) → at n ≡ some l → add_slot at n (rows n at) ≡ channel n l ∷ rows n at
    step_some l e = ground arith

move_effect :
    (g : Slots) (id p i : ℕ)
    → chan (set_slot g id (placed p (chan g id))) i
      ≡ (if i == id then placed p (chan g i) else chan g i)
move_effect g id p i = elim (Bool-cases (i == id)) [
  | inl e ↦
      let same_slot : i ≡ id = (==_iff i id).0 e in
      ap (λ j. chan (set_slot g j (placed p (chan g j))) i) (sym same_slot)
      ∙ rw e (moved_here (Bool-cases (ltb i g.size)))
  | inr e ↦ ground arith
]
  where
    moved_here :
        (ltb i g.size ≡ true) ⊎ (ltb i g.size ≡ false)
        → chan (set_slot g i (placed p (chan g i))) i ≡ placed p (chan g i)
    moved_here (inl t) = ground (arith, ==_iff i i)
    moved_here (inr f) = ground (arith, ap (placed p) (let n : chan g i ≡ none = ground arith in n))

pub sample_documented :
    (front : FrontAnswer) (system : SystemAnswer) → Documented (sample_remote front system) 1 chan
unfolding sample_remote
sample_documented front system = record {
  lists = λ g. (
    rows g.size g.at,
    refl,
    λ c m. let (b, e) = rows_sound g.size g.at c m in ground arith,
    λ i l e. (channel i l, rows-whole g.size g.at i l (ground arith) (ground arith), refl, refl),
    λ i. refl,
  );
  deletes = λ id g. (refl, λ i. ground arith);
  creates = λ name p category g.
      (channel g.size (voice category name (some p)), refl, ground arith, refl, λ i. ground arith);
  moves = λ id p g. (refl, λ i. move_effect g id p i);
}
