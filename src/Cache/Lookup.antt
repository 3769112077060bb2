-- ===== src/Cache/Lookup.antt =====
-- What is found after an insertion or a removal (crates/tulpje-cache/src/repository.rs).
use tulpje.Prelude.{
  ℕ, Bool, true, false, not, Option, none, some, [], ◌∷◌, ◌≡◌, ◌≢◌, ◌⊎◌, inl, refl, sym, ap, ◌∙◌,
  subst, arith, Text, ltb, is_some, ==_refl,
}
use tulpje.Cache.Redis.{Redis, Json, View, Documented, SameSets}
use tulpje.Cache.Repository.{answer, counted, get, insert, remove, decoded}

-- The property of a result, if the commands answered.
abbrev pub Answers : {A : Type 0} → (A → Type 0) → Option A → Type 0
Answers P none = Unit {0}
Answers P (some a) = P a

pub Answers-answer :
    {A B : Type 0} (P : B → Type 0) (o : Option A) (f : A → Option B)
    → ((a : A) → o ≡ some a → Answers P (f a))
    → Answers P (answer o f)
Answers-answer P none f h = tt
Answers-answer P (some a) f h = h a refl

pub Answers-counted :
    {S : Type 0} (P : S × Bool → Type 0) (o : Option (S × ℕ))
    → ((s : S) (n : ℕ) → o ≡ some (s, n) → P (s, ltb 0 n))
    → Answers P (counted o)
Answers-counted P none h = tt
Answers-counted P (some (s, n)) h = h s n refl

module _ {S : Type 0} (redis : Redis S) (view : View S) (documented : Documented redis view) where
  module _ {K V : Type 0} (hash : K → ℕ) (json : Json V) where
    -- The texts that are written are read back as the same values.
    abbrev pub RoundTrips : Type 0
    RoundTrips = (v : V) (t : Text) → json.to_string v ≡ some t → json.from_str t ≡ some v

    -- The value, if redis answers.
    abbrev pub found : Text → K → V → S → Option (Option V)
    found name key v s = answer (redis.hget name (hash key) s) (λ _. some (some v))

    decoded_lem :
        (u : Option Text) (v : V) (t : Text)
        → u ≡ some t
        → json.from_str t ≡ some v
        → decoded redis hash json u ≡ some (some v)
    decoded_lem u v t e f =
        subst (λ u. decoded redis hash json u ≡ some (some v)) (sym e)
          (ap (λ o. elim o as (λ _. Option (Option V)) [ none ↦ none | some v ↦ some (some v) ]) f)

    get-found :
        (name : Text) (wanted : Bool) (key : K) (s : S) (v : V) (t : Text)
        → view.field_of s name (hash key) ≡ some t
        → json.from_str t ≡ some v
        → get redis hash json (name, wanted) key s ≡ found name key v s
    unfolding get
    get-found name wanted key s v t e f =
        go (redis.hget name (hash key) s) (documented.hget_reads name (hash key) s)
      where
        go :
            (o : Option (Option Text))
            → ((u : Option Text) → o ≡ some u → u ≡ view.field_of s name (hash key))
            → answer o (decoded redis hash json) ≡ answer o (λ _. some (some v))
        go none h = refl
        go (some u) h = decoded_lem u v t (h u refl ∙ e) f

    -- The store after an insertion holds the value under its key.
    abbrev pub Stores : Text → K → V → S → S × Bool → Type 0
    Stores name key v s r =
        (get redis hash json (name, true) key r.0 ≡ found name key v r.0)
        × ((other : Text) (f : ℕ)
            → (other ≢ name) ⊎ (f ≢ hash key)
            → view.field_of r.0 other f ≡ view.field_of s other f)
        × (r.1 ≡ not (is_some (view.field_of s name (hash key))))
        × SameSets view s r.0

    -- After an insertion into a repository that the configuration wants, where redis answers as
    -- documented and each text that a value is written as is read back as the value, a `get` of the
    -- key gives the value whenever redis answers it. The insertion changes nothing under another
    -- hash, in another repository or in a set, and tells whether the hash of the key was new.
    pub insert-Stores :
        (name : Text) (key : K) (v : V) (s : S)
        → RoundTrips
        → Answers (Stores name key v s) (insert redis hash json (name, true) key v s)
    unfolding insert
    insert-Stores name key v s trips =
        Answers-answer (Stores name key v s) (json.to_string v)
          (λ t. counted (redis.hset name (hash key) t s))
          (λ t e. Answers-counted (Stores name key v s) (redis.hset name (hash key) t s) (λ s' n h.
            let (at, others, new, sets) = documented.hset_writes name (hash key) t s s' n h in
            (get-found name true key s' v t at (trips v t e), others, new, sets)))

    -- What another repository holds is not touched, whether this one is wanted or not.
    abbrev pub OthersSame : Text → S → S → Type 0
    OthersSame name s s' =
        ((other : Text) (f : ℕ) → other ≢ name → view.field_of s' other f ≡ view.field_of s other f)
        × SameSets view s s'

    pub insert-OthersSame :
        (name : Text) (wanted : Bool) (key : K) (v : V) (s : S)
        → Answers (λ r. OthersSame name s r.0) (insert redis hash json (name, wanted) key v s)
    unfolding insert
    insert-OthersSame name false key v s = (λ other f n. refl, λ name value. refl)
    insert-OthersSame name true key v s =
        Answers-answer (λ r. OthersSame name s r.0) (json.to_string v)
          (λ t. counted (redis.hset name (hash key) t s))
          (λ t e.
            Answers-counted (λ r. OthersSame name s r.0) (redis.hset name (hash key) t s)
              (λ s' n h.
                let (at, others, new, sets) = documented.hset_writes name (hash key) t s s' n h in
                (λ other f n. others other f (inl n), sets)))

    pub remove-OthersSame :
        (name : Text) (wanted : Bool) (key : K) (s : S)
        → Answers (λ r. OthersSame name s r.0) (remove redis hash json (name, wanted) key s)
    unfolding remove
    remove-OthersSame name false key s = (λ other f n. refl, λ name value. refl)
    remove-OthersSame name true key s =
        Answers-counted (λ r. OthersSame name s r.0) (redis.hdel name (hash key ∷ []) s)
          (λ s' n h.
            let (gone, others, sets) = documented.hdel_removes name (hash key ∷ []) s s' n h in
            (λ other f n. others other f (inl n), sets))

    pub remove-Gone :
        (name : Text) (key : K) (s : S)
        → Answers
            (λ r. (view.field_of r.0 name (hash key) ≡ none) × SameSets view s r.0)
            (remove redis hash json (name, true) key s)
    unfolding remove
    remove-Gone name key s =
        Answers-counted (λ r. (view.field_of r.0 name (hash key) ≡ none) × SameSets view s r.0)
          (redis.hdel name (hash key ∷ []) s)
          (λ s' n h.
            let (gone, others, sets) = documented.hdel_removes name (hash key ∷ []) s s' n h in
            (gone (hash key) (ground (arith, ==_refl (hash key))), sets))
