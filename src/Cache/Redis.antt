-- ===== src/Cache/Redis.antt =====
-- The commands of redis and the JSON that the repositories of the cache use
-- (crates/tulpje-cache/src/repository.rs), with what redis documents of them.
use tulpje.Prelude.{
  ℕ, Bool, true, false, not, Option, none, some, List, ◌≡◌, ◌≢◌, ◌⊎◌, Text, is_some, ltb, contains,
  any, ◌==◌,
}

-- A command fails or answers; what it changes is in the store after it.
pub record Redis (S : Type 0) : Type 0 where
  pub hget : (name : Text) (field : ℕ) → S → Option (Option Text)
  pub hset : (name : Text) (field : ℕ) (value : Text) → S → Option (S × ℕ)
  pub hdel : (name : Text) (fields : List ℕ) → S → Option (S × ℕ)
  pub smembers : (name : Text) → S → Option (List Text)
  pub sismember : (name : Text) (value : Text) → S → Option ℕ
  pub exists : (name : Text) → S → Option Bool
  pub sadd : (name : Text) (value : Text) → S → Option (S × ℕ)
  pub srem : (name : Text) (values : List Text) → S → Option (S × ℕ)
  pub del : (name : Text) → S → Option (S × ℕ)
  pub set : (name : Text) (value : Text) → S → Option S
  pub get : (name : Text) → S → Option (Option Text)

-- `serde_json` on one type.
pub record Json (V : Type 0) : Type 0 where
  pub to_string : V → Option Text
  pub from_str : Text → Option V

-- A store as its hashes, its sets, and the keys that hold anything else.
pub record View (S : Type 0) : Type 0 where
  pub field_of : S → Text → ℕ → Option Text
  pub has : S → Text → Text → Bool
  pub holds_other : S → Text → Bool

module _ {S : Type 0} where
  abbrev pub SameSets : View S → S → S → Type 0
  SameSets view s s' = (name value : Text) → view.has s' name value ≡ view.has s name value

  abbrev pub SameHashes : View S → S → S → Type 0
  SameHashes view s s' = (name : Text) (f : ℕ) → view.field_of s' name f ≡ view.field_of s name f

  -- What redis documents of the commands that answer.
  pub record Documented (redis : Redis S) (view : View S) : Type 0 where
    pub hget_reads :
        (name : Text) (f : ℕ) (s : S) (o : Option Text)
        → redis.hget name f s ≡ some o
        → o ≡ view.field_of s name f
    pub hset_writes :
        (name : Text) (f : ℕ) (value : Text) (s s' : S) (n : ℕ)
        → redis.hset name f value s ≡ some (s', n)
        → (view.field_of s' name f ≡ some value)
          × ((other : Text) (g : ℕ)
              → (other ≢ name) ⊎ (g ≢ f)
              → view.field_of s' other g ≡ view.field_of s other g)
          × (ltb 0 n ≡ not (is_some (view.field_of s name f)))
          × SameSets view s s'
    pub hdel_removes :
        (name : Text) (fs : List ℕ) (s s' : S) (n : ℕ)
        → redis.hdel name fs s ≡ some (s', n)
        → ((f : ℕ) → any (λ g. f == g) fs ≡ true → view.field_of s' name f ≡ none)
          × ((other : Text) (f : ℕ)
              → (other ≢ name) ⊎ (any (λ g. f == g) fs ≡ false)
              → view.field_of s' other f ≡ view.field_of s other f)
          × SameSets view s s'
    -- A key exists while its set has a member or its hash has a field, or as something else.
    pub exists_some :
        (name : Text) (s : S)
        → redis.exists name s ≡ some true
        → ((value : Text) × (view.has s name value ≡ true))
          ⊎ (((f : ℕ) × ((t : Text) × (view.field_of s name f ≡ some t)))
              ⊎ (view.holds_other s name ≡ true))
    pub exists_none :
        (name : Text) (s : S)
        → redis.exists name s ≡ some false
        → (value : Text) → view.has s name value ≡ false
    pub sadd_adds :
        (name value : Text) (s s' : S) (n : ℕ)
        → redis.sadd name value s ≡ some (s', n)
        → (view.has s' name value ≡ true)
          × ((other v : Text)
              → (other ≢ name) ⊎ (v ≢ value)
              → view.has s' other v ≡ view.has s other v)
          × SameHashes view s s'
    pub srem_removes :
        (name : Text) (values : List Text) (s s' : S) (n : ℕ)
        → redis.srem name values s ≡ some (s', n)
        → ((v : Text) → contains v values ≡ true → view.has s' name v ≡ false)
          × ((other v : Text)
              → (other ≢ name) ⊎ (contains v values ≡ false)
              → view.has s' other v ≡ view.has s other v)
          × SameHashes view s s'
    -- `SREM` on a key that holds no set is an error, unless the key does not exist.
    pub srem_on_set :
        (name : Text) (values : List Text) (s s' : S) (n : ℕ)
        → redis.srem name values s ≡ some (s', n)
        → ((f : ℕ) → view.field_of s' name f ≡ none) × (view.holds_other s' name ≡ false)
