-- ===== src/Cache/Repository.antt =====
-- The repositories that the cache is made of (crates/tulpje-cache/src/repository.rs).
use tulpje.Prelude.{
  ℕ, Bool, true, false, Option, none, some, List, [], ◌∷◌, ◌++◌, ltb, Text, text, map,
}
use tulpje.Cache.Redis.{Redis, Json}

-- A result of a command on the store, or its error.
abbrev pub answer {ℓ κ} : {A : Type ℓ} → {B : Type κ} → Option A → (A → Option B) → Option B
answer none f = none
answer (some a) f = f a

-- `> 0` on the number that a command answers.
abbrev pub counted : {S : Type 0} → Option (S × ℕ) → Option (S × Bool)
counted none = none
counted (some (s, n)) = some (s, ltb 0 n)

abbrev pub Repository : Type 0
Repository = Text × Bool

abbrev pub cached : Text → Text
cached name = text "cache:" ++ name

-- `Repository::new`: the name in redis, and whether the configuration wants it.
abbrev pub new : Text → Bool → Repository
new name wanted = (cached name, wanted)

module _ {S : Type 0} (redis : Redis S) where
  module _ {K V : Type 0} (hash : K → ℕ) (json : Json V) where
    abbrev pub decoded : Option Text → Option (Option V)
    decoded none = some none
    decoded (some value) = elim (json.from_str value) as (λ _. Option (Option V)) [
      | none ↦ none
      | some v ↦ some (some v)
    ]

    unfoldable pub get : Repository → K → S → Option (Option V)
    get (name, wanted) key s = answer (redis.hget name (hash key) s) decoded

    unfoldable pub insert : Repository → K → V → S → Option (S × Bool)
    insert (name, false) key value s = some (s, false)
    insert (name, true) key value s =
        answer (json.to_string value) (λ t. counted (redis.hset name (hash key) t s))

    unfoldable pub remove : Repository → K → S → Option (S × Bool)
    remove (name, false) key s = some (s, false)
    remove (name, true) key s = counted (redis.hdel name (hash key ∷ []) s)

    abbrev pub hdel_some : Text → List ℕ → S → Option (S × ℕ)
    hdel_some name [] s = some (s, 0)
    hdel_some name (f ∷ fs) s = redis.hdel name (f ∷ fs) s

    unfoldable pub remove_multi : Repository → List K → S → Option (S × ℕ)
    remove_multi (name, false) ks s = some (s, 0)
    remove_multi (name, true) ks s = hdel_some name (map hash ks) s
