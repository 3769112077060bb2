-- ===== src/Cache/SetRepository.antt =====
-- The sets of values, of one name or of one per key, and the single values
-- (crates/tulpje-cache/src/repository.rs).
use tulpje.Prelude.{
  ℕ, Bool, true, false, Option, none, some, List, [], ◌∷◌, ◌++◌, ltb, Text, text, decimal,
}
use tulpje.Cache.Redis.{Redis, Json}
use tulpje.Cache.Repository.{Repository, cached, answer, counted}

module _ {S T : Type 0} (redis : Redis S) (json : Json T) where
  -- Every text is read; one that is not the text of a value is an error.
  abbrev pub read_all : List Text → Option (List T)
  read_all [] = some []
  read_all (t ∷ ts) = answer (json.from_str t) (λ v. answer (read_all ts) (λ vs. some (v ∷ vs)))

  unfoldable pub members : Repository → S → Option (List T)
  members (name, wanted) s = answer (redis.smembers name s) read_all

  unfoldable pub contains_value : Repository → T → S → Option Bool
  contains_value (name, wanted) value s =
      answer (json.to_string value) (λ t. answer (redis.sismember name t s) (λ n. some (ltb 0 n)))

  unfoldable pub is_empty : Repository → S → Option Bool
  is_empty (name, false) s = some false
  is_empty (name, true) s = redis.exists name s

  unfoldable pub insert : Repository → T → S → Option (S × Bool)
  insert (name, false) value s = some (s, false)
  insert (name, true) value s = answer (json.to_string value) (λ t. counted (redis.sadd name t s))

  unfoldable pub remove : Repository → T → S → Option (S × Bool)
  remove (name, false) value s = some (s, false)
  remove (name, true) value s =
      answer (json.to_string value) (λ t. counted (redis.srem name (t ∷ []) s))

  abbrev pub write_all : List T → Option (List Text)
  write_all [] = some []
  write_all (v ∷ vs) = answer (json.to_string v) (λ t. answer (write_all vs) (λ ts. some (t ∷ ts)))

  abbrev pub srem_some : Text → S → List Text → Option (S × ℕ)
  srem_some name s [] = some (s, 0)
  srem_some name s (t ∷ ts) = redis.srem name (t ∷ ts) s

  unfoldable pub remove_multi : Repository → List T → S → Option (S × ℕ)
  remove_multi (name, false) values s = some (s, 0)
  remove_multi (name, true) values s = answer (write_all values) (srem_some name s)

  unfoldable pub clear : Repository → S → Option (S × Bool)
  clear (name, false) s = some (s, false)
  clear (name, true) s = counted (redis.del name s)

  -- `SingleRepository`.
  unfoldable pub set_single : Repository → T → S → Option S
  set_single (name, false) value s = some s
  set_single (name, true) value s = answer (json.to_string value) (λ t. redis.set name t s)

  abbrev pub decoded_single : Option Text → Option (Option T)
  decoded_single none = some none
  decoded_single (some t) = answer (json.from_str t) (λ v. some (some v))

  unfoldable pub get_single : Repository → S → Option (Option T)
  get_single (name, false) s = some none
  get_single (name, true) s = answer (redis.get name s) decoded_single

-- `MappedSetRepository::new`, which does not put the prefix, and the set of a key, which does.
abbrev pub new_mapped : Text → Bool → Repository
new_mapped name wanted = (name, wanted)

abbrev pub set_repository : {K : Type 0} → (K → ℕ) → Repository → K → Repository
set_repository hash (name, wanted) key =
    (cached (name ++ text ":" ++ decimal 20 (hash key)), wanted)
