-- ===== src/Tests/Repositories.antt =====
-- The repositories' theorems (crates/tulpje-cache) on a concrete redis.
use tulpje.Prelude.{ℕ, true, Option, none, some, [], ◌∷◌, ◌≡◌, refl, sym, ap, ◌+◌, ◌*◌, Text, text}
use tulpje.Cache.Redis.{Json}
use tulpje.Cache.Repository
use tulpje.Cache.Repository.{insert, answer}
use tulpje.Cache.SetRepository
use tulpje.Cache.SetRepository.{set_repository}
use tulpje.Cache.Lookup.{Answers, Stores, insert-Stores}
use tulpje.Cache.Members.{count_removed, Codec, user_guilds, member_remove}
use tulpje.Cache.MemberRemove.{wanting, Dropped, member_remove-Dropped}
use tulpje.Tests.Redis.{row_of, Store, sample_redis, sample_view, sample_documented}

-- Numbers are written as texts of their one character, and any other text is no number.
abbrev number_json : Json ℕ
number_json = record { to_string = λ n. some (n ∷ []); from_str = read }
  where
    read : Text → Option ℕ
    read [] = none
    read (n ∷ []) = some n
    read (_ ∷ _ ∷ _) = none

abbrev sample_codec : Codec ℕ ℕ ℕ
sample_codec = record {
  hash_id = λ i. i;
  hash_pair = λ p. p.0 * 1000 + p.1;
  guild_json = number_json;
  member_json = number_json;
  user_json = number_json;
  id_json = number_json;
  guild_id = λ g. g;
  map_count = λ f g. g;
}

-- The user 7 has a row and is in the guilds 3 and 4.
abbrev sample_guilds : Text
sample_guilds = (set_repository (λ i. i) (user_guilds (wanting true true)) 7).0

abbrev sample_store : Store
sample_store = record {
  rows = record { name = text "cache:emojis"; field = 7; value = text "u" } ∷ [];
  pairs = (sample_guilds, 3 ∷ []) ∷ (sample_guilds, 4 ∷ []) ∷ [];
}

insert-Stores_example :
    Answers
      (Stores sample_redis sample_view sample_documented
        (λ i. i)
        number_json
        (text "cache:a")
        4
        9
        sample_store)
      (insert sample_redis (λ i. i) number_json (text "cache:a", true) 4 9 sample_store)
insert-Stores_example =
    insert-Stores sample_redis sample_view sample_documented (λ i. i) number_json (text "cache:a") 4
      9 sample_store
      (λ v t e.
        ap (λ o. elim o as (λ _. Option ℕ) [ none ↦ none | some u ↦ number_json.from_str u ])
          (sym e))

member_remove-Dropped_example :
    Answers
      (Dropped sample_redis sample_view sample_documented sample_codec true true 7 sample_store)
      (member_remove sample_redis sample_codec (wanting true true) 3 7 sample_store)
member_remove-Dropped_example =
    member_remove-Dropped sample_redis sample_view sample_documented sample_codec true true 3 7
      sample_store

abbrev user_row : Option Store → Option (Option Text)
user_row none = none
user_row (some s) = some (row_of s.rows (text "cache:emojis") 7)

-- The user stays when it leaves one guild, and goes with the second.
user_stays :
    user_row (member_remove sample_redis sample_codec (wanting true true) 3 7 sample_store)
    ≡ some (some (text "u"))
unfolding member_remove count_removed Repository.get Repository.remove SetRepository.remove
    SetRepository.is_empty
user_stays = refl

user_goes :
    user_row (
      answer
        (member_remove sample_redis sample_codec (wanting true true) 3 7 sample_store)
        (member_remove sample_redis sample_codec (wanting true true) 4 7))
    ≡ some none
unfolding member_remove count_removed Repository.get Repository.remove SetRepository.remove
    SetRepository.is_empty
user_goes = refl
