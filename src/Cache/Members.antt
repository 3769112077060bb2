-- ===== src/Cache/Members.antt =====
-- Members that leave a guild, and the names of the cache's repositories
-- (crates/tulpje-cache/src/event/member.rs and lib.rs).
use tulpje.Prelude.{ℕ, Bool, true, false, Option, none, some, ◌-◌, text}
use tulpje.Cache.Redis.{Redis, Json}
use tulpje.Cache.Repository
use tulpje.Cache.Repository.{Repository, new, answer}
use tulpje.Cache.SetRepository
use tulpje.Cache.SetRepository.{new_mapped, set_repository}

-- What the configuration wants of the resources that a member touches.
pub record Wants : Type 0 where
  pub guild : Bool
  pub member : Bool
  pub user : Bool

abbrev pub guilds : Wants → Repository
guilds wants = new (text "guilds") wants.guild

abbrev pub guild_members : Wants → Repository
guild_members wants = new_mapped (text "guild_members") wants.member

abbrev pub members : Wants → Repository
members wants = new (text "members") wants.member

abbrev pub users : Wants → Repository
users wants = new (text "emojis") wants.user

abbrev pub user_guilds : Wants → Repository
user_guilds wants = new_mapped (text "user_guilds") wants.user

-- The hashes and the JSON of the keys and values. A guild is what twilight and the models make it:
-- only its identifier and its member count matter here.
pub record Codec (Guild Member User : Type 0) : Type 0 where
  pub hash_id : ℕ → ℕ
  pub hash_pair : ℕ × ℕ → ℕ
  pub guild_json : Json Guild
  pub member_json : Json Member
  pub user_json : Json User
  pub id_json : Json ℕ
  pub guild_id : Guild → ℕ
  pub map_count : (ℕ → ℕ) → Guild → Guild

module _ {S Guild Member User : Type 0} (redis : Redis S) (codec : Codec Guild Member User)
    (wants : Wants) where
  unfoldable pub count_removed : Option Guild → S → Option S
  count_removed none s = some s
  count_removed (some guild) s =
      let fewer = codec.map_count (λ count. count - 1) guild in
      answer
        (Repository.insert redis codec.hash_id codec.guild_json (guilds wants)
          (codec.guild_id fewer) fewer s)
        (λ r. some r.0)

  -- A user whose set of guilds does not exist any more is dropped.
  abbrev pub drop_user : ℕ → Bool → S → Option S
  drop_user user true s = some s
  drop_user user false s =
      answer (Repository.remove redis codec.hash_id codec.user_json (users wants) user s)
        (λ r. some r.0)

  abbrev pub leave_guild : ℕ → ℕ → S → Option S
  leave_guild guild user s =
      answer
        (SetRepository.remove redis codec.id_json
          (set_repository codec.hash_id (user_guilds wants) user) guild s)
        (λ r.
          answer
            (SetRepository.is_empty redis codec.id_json
              (set_repository codec.hash_id (user_guilds wants) user) r.0)
            (λ kept. drop_user user kept r.0))

  abbrev pub forget_member : ℕ → ℕ → S → Option S
  forget_member guild user s =
      answer
        (Repository.remove redis codec.hash_pair codec.member_json (members wants) (guild, user) s)
        (λ r.
          answer
            (SetRepository.remove redis codec.id_json
              (set_repository codec.hash_id (guild_members wants) guild) user r.0)
            (λ q. leave_guild guild user q.0))

  -- `MemberRemove::update`.
  unfoldable pub member_remove : ℕ → ℕ → S → Option S
  member_remove guild user s =
      answer (Repository.get redis codec.hash_id codec.guild_json (guilds wants) guild s)
        (λ found. answer (count_removed found s) (forget_member guild user))
