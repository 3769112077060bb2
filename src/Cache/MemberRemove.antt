-- ===== src/Cache/MemberRemove.antt =====
-- When the removal of a member drops the user (crates/tulpje-cache/src/event/member.rs).
use tulpje.Prelude.{
  ℕ, Bool, true, false, Option, none, some, [], ◌∷◌, ◌≡◌, ◌≢◌, ◌⊎◌, ◌↔◌, inl, inr, refl, sym, ◌∙◌,
  subst, arith, ◌-◌, Text, text, same→neq,
}
use tulpje.Cache.Redis.{Redis, Json, View, Documented, SameSets, SameHashes}
use tulpje.Cache.Repository
use tulpje.Cache.Repository.{cached, answer, counted}
use tulpje.Cache.SetRepository
use tulpje.Cache.SetRepository.{set_repository}
use tulpje.Cache.Lookup.{
  Answers, Answers-answer, Answers-counted, OthersSame, insert-OthersSame, remove-OthersSame,
  remove-Gone,
}
use tulpje.Cache.Members.{
  Wants, guilds, guild_members, members, users, user_guilds, Codec, count_removed, drop_user,
  leave_guild, forget_member, member_remove,
}

false≢true : false ≢ true
false≢true e = ground arith

some_differs : (t : Text) → ◌≡◌ {A = Option Text} (some t) none → ⊥
some_differs t e = ground arith

not_true : (b : Bool) → (b ≡ true → false ≡ true) → b ≡ false
not_true true f = sym (f refl)
not_true false f = refl

abbrev pub wanting : Bool → Bool → Wants
wanting guild member = record { guild = guild; member = member; user = true }

users-guilds : cached (text "emojis") ≢ cached (text "guilds")
users-guilds = same→neq _ _ refl

users-members : cached (text "emojis") ≢ cached (text "members")
users-members = same→neq _ _ refl

Answers-mono :
    {A : Type 0} (P Q : A → Type 0) (o : Option A)
    → ((a : A) → P a → Q a)
    → Answers P o
    → Answers Q o
Answers-mono P Q none f h = tt
Answers-mono P Q (some a) f h = f a h

module _ {S T : Type 0} (redis : Redis S) (view : View S) (documented : Documented redis view)
    (json : Json T) where
  set_remove-SameHashes :
      (name : Text) (wanted : Bool) (value : T) (s : S)
      → Answers
          (λ r. SameHashes view s r.0)
          (SetRepository.remove redis json (name, wanted) value s)
  unfolding SetRepository.remove
  set_remove-SameHashes name false value s = λ name f. refl
  set_remove-SameHashes name true value s =
      Answers-answer (λ r. SameHashes view s r.0) (json.to_string value)
        (λ t. counted (redis.srem name (t ∷ []) s))
        (λ t e.
          Answers-counted (λ r. SameHashes view s r.0) (redis.srem name (t ∷ []) s)
            (λ s' n h.
              let (gone, others, hashes) = documented.srem_removes name (t ∷ []) s s' n h in
              hashes))

  -- After a removal that is answered, the key is a set's or is not there.
  abbrev IsSetKey : Text → S → Type 0
  IsSetKey name s = ((f : ℕ) → view.field_of s name f ≡ none) × (view.holds_other s name ≡ false)

  set_remove-IsSetKey :
      (name : Text) (value : T) (s : S)
      → Answers (λ r. IsSetKey name r.0) (SetRepository.remove redis json (name, true) value s)
  unfolding SetRepository.remove
  set_remove-IsSetKey name value s =
      Answers-answer (λ r. IsSetKey name r.0) (json.to_string value)
        (λ t. counted (redis.srem name (t ∷ []) s))
        (λ t e.
          Answers-counted (λ r. IsSetKey name r.0) (redis.srem name (t ∷ []) s)
            (λ s' n h. documented.srem_on_set name (t ∷ []) s s' n h))

  -- Of such a key, `is_empty` answers the opposite of its name: `true` exactly if it has a member.
  is_empty_iff :
      (name : Text) (s : S)
      → IsSetKey name s
      → Answers
          (λ b. (b ≡ true) ↔ ((value : Text) × (view.has s name value ≡ true)))
          (SetRepository.is_empty redis json (name, true) s)
  unfolding SetRepository.is_empty
  is_empty_iff name s k =
      go (redis.exists name s) (documented.exists_some name s) (documented.exists_none name s)
    where
      member_of :
          ((value : Text) × (view.has s name value ≡ true))
            ⊎ (((f : ℕ) × ((t : Text) × (view.field_of s name f ≡ some t)))
                ⊎ (view.holds_other s name ≡ true))
          → (value : Text) × (view.has s name value ≡ true)
      member_of (inl m) = m
      member_of (inr (inl (f, (t, e)))) = absurd (some_differs t (sym e ∙ k.0 f))
      member_of (inr (inr e)) = absurd (false≢true (sym k.1 ∙ e))

      go :
          (o : Option Bool)
          → (o ≡ some true
              → ((value : Text) × (view.has s name value ≡ true))
                ⊎ (((f : ℕ) × ((t : Text) × (view.field_of s name f ≡ some t)))
                    ⊎ (view.holds_other s name ≡ true)))
          → (o ≡ some false → (value : Text) → view.has s name value ≡ false)
          → Answers (λ b. (b ≡ true) ↔ ((value : Text) × (view.has s name value ≡ true))) o
      go none t f = tt
      go (some true) t f = (λ _. member_of (t refl), λ _. refl)
      go (some false) t f = (λ e. elim (false≢true e) [ ], λ (value, h). sym (f refl value) ∙ h)

module _ {S Guild Member User : Type 0} (redis : Redis S) (view : View S)
    (documented : Documented redis view) (codec : Codec Guild Member User)
    (guild_wanted member_wanted : Bool) where
  abbrev wants : Wants
  wants = wanting guild_wanted member_wanted

  abbrev row : S → ℕ → Option Text
  row s user = view.field_of s (cached (text "emojis")) (codec.hash_id user)

  abbrev guild_set : ℕ → Text
  guild_set user = (set_repository codec.hash_id (user_guilds wants) user).0

  -- The user's row is as before and the user is in a guild, or the row is gone and there is none.
  abbrev pub Dropped : ℕ → S → S → Type 0
  Dropped user s s' =
      ((row s' user ≡ row s user) × ((value : Text) × (view.has s' (guild_set user) value ≡ true)))
      ⊎ ((row s' user ≡ none) × ((value : Text) → view.has s' (guild_set user) value ≡ false))

  Dropped-row :
      (user : ℕ) (s s₁ s₂ : S) → row s₁ user ≡ row s user → Dropped user s₁ s₂ → Dropped user s s₂
  Dropped-row user s s₁ s₂ e (inl (f, h)) = inl (f ∙ e, h)
  Dropped-row user s s₁ s₂ e (inr h) = inr h

  drop_user-Dropped :
      (user : ℕ) (b : Bool) (s : S)
      → (b ≡ true) ↔ ((value : Text) × (view.has s (guild_set user) value ≡ true))
      → Answers (Dropped user s) (drop_user redis codec wants user b s)
  drop_user-Dropped user true s h = inl (refl, h.0 refl)
  drop_user-Dropped user false s h =
      Answers-answer (Dropped user s)
        (Repository.remove redis codec.hash_id codec.user_json (users wants) user s) (λ r. some r.0)
        (λ r e.
          let (gone, sets) = subst (Answers (λ r. (row r.0 user ≡ none) × SameSets view s r.0)) e (
            remove-Gone redis view documented codec.hash_id codec.user_json (cached (text "emojis"))
              user s) in
          inr (
            gone,
            λ value.
                sets (guild_set user) value
                ∙ not_true (view.has s (guild_set user) value) (λ e. h.1 (value, e)),
          ))

  leave_guild-Dropped :
      (guild user : ℕ) (s : S)
      → Answers (Dropped user s) (leave_guild redis codec wants guild user s)
  leave_guild-Dropped guild user s =
      Answers-answer (Dropped user s)
        (SetRepository.remove redis codec.id_json
          (set_repository codec.hash_id (user_guilds wants) user) guild s)
        (λ r.
          answer
            (SetRepository.is_empty redis codec.id_json
              (set_repository codec.hash_id (user_guilds wants) user) r.0)
            (λ kept. drop_user redis codec wants user kept r.0))
        (λ r e.
          Answers-answer (Dropped user s)
            (SetRepository.is_empty redis codec.id_json
              (set_repository codec.hash_id (user_guilds wants) user) r.0)
            (λ kept. drop_user redis codec wants user kept r.0)
            (λ b f.
              Answers-mono (Dropped user r.0) (Dropped user s)
                (drop_user redis codec wants user b r.0)
                (λ s'. Dropped-row user s r.0 s' (
                  subst (Answers (λ r. SameHashes view s r.0)) e
                    (set_remove-SameHashes redis view documented codec.id_json (guild_set user) true
                      guild s)
                    (cached (text "emojis")) (codec.hash_id user)))
                (drop_user-Dropped user b r.0 (
                  subst
                    (Answers (λ b.
                      (b ≡ true) ↔ ((value : Text) × (view.has r.0 (guild_set user) value ≡ true))))
                    f
                    (is_empty_iff redis view documented codec.id_json (guild_set user) r.0 (
                      subst
                        (Answers
                          (λ r. IsSetKey redis view documented codec.id_json (guild_set user) r.0))
                        e
                        (set_remove-IsSetKey redis view documented codec.id_json (guild_set user)
                          guild s)))))))

  forget_member-Dropped :
      (guild user : ℕ) (s : S)
      → Answers (Dropped user s) (forget_member redis codec wants guild user s)
  forget_member-Dropped guild user s =
      Answers-answer (Dropped user s)
        (Repository.remove redis codec.hash_pair codec.member_json (members wants) (guild, user) s)
        (λ r.
          answer
            (SetRepository.remove redis codec.id_json
              (set_repository codec.hash_id (guild_members wants) guild) user r.0)
            (λ q. leave_guild redis codec wants guild user q.0))
        (λ r e.
          Answers-answer (Dropped user s)
            (SetRepository.remove redis codec.id_json
              (set_repository codec.hash_id (guild_members wants) guild) user r.0)
            (λ q. leave_guild redis codec wants guild user q.0)
            (λ q f.
              Answers-mono (Dropped user q.0) (Dropped user s)
                (leave_guild redis codec wants guild user q.0)
                (λ s'. Dropped-row user s q.0 s' (
                  subst (Answers (λ q. SameHashes view r.0 q.0)) f
                    (set_remove-SameHashes redis view documented codec.id_json
                      (set_repository codec.hash_id (guild_members wants) guild).0 member_wanted
                      user r.0)
                    (cached (text "emojis")) (codec.hash_id user)
                  ∙ (subst
                        (Answers (λ r.
                          OthersSame redis view documented codec.hash_pair codec.member_json
                            (cached (text "members")) s r.0))
                        e
                        (remove-OthersSame redis view documented codec.hash_pair codec.member_json
                          (cached (text "members")) member_wanted (guild, user) s)).0
                      (cached (text "emojis")) (codec.hash_id user) users-members))
                (leave_guild-Dropped guild user q.0)))

  count_removed-row :
      (found : Option Guild) (user : ℕ) (s : S)
      → Answers (λ s'. row s' user ≡ row s user) (count_removed redis codec wants found s)
  unfolding count_removed
  count_removed-row none user s = refl
  count_removed-row (some guild) user s =
      Answers-answer (λ s'. row s' user ≡ row s user)
        (Repository.insert redis codec.hash_id codec.guild_json (guilds wants)
          (codec.guild_id (fewer guild)) (fewer guild) s)
        (λ r. some r.0)
        (λ r e.
          (subst
              (Answers (λ r.
                OthersSame redis view documented codec.hash_id codec.guild_json
                  (cached (text "guilds")) s r.0))
              e
              (insert-OthersSame redis view documented codec.hash_id codec.guild_json
                (cached (text "guilds")) guild_wanted (codec.guild_id (fewer guild)) (fewer guild)
                s)).0
            (cached (text "emojis")) (codec.hash_id user) users-guilds)
    where
      fewer : Guild → Guild
      fewer guild = codec.map_count (λ count. count - 1) guild

  -- Where users are cached, redis answers as documented and no command fails, the removal of a member
  -- leaves the user's row as it was if the user is still in a guild that the cache knows, and
  -- deletes it otherwise.
  pub member_remove-Dropped :
      (guild user : ℕ) (s : S)
      → Answers (Dropped user s) (member_remove redis codec wants guild user s)
  unfolding member_remove
  member_remove-Dropped guild user s =
      Answers-answer (Dropped user s)
        (Repository.get redis codec.hash_id codec.guild_json (guilds wants) guild s)
        (λ found.
          answer (count_removed redis codec wants found s)
            (forget_member redis codec wants guild user))
        (λ found e.
          Answers-answer (Dropped user s) (count_removed redis codec wants found s)
            (forget_member redis codec wants guild user)
            (λ s₁ f.
              Answers-mono (Dropped user s₁) (Dropped user s)
                (forget_member redis codec wants guild user s₁)
                (λ s'. Dropped-row user s s₁ s' (
                  subst (Answers (λ s'. row s' user ≡ row s user)) f
                    (count_removed-row found user s)))
                (forget_member-Dropped guild user s₁)))
