-- ===== src/Cache/ReactionEvents.antt =====
-- Adding and taking back reactions, and every event of them (crates/tulpje-cache/src/event/reaction.rs).
use tulpje.Prelude.{
  ℕ, true, false, Option, none, some, List, [], ◌∷◌, ◌≡◌, refl, sym, ap, ap₂, ◌∙◌, arith, ◌+◌, ◌-◌,
  if◌then◌else◌, Bool-cases, inl, inr, if-rule,
}
use tulpje.Cache.Reactions.{
  EmojiReactionType, Reaction, reactions_eq, add_reaction, remove_reaction, remove_emoji,
  ReactionEvent, added, removed, removed_all, removed_emoji, handle, push_result,
}
use tulpje.Cache.Counting.{
  count_of, Tidy, Roomy, one_if, Gives, Counts, false≢true, reactions_eq_left, reactions_eq_right,
  reactions_eq_refl, count_of-without, Tidy-without, place-more_of, place_less-less_of,
}

reactions_eq_other : (a b : EmojiReactionType) → reactions_eq a b ≡ false → reactions_eq b a ≡ false
reactions_eq_other a b h = elim (Bool-cases (reactions_eq b a)) [
  | inl e ↦ elim (false≢true (sym h ∙ sym (reactions_eq_left b a b e) ∙ reactions_eq_refl b)) [ ]
  | inr e ↦ e
]

push_result-Counts :
    (f : ℕ → ℕ → ℕ) (emoji : EmojiReactionType) (r : Reaction) (rs : List Reaction)
    (o : Option (List Reaction))
    → ((n : ℕ) → f n 0 ≡ n)
    → reactions_eq r.emoji emoji ≡ false
    → Tidy (r ∷ rs)
    → Gives (Counts f emoji rs) o
    → Gives (Counts f emoji (r ∷ rs)) (push_result r o)
push_result-Counts f emoji r rs none zero h t k = k
push_result-Counts f emoji r rs (some rs') zero h (b, n, t) (t', k) =
    let other = reactions_eq_other r.emoji emoji h in
    (
      (b, k r.emoji ∙ ap₂ (λ c d. f c (one_if d)) n other ∙ zero 0, t'),
      λ e. elim (Bool-cases (reactions_eq r.emoji e)) [
        | inl q ↦
            ap (λ c. if c then r.count else count_of e rs') q
            ∙ sym (zero r.count)
            ∙ ap₂ (λ c d. f (if c then r.count else count_of e rs) (one_if d)) (sym q)
                (sym other ∙ reactions_eq_right emoji r.emoji e q)
        | inr q ↦
            ap (λ c. if c then r.count else count_of e rs') q
            ∙ k e
            ∙ ap (λ c. f (if c then r.count else count_of e rs) (one_if (reactions_eq emoji e)))
                (sym q)
      ],
    )

add_reaction-Counts :
    (c : Option ℕ) (user : ℕ) (emoji : EmojiReactionType) (rs : List Reaction)
    → Tidy rs
    → Roomy rs
    → Gives (Counts (λ a b. a + b) emoji rs) (add_reaction (some c) user emoji rs)
unfolding add_reaction
add_reaction-Counts c user emoji [] t room = ((omega arith, refl, tt), λ e. ground arith)
add_reaction-Counts c user emoji (r ∷ rs) (b, n, t) (below, room) =
    if-rule (Gives (Counts (λ a b. a + b) emoji (r ∷ rs))) (reactions_eq r.emoji emoji) _ _
      (λ q. place-more_of (Gives (Counts (λ a b. a + b) emoji (r ∷ rs))) c user r rs (λ m.
        ((omega (arith, below), n, t), λ e. ground (arith, reactions_eq_left r.emoji emoji e q))))
      (λ q.
        push_result-Counts (λ a b. a + b) emoji r rs (add_reaction (some c) user emoji rs)
          (λ n. omega arith) q (b, n, t) (add_reaction-Counts c user emoji rs t room))

remove_reaction-Counts :
    (c : Option ℕ) (user : ℕ) (emoji : EmojiReactionType) (rs : List Reaction)
    → Tidy rs
    → Gives (Counts (λ a b. a - b) emoji rs) (remove_reaction (some c) user emoji rs)
unfolding remove_reaction
remove_reaction-Counts c user emoji [] t = (tt, λ e. ground arith)
remove_reaction-Counts c user emoji (r ∷ rs) (b, n, t) =
    if-rule (Gives (Counts (λ a b. a - b) emoji (r ∷ rs))) (reactions_eq r.emoji emoji) _ _
      (λ q.
        place_less-less_of (Gives (Counts (λ a b. a - b) emoji (r ∷ rs))) emoji c user r rs
          (λ m many.
            ((omega arith, n, t), λ e. ground (arith, reactions_eq_left r.emoji emoji e q)))
          (λ few. (
            Tidy-without emoji rs t,
            λ e. ground (arith, count_of-without emoji e rs, reactions_eq_left r.emoji emoji e q),
          )))
      (λ q.
        push_result-Counts (λ a b. a - b) emoji r rs (remove_reaction (some c) user emoji rs)
          (λ n. omega arith) q (b, n, t) (remove_reaction-Counts c user emoji rs t))

Gives-mono :
    {A : Type 0} (P Q : A → Type 0) (o : Option A) → ((a : A) → P a → Q a) → Gives P o → Gives Q o
Gives-mono P Q none f h = h
Gives-mono P Q (some a) f h = f a h

cancels : (a b c d : ℕ) → b ≡ a + d → c ≡ b - d → c ≡ a
cancels a b c d e f = omega arith

-- When a user adds a reaction to a message and takes it back, every emoji shows the same count as
-- before, if before each emoji was there once, with a count of at least one and less than the
-- largest number, and the cache can be read for the current user.
pub remove_reaction-add_reaction :
    (c : Option ℕ) (user : ℕ) (emoji : EmojiReactionType) (rs : List Reaction)
    → Tidy rs
    → Roomy rs
    → Gives
        (λ rs₁.
          Gives
            (λ rs₂. (e : EmojiReactionType) → count_of e rs₂ ≡ count_of e rs)
            (remove_reaction (some c) user emoji rs₁))
        (add_reaction (some c) user emoji rs)
remove_reaction-add_reaction c user emoji rs t room =
    Gives-mono (Counts (λ a b. a + b) emoji rs) _ (add_reaction (some c) user emoji rs)
      (λ rs₁ (t₁, k₁).
        Gives-mono (Counts (λ a b. a - b) emoji rs₁) _ (remove_reaction (some c) user emoji rs₁)
          (λ rs₂ (t₂, k₂) e. cancels _ _ _ _ (k₁ e) (k₂ e))
          (remove_reaction-Counts c user emoji rs₁ t₁))
      (add_reaction-Counts c user emoji rs t room)

count_of-eq :
    (a b : EmojiReactionType) (rs : List Reaction)
    → reactions_eq a b ≡ true
    → count_of a rs ≡ count_of b rs
count_of-eq a b [] h = refl
count_of-eq a b (r ∷ rs) h = ground (arith, count_of-eq a b rs h, reactions_eq_right r.emoji a b h)

-- The emoji's first reaction is all there is of it, so that none is left.
remove_emoji-Counts :
    (emoji : EmojiReactionType) (rs : List Reaction)
    → Tidy rs
    → Tidy (remove_emoji emoji rs)
      × ((e : EmojiReactionType)
          → count_of e (remove_emoji emoji rs)
            ≡ (if reactions_eq emoji e then 0 else count_of e rs))
unfolding remove_emoji
remove_emoji-Counts emoji [] t = (tt, λ e. ground arith)
remove_emoji-Counts emoji (r ∷ rs) (b, n, t) =
    if-rule
      (λ rs'.
        Tidy rs'
        × ((e : EmojiReactionType)
            → count_of e rs' ≡ (if reactions_eq emoji e then 0 else count_of e (r ∷ rs))))
      (reactions_eq r.emoji emoji) rs (r ∷ remove_emoji emoji rs)
      (λ q. (
        t,
        λ e. elim (Bool-cases (reactions_eq emoji e)) [
          | inl k ↦
              sym (count_of-eq r.emoji e rs (reactions_eq_left r.emoji emoji e q ∙ k))
              ∙ n
              ∙ ap
                  (λ c.
                    if c then 0 else (if reactions_eq r.emoji e then r.count else count_of e rs))
                  (sym k)
          | inr k ↦ ground (arith, reactions_eq_left r.emoji emoji e q)
        ],
      ))
      (λ q.
        let (t', k) = remove_emoji-Counts emoji rs t in
        (
          (b, ground (arith, k r.emoji), t'),
          λ e. elim (Bool-cases (reactions_eq emoji e)) [
            | inl i ↦ ground (arith, k e, reactions_eq_right r.emoji emoji e i)
            | inr i ↦ ground (arith, k e)
          ],
        ))

-- Every event of a message's reactions keeps them tidy: each emoji is there once and counts at least
-- one, as long as no count is the largest number and the cache can be read for the current user.
pub handle-Tidy :
    (c : Option ℕ) (event : ReactionEvent) (rs : List Reaction)
    → Tidy rs
    → Roomy rs
    → Gives Tidy (handle (some c) event rs)
unfolding handle
handle-Tidy c (added user emoji) rs t room =
    Gives-mono (Counts (λ a b. a + b) emoji rs) Tidy (add_reaction (some c) user emoji rs)
      (λ rs' h. h.0) (add_reaction-Counts c user emoji rs t room)
handle-Tidy c (removed user emoji) rs t room =
    Gives-mono (Counts (λ a b. a - b) emoji rs) Tidy (remove_reaction (some c) user emoji rs)
      (λ rs' h. h.0) (remove_reaction-Counts c user emoji rs t)
handle-Tidy c removed_all rs t room = tt
handle-Tidy c (removed_emoji emoji) rs t room = (remove_emoji-Counts emoji rs t).0
