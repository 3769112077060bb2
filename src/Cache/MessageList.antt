-- ===== src/Cache/MessageList.antt =====
-- The list of a channel's messages against the messages that have a row
-- (crates/tulpje-cache/src/event/message.rs).
use tulpje.Prelude.{
  ℕ, suc, Bool, true, false, not, ◌&&◌, ◌||◌, Option, none, some, List, [], ◌∷◌, ◌≡◌, refl, sym, ap,
  ◌∙◌, arith, ◌-◌, ◌≤◌, ◌==◌, leb, length, any, if-rule, if◌then◌else◌, ◌++◌, subst, Bool-cases,
  inl, inr, ==_iff,
}
use tulpje.Cache.Messages.{
  pop_back, last, push_message, delete_message, delete_messages, Messages, create, delete,
  delete_bulk, update, Command, no_change, store_ids, store_row, drop_row, drop_out, drop_rows,
  carry_out, MessageEvent, created, deleted, bulk_deleted, updated, handle, run, no_messages,
}

abbrev is_out : Option ℕ → ℕ → Bool
is_out none i = false
is_out (some out) i = i == out

abbrev pub member : ℕ → List ℕ → Bool
member i ids = any (λ x. i == x) ids

abbrev pub Distinct : List ℕ → Type 0
Distinct [] = Unit {0}
Distinct (x ∷ xs) = (member x xs ≡ false) × Distinct xs

-- The list has each message once, and no more than the cache's size, of which one is kept at
-- least; and the messages in it are those that have a row.
pub record Agrees (size : ℕ) (m : Messages) : Type 0 where
  pub distinct : Distinct m.ids
  pub bounded : length m.ids ≤ suc (size - 1)
  pub rows : (i : ℕ) → m.row i ≡ member i m.ids

last-member : (y : ℕ) (xs : List ℕ) → (o : ℕ) → last (y ∷ xs) ≡ some o → member o (y ∷ xs) ≡ true
last-member y [] o e = ground arith
last-member y (z ∷ xs) o e = ground (arith, last-member z xs o e)

not_out : (x : ℕ) (xs : List ℕ) → member x xs ≡ false → is_out (last xs) x ≡ false
not_out x [] h = refl
not_out x (y ∷ []) h = ground arith
not_out x (y ∷ z ∷ xs) h = not_out x (z ∷ xs) (ground arith)

member-pop_back :
    (i : ℕ) (ids : List ℕ)
    → Distinct ids
    → member i (pop_back ids) ≡ (member i ids && not (is_out (last ids) i))
member-pop_back i [] d = refl
member-pop_back i (x ∷ []) d = ground arith
member-pop_back i (x ∷ y ∷ xs) (n, d) =
    ground (arith, member-pop_back i (y ∷ xs) d, not_out x (y ∷ xs) n)

Distinct-pop_back : (ids : List ℕ) → Distinct ids → Distinct (pop_back ids)
Distinct-pop_back [] d = d
Distinct-pop_back (x ∷ []) d = tt
Distinct-pop_back (x ∷ y ∷ xs) (n, d) = (
  member-pop_back x (y ∷ xs) d ∙ ap (λ b. b && not (is_out (last (y ∷ xs)) x)) n,
  Distinct-pop_back (y ∷ xs) d,
)

length-pop_back : (ids : List ℕ) → length (pop_back ids) ≡ length ids - 1
length-pop_back [] = refl
length-pop_back (x ∷ []) = refl
length-pop_back (x ∷ y ∷ xs) = ground (arith, length-pop_back (y ∷ xs))

member-delete_message :
    (i d : ℕ) (ids : List ℕ)
    → Distinct ids
    → member i (delete_message d ids) ≡ (member i ids && not (i == d))
unfolding delete_message
member-delete_message i d [] h = refl
member-delete_message i d (x ∷ xs) (n, h) = ground (arith, member-delete_message i d xs h, n)

Distinct-delete_message : (d : ℕ) (ids : List ℕ) → Distinct ids → Distinct (delete_message d ids)
unfolding delete_message
Distinct-delete_message d [] h = h
Distinct-delete_message d (x ∷ xs) (n, h) =
    if-rule Distinct (x == d) xs (x ∷ delete_message d xs) (λ _. h)
      (λ _. (
        member-delete_message x d xs h ∙ ap (λ b. b && not (x == d)) n,
        Distinct-delete_message d xs h,
      ))

length-delete_message : (d : ℕ) (ids : List ℕ) → length (delete_message d ids) ≤ length ids
unfolding delete_message
length-delete_message d [] = omega arith
length-delete_message d (x ∷ xs) = ground (arith, length-delete_message d xs)

Distinct-delete_messages : (ds ids : List ℕ) → Distinct ids → Distinct (delete_messages ds ids)
unfolding delete_messages
Distinct-delete_messages [] ids h = h
Distinct-delete_messages (d ∷ ds) ids h =
    Distinct-delete_messages ds (delete_message d ids) (Distinct-delete_message d ids h)

length-delete_messages : (ds ids : List ℕ) → length (delete_messages ds ids) ≤ length ids
unfolding delete_messages
length-delete_messages [] ids = omega arith
length-delete_messages (d ∷ ds) ids =
    omega (arith, length-delete_messages ds (delete_message d ids), length-delete_message d ids)

member-delete_messages :
    (i : ℕ) (ds ids : List ℕ)
    → Distinct ids
    → member i (delete_messages ds ids) ≡ (member i ids && not (member i ds))
unfolding delete_messages
member-delete_messages i [] ids h = ground arith
member-delete_messages i (d ∷ ds) ids h = ground (
  arith,
  member-delete_messages i ds (delete_message d ids) (Distinct-delete_message d ids h),
  member-delete_message i d ids h,
)

-- What the list is after a new message, and which messages are in it.
record Pushed (size id : ℕ) (ids : List ℕ) (r : List ℕ × Option ℕ) : Type 0 where
  distinct : Distinct r.0
  bounded : length r.0 ≤ suc (size - 1)
  members : (i : ℕ) → member i r.0 ≡ ((i == id) || (member i ids && not (is_out r.1 i)))
  kept : is_out r.1 id ≡ false

push_message-Pushed :
    (size id : ℕ) (ids : List ℕ)
    → Distinct ids
    → length ids ≤ suc (size - 1)
    → member id ids ≡ false
    → Pushed size id ids (push_message size id ids)
unfolding push_message
push_message-Pushed size id ids d b n =
    if-rule (Pushed size id ids) (leb size (length ids)) (id ∷ pop_back ids, last ids)
      (id ∷ ids, none)
      (λ e. record {
        distinct = (
          member-pop_back id ids d ∙ ap (λ b. b && not (is_out (last ids) id)) n,
          Distinct-pop_back ids d,
        );
        bounded = omega (arith, length-pop_back ids);
        members = λ i. ground (arith, member-pop_back i ids d);
        kept = not_out id ids n;
      })
      (λ e. record {
        distinct = (n, d);
        bounded = ground arith;
        members = λ i. ground arith;
        kept = refl;
      })

-- What is there after commands that redis all answers.
apply_all : List Command → Messages → Messages
apply_all [] m = m
apply_all (command ∷ commands) m = apply_all commands (command m)

abbrev pub AllAnswered : (ℕ → Bool) → Type 0
AllAnswered answers = (k : ℕ) → answers k ≡ true

carry_out-all :
    (answers : ℕ → Bool) (commands : List Command) (m : Messages)
    → AllAnswered answers
    → carry_out answers commands m ≡ (apply_all commands m, true)
unfolding carry_out apply_all
carry_out-all answers [] m h = refl
carry_out-all answers (command ∷ commands) m h =
    ap (λ b. if b then carry_out (λ k. answers (suc k)) commands (command m) else (m, false)) (h 0)
    ∙ carry_out-all (λ k. answers (suc k)) commands (command m) (λ k. h (suc k))

-- The event ends without an error, and the list and the rows agree.
abbrev pub Agreed : ℕ → Messages × Bool → Type 0
Agreed size r = Agrees size r.0 × (r.1 ≡ true)

agreed :
    (size : ℕ) (answers : ℕ → Bool) (commands : List Command) (m : Messages) (ids : List ℕ)
    → AllAnswered answers
    → Distinct ids
    → length ids ≤ suc (size - 1)
    → (apply_all commands m).ids ≡ ids
    → ((i : ℕ) → (apply_all commands m).row i ≡ member i ids)
    → Agreed size (carry_out answers commands m)
agreed size answers commands m ids h d b e rows =
    subst (Agreed size) (sym (carry_out-all answers commands m h)) (
      record {
        distinct = subst Distinct (sym e) d;
        bounded = subst (λ ids. length ids ≤ suc (size - 1)) (sym e) b;
        rows = λ i. rows i ∙ ap (member i) (sym e);
      },
      refl,
    )

create-ids :
    (ids : List ℕ) (out : Option ℕ) (id : ℕ) (m : Messages)
    → (apply_all
        (no_change ∷ no_change ∷ drop_out out ++ (store_ids ids ∷ store_row id ∷ []))
        m).ids
      ≡ ids
unfolding apply_all
create-ids ids none id m = refl
create-ids ids (some out) id m = refl

create-row :
    (ids : List ℕ) (out : Option ℕ) (id : ℕ) (m : Messages) (i : ℕ)
    → (apply_all
          (no_change ∷ no_change ∷ drop_out out ++ (store_ids ids ∷ store_row id ∷ []))
          m).row
        i
      ≡ ((i == id) || (m.row i && not (is_out out i)))
unfolding apply_all
create-row ids none id m i = ground arith
create-row ids (some out) id m i = refl

create-Agrees :
    (size id : ℕ) (answers : ℕ → Bool) (m : Messages)
    → AllAnswered answers
    → m.row id ≡ false
    → Agrees size m
    → Agreed size (create size id answers m)
unfolding create
create-Agrees size id answers m h fresh a =
    let p = push_message-Pushed size id m.ids a.distinct a.bounded (sym (a.rows id) ∙ fresh) in
    let (ids, out) = push_message size id m.ids in
    agreed size answers _ m ids h p.distinct p.bounded (create-ids ids out id m) (λ i.
      create-row ids out id m i
      ∙ ap (λ b. (i == id) || (b && not (is_out out i))) (a.rows i)
      ∙ sym (p.members i))

update-ids :
    (ids : List ℕ) (out : Option ℕ) (m : Messages)
    → (apply_all (no_change ∷ drop_out out ++ (store_ids ids ∷ [])) m).ids ≡ ids
unfolding apply_all
update-ids ids none m = refl
update-ids ids (some out) m = refl

update-row :
    (ids : List ℕ) (out : Option ℕ) (m : Messages) (i : ℕ)
    → (apply_all (no_change ∷ drop_out out ++ (store_ids ids ∷ [])) m).row i
      ≡ (m.row i && not (is_out out i))
unfolding apply_all
update-row ids none m i = ground arith
update-row ids (some out) m i = refl

update-Agrees :
    (size id : ℕ) (answers : ℕ → Bool) (m : Messages)
    → AllAnswered answers
    → Agrees size m
    → Agreed size (update size id answers m)
unfolding update apply_all
update-Agrees size id answers m h a =
    if-rule (λ commands. Agreed size (carry_out answers (no_change ∷ store_row id ∷ commands) m))
      (m.row id) [] (no_change ∷ drop_out out ++ (store_ids ids ∷ []))
      (λ there.
        agreed size answers (no_change ∷ store_row id ∷ []) m m.ids h a.distinct a.bounded refl
          (λ i. replaced i there ∙ a.rows i))
      (λ fresh.
        let p = push_message-Pushed size id m.ids a.distinct a.bounded (sym (a.rows id) ∙ fresh) in
        agreed size answers
          (no_change ∷ store_row id ∷ no_change ∷ drop_out out ++ (store_ids ids ∷ [])) m ids h
          p.distinct p.bounded (update-ids ids out (store_row id m))
          (λ i.
            update-row ids out (store_row id m) i ∙ ground (arith, a.rows i, p.members i, p.kept)))
  where
    ids : List ℕ
    ids = (push_message size id m.ids).0

    out : Option ℕ
    out = (push_message size id m.ids).1

    replaced : (i : ℕ) → m.row id ≡ true → ((i == id) || m.row i) ≡ m.row i
    replaced i there = elim (Bool-cases (i == id)) [
      | inl e ↦ ground (arith, ap m.row ((==_iff i id).0 e))
      | inr e ↦ ground arith
    ]

delete_message_absent :
    (id : ℕ) (ids : List ℕ) → any (λ i. i == id) ids ≡ false → delete_message id ids ≡ ids
unfolding delete_message
delete_message_absent id [] h = refl
delete_message_absent id (x ∷ xs) h = ground (arith, delete_message_absent id xs)

delete-Agrees :
    (size id : ℕ) (answers : ℕ → Bool) (m : Messages)
    → AllAnswered answers
    → Agrees size m
    → Agreed size (delete id answers m)
unfolding delete apply_all
delete-Agrees size id answers m h a =
    if-rule (λ commands. Agreed size (carry_out answers (drop_row id ∷ no_change ∷ commands) m))
      (any (λ i. i == id) m.ids) (store_ids (delete_message id m.ids) ∷ []) []
      (λ _.
        agreed size answers (drop_row id ∷ no_change ∷ store_ids (delete_message id m.ids) ∷ []) m _
          h (Distinct-delete_message id m.ids a.distinct)
          (omega (arith, length-delete_message id m.ids, a.bounded)) refl gone)
      (λ absent.
        agreed size answers (drop_row id ∷ no_change ∷ []) m (delete_message id m.ids) h
          (Distinct-delete_message id m.ids a.distinct)
          (omega (arith, length-delete_message id m.ids, a.bounded))
          (sym (delete_message_absent id m.ids absent)) gone)
  where
    gone : (i : ℕ) → (m.row i && not (i == id)) ≡ member i (delete_message id m.ids)
    gone i =
        ap (λ b. b && not (i == id)) (a.rows i) ∙ sym (member-delete_message i id m.ids a.distinct)

delete_bulk-row :
    (ds ids : List ℕ) (m : Messages) (i : ℕ)
    → (apply_all (no_change ∷ drop_rows ds ++ (store_ids ids ∷ [])) m).row i
      ≡ (m.row i && not (member i ds))
unfolding apply_all
delete_bulk-row [] ids m i = ground arith
delete_bulk-row (d ∷ ds) ids m i = refl

delete_bulk-ids :
    (ds ids : List ℕ) (m : Messages)
    → (apply_all (no_change ∷ drop_rows ds ++ (store_ids ids ∷ [])) m).ids ≡ ids
unfolding apply_all
delete_bulk-ids [] ids m = refl
delete_bulk-ids (d ∷ ds) ids m = refl

delete_bulk-Agrees :
    (size : ℕ) (ds : List ℕ) (answers : ℕ → Bool) (m : Messages)
    → AllAnswered answers
    → Agrees size m
    → Agreed size (delete_bulk ds answers m)
unfolding delete_bulk
delete_bulk-Agrees size ds answers m h a =
    agreed size answers _ m (delete_messages ds m.ids) h
      (Distinct-delete_messages ds m.ids a.distinct)
      (omega (arith, length-delete_messages ds m.ids, a.bounded)) (delete_bulk-ids ds _ m)
      (λ i.
        delete_bulk-row ds _ m i
        ∙ ap (λ b. b && not (member i ds)) (a.rows i)
        ∙ sym (member-delete_messages i ds m.ids a.distinct))

-- A created message has no row yet.
abbrev pub IsNew : MessageEvent → Messages → Type 0
IsNew (created id) m = m.row id ≡ false
IsNew _ m = Unit {0}

handle-Agrees :
    (size : ℕ) (e : MessageEvent) (answers : ℕ → Bool) (m : Messages)
    → AllAnswered answers
    → IsNew e m
    → Agrees size m
    → Agreed size (handle size e answers m)
unfolding handle
handle-Agrees size (created id) answers m h new a = create-Agrees size id answers m h new a
handle-Agrees size (deleted id) answers m h new a = delete-Agrees size id answers m h a
handle-Agrees size (bulk_deleted ds) answers m h new a = delete_bulk-Agrees size ds answers m h a
handle-Agrees size (updated id) answers m h new a = update-Agrees size id answers m h a

-- Redis answers every command, and each created message has no row yet when it comes.
abbrev pub IsSmooth : ℕ → List (MessageEvent × (ℕ → Bool)) → Messages → Type 0
IsSmooth size [] m = Unit {0}
IsSmooth size ((e, answers) ∷ es) m =
    AllAnswered answers × IsNew e m × IsSmooth size es (handle size e answers m).0

run-keeps :
    (size : ℕ) (es : List (MessageEvent × (ℕ → Bool))) (m : Messages)
    → IsSmooth size es m
    → Agrees size m
    → Agrees size (run size es m)
unfolding run
run-keeps size [] m smooth a = a
run-keeps size ((e, answers) ∷ es) m (h, n, smooth) a =
    run-keeps size es (handle size e answers m).0 smooth (handle-Agrees size e answers m h n a).0

-- After any events of a channel that nothing is cached of, of which redis answers every command and
-- in which a created message has no row yet, each listed message is there once and has a row, no
-- other message has one, and the list holds at most `message_cache_size` messages, or one where
-- that is zero.
pub run-Agrees :
    (size : ℕ) (es : List (MessageEvent × (ℕ → Bool)))
    → IsSmooth size es no_messages
    → Agrees size (run size es no_messages)
run-Agrees size es smooth =
    run-keeps size es no_messages smooth
      (record { distinct = tt; bounded = omega arith; rows = λ i. refl })
