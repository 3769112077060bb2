-- ===== src/Tests/RoleSample.antt =====
-- A sample guild and its members, for the role update's theorems
-- (crates/tulpje-mod-pluralkit/src/roles).
use mathlib.Core.List.{Memᴰ}
use tulpje.Prelude.{
  ℕ, Bool, true, false, Option, none, some, List, [], ◌∷◌, ◌≡◌, ◌≢◌, refl, sym, ap, ◌∙◌, arith,
  ◌==◌, if◌then◌else◌, subst, if-rule, same, same→neq, ends_with, Text, text, ==_iff, is_some, ◌||◌,
}
use tulpje.Pluralkit.Util.{Member, get_member_name, pk_color_to_discord}
use tulpje.Pluralkit.Roles.Ops.{
  Role, MemberRole, alter, create, delete, update, should_update, role_op, desired_role,
  get_desired_roles, get_current_roles, get_role_ops,
}
use tulpje.Pluralkit.Roles.Run.{RoleApi}
use tulpje.Pluralkit.Roles.Discord.{Look, look, recolor, Documented}
use tulpje.Pluralkit.Roles.Converge.{Enumerates}
use tulpje.Pluralkit.Roles.Update.{UniqueAlters, Snapshot}

-- A guild is what it shows under each identifier, and new roles get 100 while that is free.
abbrev pub Shows : Type 0
Shows = ℕ → Option Look

abbrev pub shows : Shows → ℕ → Option Look
shows g = g

abbrev pub put : ℕ → Option Look → Shows → Shows
put id o g i = if i == id then o else g i

abbrev pub new_role : Look → Shows → Option Look → Option (Shows × Option ℕ)
new_role l g none = some (put 100 (some l) g, some 100)
new_role l g (some _) = none

abbrev pub sample_api : RoleApi Shows
sample_api = record {
  update_role = λ id color mentionable g.
      some (λ i. if i == id then recolor color mentionable (g i) else g i);
  create_role = λ name color mentionable g. new_role (look name color mentionable) g (g 100);
  delete_role = λ id g. some (put id none g);
  add_member_role = λ id g. some g;
}

some_shows : (g h : Shows) → some g ≡ some h → (i : ℕ) → h i ≡ g i
some_shows g h e i = sym (ap (λ o. elim o as (λ _. Option Look) [ none ↦ none | some f ↦ f i ]) e)

false≢true : false ≢ true
false≢true e = ground arith

none≢some_pair : (p : Shows × Option ℕ) → none ≢ some p
none≢some_pair p e = ground arith

some_pair : (p q : Shows × Option ℕ) → some p ≡ some q → ((i : ℕ) → q.0 i ≡ p.0 i) × (q.1 ≡ p.1)
some_pair p q e = (
  λ i. sym (ap (λ o. elim o as (λ _. Option Look) [ none ↦ none | some r ↦ r.0 i ]) e),
  sym (ap (λ o. elim o as (λ _. Option ℕ) [ none ↦ none | some r ↦ r.1 ]) e),
)

id_is : (id : ℕ) → some id ≡ some 100 → id ≡ 100
id_is id e = ap (λ o. elim o as (λ _. ℕ) [ none ↦ 100 | some i ↦ i ]) e

pub sample_documented : Documented sample_api shows
sample_documented = record {
  updates = λ id color m g g' e i. some_shows _ g' e i;
  creates =
      λ name color m g g' id e. new_role_documented (look name color m) g g' id (g 100) refl e;
  deletes = λ id g g' e i. some_shows _ g' e i;
  assigns = λ id g g' e i. some_shows _ g' e i;
}
  where
    new_role_documented :
        (l : Look) (g g' : Shows) (id : ℕ) (o : Option Look)
        → g 100 ≡ o
        → new_role l g o ≡ some (g', some id)
        → (g id ≡ none) × ((i : ℕ) → g' i ≡ (if i == id then some l else g i))
    new_role_documented l g g' id (some m) e f = elim (none≢some_pair (g', some id) f) [ ]
    new_role_documented l g g' id none e f =
        let (at, new) = some_pair (put 100 (some l) g, some 100) (g', some id) f in
        let is_new = id_is id new in
        (ap g is_new ∙ e, λ i. at i ∙ ap (λ j. if i == j then some l else g i) (sym is_new))

abbrev pub ann : Text
ann = text "Ann (Alter)"

abbrev pub bob : Text
bob = text "Bob (Alter)"

abbrev pub cid : Text
cid = text "Cid (Alter)"

abbrev pub sample_roles : List Role
sample_roles =
    record { id = 1; name = ann; color = 7; mentionable = true }
    ∷ record { id = 2; name = cid; color = 8; mentionable = false }
    ∷ record { id = 3; name = text "mods"; color = 9; mentionable = false }
    ∷ []

abbrev pub sample_members : List Member
sample_members =
    record {
      uuid = 11;
      name = text "ann";
      display_name = some (text "Ann (she/her)");
      color = some (text "ff0000");
    }
    ∷ record { uuid = 12; name = text "Bob"; display_name = none; color = none }
    ∷ []

abbrev pub sample_guild : Shows
sample_guild i =
    if i == 1
    then some (look ann 7 true)
    else if i == 2
    then some (look cid 8 false)
    else if i == 3
    then some (look (text "mods") 9 false)
    else none

pub sample_ops :
    get_role_ops
      (bob ∷ ann ∷ cid ∷ [])
      (get_current_roles sample_roles)
      (get_desired_roles sample_members)
    ≡ some (create bob 12 10070709 ∷ update 1 16711680 true ∷ delete 2 ∷ [])
unfolding get_role_ops get_current_roles get_desired_roles role_op desired_role get_member_name
    should_update pk_color_to_discord tulpje.Framework.Color.from_str
sample_ops = refl

pub sample_Snapshot : Snapshot shows sample_guild sample_roles
sample_Snapshot = record { listed = listed; complete = complete }
  where
    shown : Role → Type 0
    shown r = sample_guild r.id ≡ some (look r.name r.color r.mentionable)

    listed : (r : Role) → Memᴰ r sample_roles → shown r
    listed r (Memᴰ.head q) = subst shown (sym q) refl
    listed r (Memᴰ.tail (Memᴰ.head q)) = subst shown (sym q) refl
    listed r (Memᴰ.tail (Memᴰ.tail (Memᴰ.head q))) = subst shown (sym q) refl
    listed r (Memᴰ.tail (Memᴰ.tail (Memᴰ.tail h))) = elim h [ ]

    from : ℕ → Look → Option Look → Type 0
    from i l o = o ≡ some l → (r : Role) × Memᴰ r sample_roles × (r.id ≡ i) × (r.name ≡ l.name)

    name_or : Text → Option Look → Text
    name_or k none = k
    name_or k (some l) = l.name

    complete : (i : ℕ) (l : Look) → from i l (sample_guild i)
    complete i l =
        if-rule (from i l) (i == 1) _ _
          (λ e f. (_, Memᴰ.head refl, sym ((==_iff i 1).0 e), ap (name_or l.name) f))
          (λ _.
            if-rule (from i l) (i == 2) _ _
              (λ e f.
                (_, Memᴰ.tail (Memᴰ.head refl), sym ((==_iff i 2).0 e), ap (name_or l.name) f))
              (λ _.
                if-rule (from i l) (i == 3) _ _
                  (λ e f. (
                    _,
                    Memᴰ.tail (Memᴰ.tail (Memᴰ.head refl)),
                    sym ((==_iff i 3).0 e),
                    ap (name_or l.name) f,
                  ))
                  (λ _ f. ground arith)))

pub sample_UniqueAlters : UniqueAlters sample_roles
sample_UniqueAlters r s (Memᴰ.head p) (Memᴰ.head q) a e = ap (λ r. r.id) (p ∙ sym q)
sample_UniqueAlters r s (Memᴰ.head p) (Memᴰ.tail (Memᴰ.head q)) a e =
    elim (same→neq ann cid refl (sym (ap (λ r. r.name) p) ∙ e ∙ ap (λ r. r.name) q)) [ ]
sample_UniqueAlters r s (Memᴰ.head p) (Memᴰ.tail (Memᴰ.tail (Memᴰ.head q))) a e =
    elim (same→neq ann (text "mods") refl (sym (ap (λ r. r.name) p) ∙ e ∙ ap (λ r. r.name) q)) [ ]
sample_UniqueAlters r s (Memᴰ.tail (Memᴰ.head p)) (Memᴰ.head q) a e =
    elim (same→neq cid ann refl (sym (ap (λ r. r.name) p) ∙ e ∙ ap (λ r. r.name) q)) [ ]
sample_UniqueAlters r s (Memᴰ.tail (Memᴰ.head p)) (Memᴰ.tail (Memᴰ.head q)) a e =
    ap (λ r. r.id) (p ∙ sym q)
sample_UniqueAlters r s (Memᴰ.tail (Memᴰ.head p)) (Memᴰ.tail (Memᴰ.tail (Memᴰ.head q))) a e =
    elim (same→neq cid (text "mods") refl (sym (ap (λ r. r.name) p) ∙ e ∙ ap (λ r. r.name) q)) [ ]
sample_UniqueAlters r s (Memᴰ.tail (Memᴰ.tail (Memᴰ.head p))) j a e =
    elim (false≢true (ap (λ r. ends_with alter r.name) (sym p) ∙ a)) [ ]
sample_UniqueAlters r s (Memᴰ.tail (Memᴰ.tail (Memᴰ.tail h))) j a e = elim h [ ]
sample_UniqueAlters r s (Memᴰ.head p) (Memᴰ.tail (Memᴰ.tail (Memᴰ.tail h))) a e = elim h [ ]
sample_UniqueAlters r s (Memᴰ.tail (Memᴰ.head p)) (Memᴰ.tail (Memᴰ.tail (Memᴰ.tail h))) a e =
    elim h [ ]

sample_order :
    (a b c : Bool) (x y u v : MemberRole)
    → (is_some (if a then some x else if c then some y else none)
        || is_some (if a then some u else if b then some v else none))
      ≡ (b || (a || (c || false)))
sample_order true true true x y u v = refl
sample_order true true false x y u v = refl
sample_order true false true x y u v = refl
sample_order true false false x y u v = refl
sample_order false true true x y u v = refl
sample_order false true false x y u v = refl
sample_order false false true x y u v = refl
sample_order false false false x y u v = refl

pub sample_Enumerates :
    Enumerates
      (bob ∷ ann ∷ cid ∷ [])
      (get_current_roles sample_roles)
      (get_desired_roles sample_members)
unfolding get_current_roles get_desired_roles desired_role get_member_name
sample_Enumerates = record {
  distinct = (refl, (refl, (refl, tt)));
  keys_only = λ k h. sample_order (same k ann) (same k bob) (same k cid) _ _ _ _ ∙ h;
  all_keys = λ k h. sym (sample_order (same k ann) (same k bob) (same k cid) _ _ _ _) ∙ h;
}
