-- ===== src/Tests/Redis.antt =====
-- A redis that does what is documented, for the repositories' theorems (crates/tulpje-cache).
use tulpje.Prelude.{
  ℕ, Bool, true, false, not, ◌&&◌, ◌||◌, Option, none, some, List, [], ◌∷◌, ◌≡◌, ◌≢◌, ◌⊎◌, inl, inr,
  refl, sym, ap, ap₂, ◌∙◌, arith, ◌==◌, ==_refl, ==_iff, if◌then◌else◌, Text, same, same_refl,
  same→eq, same_neq, any, contains, is_some, ltb, Bool-cases,
}
use tulpje.Cache.Redis.{Redis, View, Documented}

pub record Row : Type 0 where
  pub name : Text
  pub field : ℕ
  pub value : Text

-- The hashes as rows, the sets as pairs of a name and a member; a key holds only one of them.
pub record Store : Type 0 where
  pub rows : List Row
  pub pairs : List (Text × Text)

abbrev pub is_at : Text → ℕ → Row → Bool
is_at name f r = same name r.name && (f == r.field)

abbrev pub row_of : List Row → Text → ℕ → Option Text
row_of [] name f = none
row_of (r ∷ rs) name f =
    let rest = row_of rs name f in if is_at name f r then some r.value else rest

abbrev pub has_row : List Row → Text → Bool
has_row [] name = false
has_row (r ∷ rs) name = let rest = has_row rs name in same name r.name || rest

abbrev pub drop_rows : Text → List ℕ → List Row → List Row
drop_rows name fs [] = []
drop_rows name fs (r ∷ rs) =
    let rest = drop_rows name fs rs in
    if same r.name name && any (λ f. r.field == f) fs then rest else (r ∷ rest)

abbrev pub put_row : Text → ℕ → Text → List Row → List Row
put_row name f value rs = record { name = name; field = f; value = value } ∷ rs

abbrev pub has_pair : List (Text × Text) → Text → Text → Bool
has_pair [] name value = false
has_pair (p ∷ ps) name value =
    let rest = has_pair ps name value in (same name p.0 && same value p.1) || rest

abbrev pub has_name : List (Text × Text) → Text → Bool
has_name [] name = false
has_name (p ∷ ps) name = let rest = has_name ps name in same name p.0 || rest

abbrev pub drop_pairs : Text → List Text → List (Text × Text) → List (Text × Text)
drop_pairs name values [] = []
drop_pairs name values (p ∷ ps) =
    let rest = drop_pairs name values ps in
    if same p.0 name && contains p.1 values then rest else (p ∷ rest)

abbrev pub wrong_type : {A : Type 0} → Bool → A → Option A
wrong_type true a = none
wrong_type false a = some a

abbrev pub sample_redis : Redis Store
sample_redis = record {
  hget = λ name f s. wrong_type (has_name s.pairs name) (row_of s.rows name f);
  hset = λ name f value s. wrong_type (has_name s.pairs name) (
    record s { rows = put_row name f value s.rows },
    if is_some (row_of s.rows name f) then 0 else 1,
  );
  hdel = λ name fs s.
      wrong_type (has_name s.pairs name) (record s { rows = drop_rows name fs s.rows }, 0);
  smembers = λ name s. none;
  sismember = λ name value s.
      wrong_type (has_row s.rows name) (if has_pair s.pairs name value then 1 else 0);
  exists = λ name s. some (has_name s.pairs name || has_row s.rows name);
  sadd = λ name value s.
      wrong_type (has_row s.rows name) (record s { pairs = (name, value) ∷ s.pairs }, 1);
  srem = λ name values s.
      wrong_type (has_row s.rows name) (record s { pairs = drop_pairs name values s.pairs }, 0);
  del = λ name s. none;
  set = λ name value s. none;
  get = λ name s. none;
}

abbrev pub sample_view : View Store
sample_view = record {
  field_of = λ s. row_of s.rows;
  has = λ s name value. has_pair s.pairs name value;
  holds_other = λ s name. false;
}

right_type : {A : Type 0} (b : Bool) (a a' : A) → wrong_type b a ≡ some a' → (b ≡ false) × (a' ≡ a)
right_type true a a' e = absurd (none_some a' e)
  where
    none_some : {A : Type 0} (a : A) → ◌≡◌ {A = Option A} none (some a) → ⊥
    none_some a e = cc
right_type {A} false a a' e =
    (refl, ap (λ o. elim o as (λ _. A) [ none ↦ a' | some c ↦ c ]) (sym e))

has_row-some :
    (rs : List Row) (name : Text)
    → has_row rs name ≡ true
    → (f : ℕ) × ((t : Text) × (row_of rs name f ≡ some t))
has_row-some [] name e = ground arith
has_row-some (r ∷ rs) name e = elim (Bool-cases (same name r.name)) [
  | inl h ↦ (r.field, (r.value, ground (arith, ==_refl r.field)))
  | inr h ↦ let (f, (t, k)) = has_row-some rs name (ground arith) in (f, (t, ground arith))
]

has_row-none :
    (rs : List Row) (name : Text) (f : ℕ) → has_row rs name ≡ false → row_of rs name f ≡ none
has_row-none [] name f e = refl
has_row-none (r ∷ rs) name f e = ground (arith, has_row-none rs name f)

abbrev drops : Text → List ℕ → Text → ℕ → Bool
drops name fs other f = same other name && any (λ g. f == g) fs

drops-is_at :
    (name : Text) (fs : List ℕ) (r : Row) (other : Text) (f : ℕ)
    → is_at other f r ≡ true
    → drops name fs r.name r.field ≡ drops name fs other f
drops-is_at name fs r other f e =
    ap₂ (drops name fs) (sym (same→eq other r.name (ground arith)))
      (sym ((==_iff f r.field).0 (ground arith)))

drop_rows-gone :
    (name : Text) (fs : List ℕ) (rs : List Row) (f : ℕ)
    → any (λ g. f == g) fs ≡ true
    → row_of (drop_rows name fs rs) name f ≡ none
drop_rows-gone name fs [] f h = refl
drop_rows-gone name fs (r ∷ rs) f h = elim (Bool-cases (is_at name f r)) [
  | inl e ↦
      ground (arith, drop_rows-gone name fs rs f h, drops-is_at name fs r name f e, same_refl name)
  | inr e ↦ ground (arith, drop_rows-gone name fs rs f h)
]

not_dropped :
    (name : Text) (fs : List ℕ) (other : Text) (f : ℕ)
    → (other ≢ name) ⊎ (any (λ g. f == g) fs ≡ false)
    → drops name fs other f ≡ false
not_dropped name fs other f (inl n) = ground (arith, same_neq other name n)
not_dropped name fs other f (inr n) = ground arith

drop_rows-others :
    (name : Text) (fs : List ℕ) (rs : List Row) (other : Text) (f : ℕ)
    → (other ≢ name) ⊎ (any (λ g. f == g) fs ≡ false)
    → row_of (drop_rows name fs rs) other f ≡ row_of rs other f
drop_rows-others name fs [] other f h = refl
drop_rows-others name fs (r ∷ rs) other f h = elim (Bool-cases (is_at other f r)) [
  | inl e ↦ ground (
    arith,
    drop_rows-others name fs rs other f h,
    drops-is_at name fs r other f e ∙ not_dropped name fs other f h,
  )
  | inr e ↦ ground (arith, drop_rows-others name fs rs other f h)
]

and_false : (b : Bool) → (b && false) ≡ false
and_false true = refl
and_false false = refl

false≢true : false ≢ true
false≢true e = ground arith

both_true : (a b : Bool) → (a && b) ≡ true → b ≡ true
both_true a b h = ground arith

exists-some :
    (ps : List (Text × Text)) (name : Text)
    → has_name ps name ≡ true
    → (value : Text) × (has_pair ps name value ≡ true)
exists-some [] name e = ground arith
exists-some (p ∷ ps) name e = elim (Bool-cases (same name p.0)) [
  | inl h ↦ (p.1, ground (arith, same_refl p.1))
  | inr h ↦ let (value, k) = exists-some ps name (ground arith) in (value, ground arith)
]

exists-none :
    (ps : List (Text × Text)) (name value : Text)
    → has_name ps name ≡ false
    → has_pair ps name value ≡ false
exists-none [] name value e = refl
exists-none (p ∷ ps) name value e = ground (arith, exists-none ps name value)

both_same : (a b c d : Text) → same a b ≡ true → same c d ≡ true → (a ≡ b) × (c ≡ d)
both_same a b c d h k = (same→eq a b h, same→eq c d k)

kept_other :
    (name v : Text) (p : Text × Text) (values : List Text)
    → (same p.0 name && contains p.1 values) ≡ false
    → contains v values ≡ true
    → (same name p.0 && same v p.1) ≡ false
kept_other name v p values e h = elim (Bool-cases (same name p.0)) [
  | inl i ↦ elim (Bool-cases (same v p.1)) [
    | inl j ↦
        elim (false≢true (
          sym e
          ∙ ap₂ ◌&&◌ (ap (λ n. same p.0 n) (same→eq name p.0 i) ∙ same_refl p.0)
              (ap (λ u. contains u values) (sym (same→eq v p.1 j)) ∙ h))) [ ]
    | inr j ↦ ground arith
  ]
  | inr i ↦ ground arith
]

dropped_other :
    (name other v : Text) (p : Text × Text) (values : List Text)
    → (same p.0 name && contains p.1 values) ≡ true
    → (other ≢ name) ⊎ (contains v values ≡ false)
    → (same other p.0 && same v p.1) ≡ false
dropped_other name other v p values e h = elim (Bool-cases (same other p.0)) [
  | inl i ↦ elim (Bool-cases (same v p.1)) [
    | inl j ↦ elim h [
      | inl n ↦ elim (n (same→eq other p.0 i ∙ same→eq p.0 name (ground arith))) [ ]
      | inr n ↦
          elim (false≢true
            (sym n ∙ ap (λ u. contains u values) (same→eq v p.1 j) ∙ both_true _ _ e)) [ ]
    ]
    | inr j ↦ ground arith
  ]
  | inr i ↦ ground arith
]

drop_pairs-gone :
    (name : Text) (values : List Text) (ps : List (Text × Text)) (v : Text)
    → contains v values ≡ true
    → has_pair (drop_pairs name values ps) name v ≡ false
drop_pairs-gone name values [] v h = refl
drop_pairs-gone name values (p ∷ ps) v h =
    elim (Bool-cases (same p.0 name && contains p.1 values)) [
      | inl e ↦ ground (arith, drop_pairs-gone name values ps v h)
      | inr e ↦ ground (arith, drop_pairs-gone name values ps v h, kept_other name v p values e h)
    ]

drop_pairs-others :
    (name : Text) (values : List Text) (ps : List (Text × Text)) (other v : Text)
    → (other ≢ name) ⊎ (contains v values ≡ false)
    → has_pair (drop_pairs name values ps) other v ≡ has_pair ps other v
drop_pairs-others name values [] other v h = refl
drop_pairs-others name values (p ∷ ps) other v h =
    elim (Bool-cases (same p.0 name && contains p.1 values)) [
      | inl e ↦ ground (
        arith,
        drop_pairs-others name values ps other v h,
        dropped_other name other v p values e h,
      )
      | inr e ↦ ground (arith, drop_pairs-others name values ps other v h)
    ]

pub sample_documented : Documented sample_redis sample_view
sample_documented = record {
  hget_reads = λ name f s o e. (right_type (has_name s.pairs name) _ o e).1;
  hset_writes = λ name f value s s' n e.
      let at = (right_type (has_name s.pairs name) _ (s', n) e).1 in
      (
        ap (λ p. row_of p.0.rows name f) at ∙ written name f value s.rows,
        λ other g h. ap (λ p. row_of p.0.rows other g) at ∙ unwritten name f value s.rows other g h,
        ap (λ p. ltb 0 p.1) at ∙ new_count (is_some (row_of s.rows name f)),
        λ other v. ap (λ p. has_pair p.0.pairs other v) at,
      );
  hdel_removes = λ name fs s s' n e.
      let at = (right_type (has_name s.pairs name) _ (s', n) e).1 in
      (
        λ f h. ap (λ p. row_of p.0.rows name f) at ∙ drop_rows-gone name fs s.rows f h,
        λ other f h.
            ap (λ p. row_of p.0.rows other f) at ∙ drop_rows-others name fs s.rows other f h,
        λ other v. ap (λ p. has_pair p.0.pairs other v) at,
      );
  exists_some = λ name s e. existing name s (some_bool _ _ e);
  exists_none = λ name s e value. exists-none s.pairs name value (missing name s (some_bool _ _ e));
  sadd_adds = λ name value s s' n e.
      let at = (right_type (has_row s.rows name) _ (s', n) e).1 in
      (
        ap (λ p. has_pair p.0.pairs name value) at ∙ added name value s,
        λ other v h. ap (λ p. has_pair p.0.pairs other v) at ∙ unadded name value s other v h,
        λ other f. ap (λ p. row_of p.0.rows other f) at,
      );
  srem_removes = λ name values s s' n e.
      let at = (right_type (has_row s.rows name) _ (s', n) e).1 in
      (
        λ v h. ap (λ p. has_pair p.0.pairs name v) at ∙ drop_pairs-gone name values s.pairs v h,
        λ other v h.
            ap (λ p. has_pair p.0.pairs other v) at
            ∙ drop_pairs-others name values s.pairs other v h,
        λ other f. ap (λ p. row_of p.0.rows other f) at,
      );
  srem_on_set = λ name values s s' n e.
      let (no_row, at) = right_type (has_row s.rows name) _ (s', n) e in
      (λ f. ap (λ p. row_of p.0.rows name f) at ∙ has_row-none s.rows name f no_row, refl);
}
  where
    some_bool : (a b : Bool) → some a ≡ some b → a ≡ b
    some_bool a b e = ap (λ o. elim o as (λ _. Bool) [ none ↦ a | some c ↦ c ]) e

    existing :
        (name : Text) (s : Store)
        → (has_name s.pairs name || has_row s.rows name) ≡ true
        → ((value : Text) × (has_pair s.pairs name value ≡ true))
          ⊎ (((f : ℕ) × ((t : Text) × (row_of s.rows name f ≡ some t))) ⊎ (false ≡ true))
    existing name s e = elim (Bool-cases (has_name s.pairs name)) [
      | inl h ↦ inl (exists-some s.pairs name h)
      | inr h ↦ inr (inl (has_row-some s.rows name (ground arith)))
    ]

    missing :
        (name : Text) (s : Store)
        → (has_name s.pairs name || has_row s.rows name) ≡ false
        → has_name s.pairs name ≡ false
    missing name s e = ground arith

    written :
        (name : Text) (f : ℕ) (value : Text) (rs : List Row)
        → row_of (put_row name f value rs) name f ≡ some value
    written name f value rs = ground (arith, same_refl name, ==_refl f)

    unwritten :
        (name : Text) (f : ℕ) (value : Text) (rs : List Row) (other : Text) (g : ℕ)
        → (other ≢ name) ⊎ (g ≢ f)
        → row_of (put_row name f value rs) other g ≡ row_of rs other g
    unwritten name f value rs other g (inl n) = ground (arith, same_neq other name n)
    unwritten name f value rs other g (inr n) = ground arith

    new_count : (b : Bool) → ltb 0 (if b then 0 else 1) ≡ not b
    new_count true = refl
    new_count false = refl

    added : (name value : Text) (s : Store) → has_pair ((name, value) ∷ s.pairs) name value ≡ true
    added name value s =
        ap (λ b. b || has_pair s.pairs name value) (ap₂ ◌&&◌ (same_refl name) (same_refl value))

    unadded :
        (name value : Text) (s : Store) (other v : Text)
        → (other ≢ name) ⊎ (v ≢ value)
        → has_pair ((name, value) ∷ s.pairs) other v ≡ has_pair s.pairs other v
    unadded name value s other v (inl n) =
        ap (λ b. (b && same v value) || has_pair s.pairs other v) (same_neq other name n)
    unadded name value s other v (inr n) =
        ap (λ b. b || has_pair s.pairs other v)
          (ap (λ b. same other name && b) (same_neq v value n) ∙ and_false (same other name))
