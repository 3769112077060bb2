-- ===== src/Gateway/Guilds.antt =====
-- The guilds that the shard reporter counts (crates/tulpje-gateway/src/shard_reporter.rs), against
-- the set that the events describe.
use tulpje.Prelude.{
  ℕ, String, Bool, false, not, Option, none, some, List, [], ◌∷◌, ◌≡◌, refl, ◌∙◌, ap, arith, ◌==◌,
  ◌||◌, ◌&&◌, Bool-cases, length, inl, inr,
}
use tulpje.Gateway.Events.{ready, guild_create, guild_delete}
use tulpje.Gateway.Reporter.{
  ReporterEvent, event, heartbeat_ack, Reporter, new, Outcome, member, insert, extend, remove,
  Input, handle_event, run,
}

abbrev pub Distinct : List ℕ → Type 0
Distinct [] = Unit {0}
Distinct (x ∷ xs) = (member x xs ≡ false) × Distinct xs

member-remove : (g h : ℕ) (xs : List ℕ) → member g (remove h xs) ≡ (not (g == h) && member g xs)
member-remove g h [] = ground arith
member-remove g h (x ∷ xs) = ground (arith, member-remove g h xs)

Distinct-remove : (h : ℕ) (xs : List ℕ) → Distinct xs → Distinct (remove h xs)
Distinct-remove h [] d = d
Distinct-remove h (x ∷ xs) d = ground (arith, Distinct-remove h xs d.1, member-remove x h xs)

member-insert : (g h : ℕ) (xs : List ℕ) → member g (insert h xs) ≡ ((g == h) || member g xs)
member-insert g h xs = elim (Bool-cases (g == h)) [ inl e ↦ ground arith | inr e ↦ ground arith ]

Distinct-insert : (h : ℕ) (xs : List ℕ) → Distinct xs → Distinct (insert h xs)
Distinct-insert h xs d = ground arith

member-extend : (g : ℕ) (gs xs : List ℕ) → member g (extend gs xs) ≡ (member g gs || member g xs)
member-extend g [] xs = ground arith
member-extend g (h ∷ gs) xs = ground (arith, member-extend g gs (insert h xs), member-insert g h xs)

Distinct-extend : (gs xs : List ℕ) → Distinct xs → Distinct (extend gs xs)
Distinct-extend [] xs d = d
Distinct-extend (g ∷ gs) xs d = Distinct-extend gs (insert g xs) (Distinct-insert g xs d)

-- The reporter counts a set: no guild is there twice, and the count is the set's size.
pub record Counts (r : Reporter) : Type 0 where
  pub distinct : Distinct r.guild_ids
  pub counted : r.shard.guild_count ≡ length r.guild_ids

-- Whether a guild is tracked after an event, by what it was before.
abbrev pub tracked : ℕ → ReporterEvent → Bool → Bool
tracked g (event (ready gs)) before = member g gs || before
tracked g (event (guild_create h)) before = (g == h) || before
tracked g (event (guild_delete h)) before = not (g == h) && before
tracked g _ before = before

abbrev pub tracked_all : ℕ → List Input → Bool → Bool
tracked_all g [] before = before
tracked_all g (i ∷ is) before = tracked_all g is (tracked g i.evt before)

abbrev pub Returns {ℓ} : {A : Type ℓ} → (A → Type 0) → Option A → Type 0
Returns P none = ⊥
Returns P (some a) = P a

-- `expect("no latency measurement after heartbeat")`.
abbrev pub Measured : ReporterEvent → Type 0
Measured (heartbeat_ack _ []) = ⊥
Measured _ = Unit {0}

abbrev pub AllMeasured : List Input → Type 0
AllMeasured [] = Unit {0}
AllMeasured (i ∷ is) = Measured i.evt × AllMeasured is

pub Returns-mono :
    {A : Type 0} {P Q : A → Type 0}
    → ((a : A) → P a → Q a)
    → (o : Option A) → Returns P o
    → Returns Q o
Returns-mono f none h = h
Returns-mono f (some a) h = f a h

handle_event-Counts :
    (now : ℕ) (redis : Option String) (e : ReporterEvent) (r : Reporter)
    → Measured e
    → Counts r
    → Returns (λ d. Counts d.0) (handle_event now redis e r)
unfolding handle_event
handle_event-Counts now redis (heartbeat_ack e latency) r m c = ground arith
handle_event-Counts now redis (event (ready gs)) r m c =
    ground (arith, Distinct-extend gs r.guild_ids c.distinct)
handle_event-Counts now redis (event (guild_delete g)) r m c =
    ground (arith, Distinct-remove g r.guild_ids c.distinct)
handle_event-Counts now redis (event e) r m c = ground arith

handle_event-tracked :
    (now : ℕ) (redis : Option String) (e : ReporterEvent) (r : Reporter) (g : ℕ)
    → Measured e
    → Returns
        (λ d. member g d.0.guild_ids ≡ tracked g e (member g r.guild_ids))
        (handle_event now redis e r)
unfolding handle_event
handle_event-tracked now redis (heartbeat_ack e latency) r g m = ground arith
handle_event-tracked now redis (event (ready gs)) r g m =
    ground (arith, member-extend g gs r.guild_ids)
handle_event-tracked now redis (event (guild_delete h)) r g m =
    ground (arith, member-remove g h r.guild_ids)
handle_event-tracked now redis (event e) r g m = ground arith

pub run_rest :
    (is : List Input) (Q : Reporter → Type 0) (o : Option (Reporter × Outcome))
    → Returns (λ d. Returns Q (run is d.0)) o
    → Returns Q (elim o [ none ↦ none | some done ↦ run is done.0 ])
run_rest is Q none h = h
run_rest is Q (some d) h = h

Returns-and :
    {A : Type 0} (P Q R : A → Type 0) (o : Option A)
    → ((a : A) → P a → Q a → R a)
    → Returns P o
    → Returns Q o
    → Returns R o
Returns-and P Q R none f p q = p
Returns-and P Q R (some a) f p q = f a p q

tracked-ap :
    (g : ℕ) (is : List Input) (a b : Bool) → a ≡ b → tracked_all g is a ≡ tracked_all g is b
tracked-ap g is a b e = ap (tracked_all g is) e

handle_event-all_tracked :
    (now : ℕ) (redis : Option String) (e : ReporterEvent) (r : Reporter)
    → Measured e
    → Returns
        (λ d. (g : ℕ) → member g d.0.guild_ids ≡ tracked g e (member g r.guild_ids))
        (handle_event now redis e r)
handle_event-all_tracked now redis e r m =
    Returns-all (handle_event now redis e r) (λ g. handle_event-tracked now redis e r g m)
  where
    Returns-all :
        (o : Option (Reporter × Outcome))
        → ((g : ℕ) → Returns (λ d. member g d.0.guild_ids ≡ tracked g e (member g r.guild_ids)) o)
        → Returns (λ d. (g : ℕ) → member g d.0.guild_ids ≡ tracked g e (member g r.guild_ids)) o
    Returns-all none h = h 0
    Returns-all (some d) h = h

run-Agrees :
    (is : List Input) (r : Reporter)
    → AllMeasured is
    → Counts r
    → Returns
        (λ r'.
          Counts r' × ((g : ℕ) → member g r'.guild_ids ≡ tracked_all g is (member g r.guild_ids)))
        (run is r)
unfolding run
run-Agrees [] r m c = (c, λ g. refl)
run-Agrees (i ∷ is) r m c =
    run_rest is
      (λ r'.
        Counts r'
        × ((g : ℕ)
            → member g r'.guild_ids ≡ tracked_all g is (tracked g i.evt (member g r.guild_ids))))
      (handle_event i.now i.redis i.evt r)
      (Returns-and (λ d. Counts d.0)
        (λ d. (g : ℕ) → member g d.0.guild_ids ≡ tracked g i.evt (member g r.guild_ids))
        (λ d.
          Returns
            (λ r'.
              Counts r'
              × ((g : ℕ)
                  → member g r'.guild_ids
                    ≡ tracked_all g is (tracked g i.evt (member g r.guild_ids))))
            (run is d.0))
        (handle_event i.now i.redis i.evt r)
        (λ d c' t.
          Returns-mono (λ r' h. (h.0, λ g. h.1 g ∙ tracked-ap g is _ _ (t g))) (run is d.0)
            (run-Agrees is d.0 m.1 c'))
        (handle_event-Counts i.now i.redis i.evt r m.0 c)
        (handle_event-all_tracked i.now i.redis i.evt r m.0))

-- A new reporter that is given any events, of which every acknowledged heartbeat has a measured
-- latency, does not panic. It then tracks exactly the guilds that the events leave in, and
-- `guild_count` is their number, each counted once, also when writes to redis failed.
pub run-tracks :
    (is : List Input) (shard_id now : ℕ)
    → AllMeasured is
    → Returns
        (λ r. Counts r × ((g : ℕ) → member g r.guild_ids ≡ tracked_all g is false))
        (run is (new shard_id now))
unfolding new
run-tracks is shard_id now m =
    run-Agrees is (new shard_id now) m (record { distinct = tt; counted = refl })
