-- ===== src/Framework/Registered.antt =====
-- Which module's handlers a registry has (crates/tulpje-framework/src/module/registry.rs).
use tulpje.Prelude.{
  Option, none, some, List, [], ◌∷◌, ◌≡◌, refl, sym, ap, ◌∙◌, Text, Text-cases, inl, inr, same,
  same_refl, same_neq, get, insert, insert_all, get-insert_same, get-insert_other, if◌then◌else◌,
}
use tulpje.Framework.Registry.{Module, Registry, new, register, find_command, register_all}

abbrev pub or_else : {A : Type 0} → Option A → Option A → Option A
or_else (some a) o = some a
or_else none o = o

-- The last value that the entries give the key.
abbrev pub last_of : {A : Type 0} → Text → List (Text × A) → Option A
last_of k [] = none
last_of k (e ∷ es) = or_else (last_of k es) (if same k e.0 then some e.1 else none)

or_else_assoc : {A : Type 0} (a b c : Option A) → or_else a (or_else b c) ≡ or_else (or_else a b) c
or_else_assoc none b c = refl
or_else_assoc (some a) b c = refl

or_none : {A : Type 0} (o : Option A) → or_else o none ≡ o
or_none none = refl
or_none (some a) = refl

get-insert_all :
    {A : Type 0} (k : Text) (es m : List (Text × A))
    → get k (insert_all es m) ≡ or_else (last_of k es) (get k m)
get-insert_all k [] m = refl
get-insert_all k (e ∷ es) m =
    get-insert_all k es (insert e.0 e.1 m)
    ∙ ap (or_else (last_of k es)) (one k e m)
    ∙ or_else_assoc (last_of k es) (if same k e.0 then some e.1 else none) (get k m)
  where
    one :
        {A : Type 0} (k : Text) (e : Text × A) (m : List (Text × A))
        → get k (insert e.0 e.1 m) ≡ or_else (if same k e.0 then some e.1 else none) (get k m)
    one k e m = elim (Text-cases k e.0) [
      | inl q ↦
          ap (λ j. get j (insert e.0 e.1 m)) q
          ∙ get-insert_same e.0 e.1 m
          ∙ ap (λ b. or_else (if b then some e.1 else none) (get k m))
              (sym (ap (λ j. same j e.0) q ∙ same_refl e.0))
      | inr n ↦
          get-insert_other k e.0 e.1 m n
          ∙ ap (λ b. or_else (if b then some e.1 else none) (get k m)) (sym (same_neq k e.0 n))
    ]

module _ {Handler : Type 0} where
  -- The handler that the last module with the command gives it.
  abbrev pub command_of : Text → List (Module Handler) → Option Handler
  command_of k [] = none
  command_of k (m ∷ ms) = or_else (command_of k ms) (last_of k m.commands)

  -- The handlers that the last module with handlers of the event has.
  abbrev pub handlers_of : Text → List (Module Handler) → Option (List Handler)
  handlers_of k [] = none
  handlers_of k (m ∷ ms) = or_else (handlers_of k ms) (last_of k m.events)

  register_all-commands :
      (k : Text) (ms : List (Module Handler)) (r : Registry Handler)
      → get k (register_all ms r).commands ≡ or_else (command_of k ms) (get k r.commands)
  unfolding register_all register
  register_all-commands k [] r = refl
  register_all-commands k (m ∷ ms) r =
      register_all-commands k ms (register m r)
      ∙ ap (or_else (command_of k ms)) (get-insert_all k m.commands r.commands)
      ∙ or_else_assoc (command_of k ms) (last_of k m.commands) (get k r.commands)

  register_all-events :
      (k : Text) (ms : List (Module Handler)) (r : Registry Handler)
      → get k (register_all ms r).events ≡ or_else (handlers_of k ms) (get k r.events)
  unfolding register_all register
  register_all-events k [] r = refl
  register_all-events k (m ∷ ms) r =
      register_all-events k ms (register m r)
      ∙ ap (or_else (handlers_of k ms)) (get-insert_all k m.events r.events)
      ∙ or_else_assoc (handlers_of k ms) (last_of k m.events) (get k r.events)

  -- After the modules are registered in a new registry, a command is found exactly if a module has
  -- it, and its handler is that of the last one. The handlers of an event are those of the last
  -- module that has any, and no others.
  pub register_all-finds :
      (k : Text) (ms : List (Module Handler))
      → (find_command k (register_all ms new) ≡ command_of k ms)
        × (get k (register_all ms new).events ≡ handlers_of k ms)
  unfolding find_command
  register_all-finds k ms = (
    register_all-commands k ms new ∙ or_none (command_of k ms),
    register_all-events k ms new ∙ or_none (handlers_of k ms),
  )
