-- ===== src/Framework/Registry.antt =====
-- The registry of the modules' handlers (crates/tulpje-framework/src/module/registry.rs).
use tulpje.Prelude.{
  Bool, not, Option, none, some, List, [], ◌∷◌, ◌++◌, Text, get, insert, insert_all, map, filter,
}

-- A module's maps, whose keys are names; event types stand by their names.
pub record Module (Handler : Type 0) : Type 0 where
  pub name : Text
  pub guild_scoped : Bool
  pub command_definitions : List Text
  pub commands : List (Text × Handler)
  pub modals : List (Text × Handler)
  pub components : List (Text × Handler)
  pub events : List (Text × List Handler)
  pub tasks : List (Text × Handler)
  pub services : List (Text × Handler)

pub record Registry (Handler : Type 0) : Type 0 where
  pub modules : List (Text × Module Handler)
  pub commands : List (Text × Handler)
  pub modals : List (Text × Handler)
  pub components : List (Text × Handler)
  pub events : List (Text × List Handler)
  pub tasks : List (Text × Handler)
  pub services : List (Text × Handler)

module _ {Handler : Type 0} where
  abbrev pub new : Registry Handler
  new = record {
    modules = [];
    commands = [];
    modals = [];
    components = [];
    events = [];
    tasks = [];
    services = [];
  }

  unfoldable pub register : Module Handler → Registry Handler → Registry Handler
  register m r = record {
    modules = insert m.name m r.modules;
    commands = insert_all m.commands r.commands;
    modals = insert_all m.modals r.modals;
    components = insert_all m.components r.components;
    events = insert_all m.events r.events;
    tasks = insert_all m.tasks r.tasks;
    services = insert_all m.services r.services;
  }

  abbrev pub definitions : List (Text × Module Handler) → List Text
  definitions [] = []
  definitions (e ∷ es) = e.1.command_definitions ++ definitions es

  unfoldable pub global_commands : Registry Handler → List Text
  global_commands r = definitions (filter (λ e. not e.1.guild_scoped) r.modules)

  unfoldable pub module_commands : Text → Registry Handler → Option (List Text)
  module_commands name r = elim (get name r.modules) [
    | none ↦ none
    | some m ↦ some m.command_definitions
  ]

  unfoldable pub find_command : Text → Registry Handler → Option Handler
  find_command name r = get name r.commands

  unfoldable pub guild_module_names : Registry Handler → List Text
  guild_module_names r = map (λ e. e.1.name) (filter (λ e. e.1.guild_scoped) r.modules)

  -- The modules are registered one after the other.
  unfoldable pub register_all : List (Module Handler) → Registry Handler → Registry Handler
  register_all [] r = r
  register_all (m ∷ ms) r = register_all ms (register m r)
