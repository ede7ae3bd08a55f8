-- ===== src/Command/Menu.antt =====
-- The tree of commands of ospfd/command.rs: `CommandSet`, the macro `command!` and the functions
-- that build the sets. A set is known by its place in the tree, where the texts given so far are
-- arguments. The descriptions are output and left out, their keys are kept.
use rust_ospfd.Prelude.{List, [], ◌∷◌, ◌++◌, Option, some, none, filter, not, keys}
use rust_ospfd.Command.Text.{Text, codes, starts_with}

-- What a set does on enter, and what the two changing actions are given.
pub data Action : Type 0 where
  run_nothing show_routing show_system_routing show_peers show_lsdb exit_ospfd : Action
  set_area set_cost : Text → Text → Action

pub data Menu : Type 0 where
  root display display_routing display_routing_system display_peer display_lsdb interface : Menu
  interface_name interface_area interface_cost : Text → Menu
  interface_area_id interface_cost_set : Text → Text → Menu
  exit : Menu

-- The arms of `command!`.
pub record CommandSet : Type 0 where
  pub handlers : List (Text × Menu)
  pub handle_enter : Option Action
  pub arbitrary : Option (Text × (Text → Menu))

abbrev set_of : List (Text × Menu) → CommandSet
set_of handlers = record { handlers = handlers; handle_enter = none; arbitrary = none }

abbrev on_enter : Action → CommandSet
on_enter a = record { handlers = []; handle_enter = some a; arbitrary = none }

abbrev on_argument : Text → (Text → Menu) → CommandSet
on_argument key f = record { handlers = []; handle_enter = none; arbitrary = some (key, f) }

-- `ROOT` and the functions `parse_display` to `parse_exit`.
unfoldable pub command : Menu → CommandSet
command root = record {
  handlers =
      (codes "display", display) ∷ (codes "interface", interface) ∷ (codes "exit", exit) ∷ [];
  handle_enter = some run_nothing;
  arbitrary = none;
}
command display = set_of (
    (codes "routing", display_routing)
    ∷ (codes "peer", display_peer)
    ∷ (codes "lsdb", display_lsdb)
    ∷ [])
command display_routing = record {
  handlers = (codes "system", display_routing_system) ∷ [];
  handle_enter = some show_routing;
  arbitrary = none;
}
command display_routing_system = on_enter show_system_routing
command display_peer = on_enter show_peers
command display_lsdb = on_enter show_lsdb
command interface = on_argument (codes "<iface_name>") interface_name
command (interface_name name) =
    set_of ((codes "area_id", interface_area name) ∷ (codes "cost", interface_cost name) ∷ [])
command (interface_area name) = on_argument (codes "<area_id>") (interface_area_id name)
command (interface_area_id name arg) = on_enter (set_area name arg)
command (interface_cost name) = on_argument (codes "<cost>") (interface_cost_set name)
command (interface_cost_set name arg) = on_enter (set_cost name arg)
command exit = on_enter exit_ospfd

abbrev argument_key : Option (Text × (Text → Menu)) → List Text
argument_key none = []
argument_key (some (key, f)) = key ∷ []

abbrev enter_key : Option Action → List Text
enter_key none = []
enter_key (some a) = codes "<enter>" ∷ []

-- The keys of `desc`, as `command!` inserts them.
unfoldable pub desc : CommandSet → List Text
desc set = enter_key set.handle_enter ++ argument_key set.arbitrary ++ keys set.handlers

-- What `CommandSet::new` pushes into the trie.
unfoldable pub trie_keys : CommandSet → List Text
unfolding desc starts_with
trie_keys set = filter (λ s. not (starts_with s (codes "<"))) (desc set)
