-- ===== src/Command/Effects.antt =====
-- What the actions of ospfd/command.rs do to the router. What is printed is left out: an action that
-- only shows something leaves the router as it is. `none` is a panic: `Handle::block_on` of a runtime and
-- `Mutex::blocking_lock` are one in a thread that runs asynchronous code, which is an argument.
pub mod Moved
use rust_ospfd.Prelude.{
  ℕ, Bool, true, false, List, [], ◌∷◌, Option, some, none, map, insert, nat_eq, if◌then◌else◌, ◌>>◌,
  assert, not,
}
use rust_ospfd.Packet.Lsa.{Ipv4Addr}
use rust_ospfd.Interface.State.{Interface}
use rust_ospfd.Interface.Event.{NetworkInterface, interface_up, interface_down}
use rust_ospfd.Area.Lsdb
use rust_ospfd.Database.{ProtocolDb}
use rust_ospfd.Command.Text.{Text, text_beq}
use rust_ospfd.Command.Numbers.{parse_u16, parse_ipv4}
use rust_ospfd.Command.Menu.{
  Action, run_nothing, show_routing, show_system_routing, show_peers, show_lsdb, exit_ospfd,
  set_area, set_cost,
}

-- An interface with its `interface_name`, and what the host says of its device.
pub record Named : Type 0 where
  pub interface_name : Text
  pub device : NetworkInterface
  pub iface : Interface

pub record Router : Type 0 where
  pub interfaces : List Named
  pub db : ProtocolDb

-- `ProtocolDB::get_interface_by_name`: the first of that name.
unfoldable pub get_interface_by_name : Text → List Named → Option Named
get_interface_by_name name [] = none
get_interface_by_name name (i ∷ is) =
    let rest = get_interface_by_name name is in
    if text_beq i.interface_name name then some i else rest

-- A change of that interface, through its guard.
unfoldable pub change_named : Text → (Named → Interface) → List Named → List Named
change_named name f [] = []
change_named name f (i ∷ is) =
    let rest = change_named name f is in
    if text_beq i.interface_name name then record i { iface = f i } ∷ is else i ∷ rest

-- The interface behind `interface_down`, the new area and `interface_up`.
unfoldable pub moved : Ipv4Addr → Named → Interface
unfolding interface_up interface_down
moved id i = interface_up i.device (record (interface_down i.iface) { area_id = id })

-- `block_on!` and `blocking_lock`, of which `get_interface_by_name` calls the second.
unfoldable pub block : Bool → Option (Unit {0})
block asynchronous = assert (not asynchronous)

-- The handler of `interface <name> area_id <area>`.
unfoldable pub change_area : Bool → Text → Text → Router → Option Router
unfolding get_interface_by_name change_named moved parse_ipv4 block
change_area asynchronous name arg r =
    block asynchronous >> elim (get_interface_by_name name r.interfaces) [
      | none ↦ some r
      | some i ↦ elim (parse_ipv4 arg) [
        | none ↦ some r
        | some id ↦
            block asynchronous
            >> some (record {
              interfaces = change_named name (moved id) r.interfaces;
              db = record (r.db) { areas = insert id (Lsdb.new id) r.db.areas };
            })
      ]
    ]

abbrev with_cost : ℕ → Named → Interface
with_cost cost i = record (i.iface) { cost = cost }

-- The handler of `interface <name> cost <cost>`.
unfoldable pub change_cost : Bool → Text → Text → Router → Option Router
unfolding get_interface_by_name change_named parse_u16 block
change_cost asynchronous name arg r =
    block asynchronous >> elim (get_interface_by_name name r.interfaces) [
      | none ↦ some r
      | some i ↦ elim (parse_u16 arg) [
        | none ↦ some r
        | some cost ↦
            some (record r { interfaces = change_named name (with_cost cost) r.interfaces })
      ]
    ]

-- The functions behind `enter:`. `exit` ends the process, which is in `main_loop`.
unfoldable pub perform : Bool → Action → Router → Option Router
unfolding change_area change_cost block
perform asynchronous run_nothing r = some r
perform asynchronous show_system_routing r = some r
perform asynchronous exit_ospfd r = some r
perform asynchronous show_routing r = block asynchronous >> some r
perform asynchronous show_peers r = block asynchronous >> some r
perform asynchronous show_lsdb r = block asynchronous >> some r
perform asynchronous (set_area name arg) r = change_area asynchronous name arg r
perform asynchronous (set_cost name arg) r = change_cost asynchronous name arg r
