-- ===== src/Routing.antt =====
-- ospfd/database/routing.rs: the items of the routing table, and how the table chooses between two of
-- them. Here too an address is a number, and the derived order of the path types is that of their
-- declaration.
pub mod Mask
pub mod Table
pub mod Socket
pub mod Kernel
use rust_ospfd.Prelude.{ℕ, Bool, true, false, ltb, compare, Ordering}
use rust_ospfd.Packet.Lsa.{Ipv4Addr, LsaIndex}

pub data RoutingTableItemType : Type 0 where
  network router : RoutingTableItemType

pub data RoutingTablePathType : Type 0 where
  area_internal area_external as_external_t1 as_external_t2 : RoutingTablePathType

abbrev pub path_rank : RoutingTablePathType → ℕ
path_rank area_internal = 0
path_rank area_external = 1
path_rank as_external_t1 = 2
path_rank as_external_t2 = 3

pub record RoutingTableItem : Type 0 where
  pub dest_type : RoutingTableItemType
  pub dest_id : Ipv4Addr
  pub addr_mask : Ipv4Addr
  pub external_cap : Bool
  pub area_id : Ipv4Addr
  pub path_type : RoutingTablePathType
  pub cost : ℕ
  pub cost_t2 : ℕ
  pub lsa_origin : LsaIndex
  pub next_hop : Ipv4Addr
  pub ad_router : Ipv4Addr

-- `RoutingTableItem::better_than`
unfoldable pub better_than : RoutingTableItem → RoutingTableItem → Bool
better_than a b =
    let by_cost : Bool = elim (compare a.cost_t2 b.cost_t2) [
      | Ordering.lt ↦ true
      | Ordering.eq ↦ false
      | Ordering.gt ↦ ltb a.cost b.cost
    ] in
    elim (compare (path_rank a.path_type) (path_rank b.path_type)) [
      | Ordering.lt ↦ true
      | Ordering.gt ↦ false
      | Ordering.eq ↦ by_cost
    ]
