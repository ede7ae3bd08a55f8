-- ===== src/Routing/Kernel/Applied.antt =====
-- What the kernel's table holds after `recalculate` of ospfd/database/routing.rs.
use rust_ospfd.Prelude.{ℕ, ◌≡◌, true, List, [], ◌∷◌, some}
use rust_ospfd.Packet.Lsa.{Ipv4Addr}
use rust_ospfd.Area.Lsdb.{Area, LsaDb}
use rust_ospfd.Routing.Table.{Table, RoutingItem, RouteChange, recalculate}
use rust_ospfd.Routing.Table.Keyed.{IsKeyed}
use rust_ospfd.Routing.Table.Synced.{Holds}
use rust_ospfd.Routing.Table.Recalculated.{recalculate-asked}
use rust_ospfd.Routing.Socket.{Endian, Kernel, to_raw, IsRanged}
use rust_ospfd.Routing.Kernel.{IsLawful, is_at, apply}
use rust_ospfd.Routing.Kernel.Phases.{CanTake, gateway_added, gateway_gone, gateway_other}

-- The kernel's table agrees with a table of routes: at each of its networks, and nowhere that only
-- another table has.
module _ (K : Kernel) (e : Endian) (law : IsLawful K) where
  abbrev pub Has : K.State → Table → Type 0
  Has s t =
      (r : RoutingItem)
      → Holds t r
      → law.gateways s (to_raw e r).dest (to_raw e r).mask ≡ (to_raw e r).nexthop ∷ []

  abbrev pub Usable : Table → Type 0
  Usable t = (r : RoutingItem) → Holds t r → IsRanged r × (law.usable (to_raw e r) ≡ true)

  abbrev pub HasNone : K.State → Table → RoutingItem → Type 0
  HasNone s t r =
      ((q : RoutingItem) → Holds t q → q.dest ≡ r.dest → q.mask ≡ r.mask → ⊥)
      → law.gateways s (to_raw e r).dest (to_raw e r).mask ≡ []

  abbrev pub IsFree : Table → ℕ → ℕ → Type 0
  IsFree t d m = (q : RoutingItem) → Holds t q → is_at d m (to_raw e q) ≡ true → ⊥

  -- The requests of a `recalculate` that does not panic, carried out one after the other by the
  -- wrapped calls on a kernel that, for a network of one gateway at most, behaves as documented. If
  -- the kernel had the routes of the old table and no other gateway for their networks, the items
  -- of that table are each under their own key with no key twice, the routes of both tables are of
  -- addresses below 2 ^ 32, and the kernel can take those of the new table and has for each of
  -- their networks no gateway or only the route's own, or the old table has a route for it, then
  -- afterwards the kernel has the next hop of every route of the new table, and no other gateway,
  -- for its network, nothing for the networks that only the old table had, and what it had before
  -- for those of neither.
  pub apply-Has :
      (now router_id : ℕ) (areas areas' : List (Ipv4Addr × Area)) (db : LsaDb) (old new : Table)
      (changes : List RouteChange) (s : K.State)
      → IsKeyed old
      → recalculate now router_id areas db old ≡ some (areas', new, changes)
      → ((r : RoutingItem) → Holds old r → IsRanged r)
      → Usable new
      → Has s old
      → ((r : RoutingItem) → Holds new r → CanTake K e law s old r)
      → Has (apply K e changes s) new
        × ((r : RoutingItem) → Holds old r → HasNone (apply K e changes s) new r)
        × ((d m : ℕ)
            → IsFree old d m
            → IsFree new d m
            → law.gateways (apply K e changes s) d m ≡ law.gateways s d m)
  apply-Has now router_id areas areas' db old new changes s keyed ran ranged usable had can_take =
      let (h, q) = recalculate-asked now router_id areas areas' db old new changes keyed ran in
      let new_ranged = λ (r : RoutingItem) (g : Holds new r). (usable r g).0 in
      let new_usable = λ (r : RoutingItem) (g : Holds new r). (usable r g).1 in
      rw q (
        gateway_added K e law old new keyed h ranged new_ranged new_usable s had can_take,
        gateway_gone K e law old new keyed h ranged new_ranged new_usable s had can_take,
        gateway_other K e law old new keyed h ranged new_ranged new_usable s had can_take,
      )
