-- ===== src/Routing/Socket.antt =====
-- ospf-routing/src/lib.rs: the routes of the kernel's table. What the C functions do to the table is
-- an interface; the byte order of the machine is an argument.
use rust_ospfd.Prelude.{
  ℕ, ◌+◌, ◌*◌, ◌/◌, ◌%◌, ◌^◌, ◌<◌, ◌≡◌, refl, List, Option, some, none, map, arith,
}
use rust_ospfd.Routing.Table.{RoutingItem}

-- `routing_item_t`: addresses in the order of the network.
pub record RawItem : Type 0 where
  pub dest : ℕ
  pub mask : ℕ
  pub nexthop : ℕ

-- `u32::swap_bytes` and `u32::to_be`.
unfoldable pub swap_bytes : ℕ → ℕ
swap_bytes x =
    (x % 256) * 16777216
    + ((x / 256) % 256) * 65536
    + ((x / 65536) % 256) * 256
    + (x / 16777216) % 256

pub data Endian : Type 0 where
  little big : Endian

unfoldable pub to_be : Endian → ℕ → ℕ
unfolding swap_bytes
to_be little x = swap_bytes x
to_be big x = x

-- `From<routing_item_t> for RoutingItem` and `From<RoutingItem> for routing_item_t`
unfoldable pub of_raw : Endian → RawItem → RoutingItem
unfolding to_be
of_raw e r = record { dest = to_be e r.dest; mask = to_be e r.mask; nexthop = to_be e r.nexthop }

unfoldable pub to_raw : Endian → RoutingItem → RawItem
unfolding to_be
to_raw e r = record { dest = to_be e r.dest; mask = to_be e r.mask; nexthop = to_be e r.nexthop }

-- `Result<_, io::Error>`, where an error is `last_os_error`.
pub data IoResult (A : Type 0) : Type 0 where
  ok : A → IoResult A
  err : ℕ → IoResult A

-- The C functions on the state of the kernel. `none`: the answer is not negative; otherwise it is, and
-- `errno` is the number. `get_route_table` gives the items that it has written.
pub record Kernel : Type 1 where
  pub State : Type 0
  pub add_route : RawItem → State → State × Option ℕ
  pub delete_route : RawItem → State → State × Option ℕ
  pub get_route_table : ℕ → State → IoResult (List RawItem)

abbrev pub answer : Option ℕ → IoResult (Unit {0})
answer none = ok tt
answer (some errno) = err errno

module _ (K : Kernel) (e : Endian) where
  unfoldable pub add_route : RoutingItem → K.State → K.State × IoResult (Unit {0})
  unfolding to_raw
  add_route r s = let (s', a) = K.add_route (to_raw e r) s in (s', answer a)

  unfoldable pub delete_route : RoutingItem → K.State → K.State × IoResult (Unit {0})
  unfolding to_raw
  delete_route r s = let (s', a) = K.delete_route (to_raw e r) s in (s', answer a)

  unfoldable pub get_route_table : K.State → IoResult (List RoutingItem)
  unfolding of_raw
  get_route_table s = elim (K.get_route_table 128 s) [
    | err errno ↦ err errno
    | ok items ↦ ok (map (of_raw e) items)
  ]

swap_bytes-involutive : (x : ℕ) → x < 2 ^ 32 → swap_bytes (swap_bytes x) ≡ x
unfolding swap_bytes
swap_bytes-involutive x h = omega arith

pub to_be-involutive : (e : Endian) (x : ℕ) → x < 2 ^ 32 → to_be e (to_be e x) ≡ x
unfolding to_be
to_be-involutive little x h = swap_bytes-involutive x h
to_be-involutive big x h = refl

-- A route whose fields are addresses.
abbrev pub IsRanged : RoutingItem → Type 0
IsRanged r = (r.dest < 2 ^ 32) × (r.mask < 2 ^ 32) × (r.nexthop < 2 ^ 32)

pub of_raw-to_raw : (e : Endian) (r : RoutingItem) → IsRanged r → of_raw e (to_raw e r) ≡ r
unfolding of_raw to_raw
of_raw-to_raw e r (a, b, c) =
    rw (to_be-involutive e r.dest a, to_be-involutive e r.mask b, to_be-involutive e r.nexthop c)
      refl
