-- ===== src/Routing/Kernel.antt =====
-- `add_route` and `delete_route` of ospfd/database/routing.rs over the calls of ospf-routing, and
-- what is assumed of the kernel's table. Errors are logged by the callers.
pub mod Wrapped
pub mod Replayed
pub mod Networks
pub mod Phases
pub mod Applied
use rust_ospfd.Prelude.{
  ℕ, ◌≡◌, Bool, true, false, List, [], ◌∷◌, Option, some, none, ◌==◌, ◌&&◌, if◌then◌else◌,
}
use rust_ospfd.Routing.Table.{RoutingItem, RouteChange}
use rust_ospfd.Routing.Table
use rust_ospfd.Routing.Socket
use rust_ospfd.Routing.Socket.{RawItem, Endian, IoResult, ok, err, Kernel}

-- `EEXIST`, the number behind `ErrorKind::AlreadyExists`, and `ESRCH`.
abbrev pub eexist : ℕ
eexist = 17

abbrev pub esrch : ℕ
esrch = 3

abbrev pub is_at : ℕ → ℕ → RawItem → Bool
is_at d m r = r.dest == d && r.mask == m

-- The gateways that the kernel has for a network, and what the requests do where there is one at
-- most: a request to add a gateway that is there is refused, and the request to delete goes by the
-- network alone. Nothing is assumed where a network has several gateways, nor where a second one is
-- added to it. What can be added is left to the kernel.
pub record IsLawful (K : Kernel) : Type 0 where
  pub gateways : K.State → ℕ → ℕ → List ℕ
  pub usable : RawItem → Bool
  pub add_free :
      (r : RawItem) (s : K.State)
      → usable r ≡ true
      → gateways s r.dest r.mask ≡ []
      → ((K.add_route r s).1 ≡ none)
        × ((d m : ℕ)
            → gateways (K.add_route r s).0 d m
              ≡ (if is_at d m r then r.nexthop ∷ [] else gateways s d m))
  pub add_same :
      (r : RawItem) (s : K.State)
      → gateways s r.dest r.mask ≡ r.nexthop ∷ []
      → K.add_route r s ≡ (s, some eexist)
  pub delete_one :
      (r : RawItem) (s : K.State) (g : ℕ)
      → gateways s r.dest r.mask ≡ g ∷ []
      → ((K.delete_route r s).1 ≡ none)
        × ((d m : ℕ)
            → gateways (K.delete_route r s).0 d m ≡ (if is_at d m r then [] else gateways s d m))
  pub delete_missing :
      (r : RawItem) (s : K.State)
      → gateways s r.dest r.mask ≡ []
      → K.delete_route r s ≡ (s, some esrch)

module _ (K : Kernel) (e : Endian) where
  -- A route that is not there counts as deleted.
  abbrev pub forgive : IoResult (Unit {0}) → IoResult (Unit {0})
  forgive (ok u) = ok u
  forgive (err n) = if n == esrch then ok tt else err n

  unfoldable pub delete_route : RoutingItem → K.State → K.State × IoResult (Unit {0})
  unfolding Socket.delete_route
  delete_route r s =
      let (s', a) = Socket.delete_route K e r s in
      if r.nexthop == 0 then (s, ok tt) else (s', forgive a)

  -- The arm of `AlreadyExists`: delete, and add again.
  unfoldable pub replace_route : RoutingItem → K.State → K.State × IoResult (Unit {0})
  unfolding delete_route Socket.add_route
  replace_route r s =
      let (s', a) = delete_route r s in
      elim a [ ok u ↦ Socket.add_route K e r s' | err n ↦ (s', err n) ]

  abbrev pub after_add : RoutingItem → K.State → IoResult (Unit {0}) → K.State × IoResult (Unit {0})
  after_add r s (ok u) = (s, ok u)
  after_add r s (err n) = let again = replace_route r s in if n == eexist then again else (s, err n)

  unfoldable pub add_route : RoutingItem → K.State → K.State × IoResult (Unit {0})
  unfolding replace_route Socket.add_route
  add_route r s =
      let (s', a) = Socket.add_route K e r s in
      if r.nexthop == 0 then (s, ok tt) else after_add r s' a

  -- The requests of `recalculate`, one after the other.
  unfoldable pub apply : List RouteChange → K.State → K.State
  unfolding add_route delete_route
  apply [] s = s
  apply (Table.RouteChange.add_route r ∷ cs) s = apply cs (add_route r s).0
  apply (Table.RouteChange.delete_route r ∷ cs) s = apply cs (delete_route r s).0
