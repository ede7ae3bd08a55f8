-- ===== src/Routing/Kernel/Wrapped.antt =====
-- What the wrapped calls of ospfd/database/routing.rs do to a lawful kernel's table.
use rust_ospfd.Prelude.{
  ℕ, ◌≡◌, refl, ◌∙◌, ap, true, false, List, [], ◌∷◌, Option, ◌==◌, arith, if◌then◌else◌, Bool-cases,
  inl, inr, ◌⊎◌,
}
use rust_ospfd.Routing.Table.{RoutingItem}
use rust_ospfd.Routing.Socket
use rust_ospfd.Routing.Socket.{RawItem, Endian, IoResult, ok, err, answer, Kernel, to_raw}
use rust_ospfd.Routing.Kernel as Calls
use rust_ospfd.Routing.Kernel.{IsLawful, is_at, apply}

is_at_eq : (d m : ℕ) (r : RawItem) → is_at d m r ≡ true → (r.dest ≡ d) × (r.mask ≡ m)
is_at_eq d m r h = ground arith

module _ (K : Kernel) (e : Endian) (law : IsLawful K) where
  -- The gateway of a network in two states, where that of one network has become `v`.
  abbrev pub Becomes : RawItem → List ℕ → K.State → K.State → Type 0
  Becomes r v s s' =
      (d m : ℕ) → law.gateways s' d m ≡ (if is_at d m r then v else law.gateways s d m)

  stays :
      (r : RawItem) (v : List ℕ) (s : K.State) → law.gateways s r.dest r.mask ≡ v → Becomes r v s s
  stays r v s h d m = elim (Bool-cases (is_at d m r)) [
    | inl q ↦ let (a, b) = is_at_eq d m r q in rw (q, ← a, ← b) h
    | inr q ↦ rw q refl
  ]

  delete_known :
      (r : RoutingItem) (s : K.State) (g : ℕ)
      → (r.nexthop == 0) ≡ false
      → law.gateways s (to_raw e r).dest (to_raw e r).mask ≡ g ∷ []
      → ((Calls.delete_route K e r s).1 ≡ ok tt)
        × Becomes (to_raw e r) [] s (Calls.delete_route K e r s).0
  unfolding Calls.delete_route Socket.delete_route
  delete_known r s g n q = let (a, b) = law.delete_one (to_raw e r) s g q in rw (n, a) (refl, b)

  -- The wrapped calls keep a network to one gateway: none is there or one, which is the route's own
  -- where a route is added.
  abbrev pub OneAtMost : List ℕ → Type 0
  OneAtMost v = (v ≡ []) ⊎ ((g : ℕ) × (v ≡ g ∷ []))

  abbrev pub OnlyOwn : ℕ → List ℕ → Type 0
  OnlyOwn hop v = (v ≡ []) ⊎ (v ≡ hop ∷ [])

  pub delete_route-Becomes :
      (r : RoutingItem) (s : K.State)
      → (r.nexthop == 0) ≡ false
      → OneAtMost (law.gateways s (to_raw e r).dest (to_raw e r).mask)
      → ((Calls.delete_route K e r s).1 ≡ ok tt)
        × Becomes (to_raw e r) [] s (Calls.delete_route K e r s).0
  unfolding Calls.delete_route Socket.delete_route
  delete_route-Becomes r s n (inl q) =
      rw (n, law.delete_missing (to_raw e r) s q) (refl, stays (to_raw e r) [] s q)
  delete_route-Becomes r s n (inr (g, q)) = delete_known r s g n q

  socket-Becomes :
      (r : RoutingItem) (s : K.State)
      → law.usable (to_raw e r) ≡ true
      → law.gateways s (to_raw e r).dest (to_raw e r).mask ≡ []
      → ((Socket.add_route K e r s).1 ≡ ok tt)
        × Becomes (to_raw e r) ((to_raw e r).nexthop ∷ []) s (Socket.add_route K e r s).0
  unfolding Socket.add_route
  socket-Becomes r s u q = let (a, b) = law.add_free (to_raw e r) s u q in rw a (refl, b)

  both :
      (r : RawItem) (v w : List ℕ) (s s1 s2 : K.State)
      → Becomes r v s s1
      → Becomes r w s1 s2
      → Becomes r w s s2
  both r v w s s1 s2 h g d m = elim (Bool-cases (is_at d m r)) [
    | inl q ↦ g d m ∙ rw q refl
    | inr q ↦ g d m ∙ rw q (h d m ∙ rw q refl)
  ]

  emptied :
      (r : RawItem) (v : List ℕ) (s s' : K.State)
      → Becomes r v s s'
      → law.gateways s' r.dest r.mask ≡ v
  emptied r v s s' h =
      let t : is_at r.dest r.mask r ≡ true = ground arith in h r.dest r.mask ∙ rw t refl

  replace_route-Becomes :
      (r : RoutingItem) (s : K.State) (g : ℕ)
      → (r.nexthop == 0) ≡ false
      → law.usable (to_raw e r) ≡ true
      → law.gateways s (to_raw e r).dest (to_raw e r).mask ≡ g ∷ []
      → ((Calls.replace_route K e r s).1 ≡ ok tt)
        × Becomes (to_raw e r) ((to_raw e r).nexthop ∷ []) s (Calls.replace_route K e r s).0
  unfolding Calls.replace_route
  replace_route-Becomes r s g n u q =
      let (a, b) = delete_known r s g n q in
      let (c, d) = socket-Becomes r _ u (emptied (to_raw e r) [] s _ b) in
      rw (Calls.replace_route, a) (c, both (to_raw e r) [] _ s _ _ b d)

  -- `add_route` leaves the network with the route's gateway alone.
  pub add_route-Becomes :
      (r : RoutingItem) (s : K.State)
      → (r.nexthop == 0) ≡ false
      → law.usable (to_raw e r) ≡ true
      → OnlyOwn (to_raw e r).nexthop (law.gateways s (to_raw e r).dest (to_raw e r).mask)
      → ((Calls.add_route K e r s).1 ≡ ok tt)
        × Becomes (to_raw e r) ((to_raw e r).nexthop ∷ []) s (Calls.add_route K e r s).0
  unfolding Calls.add_route Socket.add_route
  add_route-Becomes r s n u (inl q) = let (a, b) = socket-Becomes r s u q in rw (n, a) (refl, b)
  add_route-Becomes r s n u (inr q) =
      let t : Socket.add_route K e r s ≡ (s, err Calls.eexist) =
        ap (λ (x : K.State × Option ℕ). (x.0, answer x.1)) (law.add_same (to_raw e r) s q) in
      let w : Calls.add_route K e r s ≡ Calls.replace_route K e r s =
        rw n (ap (λ (x : K.State × IoResult Unit). Calls.after_add K e r x.0 x.1) t) in
      rw w (replace_route-Becomes r s (to_raw e r).nexthop n u q)
