-- ===== src/Routing/Kernel/Networks.antt =====
-- The networks of the routes of a table, as the kernel numbers them.
use mathlib.Core.Option.{some-injective}
use rust_ospfd.Prelude.{ℕ, ◌^◌, ◌<◌, ◌≡◌, refl, ◌∙◌, sym, ap, true, arith}
use rust_ospfd.Routing.Mask.{mask_from}
use rust_ospfd.Routing.Table.{Table, network, RoutingItem}
use rust_ospfd.Routing.Table.Keyed.{IsKeyed, In-keyed}
use rust_ospfd.Routing.Table.Synced.{Holds, kernel_item-key}
use rust_ospfd.Routing.Socket.{Endian, to_raw, to_be, to_be-involutive, IsRanged}
use rust_ospfd.Routing.Kernel.{is_at}

-- A table has one route for a network.
pub Holds-unique :
    (t : Table) (q r : RoutingItem)
    → IsKeyed t
    → Holds t q
    → Holds t r
    → q.dest ≡ r.dest
    → q.mask ≡ r.mask
    → q ≡ r
Holds-unique t q r keyed (k, (i, a, p, _)) (l, (j, b, o, _)) d m =
    let (gi, ki) = In-keyed k i t keyed a in
    let (gj, lj) = In-keyed l j t keyed b in
    let n : network (mask_from q.dest q.mask) ≡ network (mask_from r.dest r.mask) =
      rw (d, m) refl in
    let same : k ≡ l =
      ki ∙ kernel_item-key i {r = q} p ∙ n ∙ sym (kernel_item-key j {r = r} o) ∙ sym lj in
    let ij : i ≡ j = some-injective _ _ (sym gi ∙ rw same gj) in
    some-injective _ _ (sym p ∙ rw ij o)

to_be_eq : (e : Endian) (x y : ℕ) → x < 2 ^ 32 → y < 2 ^ 32 → to_be e x ≡ to_be e y → x ≡ y
to_be_eq e x y hx hy q = sym (to_be-involutive e x hx) ∙ ap (to_be e) q ∙ to_be-involutive e y hy

-- Two routes of one network of the kernel are routes of one network.
pub same_destination :
    (e : Endian) (q r : RoutingItem)
    → IsRanged q
    → IsRanged r
    → is_at (to_raw e r).dest (to_raw e r).mask (to_raw e q) ≡ true
    → (q.dest ≡ r.dest) × (q.mask ≡ r.mask)
unfolding to_raw
same_destination e q r hq hr h =
    let both : (to_be e q.dest ≡ to_be e r.dest) × (to_be e q.mask ≡ to_be e r.mask) =
      ground arith in
    (to_be_eq e q.dest r.dest hq.0 hr.0 both.0, to_be_eq e q.mask r.mask hq.1 hr.1 both.1)

-- Two routes of one network of the kernel, as it numbers them.
pub one_network :
    (e : Endian) (q r : RoutingItem)
    → q.dest ≡ r.dest
    → q.mask ≡ r.mask
    → ((to_raw e q).dest ≡ (to_raw e r).dest) × ((to_raw e q).mask ≡ (to_raw e r).mask)
unfolding to_raw
one_network e q r d m = (rw d refl, rw m refl)
