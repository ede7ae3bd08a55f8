-- ===== src/Routing/Table/Synced.antt =====
-- After the requests of `recalculate` (ospfd/database/routing.rs) the kernel has the routes of the new
-- table, if it had those of the old.
use mathlib.Core.Option.{some-injective}
use rust_ospfd.Prelude.{
  true, List, [], ◌∷◌, ◌++◌, some, ◌≡◌, refl, sym, ap, ◌∙◌, ◌↔◌, ◌⊎◌, inl, inr, In, get, Bool-cases,
}
use rust_ospfd.Routing.{RoutingTableItem, RoutingTableItemType}
use rust_ospfd.Routing.Mask.{mask_from}
use rust_ospfd.Routing.Table.{
  Table, RoutingTableIndex, network, route_eq, route_beq, route_beq_iff, route_index, RoutingItem,
  RouteChange, add_route, delete_route, kernel_item, has_route, requests,
}
use rust_ospfd.Routing.Table.Keyed.{IsKeyed, In-keyed}
use rust_ospfd.Routing.Table.Requests.{
  HasItem, IsMissing, has_route-item, has_route-of, In-append_left, In-append_right,
  In-append_cases, requests-asked, requests-meant,
}

abbrev pub Holds : Table → RoutingItem → Type 0
Holds t r = (k : RoutingTableIndex) × HasItem t k r

pub get-In :
    (k : RoutingTableIndex) (t : Table) {i : RoutingTableItem} → get k t ≡ some i → In (k, i) t
get-In k [] e = absurd (cc)
get-In k ((j, x) ∷ t) {i} e = elim (Bool-cases (route_beq j k)) [
  | inl q ↦
      let same : j ≡ k = (route_beq_iff j k).0 q in
      let here : x ≡ i = some-injective _ _ (rw q at e) in inl (rw (same, here))
  | inr q ↦ inr (get-In k t {i = i} (rw q at e))
]

type-cases :
    (t : RoutingTableItemType)
    → (t ≡ RoutingTableItemType.network) ⊎ (t ≡ RoutingTableItemType.router)
type-cases RoutingTableItemType.network = inl refl
type-cases RoutingTableItemType.router = inr refl

-- The route decides the key.
pub kernel_item-key :
    (i : RoutingTableItem) {r : RoutingItem}
    → kernel_item i ≡ some r
    → route_index i ≡ network (mask_from r.dest r.mask)
unfolding kernel_item route_index
kernel_item-key i {r} p = elim (type-cases i.dest_type) [
  | inl q ↦
      let same = some-injective _ _ (rw (kernel_item, q) at p) in rw (route_index, q, ← same) refl
  | inr q ↦ absurd (cc (rw (kernel_item, q) at p))
]

-- A route that is in both tables is asked for by neither request.
pub not_missing :
    (t s : Table) (r : RoutingItem) → IsKeyed t → IsKeyed s → Holds t r → IsMissing t s r → ⊥
not_missing t s r keyed_t keyed_s (k, (i, m, p, hop)) (j, (x, n, q, hop2), h) =
    let (here, at_k) = In-keyed k i t keyed_t m in
    let (there, at_j) = In-keyed j x s keyed_s n in
    let same : k ≡ j =
      at_k ∙ kernel_item-key i {r = r} p ∙ sym (kernel_item-key x {r = r} q) ∙ sym at_j in
    let has : has_route j r t ≡ true = has_route-of j r t i (rw (← same) here) p in
    absurd (cc (has, h))

add_not_delete : (r s : RoutingItem) → add_route r ≡ delete_route s → ⊥
add_not_delete r s e = absurd (cc)

abbrev route_in : RouteChange → RoutingItem
route_in (add_route r) = r
route_in (delete_route r) = r

-- What a request of one kind in the list means.
added :
    (new old : Table) (r : RoutingItem)
    → In (add_route r) (requests delete_route new old ++ requests add_route old new)
    → IsMissing old new r
added new old r m =
    elim (In-append_cases (add_route r) (requests delete_route new old) (requests add_route old new)
      m) [
        | inl d ↦
            let (s, q, h) = requests-meant delete_route new old {c = add_route r} d in
            absurd (add_not_delete r s q)
        | inr a ↦
            let (s, q, h) = requests-meant add_route old new {c = add_route r} a in
            let same : r ≡ s = ap route_in q in rw same h
      ]

deleted :
    (new old : Table) (r : RoutingItem)
    → In (delete_route r) (requests delete_route new old ++ requests add_route old new)
    → IsMissing new old r
deleted new old r m =
    elim (In-append_cases (delete_route r) (requests delete_route new old)
      (requests add_route old new) m) [
        | inl d ↦
            let (s, q, h) = requests-meant delete_route new old {c = delete_route r} d in
            let same : r ≡ s = ap route_in q in rw same h
        | inr a ↦
            let (s, q, h) = requests-meant add_route old new {c = delete_route r} a in
            absurd (add_not_delete s r (sym q))
      ]

-- A route after the requests: added, or there before and not deleted.
abbrev pub IsLeft : Table → List RouteChange → RoutingItem → Type 0
IsLeft old changes r = In (add_route r) changes ⊎ (Holds old r × (In (delete_route r) changes → ⊥))

left-Holds :
    (new old : Table) (r : RoutingItem)
    → IsLeft old (requests delete_route new old ++ requests add_route old new) r
    → Holds new r
left-Holds new old r (inl m) = let (k, h, _) = added new old r m in (k, h)
left-Holds new old r (inr ((k, (i, m, p, hop)), kept)) = elim (Bool-cases (has_route k r new)) [
  | inl h ↦ let (j, g, q) = has_route-item k r new h in (k, (j, get-In k new {i = j} g, q, hop))
  | inr h ↦ absurd (
      kept (
        In-append_left (delete_route r) (requests delete_route new old) (requests add_route old new)
          (requests-asked delete_route new old {r = r} (k, (i, m, p, hop), h))))
]

Holds-IsLeft :
    (new old : Table) (r : RoutingItem)
    → IsKeyed new
    → IsKeyed old
    → Holds new r
    → IsLeft old (requests delete_route new old ++ requests add_route old new) r
Holds-IsLeft new old r keyed_new keyed_old (k, (i, m, p, hop)) =
    elim (Bool-cases (has_route k r old)) [
      | inl h ↦
          let (j, g, q) = has_route-item k r old h in
          inr (
            (k, (j, get-In k old {i = j} g, q, hop)),
            λ d.
                not_missing new old r keyed_new keyed_old (k, (i, m, p, hop)) (deleted new old r d),
          )
      | inr h ↦ inl (
          In-append_right (add_route r) (requests delete_route new old) (requests add_route old new)
            (requests-asked add_route old new {r = r} (k, (i, m, p, hop), h)))
    ]

pub requests-synced :
    (new old : Table) (r : RoutingItem)
    → IsKeyed new
    → IsKeyed old
    → IsLeft old (requests delete_route new old ++ requests add_route old new) r ↔ Holds new r
requests-synced new old r keyed_new keyed_old =
    (left-Holds new old r, Holds-IsLeft new old r keyed_new keyed_old)
