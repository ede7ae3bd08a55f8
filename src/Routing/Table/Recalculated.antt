-- ===== src/Routing/Table/Recalculated.antt =====
-- `RoutingTable::recalculate` of ospfd/database/routing.rs: its table, and what it asks of the kernel.
use mathlib.Core.Option.{some-injective}
use rust_ospfd.Prelude.{
  ℕ, Bool, List, [], ◌∷◌, ◌++◌, some, ◌≡◌, refl, ap, ◌↔◌, inl, inr, map, values, Bool-cases,
  Option-cases, ltb, ◌&&◌, not, ◌==◌,
}
use rust_ospfd.Packet.Lsa.{Ipv4Addr, LsaHeader, AsExternalLsa, ls_infinity}
use rust_ospfd.Area.Lsdb.{Area, LsaDb, Entry, external_lsas}
use rust_ospfd.Area.Tree.{calculate}
use rust_ospfd.Area.Nodes.{ShortPathTree}
use rust_ospfd.Area.Routes.{get_routing, get_routing_external}
use rust_ospfd.Routing.{RoutingTableItem}
use rust_ospfd.Routing.Table.{
  Table, RoutingItem, RouteChange, add_route, delete_route, merge, merge_all, area_routes,
  summary_routes, forwarding, external_item, external_routes, requests, recalculate,
}
use rust_ospfd.Routing.Table.Keyed.{IsKeyed, merge-IsKeyed}
use rust_ospfd.Routing.Table.Synced.{Holds, IsLeft, requests-synced}

merge_all-IsKeyed : (is : List RoutingTableItem) (t : Table) → IsKeyed t → IsKeyed (merge_all is t)
unfolding merge_all
merge_all-IsKeyed [] t h = h
merge_all-IsKeyed (i ∷ is) t h = merge_all-IsKeyed is (merge i t) (merge-IsKeyed i t h)

-- The area with its tree anew.
abbrev with_tree : Area → ShortPathTree × Bool → Area
with_tree a r = record a { short_path_tree = r.0; transit_capability = r.1 }

area_routes-IsKeyed :
    (now router_id : ℕ) (areas : List (Ipv4Addr × Area)) (t : Table)
    {r : List (Ipv4Addr × Area) × Table}
    → IsKeyed t
    → area_routes now router_id areas t ≡ some r
    → IsKeyed r.1
unfolding area_routes
area_routes-IsKeyed now router_id [] t h e = rw (← some-injective _ _ e) h
area_routes-IsKeyed now router_id ((id, a) ∷ as') t {r} h e =
    elim (Option-cases (calculate now router_id a)) [
      | inl q ↦ absurd (cc (rw (q, area_routes) at e))
      | inr (tr, q) ↦ elim (Option-cases (get_routing (with_tree a tr))) [
        | inl p ↦ absurd (cc (rw (q, area_routes, p) at e))
        | inr (items, p) ↦ elim (Option-cases (area_routes now router_id as' (merge_all items t))) [
          | inl o ↦ absurd (cc (rw (q, area_routes, p, o) at e))
          | inr (rest, o) ↦ rw (← some-injective _ _ (rw (q, area_routes, p, o) at e)) (
              area_routes-IsKeyed now router_id as' (merge_all items t) {r = rest}
                (merge_all-IsKeyed items t h) o)
        ]
      ]
    ]

summary_routes-IsKeyed :
    (now router_id : ℕ) (db : LsaDb) (areas : List (Ipv4Addr × Area)) (t : Table) {r : Table}
    → IsKeyed t
    → summary_routes now router_id db areas t ≡ some r
    → IsKeyed r
unfolding summary_routes
summary_routes-IsKeyed now router_id db [] t h e = rw (← some-injective _ _ e) h
summary_routes-IsKeyed now router_id db ((id, a) ∷ as') t {r} h e =
    elim (Option-cases (get_routing_external now router_id a db)) [
      | inl q ↦ absurd (cc (rw (q, summary_routes) at e))
      | inr (items, q) ↦
          summary_routes-IsKeyed now router_id db as' (merge_all items t) {r = r}
            (merge_all-IsKeyed items t h) (rw (q, summary_routes) at e)
    ]

external_routes-IsKeyed :
    (router_id : ℕ) (ls : List (LsaHeader × AsExternalLsa)) (t : Table) {r : Table}
    → IsKeyed t
    → external_routes router_id ls t ≡ some r
    → IsKeyed r
unfolding external_routes
external_routes-IsKeyed router_id [] t h e = rw (← some-injective _ _ e) h
external_routes-IsKeyed router_id ((x, l) ∷ ls) t {r} h e =
    let skipped = external_routes-IsKeyed router_id ls t {r = r} h in
    elim (Bool-cases (ltb l.metric ls_infinity && not (x.advertising_router == router_id))) [
      | inr q ↦ skipped (rw (q, external_routes) at e)
      | inl q ↦ elim (Option-cases (forwarding x l t)) [
        | inl f ↦ skipped (rw (q, external_routes, f) at e)
        | inr (via, f) ↦ elim (Option-cases (external_item x l via)) [
          | inl o ↦ absurd (cc (rw (q, external_routes, f, o) at e))
          | inr (i, o) ↦
              external_routes-IsKeyed router_id ls (merge i t) {r = r} (merge-IsKeyed i t h)
                (rw (q, external_routes, f, o) at e)
        ]
      ]
    ]

abbrev pub IsSynced : Table → Table → List RouteChange → Type 0
IsSynced old new changes = (r : RoutingItem) → IsLeft old changes r ↔ Holds new r

-- What `recalculate` asks for, and that the new table is keyed.
pub recalculate-asked :
    (now router_id : ℕ) (areas areas' : List (Ipv4Addr × Area)) (db : LsaDb) (old new : Table)
    (changes : List RouteChange)
    → IsKeyed old
    → recalculate now router_id areas db old ≡ some (areas', new, changes)
    → IsKeyed new × (changes ≡ requests delete_route new old ++ requests add_route old new)
unfolding recalculate
recalculate-asked now router_id areas areas' db old new changes keyed e =
    elim (Option-cases (area_routes now router_id areas [])) [
      | inl q ↦ absurd (cc (rw (q, recalculate) at e))
      | inr ((as', t1), q) ↦
          let h1 = area_routes-IsKeyed now router_id areas [] {r = (as', t1)} tt q in
          elim (Option-cases (summary_routes now router_id db as' t1)) [
            | inl p ↦ absurd (cc (rw (q, recalculate, p) at e))
            | inr (t2, p) ↦
                let h2 = summary_routes-IsKeyed now router_id db as' t1 {r = t2} h1 p in
                let lsas = external_lsas (map (λ (x : Entry). x.lsa) (values db)) in
                elim (Option-cases (external_routes router_id lsas t2)) [
                  | inl o ↦ absurd (cc (rw (q, recalculate, p, o) at e))
                  | inr (t3, o) ↦
                      let h3 = external_routes-IsKeyed router_id lsas t2 {r = t3} h2 o in
                      let same : IsKeyed t3
                          × ((requests delete_route t3 old ++ requests add_route old t3)
                              ≡ (requests delete_route t3 old ++ requests add_route old t3)) =
                        (h3, refl) in
                      let whole : ◌≡◌ {A = List (Ipv4Addr × Area) × Table × List RouteChange}
                          (as', t3, requests delete_route t3 old ++ requests add_route old t3)
                          (areas', new, changes) =
                        some-injective _ _ (rw (q, recalculate, p, o) at e) in
                      let table =
                        ap (λ (x : List (Ipv4Addr × Area) × Table × List RouteChange). x.1) whole in
                      let asked =
                        ap (λ (x : List (Ipv4Addr × Area) × Table × List RouteChange). x.2) whole in
                      rw (← table, ← asked) same
                ]
          ]
    ]

-- If every item of the old table is under its own key and no key occurs twice, and `recalculate`
-- does not panic, the same holds of the new table; and a route of the kernel, with a next hop, is
-- one of the new table exactly when a request adds it, or it is one of the old table and no request
-- deletes it.
pub recalculate-IsSynced :
    (now router_id : ℕ) (areas areas' : List (Ipv4Addr × Area)) (db : LsaDb) (old new : Table)
    (changes : List RouteChange)
    → IsKeyed old
    → recalculate now router_id areas db old ≡ some (areas', new, changes)
    → IsKeyed new × IsSynced old new changes
recalculate-IsSynced now router_id areas areas' db old new changes keyed e =
    let (h, q) = recalculate-asked now router_id areas areas' db old new changes keyed e in
    (h, λ r. rw q (requests-synced new old r h keyed))
