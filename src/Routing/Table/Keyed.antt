-- ===== src/Routing/Table/Keyed.antt =====
-- The tables of ospfd/database/routing.rs as maps: every item under its own key.
use rust_ospfd.Prelude.{
  true, false, [], ◌∷◌, some, none, ◌≡◌, refl, sym, ap, ◌∙◌, inl, inr, In, get, insert,
  get-insert_ne, Bool-cases, Option-cases,
}
use rust_ospfd.Routing.{RoutingTableItem, better_than}
use rust_ospfd.Routing.Table.{
  Table, RoutingTableIndex, route_eq, route_beq, route_beq_iff, route_index, merge,
}

-- Every item stands under its own key, and every key once.
abbrev pub IsKeyed : Table → Type 0
IsKeyed [] = Unit
IsKeyed ((k, i) ∷ t) = (k ≡ route_index i) × (get k t ≡ none) × IsKeyed t

In-found :
    (k : RoutingTableIndex) (i : RoutingTableItem) (t : Table)
    → In (k, i) t
    → (j : RoutingTableItem) × (get k t ≡ some j)
In-found k i [] m = elim m [ ]
In-found k i ((j, x) ∷ t) (inl q) =
    let same : k ≡ j = ap (λ (p : RoutingTableIndex × RoutingTableItem). p.0) q in
    (x, rw (same, (route_beq_iff j j).1 refl))
In-found k i ((j, x) ∷ t) (inr m) = elim (Bool-cases (route_beq j k)) [
  | inl q ↦ (x, rw q)
  | inr q ↦ let (y, g) = In-found k i t m in (y, rw q g)
]

pub In-keyed :
    (k : RoutingTableIndex) (i : RoutingTableItem) (t : Table)
    → IsKeyed t
    → In (k, i) t
    → (get k t ≡ some i) × (k ≡ route_index i)
In-keyed k i [] h m = elim m [ ]
In-keyed k i ((j, x) ∷ t) h (inl q) =
    let same : k ≡ j = ap (λ (p : RoutingTableIndex × RoutingTableItem). p.0) q in
    let item : i ≡ x = ap (λ (p : RoutingTableIndex × RoutingTableItem). p.1) q in
    (rw (same, item, (route_beq_iff j j).1 refl), rw (same, item) h.0)
In-keyed k i ((j, x) ∷ t) h (inr m) = elim (Bool-cases (route_beq j k)) [
  | inl q ↦
      let same : j ≡ k = (route_beq_iff j k).0 q in
      let none_k : get k t ≡ none = rw (← same) h.1 in
      let (y, g) = In-found k i t m in absurd (cc (none_k, g))
  | inr q ↦ let (g, own) = In-keyed k i t h.2 m in (rw q g, own)
]

route_beq-flip : (a b : RoutingTableIndex) → route_beq a b ≡ false → route_beq b a ≡ false
route_beq-flip a b h = elim (Bool-cases (route_beq b a)) [
  | inl q ↦
      let same : b ≡ a = (route_beq_iff b a).0 q in
      let yes : route_beq a b ≡ true = (route_beq_iff a b).1 (sym same) in absurd (cc (yes, h))
  | inr q ↦ q
]

insert-IsKeyed :
    (i : RoutingTableItem) (t : Table) → IsKeyed t → IsKeyed (insert (route_index i) i t)
insert-IsKeyed i [] h = (refl, refl, tt)
insert-IsKeyed i ((j, x) ∷ t) h = elim (Bool-cases (route_beq j (route_index i))) [
  | inl q ↦
      let same : j ≡ route_index i = (route_beq_iff j (route_index i)).0 q in
      let alone : get (route_index i) t ≡ none = rw (← same) h.1 in rw q (refl, alone, h.2)
  | inr q ↦
      let other = get-insert_ne (route_index i) j i t (route_beq-flip j (route_index i) q) in
      rw q (h.0, other ∙ h.1, insert-IsKeyed i t h.2)
]

pub merge-IsKeyed : (i : RoutingTableItem) (t : Table) → IsKeyed t → IsKeyed (merge i t)
unfolding merge
merge-IsKeyed i t h = elim (Option-cases (get (route_index i) t)) [
  | inl q ↦ rw (merge, q) (insert-IsKeyed i t h)
  | inr (old, q) ↦ elim (Bool-cases (better_than i old)) [
    | inl b ↦ rw (merge, q, b) (insert-IsKeyed i t h)
    | inr b ↦ rw (merge, q, b) h
  ]
]
