-- ===== src/Routing/Table/Requests.antt =====
-- What `recalculate` of ospfd/database/routing.rs asks of the kernel.
use rust_ospfd.Prelude.{
  true, false, List, [], ◌∷◌, ◌++◌, some, ◌≡◌, refl, ap, ◌↔◌, ◌⊎◌, inl, inr, arith, ◌==◌, In, get,
  Bool-cases, Option-cases,
}
use rust_ospfd.Routing.{RoutingTableItem}
use rust_ospfd.Routing.Table.{
  Table, RoutingTableIndex, route_eq, RoutingItem, item_beq, RouteChange, kernel_item, has_route,
  request, requests,
}

item_beq_iff : (a b : RoutingItem) → (item_beq a b ≡ true) ↔ (a ≡ b)
item_beq_iff a b = ground arith

-- A route of the kernel that an item of the table stands for; one without a next hop is none.
abbrev pub HasItem : Table → RoutingTableIndex → RoutingItem → Type 0
HasItem t k r =
    (i : RoutingTableItem) × In (k, i) t × (kernel_item i ≡ some r) × ((r.nexthop == 0) ≡ false)

pub has_route-item :
    (k : RoutingTableIndex) (r : RoutingItem) (t : Table)
    → has_route k r t ≡ true
    → (i : RoutingTableItem) × (get k t ≡ some i) × (kernel_item i ≡ some r)
unfolding has_route
has_route-item k r t e = elim (Option-cases (get k t)) [
  | inl q ↦ absurd (cc (rw (q, has_route) at e))
  | inr (i, q) ↦ elim (Option-cases (kernel_item i)) [
    | inl p ↦ absurd (cc (rw (q, has_route, p) at e))
    | inr (s, p) ↦
        let same : r ≡ s = (item_beq_iff r s).0 (rw (q, has_route, p) at e) in (i, q, rw same p)
  ]
]

pub has_route-of :
    (k : RoutingTableIndex) (r : RoutingItem) (t : Table) (i : RoutingTableItem)
    → get k t ≡ some i
    → kernel_item i ≡ some r
    → has_route k r t ≡ true
unfolding has_route
has_route-of k r t i q p = rw (q, has_route, p) ((item_beq_iff r r).1 refl)

pub In-append_left : {A : Type 0} (a : A) (xs ys : List A) → In a xs → In a (xs ++ ys)
In-append_left a [] ys h = elim h [ ]
In-append_left a (x ∷ xs) ys (inl q) = inl q
In-append_left a (x ∷ xs) ys (inr m) = inr (In-append_left a xs ys m)

pub In-append_right : {A : Type 0} (a : A) (xs ys : List A) → In a ys → In a (xs ++ ys)
In-append_right a [] ys h = h
In-append_right a (x ∷ xs) ys h = inr (In-append_right a xs ys h)

pub In-append_cases : {A : Type 0} (a : A) (xs ys : List A) → In a (xs ++ ys) → In a xs ⊎ In a ys
In-append_cases a [] ys h = inr h
In-append_cases a (x ∷ xs) ys (inl q) = inl (inl q)
In-append_cases a (x ∷ xs) ys (inr m) = elim (In-append_cases a xs ys m) [
  | inl l ↦ inl (inr l)
  | inr r ↦ inr r
]

-- A request is for a route that one table has and the other has not.
abbrev pub IsMissing : Table → Table → RoutingItem → Type 0
IsMissing other t r = (k : RoutingTableIndex) × HasItem t k r × (has_route k r other ≡ false)

module _ (change : RoutingItem → RouteChange) (other : Table) where
  later :
      {k : RoutingTableIndex} {i : RoutingTableItem} (t : Table) {r : RoutingItem}
      → IsMissing other t r
      → IsMissing other ((k, i) ∷ t) r
  later t (j, (x, m, p, hop), h) = (j, (x, inr m, p, hop), h)

  pub requests-asked :
      (t : Table) {r : RoutingItem} → IsMissing other t r → In (change r) (requests change other t)
  unfolding requests
  requests-asked [] (k, (x, m, p, hop), h) = elim m [ ]
  requests-asked ((j, i) ∷ t) {r} (k, (x, inl same, p, hop), h) =
      let kj : k ≡ j = ap (λ (q : RoutingTableIndex × RoutingTableItem). q.0) same in
      let xi : x ≡ i = ap (λ (q : RoutingTableIndex × RoutingTableItem). q.1) same in
      let p' : kernel_item i ≡ some r = rw (← xi) p in
      let h' : has_route j r other ≡ false = rw (← kj) h in rw (p', requests, h', hop) (inl refl)
  requests-asked ((j, i) ∷ t) {r} (k, (x, inr m, p, hop), h) =
      let rest = requests-asked t {r = r} (k, (x, m, p, hop), h) in
      elim (Option-cases (kernel_item i)) [
        | inl q ↦ rw (q, requests) rest
        | inr (s, q) ↦ elim (Bool-cases (has_route j s other)) [
          | inl g ↦ rw (q, requests, g) rest
          | inr g ↦
              rw (q, requests, g)
                (In-append_right (change r) (request change s) (requests change other t) rest)
        ]
      ]

  requested :
      (s : RoutingItem) {c : RouteChange}
      → In c (request change s)
      → ((s.nexthop == 0) ≡ false) × (c ≡ change s)
  requested s h = elim (Bool-cases (s.nexthop == 0)) [
    | inl z ↦ elim (rw z at h) [ ]
    | inr z ↦ (z, elim (rw z at h) [ inl q ↦ q | inr m ↦ elim m [ ] ])
  ]

  pub requests-meant :
      (t : Table) {c : RouteChange}
      → In c (requests change other t)
      → (r : RoutingItem) × (c ≡ change r) × IsMissing other t r
  unfolding requests
  requests-meant [] m = elim m [ ]
  requests-meant ((j, i) ∷ t) {c} m =
      let rest = λ (m' : In c (requests change other t)).
        let (r, q, p) = requests-meant t {c = c} m' in
        let found : (r : RoutingItem) × (c ≡ change r) × IsMissing other ((j, i) ∷ t) r =
          (r, q, later {k = j} {i = i} t {r = r} p) in
        found in
      elim (Option-cases (kernel_item i)) [
        | inl q ↦ rest (rw (q, requests) at m)
        | inr (s, q) ↦ elim (Bool-cases (has_route j s other)) [
          | inl g ↦ rest (rw (q, requests, g) at m)
          | inr g ↦
              elim (In-append_cases c (request change s) (requests change other t)
                (rw (q, requests, g) at m)) [
                  | inl now ↦
                      let (hop, same) = requested s {c = c} now in
                      let missing : IsMissing other ((j, i) ∷ t) s =
                        (j, (i, inl refl, q, hop), g) in
                      (s, same, missing)
                  | inr m' ↦ rest m'
                ]
        ]
      ]
