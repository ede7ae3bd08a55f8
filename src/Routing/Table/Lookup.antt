-- ===== src/Routing/Table/Lookup.antt =====
-- What `get_routing` of ospfd/database/routing.rs finds.
use mathlib.Core.Option.{some-injective}
use rust_ospfd.Prelude.{
  ℕ, zero, suc, Option, some, none, ◌≡◌, sym, ◌∙◌, ◌↔◌, ◌⊎◌, arith, ◌≤◌, ◌<◌, get, Option-cases,
  inl, inr,
}
use rust_ospfd.Packet.Lsa.{Ipv4Addr}
use rust_ospfd.Routing.{RoutingTableItem}
use rust_ospfd.Routing.Table.{Table, network, route_eq, find_route, get_route}

-- What the table has under an address and a length.
abbrev pub at : Ipv4Addr → ℕ → Table → Option RoutingTableItem
at ip len t = get (network (record { addr = ip; len = len })) t

-- The item under the greatest length, up to a bound.
abbrev pub IsLongest : ℕ → Ipv4Addr → Table → RoutingTableItem → Type 0
IsLongest bound ip t i =
    (len : ℕ) × (len ≤ bound)
    × (at ip len t ≡ some i)
    × ((m : ℕ) → len < m → m ≤ bound → at ip m t ≡ none)

last_or_before : (m n : ℕ) → m ≤ suc n → (m ≡ suc n) ⊎ (m ≤ n)
last_or_before m n le = grind arith

compare_lengths : (a b : ℕ) → (a < b) ⊎ ((b < a) ⊎ (a ≡ b))
compare_lengths a b = grind arith

find_route-finds :
    (n : ℕ) (ip : Ipv4Addr) (t : Table) {i : RoutingTableItem}
    → find_route n ip t ≡ some i
    → IsLongest n ip t i
unfolding find_route
find_route-finds zero ip t e = (0, omega arith, e, λ m lt le. absurd (omega arith))
find_route-finds (suc n) ip t {i} e = elim (Option-cases (at ip (suc n) t)) [
  | inl q ↦
      let (len, le, found, longer) = find_route-finds n ip t {i = i} (rw (q, find_route) at e) in
      (
        len,
        omega arith,
        found,
        λ m lt le2. elim (last_or_before m n le2) [
          | inl same ↦ rw same q
          | inr before ↦ longer m lt before
        ],
      )
  | inr (j, q) ↦ (suc n, omega arith, q ∙ rw (q, find_route) at e, λ m lt le. absurd (omega arith))
]

find_route-misses :
    (n : ℕ) (ip : Ipv4Addr) (t : Table) (m : ℕ)
    → find_route n ip t ≡ none
    → m ≤ n
    → at ip m t ≡ none
unfolding find_route
find_route-misses zero ip t m e le = let same : m ≡ 0 = omega arith in rw same e
find_route-misses (suc n) ip t m e le = elim (Option-cases (at ip (suc n) t)) [
  | inl q ↦ elim (last_or_before m n le) [
    | inl same ↦ rw same q
    | inr before ↦ find_route-misses n ip t m (rw (q, find_route) at e) before
  ]
  | inr (j, q) ↦ absurd (cc (rw (q, find_route) at e))
]

-- Two greatest lengths are the same.
IsLongest-unique :
    (n : ℕ) (ip : Ipv4Addr) (t : Table) (i j : RoutingTableItem)
    → IsLongest n ip t i
    → IsLongest n ip t j
    → i ≡ j
IsLongest-unique n ip t i j (a, le_a, at_a, over_a) (b, le_b, at_b, over_b) =
    elim (compare_lengths a b) [
      | inl less ↦ absurd (cc (at_b, over_a b less le_b))
      | inr (inl more) ↦ absurd (cc (at_a, over_b a more le_a))
      | inr (inr same) ↦ some-injective _ _ (sym at_a ∙ rw same at_b)
    ]

-- `get_routing` finds an item for an address exactly when the table has the item under the address,
-- as it is, with a length of at most 32, and has nothing under the address with a greater one.
pub get_route-IsLongest :
    (ip : Ipv4Addr) (t : Table) (i : RoutingTableItem)
    → (get_route ip t ≡ some i) ↔ IsLongest 32 ip t i
unfolding get_route
get_route-IsLongest ip t i = (
  λ e. find_route-finds 32 ip t {i = i} e,
  λ h. elim (Option-cases (find_route 32 ip t)) [
    | inl q ↦
        let (len, le, found, over) = h in absurd (cc (found, find_route-misses 32 ip t len q le))
    | inr (j, q) ↦
        let same = IsLongest-unique 32 ip t j i (find_route-finds 32 ip t {i = j} q) h in
        rw (← same) q
  ],
)
