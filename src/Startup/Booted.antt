-- ===== src/Startup/Booted.antt =====
-- The state of the program after `main` of ospfd/main.rs has started it.
use mathlib.Core.Option.{some-injective}
use mathlib.Core.Path.{subst}
use rust_ospfd.Prelude.{
  ℕ, ◌≤◌, ◌≡◌, refl, sym, ◌∙◌, Bool, true, false, List, [], ◌∷◌, Option, some, none, ◌==◌, ==_iff,
  ltb, any, All, All-map_imp, tests, In, min, get, nat_eq, arith, Bool-cases, Option-cases, inl,
  inr, ◌⊎◌, ◌||◌,
}
use rust_ospfd.Packet.Lsa.{Ipv4Addr}
use rust_ospfd.Area.Lsdb
use rust_ospfd.Database.{insert_area}
use rust_ospfd.Interface.State.{new_interface}
use rust_ospfd.Command.Text.{byte_len}
use rust_ospfd.Command.Effects.{Named}
use rust_ospfd.Startup.{
  NetworkInterface, is_localhost, ifr_name_size, first_v4, interface_from, start, start_all, least,
  init_router_id, Boot, boot,
}

-- An interface as it is made for a device that has an address of IPv4 and not the local one.
abbrev pub IsOf : NetworkInterface → Named → Type 0
IsOf n i =
    (any is_localhost n.ips ≡ false)
    × (first_v4 n.ips ≡ some (i.iface.ip_addr, i.iface.ip_mask))
    × (i.interface_name ≡ n.name)
    × (i.iface ≡ new_interface 0 i.iface.ip_addr i.iface.ip_mask)

abbrev pub IsOfSome : List NetworkInterface → Named → Type 0
IsOfSome ns i = (n : NetworkInterface) × In n ns × IsOf n i

module _ (opens : NetworkInterface → Bool) where
  interface_from-IsOf :
      (n : NetworkInterface) (i : Named)
      → any is_localhost n.ips ≡ false
      → interface_from opens n 0 ≡ some i
      → IsOf n i
  unfolding interface_from new_interface
  interface_from-IsOf n i l e = elim (Option-cases (first_v4 n.ips)) [
    | inl q ↦ absurd (cc (rw (interface_from, q) at e))
    | inr ((ip, mask), q) ↦ elim (Bool-cases (opens n)) [
      | inr o ↦ absurd (cc (rw (interface_from, q, o) at e))
      | inl o ↦ elim (Bool-cases (ltb (byte_len n.name) ifr_name_size)) [
        | inr b ↦ absurd (cc (rw (interface_from, q, o, b) at e))
        | inl b ↦ rw (← some-injective _ _ (rw (interface_from, q, o, b) at e)) (l, q, refl, refl)
      ]
    ]
  ]

  abbrev IsMade : NetworkInterface → Option Named → Type 0
  IsMade n none = Unit
  IsMade n (some i) = IsOf n i

  start-IsMade : (n : NetworkInterface) (r : Option Named) → start opens n ≡ some r → IsMade n r
  unfolding start
  start-IsMade n r e = elim (Bool-cases (any is_localhost n.ips)) [
    | inl l ↦ rw (← some-injective _ _ (rw l at e)) tt
    | inr l ↦ elim (Option-cases (first_v4 n.ips)) [
      | inl q ↦ rw (← some-injective _ _ (rw (l, q) at e)) tt
      | inr (x, q) ↦ elim (Option-cases (interface_from opens n 0)) [
        | inl p ↦ absurd (cc (rw (l, q, p) at e))
        | inr (i, p) ↦ rw (← some-injective _ _ (rw (l, q, p) at e)) (interface_from-IsOf n i l p)
      ]
    ]
  ]

  more :
      (n : NetworkInterface) (ns : List NetworkInterface) (is : List Named)
      → All (IsOfSome ns) is
      → All (IsOfSome (n ∷ ns)) is
  more n ns is h = All-map_imp is (λ i (m, x, y). (m, inr x, y)) h

  joined :
      (n : NetworkInterface) (ns : List NetworkInterface) (r : Option Named) (is : List Named)
      → IsMade n r
      → All (IsOfSome (n ∷ ns)) is
      → All (IsOfSome (n ∷ ns)) (elim r [ none ↦ is | some x ↦ x ∷ is ])
  joined n ns none is h rest = rest
  joined n ns (some i) is h rest = ((n, inl refl, h), rest)

  start_all-IsOfSome :
      (ns : List NetworkInterface) (is : List Named)
      → start_all opens ns ≡ some is
      → All (IsOfSome ns) is
  unfolding start_all
  start_all-IsOfSome [] is e = rw (← some-injective _ _ e) tt
  start_all-IsOfSome (n ∷ ns) is e = elim (Option-cases (start opens n)) [
    | inl q ↦ absurd (cc (rw q at e))
    | inr (r, q) ↦ elim (Option-cases (start_all opens ns)) [
      | inl p ↦ absurd (cc (rw (q, p) at e))
      | inr (js, p) ↦
          let rest = more n ns js (start_all-IsOfSome ns js p) in
          rw (← some-injective _ _ (rw (q, p) at e)) (joined n ns r js (start-IsMade n r q) rest)
    ]
  ]

abbrev pub IsLeast : Ipv4Addr → List Named → Type 0
IsLeast a is = All (λ (i : Named). a ≤ i.iface.ip_addr) is

least_le : (a : Ipv4Addr) (is : List Named) → least a is ≤ a
unfolding least
least_le a [] = omega arith
least_le a (i ∷ is) = omega (arith, least_le (min a i.iface.ip_addr) is)

least-IsLeast : (a : Ipv4Addr) (is : List Named) → IsLeast (least a is) is
unfolding least
least-IsLeast a [] = tt
least-IsLeast a (i ∷ is) =
    (omega (arith, least_le (min a i.iface.ip_addr) is), least-IsLeast (min a i.iface.ip_addr) is)

min_cases : (a b : ℕ) → (min a b ≡ a) ⊎ (min a b ≡ b)
min_cases a b = elim (Bool-cases (ltb a b)) [
  | inl q ↦ inl (omega tests)
  | inr q ↦ inr (ground arith)
]

here : (a b : ℕ) → a ≡ b → (c : Bool) → ((a == b) || c) ≡ true
here a b e c = let t : (a == b) ≡ true = (==_iff a b).1 e in rw t refl

least_cases :
    (a : Ipv4Addr) (is : List Named)
    → (least a is ≡ a) ⊎ (any (λ (i : Named). i.iface.ip_addr == least a is) is ≡ true)
unfolding least
least_cases a [] = inl refl
least_cases a (i ∷ is) = elim (least_cases (min a i.iface.ip_addr) is) [
  | inr h ↦ inr (rw h (ground arith))
  | inl h ↦ elim (min_cases a i.iface.ip_addr) [
    | inl m ↦ inl (h ∙ m)
    | inr m ↦ inr (here i.iface.ip_addr (least (min a i.iface.ip_addr) is) (sym (h ∙ m)) _)
  ]
]

least-first :
    (i : Named) (is : List Named)
    → IsLeast (least i.iface.ip_addr is) (i ∷ is)
      × (any (λ (j : Named). j.iface.ip_addr == least i.iface.ip_addr is) (i ∷ is) ≡ true)
least-first i is = (
  (least_le i.iface.ip_addr is, least-IsLeast i.iface.ip_addr is),
  elim (least_cases i.iface.ip_addr is) [
    | inl q ↦ here i.iface.ip_addr (least i.iface.ip_addr is) (sym q) _
    | inr h ↦ rw h (ground arith)
  ],
)

abbrev pub IsBooted : List NetworkInterface → Boot → Type 0
IsBooted ns b =
    All (IsOfSome ns) b.interfaces
    × IsLeast b.router_id b.interfaces
    × (any (λ (i : Named). i.iface.ip_addr == b.router_id) b.interfaces ≡ true)
    × (get 0 b.db.areas ≡ some (Lsdb.new 0))

-- When the program starts without a panic, every interface is as it is made for one of the host's
-- devices that has an address of IPv4 and not the local one, with the device's name and its first
-- such address and mask, in the backbone area; the router identifier is the address of one of them
-- and the least of all; and the backbone area is in the database, empty.
pub boot-IsBooted :
    (opens : NetworkInterface → Bool) (ns : List NetworkInterface) (b : Boot)
    → boot opens ns ≡ some b
    → IsBooted ns b
unfolding boot init_router_id insert_area
boot-IsBooted opens ns b e = elim (Option-cases (start_all opens ns)) [
  | inl q ↦ absurd (cc (rw q at e))
  | inr ([], q) ↦ absurd (cc (rw q at e))
  | inr (i ∷ is, q) ↦
      let id = least-first i is in
      subst (IsBooted ns) (some-injective _ _ (rw q at e))
        (start_all-IsOfSome opens ns (i ∷ is) q, id.0, id.1, refl)
]
