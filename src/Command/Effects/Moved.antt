-- ===== src/Command/Effects/Moved.antt =====
-- The command `interface <name> area_id <area>` of ospfd/command.rs.
use rust_ospfd.Prelude.{
  ◌≡◌, refl, ap, true, false, List, [], ◌∷◌, some, none, ◌==◌, ==_iff, get, insert, get-insert_self,
  get-insert_ne, nat_eq, Bool-cases, inl, inr,
}
use mathlib.Core.Option.{some-injective}
use rust_ospfd.Packet.Lsa.{Ipv4Addr}
use rust_ospfd.Interface.State.{Interface, always_adjacent, reset}
use rust_ospfd.Interface.Event.{interface_up, interface_down, net_type_of}
use rust_ospfd.Area.Lsdb
use rust_ospfd.Command.Text.{Text, text_beq}
use rust_ospfd.Command.Numbers.{parse_ipv4}
use rust_ospfd.Command.Effects.{
  Named, Router, get_interface_by_name, change_named, moved, change_area, block,
}

text_beq_eq : (s t : Text) → text_beq s t ≡ true → s ≡ t
text_beq_eq [] [] h = refl
text_beq_eq [] (d ∷ t) h = absurd (cc h)
text_beq_eq (c ∷ s) [] h = absurd (cc h)
text_beq_eq (c ∷ s) (d ∷ t) h = elim (Bool-cases (c == d)) [
  | inl q ↦
      let e : c ≡ d = (==_iff c d).0 q in
      let r : s ≡ t = text_beq_eq s t (rw q at h) in rw (e, r) refl
  | inr q ↦ absurd (cc (rw q at h))
]

get_interface-change_named :
    (name : Text) (f : Named → Interface) (is : List Named) (i : Named)
    → get_interface_by_name name is ≡ some i
    → get_interface_by_name name (change_named name f is) ≡ some (record i { iface = f i })
unfolding get_interface_by_name change_named
get_interface-change_named name f [] i h = absurd (cc h)
get_interface-change_named name f (j ∷ is) i h =
    elim (Bool-cases (text_beq j.interface_name name)) [
      | inl q ↦
          let e : j ≡ i = some-injective _ _ (rw q at h) in
          rw (q, q) (ap (λ (x : Named). some (record x { iface = f x })) e)
      | inr q ↦ rw (q, q) (get_interface-change_named name f is i (rw q at h))
    ]

get_interface-change_other :
    (name other : Text) (f : Named → Interface) (is : List Named)
    → text_beq name other ≡ false
    → get_interface_by_name other (change_named name f is) ≡ get_interface_by_name other is
unfolding get_interface_by_name change_named
get_interface-change_other name other f [] h = refl
get_interface-change_other name other f (j ∷ is) h =
    elim (Bool-cases (text_beq j.interface_name name)) [
      | inl q ↦
          let e : j.interface_name ≡ name = text_beq_eq j.interface_name name q in
          let n : text_beq j.interface_name other ≡ false = rw e h in rw (q, n) refl
      | inr q ↦ elim (Bool-cases (text_beq j.interface_name other)) [
        | inl p ↦ rw (q, p) refl
        | inr p ↦ rw (q, p) (get_interface-change_other name other f is h)
      ]
    ]

-- An interface in its new area: it has no neighbors and no cost.
abbrev pub IsFresh : Ipv4Addr → Interface → Type 0
IsFresh id i = (i.area_id ≡ id) × (i.neighbors ≡ []) × (i.cost ≡ 0)

moved-IsFresh : (id : Ipv4Addr) (i : Named) → IsFresh id (moved id i)
unfolding moved interface_up interface_down reset
moved-IsFresh id i = elim (Bool-cases (always_adjacent (net_type_of i.device))) [
  | inl a ↦ rw a (refl, refl, refl)
  | inr a ↦ elim (Bool-cases (i.iface.router_priority == 0)) [
    | inl p ↦ rw (a, p) (refl, refl, refl)
    | inr p ↦ rw (a, p) (refl, refl, refl)
  ]
]

-- The router after the command.
abbrev pub IsMoved : Text → Ipv4Addr → Named → Router → Router → Type 0
IsMoved name id i r r' =
    (get_interface_by_name name r'.interfaces ≡ some (record i { iface = moved id i }))
    × IsFresh id (moved id i)
    × ((other : Text)
        → text_beq name other ≡ false
        → get_interface_by_name other r'.interfaces ≡ get_interface_by_name other r.interfaces)
    × (get id r'.db.areas ≡ some (Lsdb.new id))
    × ((j : Ipv4Addr) → (id == j) ≡ false → get j r'.db.areas ≡ get j r.db.areas)

abbrev changed : Text → Ipv4Addr → Router → Router
changed name id r = record {
  interfaces = change_named name (moved id) r.interfaces;
  db = record (r.db) { areas = insert id (Lsdb.new id) r.db.areas };
}

-- Setting the area of a known interface to a valid address is a panic in a thread that runs
-- asynchronous code. In another it ends, and the interface is in that area, without neighbors and
-- with cost 0, and other interfaces stay; the database has a new, empty area under the address,
-- whatever it had there before, and its other areas stay.
pub change_area-IsMoved :
    (name arg : Text) (r : Router) (i : Named) (id : Ipv4Addr)
    → get_interface_by_name name r.interfaces ≡ some i
    → parse_ipv4 arg ≡ some id
    → (change_area true name arg r ≡ none)
      × ((r' : Router) × (change_area false name arg r ≡ some r') × IsMoved name id i r r')
unfolding change_area block
change_area-IsMoved name arg r i id known valid = (
  refl,
  (
    changed name id r,
    rw (known, change_area, valid) refl,
    (
      get_interface-change_named name (moved id) r.interfaces i known,
      moved-IsFresh id i,
      λ other n. get_interface-change_other name other (moved id) r.interfaces n,
      get-insert_self id (Lsdb.new id) r.db.areas,
      λ j n. get-insert_ne id j (Lsdb.new id) r.db.areas n,
    ),
  ),
)
