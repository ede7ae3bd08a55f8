-- ===== src/Area/Nodes.antt =====
-- ospfd/area/tree.rs: the nodes of the shortest path tree, and their derived order.
use rust_ospfd.Prelude.{
  ℕ, Bool, true, false, List, [], ◌∷◌, ◌==◌, ◌≡◌, ◌↔◌, arith, Eq, compare, Ordering,
}
use rust_ospfd.Packet.Lsa.{Ipv4Addr, Lsa}
use rust_ospfd.Routing.Mask.{AddrMask, mask_beq}

pub data NodeAddr : Type 0 where
  router network : Ipv4Addr → NodeAddr
  stub : AddrMask → NodeAddr

abbrev pub node_beq : NodeAddr → NodeAddr → Bool
node_beq (router a) (router b) = a == b
node_beq (network a) (network b) = a == b
node_beq (stub a) (stub b) = mask_beq a b
node_beq (router a) (network b) = false
node_beq (router a) (stub b) = false
node_beq (network a) (router b) = false
node_beq (network a) (stub b) = false
node_beq (stub a) (router b) = false
node_beq (stub a) (network b) = false

pub node_beq_iff : (a b : NodeAddr) → (node_beq a b ≡ true) ↔ (a ≡ b)
node_beq_iff a b = ground arith

instance abbrev pub node_eq : Eq NodeAddr
node_eq = record { beq = node_beq; beq_iff = node_beq_iff }

abbrev pub is_stub : NodeAddr → Bool
is_stub (stub m) = true
is_stub (router a) = false
is_stub (network a) = false

abbrev pub is_network : NodeAddr → Bool
is_network (network a) = true
is_network (router a) = false
is_network (stub m) = false

-- The first difference decides: the derived `Ord` of a struct.
abbrev pub then_by : Ordering → Ordering → Ordering
then_by Ordering.eq o = o
then_by Ordering.lt o = Ordering.lt
then_by Ordering.gt o = Ordering.gt

abbrev pub variant : NodeAddr → ℕ
variant (router a) = 0
variant (network a) = 1
variant (stub m) = 2

abbrev pub node_addr : NodeAddr → Ipv4Addr
node_addr (router a) = a
node_addr (network a) = a
node_addr (stub m) = m.addr

abbrev pub mask_len : NodeAddr → ℕ
mask_len (router a) = 0
mask_len (network a) = 0
mask_len (stub m) = m.len

unfoldable pub compare_node : NodeAddr → NodeAddr → Ordering
compare_node a b =
    then_by (compare (variant a) (variant b))
      (then_by (compare (node_addr a) (node_addr b)) (compare (mask_len a) (mask_len b)))

-- The order of vectors: by the first difference, and a prefix is less.
unfoldable pub compare_list : List ℕ → List ℕ → Ordering
compare_list [] [] = Ordering.eq
compare_list [] (y ∷ ys) = Ordering.lt
compare_list (x ∷ xs) [] = Ordering.gt
compare_list (x ∷ xs) (y ∷ ys) = then_by (compare x y) (compare_list xs ys)

pub record TreeNode : Type 0 where
  pub id : NodeAddr
  pub lsa : Lsa
  pub next_hops : List Ipv4Addr
  pub distance : ℕ

abbrev pub ShortPathTree : Type 0
ShortPathTree = List (NodeAddr × TreeNode)

-- `HeapNode(Reverse(distance), is_network, id, next_hops)`
pub record HeapNode : Type 0 where
  pub distance : ℕ
  pub from_network : Bool
  pub id : NodeAddr
  pub next_hops : List Ipv4Addr

abbrev pub compare_bool : Bool → Bool → Ordering
compare_bool true true = Ordering.eq
compare_bool true false = Ordering.gt
compare_bool false true = Ordering.lt
compare_bool false false = Ordering.eq

unfoldable pub compare_heap : HeapNode → HeapNode → Ordering
unfolding compare_node compare_list
compare_heap a b = then_by (compare b.distance a.distance) (
    then_by (compare_bool a.from_network b.from_network)
      (then_by (compare_node a.id b.id) (compare_list a.next_hops b.next_hops)))
