-- ===== src/Flooding.antt =====
-- ospfd/flooding.rs: the flooding of an LSA out of the eligible interfaces (RFC 2328, section 13.3).
pub mod Reliable
pub mod Invariant
pub mod Sends
pub mod Total
use rust_ospfd.Prelude.{
  ℕ, zero, suc, Bool, true, false, List, [], ◌∷◌, ◌++◌, Option, some, none, ◌==◌, not, ◌&&◌, ◌||◌,
  ltb, if◌then◌else◌, ◌+◌, ◌^◌, min, take, drop, get, nat_eq, Ordering, ◌>>=◌, ◌>>◌, assert,
  insert_set,
}
use rust_ospfd.Packet.Lsa.{
  Ipv4Addr, LsaHeader, Lsa, LsaIndex, index, index_beq, index_eq, lsa_max_age, as_external_lsa,
}
use rust_ospfd.Packet.Order.{cmp}
use rust_ospfd.Packet.Types.{SubPacket, lsu, all_d_routers, all_spf_routers}
use rust_ospfd.Neighbor.State
use rust_ospfd.Neighbor.State.{Neighbor, exchange, ge_state, idle}
use rust_ospfd.Neighbor.Event.{Env}
use rust_ospfd.Interface.State as IfState
use rust_ospfd.Interface.State.{Interface, is_bdr, is_drother}
use rust_ospfd.Sender.{World, send_packet}

-- `InterfacesGuard`: the interface that received, and the others.
pub record Interfaces : Type 0 where
  pub me : Interface
  pub other : List Interface

module _ {A : Type 0} where
  -- `VecDeque::swap_remove_back`: the last item takes the place of the removed one.
  abbrev pub last : A → List A → A
  last x [] = x
  last x (y ∷ ys) = last y ys

  abbrev pub drop_last : A → List A → List A
  drop_last x [] = []
  drop_last x (y ∷ ys) = x ∷ drop_last y ys

  abbrev pub close_gap : List A → List A
  close_gap [] = []
  close_gap (x ∷ []) = []
  close_gap (x ∷ y ∷ ys) = last y ys ∷ drop_last y ys

  abbrev pub swap_remove_back : ℕ → List A → List A
  swap_remove_back i xs = take i xs ++ close_gap (drop i xs)

-- `iter().position(|&h| LsaIndex::from(h) == key)`, with the header found there.
unfoldable pub position : LsaIndex → List LsaHeader → Option (ℕ × LsaHeader)
position key [] = none
position key (h ∷ hs) =
    if index_beq (index h) key
    then some (0, h)
    else elim (position key hs) [ none ↦ none | some (i, g) ↦ some (suc i, g) ]

-- The request at the position is answered: it goes, and the task that repeats it is stopped.
abbrev pub drop_request : ℕ → Neighbor → Neighbor
drop_request i n = record n {
  ls_request_list = swap_remove_back i n.ls_request_list;
  lsr_handle = record n.lsr_handle { child_task = idle };
}

-- Steps (c) and (d): the LSA goes on the retransmission list, unless it came from this neighbor.
unfoldable pub enlist : Ipv4Addr → Lsa → Neighbor → Neighbor × Bool
enlist src l n = if src == n.ip_addr then (n, false) else (
  record n { ls_retransmission_list = insert_set (index l.header) n.ls_retransmission_list },
  true,
)

-- Step (b), at the request found in the list.
unfoldable pub against_request : Ipv4Addr → Lsa → Neighbor → ℕ × LsaHeader → Neighbor × Bool
against_request src l n (i, h) = elim (cmp l.header h) [
  | Ordering.lt ↦ (n, false)
  | Ordering.eq ↦ (drop_request i n, false)
  | Ordering.gt ↦ enlist src l (drop_request i n)
]

-- The body of the loop over the neighbors; the Boolean is what it adds to `success`.
unfoldable pub flood_neighbor : Ipv4Addr → Lsa → Neighbor → Neighbor × Bool
flood_neighbor src l n =
    let found : Neighbor × Bool = elim (position (index l.header) n.ls_request_list) [
      | none ↦ enlist src l n
      | some r ↦ against_request src l n r
    ] in
    if ge_state n.state exchange then found else (n, false)

unfoldable pub flood_neighbors :
    Ipv4Addr → Lsa → List (Ipv4Addr × Neighbor) → List (Ipv4Addr × Neighbor) × Bool
flood_neighbors src l [] = ([], false)
flood_neighbors src l ((k, n) ∷ m) =
    let (n', b) = flood_neighbor src l n in
    let (m', c) = flood_neighbors src l m in ((k, n') ∷ m', b || c)

-- Steps 3 and 4: whether the others on the network have the LSA from the sender, or will have it
-- from the DR. `none` is the panic of `unwrap`.
unfoldable pub served_already : Ipv4Addr → Ipv4Addr → Interface → Option Bool
served_already me src i =
    let received = do n ← get src i.neighbors; some (State.is_dr n || (State.is_bdr n || is_bdr i))
    in if i.ip_addr == me && not (i.ip_addr == src) then received else some false

-- Step 5: the copy that is sent. The sum of the ages is a `u16`.
unfoldable pub aged_copy : ℕ → Lsa → Option Lsa
aged_copy delay l = do
  assert (ltb (l.header.ls_age + delay) (2 ^ 16))
  some
      (record l { header = record l.header { ls_age = min (l.header.ls_age + delay) lsa_max_age } })

abbrev pub update_of : Lsa → SubPacket
update_of l = lsu (record { num_lsa = 1; lsa = l ∷ [] })

abbrev pub flood_dest : Interface → Ipv4Addr
flood_dest i = if is_drother i then all_d_routers else all_spf_routers

-- Step 5 whole.
unfoldable pub send_copy : Env → Interface → Lsa → World → Option (Interface × World × Bool)
send_copy env i l w = do
  copy ← aged_copy i.inf_trans_delay l
  w' ← send_packet env i (update_of copy) (flood_dest i) w
  some (i, w', true)

-- `flooding_on`
unfoldable pub flooding_on :
    Env → Ipv4Addr → Ipv4Addr → Lsa → Interface → World → Option (Interface × World × Bool)
flooding_on env me src l i w =
    let (m, success) = flood_neighbors src l i.neighbors in
    let i' = record i { neighbors = m } in
    let send : Option (Interface × World × Bool) = do
      served ← served_already me src i'
      if served then some (i', w, false) else send_copy env i' l w
    in if success then send else some (i', w, false)

-- The interfaces that an LSA may leave by.
abbrev pub is_eligible : Ipv4Addr → Lsa → Interface → Bool
is_eligible area l i =
    if l.header.ls_type == as_external_lsa then i.external_routing else i.area_id == area

unfoldable pub flood_interface :
    Env
    → Ipv4Addr
    → Ipv4Addr
    → Ipv4Addr
    → Lsa
    → Interface
    → World
    → Option (Interface × World × Bool)
flood_interface env area me src l i w =
    if is_eligible area l i then flooding_on env me src l i w else some (i, w, false)

unfoldable pub flood_interfaces :
    Env
    → Ipv4Addr
    → Ipv4Addr
    → Ipv4Addr
    → Lsa
    → List Interface
    → World
    → Option (List Interface × World × Bool)
flood_interfaces env area me src l [] w = some ([], w, false)
flood_interfaces env area me src l (i ∷ is) w = do
  (i', w1, b) ← flood_interface env area me src l i w
  (is', w2, c) ← flood_interfaces env area me src l is w1
  some (i' ∷ is', w2, b || c)

-- `flooding`
unfoldable pub flooding :
    Env → Ipv4Addr → Lsa → Interfaces → World → Option (Interfaces × World × Bool)
flooding env src l s w = do
  let area = s.me.area_id
  let me = s.me.ip_addr
  (i, w1, b) ← flood_interface env area me src l s.me w
  (is, w2, c) ← flood_interfaces env area me src l s.other w1
  some (record { me = i; other = is }, w2, b || c)
