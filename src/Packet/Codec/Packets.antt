-- ===== src/Packet/Codec/Packets.antt =====
-- The packets of ospf-packet/src/packet.rs, encoded and decoded.
use rust_ospfd.Prelude.{ℕ, List, [], ◌∷◌, Option, some, none, ◌>>=◌, length}
use rust_ospfd.Packet.Lsa.{Ipv4Addr, LsaHeader, Lsa}
use rust_ospfd.Packet.Types.{
  HelloPacket, DbDescription, LsRequest, LsUpdate, LsAcknowledge, SubPacket, hello, dd, lsr, lsu,
  ack,
}
use rust_ospfd.Packet.Bits.{Bytes, ipv4_from_buf}
use rust_ospfd.Packet.Macros.{
  num, zeros, vec, ipv4, Size, num_size, zeros_size, ipv4_size, generate_to_bytes,
  generate_from_buf, get_vec, get_rest,
}
use rust_ospfd.Packet.Codec.{vec_to_bytes, ipv4_to_bytes, header_to_bytes, header_from_buf}
use rust_ospfd.Packet.Codec.Whole.{lsa_to_bytes, lsa_from_buf}

-- `HelloPacket`
unfoldable pub hello_to_bytes : HelloPacket → Option Bytes
unfolding generate_to_bytes vec_to_bytes
hello_to_bytes p = do
  nbrs ← vec_to_bytes ipv4_to_bytes p.neighbors
  generate_to_bytes (
      ipv4 p.network_mask
      ∷ num 16 p.hello_interval
      ∷ num 8 p.options
      ∷ num 8 p.router_priority
      ∷ num 32 p.router_dead_interval
      ∷ ipv4 p.designated_router
      ∷ ipv4 p.backup_designated_router
      ∷ vec nbrs
      ∷ [])

abbrev pub hello_sizes : List Size
hello_sizes =
    ipv4_size ∷ num_size 16 ∷ num_size 8 ∷ num_size 8 ∷ num_size 32 ∷ ipv4_size ∷ ipv4_size ∷ []

unfoldable pub hello_of : List ℕ → List Ipv4Addr → Option HelloPacket
hello_of (m ∷ i ∷ o ∷ p ∷ d ∷ dr ∷ bdr ∷ []) nbrs = some (record {
  network_mask = m;
  hello_interval = i;
  options = o;
  router_priority = p;
  router_dead_interval = d;
  designated_router = dr;
  backup_designated_router = bdr;
  neighbors = nbrs;
})
hello_of _ nbrs = none

unfoldable pub hello_from_buf : Bytes → Option (HelloPacket × Bytes)
unfolding generate_from_buf hello_of
hello_from_buf bs = do
  (vs, body) ← generate_from_buf hello_sizes bs
  (nbrs, rest) ← get_rest ipv4_from_buf (length body) body
  p ← hello_of vs nbrs
  some (p, rest)

-- `DBDescription`
unfoldable pub dd_to_bytes : DbDescription → Option Bytes
unfolding generate_to_bytes vec_to_bytes
dd_to_bytes p = do
  headers ← vec_to_bytes header_to_bytes p.lsa_header
  generate_to_bytes (
      num 16 p.interface_mtu
      ∷ num 8 p.options
      ∷ zeros 5
      ∷ num 1 p.init
      ∷ num 1 p.more
      ∷ num 1 p.master
      ∷ num 32 p.db_sequence_number
      ∷ vec headers
      ∷ [])

abbrev pub dd_sizes : List Size
dd_sizes =
    num_size 16
    ∷ num_size 8
    ∷ zeros_size 5
    ∷ num_size 1
    ∷ num_size 1
    ∷ num_size 1
    ∷ num_size 32
    ∷ []

unfoldable pub dd_of : List ℕ → List LsaHeader → Option DbDescription
dd_of (m ∷ o ∷ i ∷ mo ∷ ms ∷ s ∷ []) headers = some (record {
  interface_mtu = m;
  options = o;
  init = i;
  more = mo;
  master = ms;
  db_sequence_number = s;
  lsa_header = headers;
})
dd_of _ headers = none

unfoldable pub dd_from_buf : Bytes → Option (DbDescription × Bytes)
unfolding generate_from_buf dd_of
dd_from_buf bs = do
  (vs, body) ← generate_from_buf dd_sizes bs
  (headers, rest) ← get_rest header_from_buf (length body) body
  p ← dd_of vs headers
  some (p, rest)

-- `LSRequest`
unfoldable pub lsr_to_bytes : LsRequest → Option Bytes
unfolding generate_to_bytes
lsr_to_bytes p =
    generate_to_bytes (num 32 p.ls_type ∷ ipv4 p.ls_id ∷ ipv4 p.advertising_router ∷ [])

unfoldable pub lsr_of : List ℕ → Option LsRequest
lsr_of (t ∷ i ∷ r ∷ []) = some (record { ls_type = t; ls_id = i; advertising_router = r })
lsr_of _ = none

unfoldable pub lsr_from_buf : Bytes → Option (LsRequest × Bytes)
unfolding generate_from_buf lsr_of
lsr_from_buf bs = do
  (vs, rest) ← generate_from_buf (num_size 32 ∷ ipv4_size ∷ ipv4_size ∷ []) bs
  p ← lsr_of vs
  some (p, rest)

-- `LSUpdate`
unfoldable pub lsu_to_bytes : LsUpdate → Option Bytes
unfolding generate_to_bytes vec_to_bytes
lsu_to_bytes p = do
  lsas ← vec_to_bytes lsa_to_bytes p.lsa
  generate_to_bytes (num 32 p.num_lsa ∷ vec lsas ∷ [])

unfoldable pub lsu_of : List ℕ → List Lsa → Option LsUpdate
lsu_of (n ∷ []) ls = some (record { num_lsa = n; lsa = ls })
lsu_of _ ls = none

unfoldable pub lsu_from_buf : Bytes → Option (LsUpdate × Bytes)
unfolding generate_from_buf lsu_of
lsu_from_buf bs = do
  (vs, body) ← generate_from_buf (num_size 32 ∷ []) bs
  p ← lsu_of vs []
  (ls, rest) ← get_vec lsa_from_buf p.num_lsa body
  some (record p { lsa = ls }, rest)

-- `LSAcknowledge`
unfoldable pub ack_to_bytes : LsAcknowledge → Option Bytes
unfolding generate_to_bytes vec_to_bytes
ack_to_bytes p = do
  headers ← vec_to_bytes header_to_bytes p.lsa_header
  generate_to_bytes (vec headers ∷ [])

unfoldable pub ack_from_buf : Bytes → Option (LsAcknowledge × Bytes)
ack_from_buf bs = do
  (headers, rest) ← get_rest header_from_buf (length bs) bs
  some (record { lsa_header = headers }, rest)

-- `to_bytes` of the packet that `send_packet` is given.
unfoldable pub to_bytes : SubPacket → Option Bytes
to_bytes (hello p) = hello_to_bytes p
to_bytes (dd p) = dd_to_bytes p
to_bytes (lsr p) = lsr_to_bytes p
to_bytes (lsu p) = lsu_to_bytes p
to_bytes (ack p) = ack_to_bytes p
