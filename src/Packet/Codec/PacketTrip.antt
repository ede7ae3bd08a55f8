-- ===== src/Packet/Codec/PacketTrip.antt =====
-- The five packets of ospf-packet/src/packet.rs written and read: the ranges of their
-- fields, and each struct.
use mathlib.Core.Option.{some-injective}
use mathlib.Core.List.{append-nil}
use rust_ospfd.Prelude.{
  ℕ, [], ◌∷◌, ◌++◌, some, ◌≡◌, refl, sym, ◌∙◌, arith, ◌<◌, ◌^◌, length, All, Option-cases, inl, inr,
}
use rust_ospfd.Packet.Lsa.{LsaHeader, Lsa}
use rust_ospfd.Packet.Types.{HelloPacket, DbDescription, LsRequest, LsUpdate, LsAcknowledge}
use rust_ospfd.Packet.Bits.{Bytes, octets, ipv4_from_buf}
use rust_ospfd.Packet.Codec.{vec_to_bytes, ipv4_to_bytes, header_to_bytes, header_from_buf}
use rust_ospfd.Packet.Codec.Whole.{lsa_to_bytes, lsa_from_buf}
use rust_ospfd.Packet.Codec.Width.{byte_at, four_bytes, two_bytes, one_byte, word_bytes}
use rust_ospfd.Packet.Codec.Vectors.{get_vec-vec_to_bytes, get_rest-vec_to_bytes}
use rust_ospfd.Packet.Codec.Header.{
  HeaderFits, header_then, header_to_bytes_lem, header_from_buf-then,
}
use rust_ospfd.Packet.Codec.RoundTrip.{ipv4_back, ipv4-nonempty}
use rust_ospfd.Packet.Codec.LsaTrip.{LsaFits, lsa_from_buf-to_bytes}
use rust_ospfd.Packet.Codec.Packets.{
  hello_to_bytes, hello_from_buf, lsr_to_bytes, lsr_from_buf, lsu_to_bytes, lsu_from_buf,
  ack_to_bytes, ack_from_buf,
}

pub record HelloFits (p : HelloPacket) : Type 0 where
  pub mask : p.network_mask < 2 ^ 32
  pub interval : p.hello_interval < 2 ^ 16
  pub options : p.options < 2 ^ 8
  pub priority : p.router_priority < 2 ^ 8
  pub dead : p.router_dead_interval < 2 ^ 32
  pub dr : p.designated_router < 2 ^ 32
  pub bdr : p.backup_designated_router < 2 ^ 32
  pub neighbors : All (λ a. a < 2 ^ 32) p.neighbors

pub record DdFits (p : DbDescription) : Type 0 where
  pub mtu : p.interface_mtu < 2 ^ 16
  pub options : p.options < 2 ^ 8
  pub init : p.init < 2
  pub more : p.more < 2
  pub master : p.master < 2
  pub seq : p.db_sequence_number < 2 ^ 32
  pub headers : All HeaderFits p.lsa_header

pub record LsrFits (p : LsRequest) : Type 0 where
  pub ls_type : p.ls_type < 2 ^ 32
  pub id : p.ls_id < 2 ^ 32
  pub router : p.advertising_router < 2 ^ 32

-- An LSA whose header has the number of its bytes.
abbrev pub IsWhole : Lsa → Type 0
IsWhole l = LsaFits l × ((b : Bytes) → lsa_to_bytes l ≡ some b → l.header.length ≡ length b)

pub record LsuFits (p : LsUpdate) : Type 0 where
  pub count : p.num_lsa < 2 ^ 32
  pub counted : p.num_lsa ≡ length p.lsa
  pub lsas : All IsWhole p.lsa

pub header_back :
    (h : LsaHeader) (b r : Bytes)
    → HeaderFits h
    → header_to_bytes h ≡ some b
    → header_from_buf (b ++ r) ≡ some (h, r)
unfolding octets
header_back h b r f e =
    let p : header_then h [] ≡ b = some-injective _ _ (sym (header_to_bytes_lem h) ∙ e) in
    rw (← p) (header_from_buf-then h r f)

pub header-nonempty : (h : LsaHeader) (b : Bytes) → header_to_bytes h ≡ some b → 0 < length b
unfolding octets
header-nonempty h b e =
    let p : header_then h [] ≡ b = some-injective _ _ (sym (header_to_bytes_lem h) ∙ e) in
    rw (← p) (omega arith)

lsa_back :
    (l : Lsa) (b r : Bytes)
    → IsWhole l
    → lsa_to_bytes l ≡ some b
    → lsa_from_buf (b ++ r) ≡ some (l, r)
lsa_back l b r f e = lsa_from_buf-to_bytes l b r f.0 e (f.1 b e)

abbrev pub word : ℕ → Bytes → Bytes
word n r = byte_at 3 n ∷ byte_at 2 n ∷ byte_at 1 n ∷ byte_at 0 n ∷ r

abbrev hello_bytes : HelloPacket → Bytes → Bytes
hello_bytes p nbrs =
    octets p.network_mask
    ++ (byte_at 1 p.hello_interval
        ∷ byte_at 0 p.hello_interval
        ∷ byte_at 0 p.options
        ∷ byte_at 0 p.router_priority
        ∷ word p.router_dead_interval
            (octets p.designated_router ++ (octets p.backup_designated_router ++ nbrs)))

hello_from_buf-hello_bytes :
    (p : HelloPacket) (nbrs : Bytes)
    → HelloFits p
    → vec_to_bytes ipv4_to_bytes p.neighbors ≡ some nbrs
    → hello_from_buf (hello_bytes p nbrs) ≡ some (p, [])
unfolding hello_from_buf octets
hello_from_buf-hello_bytes p nbrs f q = rw (
  four_bytes p.network_mask f.mask,
  two_bytes p.hello_interval f.interval,
  one_byte p.options f.options,
  one_byte p.router_priority f.priority,
  word_bytes p.router_dead_interval f.dead,
  four_bytes p.designated_router f.dr,
  four_bytes p.backup_designated_router f.bdr,
  get_rest-vec_to_bytes ipv4_to_bytes ipv4_from_buf (λ a. a < 2 ^ 32) ipv4_back ipv4-nonempty
      p.neighbors nbrs (length nbrs) (omega arith) f.neighbors q,
)

pub hello_back :
    (p : HelloPacket) (b : Bytes)
    → HelloFits p
    → hello_to_bytes p ≡ some b
    → hello_from_buf b ≡ some (p, [])
unfolding hello_to_bytes octets
hello_back p b f e = elim (Option-cases (vec_to_bytes ipv4_to_bytes p.neighbors)) [
  | inl q ↦ absurd (cc (rw q at e))
  | inr (nbrs, q) ↦
      let w : hello_bytes p nbrs ≡ b = some-injective _ _ (rw q at e) in
      rw (← w) (hello_from_buf-hello_bytes p nbrs f q)
]

pub lsr_back :
    (p : LsRequest) (b : Bytes)
    → LsrFits p
    → lsr_to_bytes p ≡ some b
    → lsr_from_buf b ≡ some (p, [])
unfolding lsr_to_bytes lsr_from_buf octets
lsr_back p b f e =
    let w : word p.ls_type (octets p.ls_id ++ octets p.advertising_router) ≡ b =
      some-injective _ _ e in
    rw (← w) (
      rw (
        word_bytes p.ls_type f.ls_type,
        four_bytes p.ls_id f.id,
        four_bytes p.advertising_router f.router,
      ))

pub ack_back :
    (p : LsAcknowledge) (b : Bytes)
    → All HeaderFits p.lsa_header
    → ack_to_bytes p ≡ some b
    → ack_from_buf b ≡ some (p, [])
unfolding ack_to_bytes ack_from_buf
ack_back p b f e = elim (Option-cases (vec_to_bytes header_to_bytes p.lsa_header)) [
  | inl q ↦ absurd (cc (rw q at e))
  | inr (hs, q) ↦
      let w : hs ≡ b = some-injective _ _ (rw q at e) in
      rw (← w) (
        rw
          (get_rest-vec_to_bytes header_to_bytes header_from_buf HeaderFits header_back
            header-nonempty p.lsa_header hs (length hs) (omega arith) f q)
          refl)
]

pub lsu_back :
    (p : LsUpdate) (b : Bytes) → LsuFits p → lsu_to_bytes p ≡ some b → lsu_from_buf b ≡ some (p, [])
unfolding lsu_to_bytes lsu_from_buf
lsu_back p b f e = elim (Option-cases (vec_to_bytes lsa_to_bytes p.lsa)) [
  | inl q ↦ absurd (cc (rw q at e))
  | inr (ls, q) ↦
      let w : word p.num_lsa ls ≡ b = some-injective _ _ (rw q at e) in
      let v =
        get_vec-vec_to_bytes lsa_to_bytes lsa_from_buf IsWhole lsa_back p.lsa ls [] f.lsas q in
      rw (← w) (rw (word_bytes p.num_lsa f.count) (rw (f.counted, rw append-nil at v) refl))
]
