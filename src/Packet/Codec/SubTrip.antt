-- ===== src/Packet/Codec/SubTrip.antt =====
-- The packets of ospf-packet/src/packet.rs, any of the five: the database description, and `to_bytes` of
-- what `send_packet` is given.
use mathlib.Core.Option.{some-injective}
use rust_ospfd.Prelude.{
  ℕ, [], ◌∷◌, some, ◌≡◌, refl, sym, ◌∙◌, arith, ◌^◌, ◌+◌, ◌*◌, ◌%◌, ◌/◌, length, All, Option-cases,
  inl, inr,
}
use rust_ospfd.Packet.Types.{DbDescription, SubPacket, hello, dd, lsr, lsu, ack}
use rust_ospfd.Packet.Bits.{Bytes}
use rust_ospfd.Packet.Macros.{generate_to_bytes, num, zeros, vec}
use rust_ospfd.Packet.Codec.{vec_to_bytes, header_to_bytes, header_from_buf}
use rust_ospfd.Packet.Codec.Width.{byte_at, two_bytes, one_byte, word_bytes}
use rust_ospfd.Packet.Codec.Vectors.{get_rest-vec_to_bytes}
use rust_ospfd.Packet.Codec.Header.{HeaderFits}
use rust_ospfd.Packet.Codec.PacketTrip.{
  HelloFits, DdFits, LsrFits, LsuFits, word, header_back, header-nonempty, hello_back, lsr_back,
  ack_back, lsu_back,
}
use rust_ospfd.Packet.Codec.Written.{to_bytes_total}
use rust_ospfd.Packet.Codec.Packets.{
  to_bytes, hello_from_buf, dd_to_bytes, dd_from_buf, lsr_from_buf, lsu_from_buf, ack_from_buf,
}

abbrev dd_flags : DbDescription → ℕ
dd_flags p = p.init / 2 ^ 0 % 2 * 4 + p.more / 2 ^ 0 % 2 * 2 + p.master / 2 ^ 0 % 2

abbrev dd_bytes : DbDescription → Bytes → Bytes
dd_bytes p headers =
    byte_at 1 p.interface_mtu
    ∷ byte_at 0 p.interface_mtu
    ∷ byte_at 0 p.options
    ∷ dd_flags p
    ∷ word p.db_sequence_number headers

dd_to_bytes_lem :
    (p : DbDescription) (headers : Bytes)
    → generate_to_bytes (
        num 16 p.interface_mtu
        ∷ num 8 p.options
        ∷ zeros 5
        ∷ num 1 p.init
        ∷ num 1 p.more
        ∷ num 1 p.master
        ∷ num 32 p.db_sequence_number
        ∷ vec headers
        ∷ [])
      ≡ some (dd_bytes p headers)
unfolding generate_to_bytes
dd_to_bytes_lem p headers = ground arith

dd_from_buf-dd_bytes :
    (p : DbDescription) (hs : Bytes)
    → DdFits p
    → vec_to_bytes header_to_bytes p.lsa_header ≡ some hs
    → dd_from_buf (dd_bytes p hs) ≡ some (p, [])
unfolding dd_from_buf
dd_from_buf-dd_bytes p hs f q =
    let i : 0 * 2 + dd_flags p / 2 ^ 2 % 2 ≡ p.init = omega (arith, f.init, f.more, f.master) in
    let m : 0 * 2 + dd_flags p / 2 ^ 1 % 2 ≡ p.more = omega (arith, f.init, f.more, f.master) in
    let ms : 0 * 2 + dd_flags p / 2 ^ 0 % 2 ≡ p.master = omega (arith, f.init, f.more, f.master) in
    rw
      (
        i,
        m,
        ms,
        two_bytes p.interface_mtu f.mtu,
        one_byte p.options f.options,
        word_bytes p.db_sequence_number f.seq,
      )
      (rw
        (get_rest-vec_to_bytes header_to_bytes header_from_buf HeaderFits header_back
          header-nonempty p.lsa_header hs (length hs) (omega arith) f.headers q)
        refl)

dd_back :
    (p : DbDescription) (b : Bytes)
    → DdFits p
    → dd_to_bytes p ≡ some b
    → dd_from_buf b ≡ some (p, [])
unfolding dd_to_bytes
dd_back p b f e = elim (Option-cases (vec_to_bytes header_to_bytes p.lsa_header)) [
  | inl q ↦ absurd (cc (rw q at e))
  | inr (hs, q) ↦
      let w : dd_bytes p hs ≡ b = some-injective _ _ (sym (dd_to_bytes_lem p hs) ∙ (rw q at e)) in
      rw (← w) (dd_from_buf-dd_bytes p hs f q)
]

-- The fields are in the range of their sizes, and the counts and lengths are those of what follows.
unfoldable pub PacketFits : SubPacket → Type 0
PacketFits (hello p) = HelloFits p
PacketFits (dd p) = DdFits p
PacketFits (lsr p) = LsrFits p
PacketFits (lsu p) = LsuFits p
PacketFits (ack p) = All HeaderFits p.lsa_header

-- The struct of the packet's type reads the packet from the bytes and leaves nothing.
unfoldable pub IsReadFrom : SubPacket → Bytes → Type 0
IsReadFrom (hello p) b = hello_from_buf b ≡ some (p, [])
IsReadFrom (dd p) b = dd_from_buf b ≡ some (p, [])
IsReadFrom (lsr p) b = lsr_from_buf b ≡ some (p, [])
IsReadFrom (lsu p) b = lsu_from_buf b ≡ some (p, [])
IsReadFrom (ack p) b = ack_from_buf b ≡ some (p, [])

read_back : (p : SubPacket) (b : Bytes) → PacketFits p → to_bytes p ≡ some b → IsReadFrom p b
unfolding to_bytes PacketFits IsReadFrom
read_back (hello p) b f e = hello_back p b f e
read_back (dd p) b f e = dd_back p b f e
read_back (lsr p) b f e = lsr_back p b f e
read_back (lsu p) b f e = lsu_back p b f e
read_back (ack p) b f e = ack_back p b f e

-- A packet of any of the five types whose fields are in the range of their sizes, and whose counts
-- and lengths are those of what follows them, is written without a panic, and the struct of its
-- type reads it back from the bytes as it was and leaves nothing.
pub to_bytes-IsReadFrom :
    (p : SubPacket) → PacketFits p → (b : Bytes) × (to_bytes p ≡ some b) × IsReadFrom p b
to_bytes-IsReadFrom p f = let (b, e) = to_bytes_total p in (b, e, read_back p b f e)
