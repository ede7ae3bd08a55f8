-- ===== src/Examples/Packets.antt =====
-- Concrete LSAs: encoding, checksum, order, and the link state database.
use mathlib.Core.Option.{some-injective}
use rust_ospfd.Prelude.{
  length, ap, true, false, [], ◌∷◌, ◌++◌, some, ◌≡◌, refl, arith, Ordering, ◌↔◌,
}
use rust_ospfd.Packet.Lsa.{Lsa, index}
use rust_ospfd.Packet.Bits.{Bytes}
use rust_ospfd.Packet.Codec.Header.{HeaderFits}
use rust_ospfd.Packet.Codec.{header_to_bytes}
use rust_ospfd.Packet.Codec.Whole.{body_to_bytes, lsa_to_bytes, lsa_from_buf}
use rust_ospfd.Packet.Codec.LsaTrip.{LsaFits, lsa_from_buf-to_bytes}
use rust_ospfd.Packet.Types.{SubPacket, lsu}
use rust_ospfd.Packet.Codec.Packets.{to_bytes}
use rust_ospfd.Packet.Codec.PacketTrip.{IsWhole}
use rust_ospfd.Packet.Codec.SubTrip.{PacketFits, IsReadFrom, to_bytes-IsReadFrom}
use rust_ospfd.Packet.Checksum.{update_checksum, checksum_ok}
use rust_ospfd.Packet.Checksum.Verified.{checksum_ok-update_checksum}
use rust_ospfd.Packet.Order.{cmp}
use rust_ospfd.Packet.Order.Newer.{SameAge, at_age, cmp-eq_iff, cmp_intransitive}
use rust_ospfd.Area.Lsdb.{Area, LsaDb, m_get_lsa, need_update, insert_lsa}
use rust_ospfd.Area.Lsdb.Insert.{IsSeparate, get_lsa-insert_lsa}
use rust_ospfd.Examples.{header, lsa}

abbrev body_bytes : Bytes
body_bytes = 0xff ∷ 0xff ∷ 0xff ∷ 0 ∷ 0 ∷ 0 ∷ 0 ∷ 20 ∷ []

checksum_example : (l' : Lsa) × (update_checksum lsa ≡ some l') × (checksum_ok l' ≡ some true)
unfolding body_to_bytes
checksum_example = checksum_ok-update_checksum lsa body_bytes refl refl (omega arith)

abbrev lsa_bytes : Bytes
lsa_bytes =
    0 ∷ 5 ∷ 2 ∷ 3 ∷ 0xc0 ∷ 0xa8 ∷ 1 ∷ 0 ∷ 0 ∷ 0 ∷ 0 ∷ 2 ∷ 0x80 ∷ 0 ∷ 0 ∷ 1 ∷ 0 ∷ 0 ∷ 0 ∷ 28
    ∷ body_bytes

header-HeaderFits : HeaderFits header
header-HeaderFits = ground arith

lsa-LsaFits : LsaFits lsa
lsa-LsaFits = ground (arith, header-HeaderFits)

lsa_round_trip_example : lsa_from_buf (lsa_bytes ++ 9 ∷ []) ≡ some (lsa, 9 ∷ [])
unfolding lsa_to_bytes header_to_bytes body_to_bytes
lsa_round_trip_example = lsa_from_buf-to_bytes lsa lsa_bytes (9 ∷ []) lsa-LsaFits refl refl

-- An update with one LSA.
abbrev update : SubPacket
update = lsu (record { num_lsa = 1; lsa = lsa ∷ [] })

lsa-IsWhole : IsWhole lsa
unfolding lsa_to_bytes header_to_bytes body_to_bytes
lsa-IsWhole = (lsa-LsaFits, λ b e. ap length (some-injective lsa_bytes b e))

update-PacketFits : PacketFits update
unfolding PacketFits
update-PacketFits = record { count = omega arith; counted = refl; lsas = (lsa-IsWhole, tt) }

to_bytes-IsReadFrom_example : (b : Bytes) × (to_bytes update ≡ some b) × IsReadFrom update b
to_bytes-IsReadFrom_example = to_bytes-IsReadFrom update update-PacketFits

cmp-eq_example : (cmp header (at_age header 7) ≡ Ordering.eq) ↔ (
    (header.ls_sequence_number ≡ header.ls_sequence_number)
    × (header.ls_checksum ≡ header.ls_checksum)
    × SameAge header.ls_age 7)
cmp-eq_example = cmp-eq_iff header (at_age header 7)

cmp_intransitive_example :
    (cmp (at_age header 0) (at_age header 800) ≡ Ordering.eq)
    × (cmp (at_age header 800) (at_age header 1600) ≡ Ordering.eq)
    × (cmp (at_age header 0) (at_age header 1600) ≡ Ordering.gt)
cmp_intransitive_example =
    cmp_intransitive header 0 800 1600 (omega arith) (omega arith) (omega arith) (omega arith)
      (omega arith) (omega arith)

-- A new area.
abbrev empty_area : Area
empty_area = record {
  area_id = 1;
  short_path_tree = [];
  lsa_database = [];
  transit_capability = false;
  external_routing_capability = true;
  stub_default_cost = 0;
}

empty_area-IsSeparate : IsSeparate empty_area
empty_area-IsSeparate k e = refl

wanted : (l : Lsa) → need_update 5000 empty_area [] l.header ≡ true
unfolding need_update m_get_lsa
wanted l = refl

get_lsa-insert_lsa_example :
    (r : Area × LsaDb) × (insert_lsa 5000 empty_area [] lsa ≡ some r)
    × (m_get_lsa 5000 r.0 r.1 (index header) ≡ some (lsa, 5000, 5000))
get_lsa-insert_lsa_example =
    get_lsa-insert_lsa 5000 empty_area [] lsa empty_area-IsSeparate refl (omega arith) (wanted lsa)
