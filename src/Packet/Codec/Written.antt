-- ===== src/Packet/Codec/Written.antt =====
-- The structs of ospf-packet/src/packet.rs and lsa.rs as they are written: totality.
use rust_ospfd.Prelude.{[], ◌∷◌, List, Option, some, ◌≡◌, refl}
use rust_ospfd.Packet.Lsa.{
  LsaHeader, RouterLsaLink, LsaData, Lsa, router, network, summary_ip, summary_asbr, as_external,
}
use rust_ospfd.Packet.Types.{SubPacket, hello, dd, lsr, lsu, ack}
use rust_ospfd.Packet.Bits.{Bytes, octets}
use rust_ospfd.Packet.Macros.{generate_to_bytes}
use rust_ospfd.Packet.Codec.{vec_to_bytes, ipv4_to_bytes, header_to_bytes, link_to_bytes}
use rust_ospfd.Packet.Codec.Bodies.{
  router_to_bytes, network_to_bytes, summary_to_bytes, external_to_bytes,
}
use rust_ospfd.Packet.Codec.Whole.{body_to_bytes, lsa_to_bytes}
use rust_ospfd.Packet.Codec.Header.{header_to_bytes_lem}
use rust_ospfd.Packet.Codec.Packets.{
  to_bytes, hello_to_bytes, dd_to_bytes, lsr_to_bytes, lsu_to_bytes, ack_to_bytes,
}

abbrev pub IsWritten : {A : Type 0} → (A → Option Bytes) → A → Type 0
IsWritten f a = (b : Bytes) × (f a ≡ some b)

vec_total :
    {A : Type 0} (f : A → Option Bytes)
    → ((a : A) → IsWritten f a)
    → (xs : List A) → IsWritten (vec_to_bytes f) xs
unfolding vec_to_bytes
vec_total f t [] = ([], refl)
vec_total f t (x ∷ xs) = let (b, p) = t x in let (c, q) = vec_total f t xs in rw (p, q) (_, refl)

header_total : (h : LsaHeader) → IsWritten header_to_bytes h
header_total h = (_, header_to_bytes_lem h)

link_total : (l : RouterLsaLink) → IsWritten link_to_bytes l
unfolding link_to_bytes generate_to_bytes octets
link_total l = (_, refl)

body_total : (d : LsaData) → IsWritten body_to_bytes d
unfolding body_to_bytes router_to_bytes network_to_bytes summary_to_bytes external_to_bytes
    generate_to_bytes octets
body_total (router l) = let (b, p) = vec_total link_to_bytes link_total l.links in rw p (_, refl)
body_total (network l) =
    let (b, p) = vec_total ipv4_to_bytes (λ a. (_, refl)) l.attached_routers in rw p (_, refl)
body_total (summary_ip l) = (_, refl)
body_total (summary_asbr l) = (_, refl)
body_total (as_external l) = (_, refl)

lsa_total : (l : Lsa) → IsWritten lsa_to_bytes l
unfolding lsa_to_bytes
lsa_total l =
    let (b, p) = header_total l.header in let (c, q) = body_total l.body in rw (p, q) (_, refl)

pub to_bytes_total : (p : SubPacket) → IsWritten to_bytes p
unfolding to_bytes hello_to_bytes dd_to_bytes lsr_to_bytes lsu_to_bytes ack_to_bytes
    generate_to_bytes octets
to_bytes_total (hello p) =
    let (b, q) = vec_total ipv4_to_bytes (λ a. (_, refl)) p.neighbors in rw q (_, refl)
to_bytes_total (dd p) =
    let (b, q) = vec_total header_to_bytes header_total p.lsa_header in rw q (_, refl)
to_bytes_total (lsr p) = (_, refl)
to_bytes_total (lsu p) = let (b, q) = vec_total lsa_to_bytes lsa_total p.lsa in rw q (_, refl)
to_bytes_total (ack p) =
    let (b, q) = vec_total header_to_bytes header_total p.lsa_header in rw q (_, refl)
