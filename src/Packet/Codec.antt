-- ===== src/Packet/Codec.antt =====
-- The structs of ospf-packet/src/lsa.rs as `#[raw_packet]` encodes and decodes them: the fields in
-- their order, with their sizes in bits. Here the header and the link; the children have the other
-- structs and the round trips. `none` is a panic.
pub mod Width
pub mod Header
pub mod Bodies
pub mod Whole
pub mod Packets
pub mod Vectors
pub mod RoundTrip
pub mod LsaTrip
pub mod PacketTrip
pub mod SubTrip
pub mod Written
use rust_ospfd.Prelude.{
  ℕ, zero, suc, List, [], ◌∷◌, ◌++◌, Option, some, none, ◌==◌, leb, not, if◌then◌else◌, ◌-◌, ◌>>=◌,
  ◌>>◌, assert, length, take, drop, is_empty,
}
use rust_ospfd.Packet.Lsa.{
  Ipv4Addr, LsaHeader, RouterLsaLink, RouterLsa, NetworkLsa, SummaryLsa, AsExternalLsa, LsaData,
  router, network, summary_ip, summary_asbr, as_external, Lsa, router_lsa, network_lsa,
  summary_ip_lsa, summary_asbr_lsa, as_external_lsa,
}
use rust_ospfd.Packet.Types.{HelloPacket, DbDescription, LsRequest, LsUpdate, LsAcknowledge}
use rust_ospfd.Packet.Bits.{Bytes, octets, ipv4_from_buf, i32_to_u128, i32_from_u128}
use rust_ospfd.Packet.Macros.{
  Field, num, zeros, vec, ipv4, Size, num_size, zeros_size, ipv4_size, generate_to_bytes,
  generate_from_buf, get_vec, get_rest,
}

-- `ToBytesMut for Vec<T>`
unfoldable pub vec_to_bytes : {A : Type 0} → (A → Option Bytes) → List A → Option Bytes
vec_to_bytes f [] = some []
vec_to_bytes f (x ∷ xs) = do bs ← f x; cs ← vec_to_bytes f xs; some (bs ++ cs)

abbrev pub ipv4_to_bytes : Ipv4Addr → Option Bytes
ipv4_to_bytes a = some (octets a)

-- `LsaHeader`
abbrev pub header_fields : LsaHeader → List Field
header_fields h =
    num 16 h.ls_age
    ∷ num 8 h.options
    ∷ num 8 h.ls_type
    ∷ ipv4 h.link_state_id
    ∷ ipv4 h.advertising_router
    ∷ num 32 (i32_to_u128 h.ls_sequence_number)
    ∷ num 16 h.ls_checksum
    ∷ num 16 h.length
    ∷ []

abbrev pub header_sizes : List Size
header_sizes =
    num_size 16
    ∷ num_size 8
    ∷ num_size 8
    ∷ ipv4_size
    ∷ ipv4_size
    ∷ num_size 32
    ∷ num_size 16
    ∷ num_size 16
    ∷ []

unfoldable pub header_of : List ℕ → Option LsaHeader
header_of (a ∷ o ∷ t ∷ id ∷ r ∷ s ∷ c ∷ l ∷ []) = some (record {
  ls_age = a;
  options = o;
  ls_type = t;
  link_state_id = id;
  advertising_router = r;
  ls_sequence_number = i32_from_u128 s;
  ls_checksum = c;
  length = l;
})
header_of _ = none

unfoldable pub header_to_bytes : LsaHeader → Option Bytes
unfolding generate_to_bytes i32_to_u128
header_to_bytes h = generate_to_bytes (header_fields h)

unfoldable pub header_from_buf : Bytes → Option (LsaHeader × Bytes)
unfolding generate_from_buf header_of i32_from_u128
header_from_buf bs = do
  (vs, rest) ← generate_from_buf header_sizes bs
  h ← header_of vs
  some (h, rest)

-- `RouterLSALink`
abbrev pub link_fields : RouterLsaLink → List Field
link_fields l =
    ipv4 l.link_id ∷ ipv4 l.link_data ∷ num 8 l.link_type ∷ num 8 l.tos ∷ num 16 l.metric ∷ []

abbrev pub link_sizes : List Size
link_sizes = ipv4_size ∷ ipv4_size ∷ num_size 8 ∷ num_size 8 ∷ num_size 16 ∷ []

unfoldable pub link_of : List ℕ → Option RouterLsaLink
link_of (i ∷ d ∷ t ∷ s ∷ m ∷ []) =
    some (record { link_id = i; link_data = d; link_type = t; tos = s; metric = m })
link_of _ = none

unfoldable pub link_to_bytes : RouterLsaLink → Option Bytes
unfolding generate_to_bytes
link_to_bytes l = generate_to_bytes (link_fields l)

unfoldable pub link_from_buf : Bytes → Option (RouterLsaLink × Bytes)
unfolding generate_from_buf link_of
link_from_buf bs = do (vs, rest) ← generate_from_buf link_sizes bs; l ← link_of vs; some (l, rest)
