-- ===== src/Packet/Codec/Bodies.antt =====
-- The bodies of LSAs of ospf-packet/src/lsa.rs, encoded and decoded.
use rust_ospfd.Prelude.{ℕ, List, [], ◌∷◌, Option, some, none, ◌>>=◌, length}
use rust_ospfd.Packet.Lsa.{
  Ipv4Addr, RouterLsaLink, RouterLsa, NetworkLsa, SummaryLsa, AsExternalLsa,
}
use rust_ospfd.Packet.Bits.{Bytes, ipv4_from_buf}
use rust_ospfd.Packet.Macros.{
  Field, num, zeros, vec, ipv4, Size, num_size, zeros_size, ipv4_size, generate_to_bytes,
  generate_from_buf, get_vec, get_rest,
}
use rust_ospfd.Packet.Codec.{vec_to_bytes, ipv4_to_bytes, link_to_bytes, link_from_buf}

-- `RouterLSA`
abbrev pub router_fields : RouterLsa → Bytes → List Field
router_fields l links =
    zeros 5 ∷ num 1 l.v ∷ num 1 l.e ∷ num 1 l.b ∷ zeros 8 ∷ num 16 l.num_links ∷ vec links ∷ []

abbrev pub router_sizes : List Size
router_sizes = zeros_size 5 ∷ num_size 1 ∷ num_size 1 ∷ num_size 1 ∷ zeros_size 8 ∷ num_size 16 ∷ []

unfoldable pub router_of : List ℕ → List RouterLsaLink → Option RouterLsa
router_of (v ∷ e ∷ b ∷ n ∷ []) links =
    some (record { v = v; e = e; b = b; num_links = n; links = links })
router_of _ links = none

unfoldable pub router_to_bytes : RouterLsa → Option Bytes
unfolding generate_to_bytes
router_to_bytes l = do
  links ← vec_to_bytes link_to_bytes l.links
  generate_to_bytes (router_fields l links)

unfoldable pub router_from_buf : Bytes → Option (RouterLsa × Bytes)
unfolding generate_from_buf router_of
router_from_buf bs = do
  (vs, body) ← generate_from_buf router_sizes bs
  l ← router_of vs []
  (links, rest) ← get_vec link_from_buf l.num_links body
  some (record l { links = links }, rest)

-- `NetworkLSA`
unfoldable pub network_to_bytes : NetworkLsa → Option Bytes
unfolding generate_to_bytes vec_to_bytes
network_to_bytes l = do
  routers ← vec_to_bytes ipv4_to_bytes l.attached_routers
  generate_to_bytes (ipv4 l.network_mask ∷ vec routers ∷ [])

unfoldable pub network_of : List ℕ → List Ipv4Addr → Option NetworkLsa
network_of (m ∷ []) routers = some (record { network_mask = m; attached_routers = routers })
network_of _ routers = none

unfoldable pub network_from_buf : Bytes → Option (NetworkLsa × Bytes)
unfolding generate_from_buf network_of
network_from_buf bs = do
  (vs, body) ← generate_from_buf (ipv4_size ∷ []) bs
  (routers, rest) ← get_rest ipv4_from_buf (length body) body
  l ← network_of vs routers
  some (l, rest)

-- `SummaryLSA`
unfoldable pub summary_to_bytes : SummaryLsa → Option Bytes
unfolding generate_to_bytes
summary_to_bytes l = generate_to_bytes (ipv4 l.network_mask ∷ zeros 8 ∷ num 24 l.metric ∷ [])

unfoldable pub summary_of : List ℕ → Option SummaryLsa
summary_of (m ∷ c ∷ []) = some (record { network_mask = m; metric = c })
summary_of _ = none

unfoldable pub summary_from_buf : Bytes → Option (SummaryLsa × Bytes)
unfolding generate_from_buf summary_of
summary_from_buf bs = do
  (vs, rest) ← generate_from_buf (ipv4_size ∷ zeros_size 8 ∷ num_size 24 ∷ []) bs
  l ← summary_of vs
  some (l, rest)

-- `AsExternalLSA`
unfoldable pub external_to_bytes : AsExternalLsa → Option Bytes
unfolding generate_to_bytes
external_to_bytes l = generate_to_bytes (
    ipv4 l.network_mask
    ∷ num 1 l.e
    ∷ zeros 7
    ∷ num 24 l.metric
    ∷ ipv4 l.forwarding_address
    ∷ num 32 l.external_router_tag
    ∷ [])

unfoldable pub external_of : List ℕ → Option AsExternalLsa
external_of (m ∷ e ∷ c ∷ f ∷ t ∷ []) = some (record {
  network_mask = m;
  e = e;
  metric = c;
  forwarding_address = f;
  external_router_tag = t;
})
external_of _ = none

abbrev pub external_sizes : List Size
external_sizes = ipv4_size ∷ num_size 1 ∷ zeros_size 7 ∷ num_size 24 ∷ ipv4_size ∷ num_size 32 ∷ []

unfoldable pub external_from_buf : Bytes → Option (AsExternalLsa × Bytes)
unfolding generate_from_buf external_of
external_from_buf bs = do
  (vs, rest) ← generate_from_buf external_sizes bs
  l ← external_of vs
  some (l, rest)
