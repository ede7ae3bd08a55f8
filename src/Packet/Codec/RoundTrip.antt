-- ===== src/Packet/Codec/RoundTrip.antt =====
-- Every LSA is read back as it was written, with its header's type and length.
use rust_ospfd.Prelude.{
  ℕ, [], ◌∷◌, ◌++◌, some, ◌≡◌, refl, sym, ◌∙◌, arith, ◌<◌, ◌^◌, ◌+◌, ◌*◌, ◌%◌, ◌/◌, length, All,
  Option-cases, inl, inr,
}
use mathlib.Core.Option.{some-injective}
use rust_ospfd.Packet.Lsa.{
  Ipv4Addr, RouterLsaLink, RouterLsa, NetworkLsa, SummaryLsa, AsExternalLsa,
}
use rust_ospfd.Packet.Bits.{Bytes, octets, ipv4_from_buf}
use rust_ospfd.Packet.Macros.{generate_to_bytes, ipv4, vec}
use rust_ospfd.Packet.Codec.{vec_to_bytes, ipv4_to_bytes, link_to_bytes, link_from_buf}
use rust_ospfd.Packet.Codec.Width.{
  byte_at, four_bytes, two_bytes, one_byte, three_bytes, word_bytes,
}
use rust_ospfd.Packet.Codec.Bodies.{
  summary_to_bytes, summary_from_buf, external_to_bytes, external_from_buf, router_to_bytes,
  router_from_buf, network_to_bytes, network_from_buf, router_fields,
}
use rust_ospfd.Packet.Codec.Vectors.{get_vec-vec_to_bytes, get_rest-vec_to_bytes}

pub record LinkFits (l : RouterLsaLink) : Type 0 where
  pub id : l.link_id < 2 ^ 32
  pub body : l.link_data < 2 ^ 32
  pub ty : l.link_type < 2 ^ 8
  pub tos : l.tos < 2 ^ 8
  pub metric : l.metric < 2 ^ 16

pub record RouterFits (l : RouterLsa) : Type 0 where
  pub v : l.v < 2
  pub e : l.e < 2
  pub b : l.b < 2
  pub count : l.num_links < 2 ^ 16
  -- The field agrees with the list.
  pub counted : l.num_links ≡ length l.links
  pub links : All LinkFits l.links

pub record NetworkFits (l : NetworkLsa) : Type 0 where
  pub mask : l.network_mask < 2 ^ 32
  pub routers : All (λ a. a < 2 ^ 32) l.attached_routers

pub record SummaryFits (l : SummaryLsa) : Type 0 where
  pub mask : l.network_mask < 2 ^ 32
  pub metric : l.metric < 2 ^ 24

pub record ExternalFits (l : AsExternalLsa) : Type 0 where
  pub mask : l.network_mask < 2 ^ 32
  pub e : l.e < 2
  pub metric : l.metric < 2 ^ 24
  pub forwarding : l.forwarding_address < 2 ^ 32
  pub tag : l.external_router_tag < 2 ^ 32

abbrev link_then : RouterLsaLink → Bytes → Bytes
link_then l r =
    octets l.link_id
    ++ (octets l.link_data
        ++ (byte_at 0 l.link_type ∷ byte_at 0 l.tos ∷ byte_at 1 l.metric ∷ byte_at 0 l.metric ∷ r))

link_to_bytes_lem : (l : RouterLsaLink) → link_to_bytes l ≡ some (link_then l [])
unfolding link_to_bytes octets
link_to_bytes_lem l = refl

pub link_back :
    (l : RouterLsaLink) (b r : Bytes)
    → LinkFits l
    → link_to_bytes l ≡ some b
    → link_from_buf (b ++ r) ≡ some (l, r)
unfolding link_from_buf octets
link_back l b r f e =
    let p : link_then l [] ≡ b = some-injective _ _ (sym (link_to_bytes_lem l) ∙ e) in
    rw (← p) (
      rw (
        four_bytes l.link_id f.id,
        four_bytes l.link_data f.body,
        one_byte l.link_type f.ty,
        one_byte l.tos f.tos,
        two_bytes l.metric f.metric,
      ))

pub ipv4_back :
    (a : Ipv4Addr) (b r : Bytes)
    → a < 2 ^ 32
    → ipv4_to_bytes a ≡ some b
    → ipv4_from_buf (b ++ r) ≡ some (a, r)
unfolding ipv4_from_buf octets
ipv4_back a b r f e = let p : octets a ≡ b = some-injective _ _ e in rw (← p) (rw (four_bytes a f))

pub ipv4-nonempty : (a : Ipv4Addr) (b : Bytes) → ipv4_to_bytes a ≡ some b → 0 < length b
unfolding octets
ipv4-nonempty a b e = let p : octets a ≡ b = some-injective _ _ e in rw (← p) (omega arith)

abbrev summary_bytes : SummaryLsa → Bytes
summary_bytes l =
    octets l.network_mask ++ 0 ∷ byte_at 2 l.metric ∷ byte_at 1 l.metric ∷ byte_at 0 l.metric ∷ []

summary_to_bytes_lem : (l : SummaryLsa) → summary_to_bytes l ≡ some (summary_bytes l)
unfolding summary_to_bytes octets
summary_to_bytes_lem l = refl

pub summary_back :
    (l : SummaryLsa) (b r : Bytes)
    → SummaryFits l
    → summary_to_bytes l ≡ some b
    → summary_from_buf (b ++ r) ≡ some (l, r)
unfolding summary_from_buf octets
summary_back l b r f e =
    let p : summary_bytes l ≡ b = some-injective _ _ (sym (summary_to_bytes_lem l) ∙ e) in
    rw (← p) (rw (four_bytes l.network_mask f.mask, three_bytes l.metric f.metric))

abbrev external_bytes : AsExternalLsa → Bytes
external_bytes l =
    octets l.network_mask
    ++ (l.e / 2 ^ 0 % 2 * 128)
      ∷ byte_at 2 l.metric
      ∷ byte_at 1 l.metric
      ∷ byte_at 0 l.metric
      ∷ (octets l.forwarding_address
          ++ byte_at 3 l.external_router_tag
            ∷ byte_at 2 l.external_router_tag
            ∷ byte_at 1 l.external_router_tag
            ∷ byte_at 0 l.external_router_tag
            ∷ [])

external_to_bytes_lem : (l : AsExternalLsa) → external_to_bytes l ≡ some (external_bytes l)
unfolding external_to_bytes octets
external_to_bytes_lem l = ground arith

pub external_back :
    (l : AsExternalLsa) (b r : Bytes)
    → ExternalFits l
    → external_to_bytes l ≡ some b
    → external_from_buf (b ++ r) ≡ some (l, r)
unfolding external_from_buf octets
external_back l b r f e =
    let p : external_bytes l ≡ b = some-injective _ _ (sym (external_to_bytes_lem l) ∙ e) in
    let top : 0 * 2 + l.e / 2 ^ 0 % 2 * 128 / 2 ^ 7 % 2 ≡ l.e = omega (arith, f.e) in
    rw (← p) (
      rw (
        four_bytes l.network_mask f.mask,
        three_bytes l.metric f.metric,
        four_bytes l.forwarding_address f.forwarding,
        word_bytes l.external_router_tag f.tag,
        top,
      ))

-- The first byte of a router LSA.
abbrev flags : RouterLsa → ℕ
flags l = l.v / 2 ^ 0 % 2 * 4 + l.e / 2 ^ 0 % 2 * 2 + l.b / 2 ^ 0 % 2

abbrev router_bytes : RouterLsa → Bytes → Bytes
router_bytes l links = flags l ∷ 0 ∷ byte_at 1 l.num_links ∷ byte_at 0 l.num_links ∷ links

router_fields_lem :
    (l : RouterLsa) (links : Bytes)
    → generate_to_bytes (router_fields l links) ≡ some (router_bytes l links)
unfolding generate_to_bytes
router_fields_lem l links = ground arith

bit_v : (l : RouterLsa) → RouterFits l → 0 * 2 + flags l / 2 ^ 2 % 2 ≡ l.v
bit_v l f = omega (arith, f.v, f.e, f.b)

bit_e : (l : RouterLsa) → RouterFits l → 0 * 2 + flags l / 2 ^ 1 % 2 ≡ l.e
bit_e l f = omega (arith, f.v, f.e, f.b)

bit_b : (l : RouterLsa) → RouterFits l → 0 * 2 + flags l / 2 ^ 0 % 2 ≡ l.b
bit_b l f = omega (arith, f.v, f.e, f.b)

router_from_buf-router_bytes :
    (l : RouterLsa) (links r : Bytes)
    → RouterFits l
    → vec_to_bytes link_to_bytes l.links ≡ some links
    → router_from_buf (router_bytes l links ++ r) ≡ some (l, r)
unfolding router_from_buf
router_from_buf-router_bytes l links r f q =
    rw (bit_v l f, bit_e l f, bit_b l f, two_bytes l.num_links f.count)
      (rw
        (
          f.counted,
          get_vec-vec_to_bytes link_to_bytes link_from_buf LinkFits link_back l.links links r
              f.links q,
        )
        refl)

pub router_back :
    (l : RouterLsa) (b r : Bytes)
    → RouterFits l
    → router_to_bytes l ≡ some b
    → router_from_buf (b ++ r) ≡ some (l, r)
unfolding router_to_bytes
router_back l b r f e = elim (Option-cases (vec_to_bytes link_to_bytes l.links)) [
  | inl q ↦ absurd (cc (rw q at e))
  | inr (links, q) ↦
      let p : router_bytes l links ≡ b =
        some-injective _ _ (sym (router_fields_lem l links) ∙ (rw q at e)) in
      rw (← p) (router_from_buf-router_bytes l links r f q)
]

network_fields_lem :
    (l : NetworkLsa) (rs : Bytes)
    → generate_to_bytes (ipv4 l.network_mask ∷ vec rs ∷ []) ≡ some (octets l.network_mask ++ rs)
unfolding generate_to_bytes octets
network_fields_lem l rs = refl

network_from_buf-octets :
    (l : NetworkLsa) (rs : Bytes)
    → NetworkFits l
    → vec_to_bytes ipv4_to_bytes l.attached_routers ≡ some rs
    → network_from_buf (octets l.network_mask ++ rs) ≡ some (l, [])
unfolding network_from_buf octets
network_from_buf-octets l rs f q = rw (
  four_bytes l.network_mask f.mask,
  get_rest-vec_to_bytes ipv4_to_bytes ipv4_from_buf (λ a. a < 2 ^ 32) ipv4_back ipv4-nonempty
      l.attached_routers rs (length rs) (omega arith) f.routers q,
)

pub network_back :
    (l : NetworkLsa) (b : Bytes)
    → NetworkFits l
    → network_to_bytes l ≡ some b
    → network_from_buf b ≡ some (l, [])
unfolding network_to_bytes
network_back l b f e = elim (Option-cases (vec_to_bytes ipv4_to_bytes l.attached_routers)) [
  | inl q ↦ absurd (cc (rw q at e))
  | inr (rs, q) ↦
      let p : octets l.network_mask ++ rs ≡ b =
        some-injective _ _ (sym (network_fields_lem l rs) ∙ (rw q at e)) in
      rw (← p) (network_from_buf-octets l rs f q)
]
