-- ===== src/Packet/Codec/LsaTrip.antt =====
-- The round trip of a whole LSA, and of `LsaData` at the type that its header names.
use mathlib.Core.List.{append-nil}
use mathlib.Core.Option.{some-injective}
use rust_ospfd.Prelude.{
  ℕ, [], ◌++◌, some, ◌≡◌, refl, arith, ◌+◌, ◌-◌, length, Option-cases, inl, inr, leb, true,
  take-append, drop-append,
}
use rust_ospfd.Packet.Lsa.{
  LsaData, router, network, summary_ip, summary_asbr, as_external, Lsa, router_lsa, network_lsa,
  summary_ip_lsa, summary_asbr_lsa, as_external_lsa,
}
use rust_ospfd.Packet.Bits.{Bytes, octets}
use rust_ospfd.Packet.Codec.Header.{
  HeaderFits, header_then, header_to_bytes_lem, header_from_buf-then,
}
use rust_ospfd.Packet.Codec.Bodies.{router_from_buf, summary_from_buf, external_from_buf}
use rust_ospfd.Packet.Codec.Whole.{body_to_bytes, body_from_buf, lsa_to_bytes, lsa_from_buf}
use rust_ospfd.Packet.Codec.RoundTrip.{
  RouterFits, NetworkFits, SummaryFits, ExternalFits, router_back, network_back, summary_back,
  external_back,
}

abbrev pub BodyFits : LsaData → Type 0
BodyFits (router l) = RouterFits l
BodyFits (network l) = NetworkFits l
BodyFits (summary_ip l) = SummaryFits l
BodyFits (summary_asbr l) = SummaryFits l
BodyFits (as_external l) = ExternalFits l

-- The type under which a body is read.
abbrev pub type_of : LsaData → ℕ
type_of (router l) = router_lsa
type_of (network l) = network_lsa
type_of (summary_ip l) = summary_ip_lsa
type_of (summary_asbr l) = summary_asbr_lsa
type_of (as_external l) = as_external_lsa

body_back :
    (d : LsaData) (b : Bytes)
    → BodyFits d
    → body_to_bytes d ≡ some b
    → body_from_buf (type_of d) b ≡ some (d, [])
unfolding body_to_bytes body_from_buf
body_back (router l) b f e =
    let p : router_from_buf b ≡ some (l, []) = rw append-nil at (router_back l b [] f e) in rw p
body_back (network l) b f e = rw (network_back l b f e)
body_back (summary_ip l) b f e =
    let p : summary_from_buf b ≡ some (l, []) = rw append-nil at (summary_back l b [] f e) in rw p
body_back (summary_asbr l) b f e =
    let p : summary_from_buf b ≡ some (l, []) = rw append-nil at (summary_back l b [] f e) in rw p
body_back (as_external l) b f e =
    let p : external_from_buf b ≡ some (l, []) = rw append-nil at (external_back l b [] f e) in rw p

-- An LSA whose fields are in range, and whose header says the type of its body and its length.
pub record LsaFits (l : Lsa) : Type 0 where
  pub header : HeaderFits l.header
  pub body : BodyFits l.body
  pub typed : l.header.ls_type ≡ type_of l.body

lsa_from_buf-then :
    (l : Lsa) (body r : Bytes)
    → LsaFits l
    → body_to_bytes l.body ≡ some body
    → l.header.length ≡ 20 + length body
    → lsa_from_buf (header_then l.header (body ++ r)) ≡ some (l, r)
unfolding lsa_from_buf
lsa_from_buf-then l body r f e len =
    let long : leb 20 l.header.length ≡ true = ground arith in
    let rest : l.header.length - 20 ≡ length body = omega arith in
    rw (header_from_buf-then l.header (body ++ r) f.header) (
      rw
        (
          long,
          rest,
          take-append body r,
          f.typed,
          body_back l.body body f.body e,
          drop-append body r,
        )
        refl)

-- An LSA whose fields are in the range of their types, whose header names the type of its body and
-- the number of bytes that `to_bytes` writes, and whose counts agree with its lists, is read back
-- from what was written, with anything behind it left over.
pub lsa_from_buf-to_bytes :
    (l : Lsa) (bs r : Bytes)
    → LsaFits l
    → lsa_to_bytes l ≡ some bs
    → l.header.length ≡ length bs
    → lsa_from_buf (bs ++ r) ≡ some (l, r)
unfolding lsa_to_bytes octets
lsa_from_buf-to_bytes l bs r f e len = elim (Option-cases (body_to_bytes l.body)) [
  | inl q ↦ absurd (cc (rw (header_to_bytes_lem l.header, q) at e))
  | inr (body, q) ↦
      let p : header_then l.header body ≡ bs =
        some-injective _ _ (rw (header_to_bytes_lem l.header, q) at e) in
      let n : l.header.length ≡ length (header_then l.header body) = rw (← p) at len in
      rw (← p) (lsa_from_buf-then l body r f q (omega arith))
]
