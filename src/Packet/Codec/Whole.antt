-- ===== src/Packet/Codec/Whole.antt =====
-- `LsaData` and `Lsa` of ospf-packet/src/lsa.rs, encoded and decoded. `none` is a panic.
use rust_ospfd.Prelude.{
  ℕ, ◌++◌, Option, some, none, ◌==◌, leb, if◌then◌else◌, ◌-◌, ◌>>=◌, ◌>>◌, assert, take, drop,
  is_empty,
}
use rust_ospfd.Packet.Lsa.{
  LsaData, router, network, summary_ip, summary_asbr, as_external, Lsa, router_lsa, network_lsa,
  summary_ip_lsa, summary_asbr_lsa, as_external_lsa,
}
use rust_ospfd.Packet.Bits.{Bytes}
use rust_ospfd.Packet.Codec.{header_to_bytes, header_from_buf}
use rust_ospfd.Packet.Codec.Bodies.{
  router_to_bytes, router_from_buf, network_to_bytes, network_from_buf, summary_to_bytes,
  summary_from_buf, external_to_bytes, external_from_buf,
}

-- `ToBytesMut for LsaData`
unfoldable pub body_to_bytes : LsaData → Option Bytes
unfolding router_to_bytes network_to_bytes summary_to_bytes external_to_bytes
body_to_bytes (router l) = router_to_bytes l
body_to_bytes (network l) = network_to_bytes l
body_to_bytes (summary_ip l) = summary_to_bytes l
body_to_bytes (summary_asbr l) = summary_to_bytes l
body_to_bytes (as_external l) = external_to_bytes l

-- `ToBytesMut for Lsa`
unfoldable pub lsa_to_bytes : Lsa → Option Bytes
lsa_to_bytes l = do
  head ← header_to_bytes l.header
  body ← body_to_bytes l.body
  some (head ++ body)

-- A decoder's value under a constructor of `LsaData`.
abbrev pub as_body : {A : Type 0} → (A → LsaData) → Option (A × Bytes) → Option (LsaData × Bytes)
as_body con none = none
as_body con (some (a, rest)) = some (con a, rest)

-- The `match` on the type of `FromBuf for Lsa`; any other type is a panic.
unfoldable pub body_from_buf : ℕ → Bytes → Option (LsaData × Bytes)
unfolding router_from_buf network_from_buf summary_from_buf external_from_buf
body_from_buf ty bs =
    if ty == router_lsa
    then as_body router (router_from_buf bs)
    else if ty == network_lsa
    then as_body network (network_from_buf bs)
    else if ty == summary_ip_lsa
    then as_body summary_ip (summary_from_buf bs)
    else if ty == summary_asbr_lsa
    then as_body summary_asbr (summary_from_buf bs)
    else if ty == as_external_lsa
    then as_body as_external (external_from_buf bs)
    else none

-- `size_of_val(&header)`: the struct has no padding.
abbrev pub header_size : ℕ
header_size = 20

-- `FromBuf for Lsa`: the body takes `length - 20` bytes, or all if there are fewer, and must use
-- them up. The subtraction overflows for a shorter length.
unfoldable pub lsa_from_buf : Bytes → Option (Lsa × Bytes)
lsa_from_buf bs = do
  (h, after) ← header_from_buf bs
  assert (leb header_size h.length)
  (body, left) ← body_from_buf h.ls_type (take (h.length - header_size) after)
  assert (is_empty left)
  some (record { header = h; body = body }, drop (h.length - header_size) after)
