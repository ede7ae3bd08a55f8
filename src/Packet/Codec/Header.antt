-- ===== src/Packet/Codec/Header.antt =====
-- An LSA header is read back as it was written.
use rust_ospfd.Prelude.{[], ◌∷◌, ◌++◌, some, ◌≡◌, refl, ap, arith, ◌<◌, ◌^◌, ◌%◌}
use rust_ospfd.Prelude.Int.{ℤ, pos, negsuc}
use rust_ospfd.Packet.Lsa.{LsaHeader}
use rust_ospfd.Packet.Bits.{Bytes, octets, i32_to_u128, i32_from_u128}
use rust_ospfd.Packet.Codec.Width.{byte_at, four_bytes, two_bytes, one_byte, low_four}
use rust_ospfd.Packet.Codec.{header_to_bytes, header_from_buf}

-- The value of an `i32`.
abbrev pub FitsI32 : ℤ → Type 0
FitsI32 (pos n) = n < 2 ^ 31
FitsI32 (negsuc n) = n < 2 ^ 31

-- Every field is in the range of its type.
pub record HeaderFits (h : LsaHeader) : Type 0 where
  pub age : h.ls_age < 2 ^ 16
  pub options : h.options < 2 ^ 8
  pub ls_type : h.ls_type < 2 ^ 8
  pub id : h.link_state_id < 2 ^ 32
  pub router : h.advertising_router < 2 ^ 32
  pub seq : FitsI32 h.ls_sequence_number
  pub sum : h.ls_checksum < 2 ^ 16
  pub len : h.length < 2 ^ 16

-- The twenty bytes of a header, with what follows them.
abbrev pub header_then : LsaHeader → Bytes → Bytes
header_then h r =
    byte_at 1 h.ls_age
    ∷ byte_at 0 h.ls_age
    ∷ byte_at 0 h.options
    ∷ byte_at 0 h.ls_type
    ∷ (octets h.link_state_id
        ++ (octets h.advertising_router
            ++ (byte_at 3 (i32_to_u128 h.ls_sequence_number)
                ∷ byte_at 2 (i32_to_u128 h.ls_sequence_number)
                ∷ byte_at 1 (i32_to_u128 h.ls_sequence_number)
                ∷ byte_at 0 (i32_to_u128 h.ls_sequence_number)
                ∷ byte_at 1 h.ls_checksum
                ∷ byte_at 0 h.ls_checksum
                ∷ byte_at 1 h.length
                ∷ byte_at 0 h.length
                ∷ r)))

pub header_to_bytes_lem : (h : LsaHeader) → header_to_bytes h ≡ some (header_then h [])
unfolding header_to_bytes octets
header_to_bytes_lem h = refl

i32_low_roundtrip : (z : ℤ) → FitsI32 z → i32_from_u128 (i32_to_u128 z % 2 ^ 32) ≡ z
unfolding i32_to_u128 i32_from_u128
i32_low_roundtrip (pos n) h = ground arith
i32_low_roundtrip (negsuc n) h = ground arith

-- An LSA header whose fields are in the range of their types is read back from its twenty bytes,
-- highest byte of each field first, and what stands behind them is left.
pub header_from_buf-then :
    (h : LsaHeader) (r : Bytes) → HeaderFits h → header_from_buf (header_then h r) ≡ some (h, r)
unfolding header_from_buf octets
header_from_buf-then h r f =
    rw
      (
        two_bytes h.ls_age f.age,
        one_byte h.options f.options,
        one_byte h.ls_type f.ls_type,
        four_bytes h.link_state_id f.id,
        four_bytes h.advertising_router f.router,
        two_bytes h.ls_checksum f.sum,
        two_bytes h.length f.len,
        low_four (i32_to_u128 h.ls_sequence_number),
      )
      (ap (λ z. some (record h { ls_sequence_number = z }, r))
        (i32_low_roundtrip h.ls_sequence_number f.seq))
