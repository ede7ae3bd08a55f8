-- ===== src/Packet/Macros.antt =====
-- ospf-macros/src/decorator.rs: the code that `#[raw_packet]` derives for a struct, as functions of
-- the struct's fields in their order. A field that is a number stands for a `Data` field, after
-- `PrimitiveInteger::to_u128`.
use rust_ospfd.Prelude.{ℕ, zero, suc, List, [], ◌∷◌, Option, some, none, ◌>>=◌}
use rust_ospfd.Packet.Lsa.{Ipv4Addr}
use rust_ospfd.Packet.Bits.{
  Bytes, BitsMut, empty_bits, put_un, extend_from_slice, Bits, bits_of, get_un, octets,
  ipv4_from_buf,
}

-- `BitSize`, with the field's value (`vec` the bytes of the vector).
pub data Field : Type 0 where
  num : ℕ → ℕ → Field
  zeros : ℕ → Field
  vec : Bytes → Field
  ipv4 : Ipv4Addr → Field

-- The statement that `generate_to_bytes` makes for a field.
unfoldable pub put_field : Field → BitsMut → Option BitsMut
unfolding put_un extend_from_slice octets
put_field (num n v) s = put_un v n s
put_field (zeros n) s = put_un 0 n s
put_field (vec bs) s = extend_from_slice bs s
put_field (ipv4 a) s = extend_from_slice (octets a) s

unfoldable pub put_fields : List Field → BitsMut → Option BitsMut
unfolding put_field
put_fields [] s = some s
put_fields (f ∷ fs) s = do s' ← put_field f s; put_fields fs s'

-- `generate_to_bytes`
unfoldable pub generate_to_bytes : List Field → Option Bytes
unfolding put_fields
generate_to_bytes fs = do s ← put_fields fs empty_bits; some s.buf

-- `BitSize` without a value. A `Vec` field reads nothing when the struct is first built.
pub data Size : Type 0 where
  num_size : ℕ → Size
  zeros_size : ℕ → Size
  ipv4_size : Size

-- The expression that `generate_from_buf` makes for a field; a field of zeros gives no value.
unfoldable pub get_fields : List Size → Bits → Option (List ℕ × Bits)
unfolding get_un ipv4_from_buf
get_fields [] s = some ([], s)
get_fields (num_size n ∷ fs) s = do (v, t) ← get_un n s; (vs, u) ← get_fields fs t; some (v ∷ vs, u)
get_fields (zeros_size n ∷ fs) s = do (v, t) ← get_un n s; get_fields fs t
get_fields (ipv4_size ∷ fs) s = do
  (a, buf) ← ipv4_from_buf s.buf
  (vs, u) ← get_fields fs (record s { buf = buf })
  some (a ∷ vs, u)

-- The part of `generate_from_buf` that reads the fields other than vectors.
unfoldable pub generate_from_buf : List Size → Bytes → Option (List ℕ × Bytes)
unfolding get_fields
generate_from_buf fs bs = do (vs, s) ← get_fields fs (bits_of bs); some (vs, s.buf)

module _ {A : Type 0} (from_buf : Bytes → Option (A × Bytes)) where
  -- `for _ in 0..size { vec.push(T::from_buf(buf)); }`
  unfoldable pub get_vec : ℕ → Bytes → Option (List A × Bytes)
  get_vec zero bs = some ([], bs)
  get_vec (suc n) bs = do (a, bs1) ← from_buf bs; (as', bs2) ← get_vec n bs1; some (a ∷ as', bs2)

  -- `while buf.has_remaining() { vec.push(T::from_buf(buf)); }`, on fuel: each item takes a byte.
  unfoldable pub get_rest : ℕ → Bytes → Option (List A × Bytes)
  get_rest fuel [] = some ([], [])
  get_rest zero (b ∷ bs) = none
  get_rest (suc fuel) (b ∷ bs) = do
    (a, bs1) ← from_buf (b ∷ bs)
    (as', bs2) ← get_rest fuel bs1
    some (a ∷ as', bs2)
