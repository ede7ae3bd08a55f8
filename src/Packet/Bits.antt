-- ===== src/Packet/Bits.antt =====
-- ospf-packet/src/bits.rs: the bit writer `BitsMut`, the bit reader `Bits`, and `PrimitiveInteger`.
-- Bytes are numbers below 256. `none` is a panic: a failed `assert_eq!`, or `get_u8` on an empty
-- buffer. `a << k | b` with `b < 2 ^ k` is `a * 2 ^ k + b`. The `u128` accumulators do not overflow,
-- since no field is longer than 128 bits.
use rust_ospfd.Prelude.{
  ℕ, zero, suc, List, [], ◌∷◌, ◌++◌, Option, some, none, ◌==◌, ltb, if◌then◌else◌, ◌+◌, ◌-◌, ◌*◌,
  ◌/◌, ◌%◌, ◌^◌, ◌>>=◌, ◌>>◌, assert,
}
use rust_ospfd.Prelude.Int.{ℤ, pos, negsuc}
use rust_ospfd.Packet.Lsa.{Ipv4Addr}

abbrev pub Bytes : Type 0
Bytes = List ℕ

pub record BitsMut : Type 0 where
  pub buf : Bytes
  pub bit : ℕ
  pub byte : ℕ

-- `BitsMut::new`
abbrev pub empty_bits : BitsMut
empty_bits = record { buf = []; bit = 0; byte = 0 }

-- The whole bytes of `put_un`: the last `b` bytes of the number, the highest first.
unfoldable pub put_bytes : ℕ → ℕ → Bytes → Bytes
put_bytes zero num buf = buf
put_bytes (suc k) num buf = put_bytes k num (buf ++ (num / 2 ^ (8 * k) % 256) ∷ [])

-- One turn of the loop over bits in `put_un`.
unfoldable pub put_bit : ℕ → BitsMut → BitsMut
put_bit b s =
    let byte = (s.byte * 2 + b) % 256 in
    let bit = (s.bit + 1) % 8 in
    if bit == 0
    then record { buf = s.buf ++ byte ∷ []; bit = bit; byte = 0 }
    else record { buf = s.buf; bit = bit; byte = byte }

unfoldable pub put_bits : ℕ → ℕ → BitsMut → BitsMut
unfolding put_bit
put_bits zero num s = s
put_bits (suc k) num s = put_bits k num (put_bit (num / 2 ^ k % 2) s)

-- `BitsMut::put_un`
unfoldable pub put_un : ℕ → ℕ → BitsMut → Option BitsMut
unfolding put_bytes put_bits
put_un num n s =
    if n % 8 == 0
    then (assert (s.bit == 0) >> some (record s { buf = put_bytes (n / 8) num s.buf }))
    else some (put_bits n num s)

-- `BitsMut::extend_from_slice`
unfoldable pub extend_from_slice : Bytes → BitsMut → Option BitsMut
extend_from_slice bs s = assert (s.bit == 0) >> some (record s { buf = s.buf ++ bs })

pub record Bits : Type 0 where
  pub buf : Bytes
  pub bit : ℕ
  pub byte : ℕ

-- `Bits::from`
abbrev pub bits_of : Bytes → Bits
bits_of bs = record { buf = bs; bit = 0; byte = 0 }

-- `Buf::get_u8`
abbrev pub get_u8 : Bytes → Option (ℕ × Bytes)
get_u8 [] = none
get_u8 (b ∷ bs) = some (b, bs)

-- The whole bytes of `get_un`.
unfoldable pub get_bytes : ℕ → ℕ → Bytes → Option (ℕ × Bytes)
get_bytes zero num bs = some (num, bs)
get_bytes (suc k) num [] = none
get_bytes (suc k) num (b ∷ bs) = get_bytes k (num * 256 + b) bs

-- One turn of the loop over bits in `get_un`: the byte is fetched when none is under way.
unfoldable pub get_bit : Bits → Option (ℕ × Bits)
get_bit s = do
  (byte, buf) ← (if s.bit == 0 then get_u8 s.buf else some (s.byte, s.buf))
  some (byte / 2 ^ (7 - s.bit) % 2, record { buf = buf; bit = (s.bit + 1) % 8; byte = byte })

unfoldable pub get_bits : ℕ → ℕ → Bits → Option (ℕ × Bits)
unfolding get_bit
get_bits zero num s = some (num, s)
get_bits (suc k) num s = do (b, t) ← get_bit s; get_bits k (num * 2 + b) t

-- `Bits::get_un`, before `from_u128`.
unfoldable pub get_un : ℕ → Bits → Option (ℕ × Bits)
unfolding get_bytes get_bits
get_un n s =
    let whole : Option (ℕ × Bits) = do
      assert (s.bit == 0)
      (num, buf) ← get_bytes (n / 8) 0 s.buf
      some (num, record s { buf = buf })
    in let single = get_bits n 0 s in if n % 8 == 0 then whole else single

-- `Ipv4Addr::octets`, and `FromBuf for Ipv4Addr`.
unfoldable pub octets : Ipv4Addr → Bytes
octets a = (a / 2 ^ 24 % 256) ∷ (a / 2 ^ 16 % 256) ∷ (a / 2 ^ 8 % 256) ∷ (a % 256) ∷ []

unfoldable pub ipv4_from_buf : Bytes → Option (Ipv4Addr × Bytes)
ipv4_from_buf bs = do
  (a, b1) ← get_u8 bs
  (b, b2) ← get_u8 b1
  (c, b3) ← get_u8 b2
  (d, b4) ← get_u8 b3
  some (a * 2 ^ 24 + b * 2 ^ 16 + c * 2 ^ 8 + d, b4)

-- `PrimitiveInteger` for `i32`: `as u128` extends the sign, `as i32` keeps the low 32 bits.
unfoldable pub i32_to_u128 : ℤ → ℕ
i32_to_u128 (pos n) = n
i32_to_u128 (negsuc n) = 2 ^ 128 - (n + 1)

unfoldable pub i32_from_u128 : ℕ → ℤ
i32_from_u128 v = let w = v % 2 ^ 32 in if ltb w (2 ^ 31) then pos w else negsuc (2 ^ 32 - (w + 1))
