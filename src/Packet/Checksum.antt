-- ===== src/Packet/Checksum.antt =====
-- ospf-packet/src/lsa.rs, `Lsa::checksum`, `checksum_ok`, `update_checksum` and `update_length`: the
-- Fletcher checksum of an LSA without its age. `none` is a panic, on a buffer that is too short.
pub mod Verified
use rust_ospfd.Prelude.{
  ℕ, zero, suc, Bool, List, [], ◌∷◌, Option, some, none, ◌==◌, ltb, leb, if◌then◌else◌, ◌&&◌, ◌+◌,
  ◌-◌, ◌*◌, ◌%◌, ◌^◌, length, ◌>>=◌, drop,
}
use rust_ospfd.Packet.Lsa.{Lsa}
use rust_ospfd.Packet.Bits.{Bytes}
use rust_ospfd.Packet.Codec.Whole.{lsa_to_bytes}

-- The loop over the bytes: `c0` and `c1` modulo 255.
unfoldable pub fletcher : ℕ → ℕ → Bytes → ℕ × ℕ
fletcher c0 c1 [] = (c0, c1)
fletcher c0 c1 (b ∷ bs) = fletcher ((c0 + b) % 255) ((c1 + (c0 + b) % 255) % 255) bs

-- `buf[16] = 0; buf[17] = 0;`
abbrev pub zero_at : ℕ → Bytes → Option Bytes
zero_at i [] = none
zero_at zero (b ∷ bs) = some (0 ∷ bs)
zero_at (suc i) (b ∷ bs) = elim (zero_at i bs) [ none ↦ none | some cs ↦ some (b ∷ cs) ]

-- The remainder by 255 of a difference `a - b` of `i32`s, as the code takes it: a negative value is
-- lowered by one and read as a `u32`; and 255 stands for 0.
unfoldable pub check_byte : ℕ → ℕ → ℕ
check_byte a b =
    let r = if ltb a b then (2 ^ 32 - (b - a) - 1) % 255 else (a - b) % 255 in
    if r == 0 then 255 else r

-- The two check bytes, from the sums and the header's length. `x` is `mul - c0 - c1` and `y` is
-- `c1 - mul`; a length below 16 makes `mul` negative.
unfoldable pub check_bytes : ℕ → ℕ × ℕ → ℕ × ℕ
unfolding check_byte
check_bytes len (c0, c1) =
    let plus = (len - 16) * c0 in
    let minus = (16 - len) * c0 in (check_byte plus (minus + c0 + c1), check_byte (c1 + minus) plus)

-- `Lsa::checksum`
unfoldable pub checksum : Lsa → Option ℕ
unfolding fletcher check_bytes
checksum l = do
  bs ← lsa_to_bytes l
  b1 ← zero_at 16 bs
  b2 ← zero_at 17 b1
  let (x, y) = check_bytes l.header.length (fletcher 0 0 (drop 2 b2))
  some (x * 2 ^ 8 + y)

-- `Lsa::checksum_ok`
unfoldable pub checksum_ok : Lsa → Option Bool
unfolding fletcher
checksum_ok l = do
  bs ← lsa_to_bytes l
  let (c0, c1) = fletcher 0 0 (drop 2 bs)
  some (c0 == 0 && c1 == 0)

-- `Lsa::update_checksum`
unfoldable pub update_checksum : Lsa → Option Lsa
update_checksum l = do
  c ← checksum l
  some (record l { header = record l.header { ls_checksum = c } })

-- `Lsa::update_length`: `as u16` keeps the low 16 bits.
unfoldable pub update_length : Lsa → Option Lsa
update_length l = do
  bs ← lsa_to_bytes l
  some (record l { header = record l.header { length = length bs % 2 ^ 16 } })
