-- ===== src/Packet/Checksum/Verified.antt =====
-- A computed checksum verifies.
use rust_ospfd.Prelude.{
  ℕ, true, [], ◌∷◌, ◌++◌, some, ◌≡◌, refl, arith, ◌<◌, ◌≤◌, ◌+◌, ◌-◌, ◌*◌, ◌%◌, ◌/◌, ◌^◌, length,
  ap, ◌∙◌,
}
use native.Mathlib.Nat.{zero-mul}
use rust_ospfd.Packet.Lsa.{LsaHeader, Lsa}
use rust_ospfd.Packet.Bits.{Bytes, octets, i32_to_u128}
use rust_ospfd.Packet.Codec.Width.{byte_at}
use rust_ospfd.Packet.Codec.Header.{header_then, header_to_bytes_lem}
use rust_ospfd.Packet.Codec.Whole.{body_to_bytes, lsa_to_bytes}
use rust_ospfd.Packet.Checksum.{
  fletcher, check_byte, check_bytes, checksum, checksum_ok, update_checksum,
}

-- Two runs of the loop over the same bytes: a difference of the first sums stays, and adds up in the
-- second.
fletcher_shift :
    (bs : Bytes) (a0 a1 b0 b1 d e : ℕ)
    → b0 % 255 ≡ (a0 + d) % 255
    → b1 % 255 ≡ (a1 + e) % 255
    → ((fletcher b0 b1 bs).0 % 255 ≡ ((fletcher a0 a1 bs).0 + d) % 255)
      × ((fletcher b0 b1 bs).1 % 255 ≡ ((fletcher a0 a1 bs).1 + (e + length bs * d)) % 255)
unfolding fletcher
fletcher_shift [] a0 a1 b0 b1 d e p q = (p, omega arith)
fletcher_shift (x ∷ bs) a0 a1 b0 b1 d e p q =
    let h =
      fletcher_shift bs ((a0 + x) % 255) ((a1 + (a0 + x) % 255) % 255) ((b0 + x) % 255)
        ((b1 + (b0 + x) % 255) % 255) d (e + d) (omega arith) (omega arith) in
    (h.0, omega (arith, h.1))

fletcher_lt :
    (bs : Bytes) (a0 a1 : ℕ)
    → a0 < 255
    → a1 < 255
    → ((fletcher a0 a1 bs).0 < 255) × ((fletcher a0 a1 bs).1 < 255)
unfolding fletcher
fletcher_lt [] a0 a1 p q = (p, q)
fletcher_lt (x ∷ bs) a0 a1 p q = fletcher_lt bs _ _ (omega arith) (omega arith)

-- What a check byte is modulo 255.
check_byte-mod :
    (a b : ℕ)
    → b < 2 ^ 31
    → ((check_byte a b + b) % 255 ≡ a % 255) × (0 < check_byte a b) × (check_byte a b ≤ 255)
unfolding check_byte
check_byte-mod a b h = ground arith

fletcher-append :
    (xs ys : Bytes) (c0 c1 : ℕ)
    → fletcher c0 c1 (xs ++ ys) ≡ fletcher (fletcher c0 c1 xs).0 (fletcher c0 c1 xs).1 ys
unfolding fletcher
fletcher-append [] ys c0 c1 = refl
fletcher-append (x ∷ xs) ys c0 c1 = fletcher-append xs ys _ _

product-lt : (m c : ℕ) → m < 2 ^ 16 → c < 255 → (m + 2) * c < 2 ^ 31
product-lt m c p q = grind arith

-- The check bytes make both sums 0 modulo 255.
check_bytes_cancel :
    (m c0 c1 x y : ℕ)
    → (x + (c0 + c1)) % 255 ≡ ((m + 2) * c0) % 255
    → (y + (m + 2) * c0) % 255 ≡ c1 % 255
    → ((c0 + (x + y)) % 255 ≡ 0) × ((c1 + (2 * x + y + m * (x + y))) % 255 ≡ 0)
check_bytes_cancel m c0 c1 x y p q =
    let t = (x + y + c0) / 255 in
    let s : x + y + c0 ≡ 255 * t = omega arith in
    (omega arith, omega (arith, ap (λ (v : ℕ). m * v) s))

two_zeros : (s : ℕ × ℕ) → s.0 ≡ 0 → s.1 ≡ 0 → s ≡ (0, 0)
two_zeros s p q = λ i. (p i, q i)

-- Two bytes that cancel the sums, taken with zeros in their place, make both sums 0.
cancel :
    (pre rest : Bytes) (x y : ℕ)
    → let c = fletcher 0 0 (pre ++ 0 ∷ 0 ∷ rest) in
      (x + (c.0 + c.1)) % 255 ≡ ((length rest + 2) * c.0) % 255
      → (y + (length rest + 2) * c.0) % 255 ≡ c.1 % 255
      → fletcher 0 0 (pre ++ x ∷ y ∷ rest) ≡ (0, 0)
cancel pre rest x y p q =
    let c = fletcher 0 0 (pre ++ 0 ∷ 0 ∷ rest) in
    let s = fletcher 0 0 pre in
    let a0 = ((s.0 + 0) % 255 + 0) % 255 in
    let a1 = ((s.1 + (s.0 + 0) % 255) % 255 + a0) % 255 in
    let b0 = ((s.0 + x) % 255 + y) % 255 in
    let b1 = ((s.1 + (s.0 + x) % 255) % 255 + b0) % 255 in
    let base : c ≡ fletcher a0 a1 rest =
      unfold fletcher in fletcher-append pre (0 ∷ 0 ∷ rest) 0 0 in
    let made : fletcher 0 0 (pre ++ x ∷ y ∷ rest) ≡ fletcher b0 b1 rest =
      unfold fletcher in fletcher-append pre (x ∷ y ∷ rest) 0 0 in
    let h = fletcher_shift rest a0 a1 b0 b1 (x + y) (2 * x + y) (omega arith) (omega arith) in
    let z = check_bytes_cancel (length rest) c.0 c.1 x y p q in
    let small = fletcher_lt rest b0 b1 (omega arith) (omega arith) in
    let f0 : c.0 ≡ (fletcher a0 a1 rest).0 = ap (λ (v : ℕ × ℕ). v.0) base in
    let f1 : c.1 ≡ (fletcher a0 a1 rest).1 = ap (λ (v : ℕ × ℕ). v.1) base in
    made
    ∙ two_zeros (fletcher b0 b1 rest) (omega (arith, h.0, z.0, small.0, f0))
        (omega (arith, h.1, z.1, small.1, f1))

-- With the computed bytes in the place of the two zeros, both sums are 0.
pub fletcher-check_bytes :
    (pre rest : Bytes) (len : ℕ)
    → len ≡ length rest + 18
    → len < 2 ^ 16
    → let c = check_bytes len (fletcher 0 0 (pre ++ 0 ∷ 0 ∷ rest)) in
      fletcher 0 0 (pre ++ c.0 ∷ c.1 ∷ rest) ≡ (0, 0)
unfolding check_bytes
fletcher-check_bytes pre rest len e lt =
    let c = fletcher 0 0 (pre ++ 0 ∷ 0 ∷ rest) in
    let plus = (len - 16) * c.0 in
    let minus = (16 - len) * c.0 in
    let n : plus ≡ (length rest + 2) * c.0 = ap (λ (v : ℕ). v * c.0) (omega arith) in
    let z : minus ≡ 0 = ap (λ (v : ℕ). v * c.0) (omega arith) ∙ zero-mul c.0 in
    let small = fletcher_lt (pre ++ 0 ∷ 0 ∷ rest) 0 0 (omega arith) (omega arith) in
    let bound = product-lt (length rest) c.0 (omega arith) small.0 in
    let kx = check_byte-mod plus (minus + c.0 + c.1) (omega arith) in
    let ky = check_byte-mod (c.1 + minus) plus (omega arith) in
    cancel pre rest (check_byte plus (minus + c.0 + c.1)) (check_byte (c.1 + minus) plus)
      (omega (arith, kx.0)) (omega (arith, ky.0))

-- The bytes of a header between the age and the checksum, and those behind the checksum.
abbrev before_sum : LsaHeader → Bytes
before_sum h =
    byte_at 0 h.options
    ∷ byte_at 0 h.ls_type
    ∷ (octets h.link_state_id
        ++ (octets h.advertising_router
            ++ (byte_at 3 (i32_to_u128 h.ls_sequence_number)
                ∷ byte_at 2 (i32_to_u128 h.ls_sequence_number)
                ∷ byte_at 1 (i32_to_u128 h.ls_sequence_number)
                ∷ byte_at 0 (i32_to_u128 h.ls_sequence_number)
                ∷ [])))

abbrev after_sum : LsaHeader → Bytes → Bytes
after_sum h body = byte_at 1 h.length ∷ byte_at 0 h.length ∷ body

lsa_bytes :
    (l : Lsa) (body : Bytes)
    → body_to_bytes l.body ≡ some body
    → lsa_to_bytes l ≡ some (header_then l.header body)
unfolding lsa_to_bytes octets
lsa_bytes l body e = rw (header_to_bytes_lem l.header, e)

-- The check bytes of an LSA with the given body.
abbrev pub sums_of : Lsa → Bytes → ℕ × ℕ
sums_of l body =
    check_bytes l.header.length
      (fletcher 0 0 (before_sum l.header ++ 0 ∷ 0 ∷ after_sum l.header body))

checksum_value :
    (l : Lsa) (body : Bytes)
    → body_to_bytes l.body ≡ some body
    → checksum l ≡ some ((sums_of l body).0 * 2 ^ 8 + (sums_of l body).1)
unfolding checksum octets
checksum_value l body e = rw (lsa_bytes l body e)

check_bytes-le :
    (len : ℕ) (c : ℕ × ℕ)
    → c.0 < 255
    → c.1 < 255
    → len < 2 ^ 16
    → 16 ≤ len
    → ((check_bytes len c).0 ≤ 255) × ((check_bytes len c).1 ≤ 255)
unfolding check_bytes
check_bytes-le len c p q h k =
    let m = len - 16 in
    let z : (16 - len) * c.0 ≡ 0 = ap (λ (v : ℕ). v * c.0) (omega arith) ∙ zero-mul c.0 in
    let b : (m + 2) * c.0 < 2 ^ 31 = product-lt m c.0 (omega arith) p in
    (
      (check_byte-mod (m * c.0) ((16 - len) * c.0 + c.0 + c.1) (omega arith)).2,
      (check_byte-mod (c.1 + (16 - len) * c.0) (m * c.0) (omega arith)).2,
    )

checksum_ok_value :
    (l : Lsa) (body : Bytes)
    → body_to_bytes l.body ≡ some body
    → fletcher 0 0 (
        before_sum l.header
        ++ byte_at 1 l.header.ls_checksum
          ∷ byte_at 0 l.header.ls_checksum
          ∷ after_sum l.header body)
      ≡ (0, 0)
    → checksum_ok l ≡ some true
unfolding checksum_ok octets
checksum_ok_value l body e z = rw (lsa_bytes l body e) (rw z)

-- The LSA that `update_checksum` leaves.
abbrev pub with_sum : Lsa → ℕ → Lsa
with_sum l c = record l { header = record l.header { ls_checksum = c } }

-- `update_checksum` succeeds, and `checksum_ok` accepts what it leaves, for every LSA whose body
-- can be written and whose header has the right length, below 2 ^ 16.
pub checksum_ok-update_checksum :
    (l : Lsa) (body : Bytes)
    → body_to_bytes l.body ≡ some body
    → l.header.length ≡ 20 + length body
    → l.header.length < 2 ^ 16
    → (l' : Lsa) × (update_checksum l ≡ some l') × (checksum_ok l' ≡ some true)
unfolding update_checksum
checksum_ok-update_checksum l body e len lt =
    let c = sums_of l body in
    let l' = with_sum l (c.0 * 2 ^ 8 + c.1) in
    let zeroed = before_sum l.header ++ 0 ∷ 0 ∷ after_sum l.header body in
    let small = fletcher_lt zeroed 0 0 (omega arith) (omega arith) in
    let le =
      check_bytes-le l.header.length (fletcher 0 0 zeroed) small.0 small.1 lt (omega arith) in
    let hi : byte_at 1 (c.0 * 2 ^ 8 + c.1) ≡ c.0 = omega arith in
    let lo : byte_at 0 (c.0 * 2 ^ 8 + c.1) ≡ c.1 = omega arith in
    (
      l',
      rw (checksum_value l body e),
      checksum_ok_value l' body e (
          rw (hi, lo)
            (fletcher-check_bytes (before_sum l.header) (after_sum l.header body) l.header.length
              (omega arith) lt)),
    )
