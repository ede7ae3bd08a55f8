-- ===== src/Packet/Codec/Width.antt =====
-- The bytes of numbers of one to four bytes, taken apart and put together as ospf-packet/src/bits.rs
-- does.
use rust_ospfd.Prelude.{ℕ, ◌≡◌, arith, ◌<◌, ◌^◌, ◌+◌, ◌*◌, ◌%◌, ◌/◌}

-- The byte of a number at a place, counted from the lowest.
abbrev pub byte_at : ℕ → ℕ → ℕ
byte_at k n = n / 2 ^ (8 * k) % 256

abbrev pub join4 : ℕ → ℕ → ℕ → ℕ → ℕ
join4 a b c d = ((((0 * 256 + a) * 256 + b) * 256) + c) * 256 + d

pub four_bytes :
    (n : ℕ)
    → n < 2 ^ 32
    → n / 2 ^ 24 % 256 * 2 ^ 24 + n / 2 ^ 16 % 256 * 2 ^ 16 + n / 2 ^ 8 % 256 * 2 ^ 8 + n % 256 ≡ n
four_bytes n h = omega arith

pub low_four : (n : ℕ) → join4 (byte_at 3 n) (byte_at 2 n) (byte_at 1 n) (byte_at 0 n) ≡ n % 2 ^ 32
low_four n = omega arith

pub two_bytes : (n : ℕ) → n < 2 ^ 16 → (0 * 256 + byte_at 1 n) * 256 + byte_at 0 n ≡ n
two_bytes n h = omega arith

pub one_byte : (n : ℕ) → n < 2 ^ 8 → 0 * 256 + byte_at 0 n ≡ n
one_byte n h = omega arith

pub three_bytes :
    (n : ℕ) → n < 2 ^ 24 → ((0 * 256 + byte_at 2 n) * 256 + byte_at 1 n) * 256 + byte_at 0 n ≡ n
three_bytes n h = omega arith

pub word_bytes :
    (n : ℕ) → n < 2 ^ 32 → join4 (byte_at 3 n) (byte_at 2 n) (byte_at 1 n) (byte_at 0 n) ≡ n
word_bytes n h = omega arith
