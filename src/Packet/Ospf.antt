-- ===== src/Packet/Ospf.antt =====
-- ospf-packet/src/lib.rs: the OSPF packet and its checksum, the one's complement of the one's
-- complement sum of its 16-bit words. `none` is a panic: a packet that ends in half a word, or before
-- its checksum.
pub mod Sum
pub mod Tested
use rust_ospfd.Prelude.{
  ℕ, zero, suc, Bool, true, false, List, [], ◌∷◌, Option, some, none, ◌≡◌, refl, sym, ap, ◌∙◌, ◌==◌,
  if◌then◌else◌, ◌+◌, ◌-◌, ◌*◌, ◌/◌, ◌%◌, ◌^◌, ◌≤◌, ◌<◌, arith, All, ◌>>=◌, Bool-cases,
  Option-cases, inl, inr,
}
use rust_ospfd.Packet.Bits.{Bytes}

-- `Ospf`
pub record Ospf : Type 0 where
  pub version : ℕ
  pub message_type : ℕ
  pub length : ℕ
  pub router_id : ℕ
  pub area_id : ℕ
  pub checksum : ℕ
  pub au_type : ℕ
  pub authentication : ℕ
  pub payload : Bytes

-- The closure of `fold`: the sum is a `u32`, of which the carry is added to the low half.
unfoldable pub add_word : ℕ → ℕ → ℕ
add_word acc e = let n = acc + e in n % 2 ^ 16 + n / 2 ^ 16

-- `packet().chunks(2).fold(..)`
unfoldable pub fold_words : ℕ → Bytes → Option ℕ
unfolding add_word
fold_words acc [] = some acc
fold_words acc (a ∷ []) = none
fold_words acc (a ∷ b ∷ bs) = fold_words (add_word acc (a * 2 ^ 8 + b)) bs

-- `set_checksum`: the field is the word after the first six.
unfoldable pub set_word : ℕ → ℕ → Bytes → Option Bytes
set_word i c [] = none
set_word i c (a ∷ []) = none
set_word zero c (a ∷ b ∷ bs) = some (c / 2 ^ 8 ∷ c % 2 ^ 8 ∷ bs)
set_word (suc i) c (a ∷ b ∷ bs) = do rest ← set_word i c bs; some (a ∷ b ∷ rest)

-- `auto_set_checksum`; the exclusive or with 0xffff is the difference.
unfoldable pub auto_set_checksum : Bytes → Option Bytes
unfolding fold_words set_word
auto_set_checksum bs = do
  zeroed ← set_word 6 0 bs
  sum ← fold_words 0 zeroed
  set_word 6 (2 ^ 16 - 1 - sum) zeroed

-- `auto_test_checksum`
unfoldable pub auto_test_checksum : Bytes → Option Bool
unfolding fold_words
auto_test_checksum bs = do sum ← fold_words 0 bs; some (sum == 2 ^ 16 - 1)
