-- ===== src/Packet/Order.antt =====
-- ospf-packet/src/lsa.rs, `impl Ord for LsaHeader`: "the greater the newer".
pub mod Newer
use rust_ospfd.Prelude.{
  ℕ, Bool, true, false, ◌==◌, not, leb, ◌≡◌, arith, if◌then◌else◌, ◌+◌, ◌-◌, compare, Ordering,
}
use rust_ospfd.Prelude.Int.{ℤ, compare_ℤ}
use rust_ospfd.Packet.Lsa.{LsaHeader, lsa_max_age, max_age_diff}

-- `u16::abs_diff`
abbrev pub abs_diff : ℕ → ℕ → ℕ
abs_diff a b = (a - b) + (b - a)

abbrev pub is_eq : Ordering → Bool
is_eq Ordering.eq = true
is_eq _ = false

abbrev pub is_lt : Ordering → Bool
is_lt Ordering.lt = true
is_lt _ = false

-- The part of `cmp` that looks at the ages.
unfoldable pub cmp_age : ℕ → ℕ → Ordering
cmp_age a b =
    if a == b
    then Ordering.eq
    else if a == lsa_max_age
    then Ordering.gt
    else if b == lsa_max_age
    then Ordering.lt
    else if leb max_age_diff (abs_diff a b)
    then compare b a
    else Ordering.eq

unfoldable pub cmp : LsaHeader → LsaHeader → Ordering
cmp a b =
    let seq = compare_ℤ a.ls_sequence_number b.ls_sequence_number in
    let sum = compare a.ls_checksum b.ls_checksum in
    if not (is_eq seq) then seq else if not (is_eq sum) then sum else cmp_age a.ls_age b.ls_age

-- `impl PartialEq`, and `>=` of the derived comparison operators.
unfoldable pub header_eq : LsaHeader → LsaHeader → Bool
header_eq a b = is_eq (cmp a b)

unfoldable pub header_ge : LsaHeader → LsaHeader → Bool
header_ge a b = not (is_lt (cmp a b))

abbrev pub reverse_ordering : Ordering → Ordering
reverse_ordering Ordering.lt = Ordering.gt
reverse_ordering Ordering.eq = Ordering.eq
reverse_ordering Ordering.gt = Ordering.lt

cmp_age-reverse : (a b : ℕ) → cmp_age b a ≡ reverse_ordering (cmp_age a b)
unfolding cmp_age
cmp_age-reverse a b = ground arith

compare_ℤ-reverse : (a b : ℤ) → compare_ℤ b a ≡ reverse_ordering (compare_ℤ a b)
compare_ℤ-reverse a b = ground arith

-- The order of headers is antisymmetric: comparing them the other way round gives the reverse.
pub cmp-reverse : (a b : LsaHeader) → cmp b a ≡ reverse_ordering (cmp a b)
unfolding cmp
cmp-reverse a b = ground (
  arith,
  cmp_age-reverse a.ls_age b.ls_age,
  compare_ℤ-reverse a.ls_sequence_number b.ls_sequence_number,
)
