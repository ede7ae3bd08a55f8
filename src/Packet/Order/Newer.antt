-- ===== src/Packet/Order/Newer.antt =====
-- What `cmp` on headers says of two instances of an LSA, and where it is no order.
use rust_ospfd.Prelude.{ℕ, ◌≡◌, ◌≢◌, ◌↔◌, ◌⊎◌, arith, ◌<◌, ◌≤◌, ◌+◌, Ordering}
use rust_ospfd.Packet.Lsa.{LsaHeader, lsa_max_age, max_age_diff}
use rust_ospfd.Packet.Order.{cmp, cmp_age, abs_diff}

-- Ages that count as one: equal, or both short of `LsaMaxAge` and less than `MaxAgeDiff` apart.
abbrev pub SameAge : ℕ → ℕ → Type 0
SameAge a b = (a ≡ b) ⊎ ((a ≢ lsa_max_age) × (b ≢ lsa_max_age) × (abs_diff a b < max_age_diff))

cmp_age-SameAge : (a b : ℕ) → SameAge a b → cmp_age a b ≡ Ordering.eq
unfolding cmp_age
cmp_age-SameAge a b h = ground arith

SameAge-cmp_age : (a b : ℕ) → cmp_age a b ≡ Ordering.eq → SameAge a b
unfolding cmp_age
SameAge-cmp_age a b h = ground arith

-- As the code compares them, two headers are equal exactly when sequence number and checksum agree
-- and the ages count as one: they are equal, or neither is LsaMaxAge and they differ by less than
-- MaxAgeDiff. So ages that differ by exactly MaxAgeDiff do not count as one, although the comment
-- in the code says that only a greater difference decides.
pub cmp-eq_iff :
    (a b : LsaHeader)
    → (cmp a b ≡ Ordering.eq) ↔ (
        (a.ls_sequence_number ≡ b.ls_sequence_number)
        × (a.ls_checksum ≡ b.ls_checksum)
        × SameAge a.ls_age b.ls_age)
unfolding cmp
cmp-eq_iff a b = (
  λ h. (
    ground (arith, SameAge-cmp_age a.ls_age b.ls_age),
    ground (arith, SameAge-cmp_age a.ls_age b.ls_age),
    SameAge-cmp_age a.ls_age b.ls_age (ground arith),
  ),
  λ h. ground (arith, cmp_age-SameAge a.ls_age b.ls_age h.2),
)

abbrev pub at_age : LsaHeader → ℕ → LsaHeader
at_age h a = record h { ls_age = a }

-- Equality of headers is not transitive: of three that differ only in the ages x, y and z, in this
-- order and below LsaMaxAge, with x and y, and y and z, less than MaxAgeDiff apart, but x and z
-- not, the first equals the second and the second the third, while the first is newer than the
-- third.
pub cmp_intransitive :
    (h : LsaHeader) (x y z : ℕ)
    → x ≤ y
    → y ≤ z
    → z < lsa_max_age
    → y < x + max_age_diff
    → z < y + max_age_diff
    → x + max_age_diff ≤ z
    → (cmp (at_age h x) (at_age h y) ≡ Ordering.eq)
      × (cmp (at_age h y) (at_age h z) ≡ Ordering.eq)
      × (cmp (at_age h x) (at_age h z) ≡ Ordering.gt)
unfolding cmp cmp_age
cmp_intransitive h x y z a b c d e f =
    (outer x y (omega arith) (omega arith), outer y z (omega arith) (omega arith), ground arith)
  where
    outer :
        (u v : ℕ)
        → abs_diff u v < 900
        → (u < 3600) × (v < 3600)
        → cmp (at_age h u) (at_age h v) ≡ Ordering.eq
    outer u v p q = ground arith
