-- ===== src/Packet/Ospf/Sum.antt =====
-- The checksum of a packet (ospf-packet/src/lib.rs) after it has been set.
use mathlib.Core.Option.{some-injective}
use rust_ospfd.Prelude.{
  ℕ, zero, suc, [], ◌∷◌, some, ◌≡◌, refl, ap, ◌∙◌, ◌+◌, ◌*◌, ◌%◌, ◌^◌, ◌≤◌, ◌<◌, arith, All, ltb,
  ltb→lt, ◌⊎◌, Bool-cases, inl, inr,
}
use rust_ospfd.Packet.Bits.{Bytes}
use rust_ospfd.Packet.Ospf.{add_word, fold_words}

-- The sum of the words, without the carries.
abbrev pub words_sum : Bytes → ℕ
words_sum [] = 0
words_sum (a ∷ []) = 0
words_sum (a ∷ b ∷ bs) = a * 2 ^ 8 + b + words_sum bs

-- The one's complement sum that a sum stands for: 0 for 0 only.
abbrev pub ones_sum : ℕ → ℕ
ones_sum zero = 0
ones_sum (suc n) = 1 + n % 65535

pub ones_sum_le : (n : ℕ) → ones_sum n ≤ 65535
ones_sum_le zero = omega arith
ones_sum_le (suc n) = omega arith

ones_sum_less : (m n : ℕ) → 0 < m → n ≡ m + 65535 → ones_sum m ≡ ones_sum n
ones_sum_less zero n h e = absurd (omega arith)
ones_sum_less (suc m) zero h e = absurd (omega arith)
ones_sum_less (suc m) (suc n) h e = omega arith

-- A carry takes 65535 from the sum, or there is none.
carry-cases :
    (acc e : ℕ)
    → acc ≤ 65535
    → e ≤ 65535
    → (add_word acc e ≡ acc + e) ⊎ ((0 < add_word acc e) × (acc + e ≡ add_word acc e + 65535))
unfolding add_word
carry-cases acc e h k = elim (Bool-cases (ltb (acc + e) 65536)) [
  | inl q ↦ let lt = ltb→lt (acc + e) 65536 q in inl (omega arith)
  | inr q ↦ let ge : 65536 ≤ acc + e = ground arith in inr (omega arith, omega arith)
]

add_word-ones_sum :
    (acc e s : ℕ) → acc ≤ 65535 → e ≤ 65535 → ones_sum (add_word acc e + s) ≡ ones_sum (acc + e + s)
add_word-ones_sum acc e s h k = elim (carry-cases acc e h k) [
  | inl same ↦ rw same
  | inr (some_, more) ↦ ones_sum_less (add_word acc e + s) (acc + e + s) (omega arith) (omega arith)
]

add_word_le : (acc e : ℕ) → acc ≤ 65535 → e ≤ 65535 → add_word acc e ≤ 65535
unfolding add_word
add_word_le acc e h k = omega arith

ones_sum_small : (n : ℕ) → n ≤ 65535 → ones_sum n ≡ n
ones_sum_small zero h = refl
ones_sum_small (suc n) h = omega arith

word_le : (a b : ℕ) → a < 256 → b < 256 → a * 2 ^ 8 + b ≤ 65535
word_le a b h k = omega arith

pub fold_words-ones_sum :
    (acc : ℕ) (bs : Bytes) {r : ℕ}
    → acc ≤ 65535
    → All (λ b. b < 256) bs
    → fold_words acc bs ≡ some r
    → r ≡ ones_sum (acc + words_sum bs)
unfolding fold_words
fold_words-ones_sum acc [] {r} h k e =
    let same : acc ≡ r = some-injective _ _ e in
    let small : ones_sum (acc + 0) ≡ acc + 0 = ones_sum_small (acc + 0) (omega arith) in omega arith
fold_words-ones_sum acc (a ∷ []) h k e = absurd (cc)
fold_words-ones_sum acc (a ∷ b ∷ bs) {r} h (p, (q, k)) e =
    let w = word_le a b p q in
    let rest =
      fold_words-ones_sum (add_word acc (a * 2 ^ 8 + b)) bs {r = r}
        (add_word_le acc (a * 2 ^ 8 + b) h w) k e in
    let plus = add_word-ones_sum acc (a * 2 ^ 8 + b) (words_sum bs) h w in
    let assoc : acc + (a * 2 ^ 8 + b) + words_sum bs ≡ acc + (a * 2 ^ 8 + b + words_sum bs) =
      omega arith in
    rest ∙ plus ∙ ap ones_sum assoc
