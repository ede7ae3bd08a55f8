-- ===== src/Packet/Ospf/Tested.antt =====
-- A packet whose checksum has been set passes the test (ospf-packet/src/lib.rs).
use mathlib.Core.Option.{some-injective}
use rust_ospfd.Prelude.{
  ℕ, zero, suc, true, [], ◌∷◌, some, ◌≡◌, refl, ap, ◌∙◌, ◌+◌, ◌-◌, ◌*◌, ◌/◌, ◌%◌, ◌^◌, ◌≤◌, ◌<◌,
  arith, All, Option-cases, inl, inr, length,
}
use rust_ospfd.Packet.Bits.{Bytes}
use rust_ospfd.Packet.Ospf.{fold_words, set_word, auto_set_checksum, auto_test_checksum}
use rust_ospfd.Packet.Ospf.Sum.{words_sum, ones_sum, ones_sum_le, fold_words-ones_sum}

abbrev pub IsBytes : Bytes → Type 0
IsBytes = All (λ b. b < 256)

set_word-total :
    (i c : ℕ) (bs : Bytes) → 2 * i + 2 ≤ length bs → (r : Bytes) × (set_word i c bs ≡ some r)
unfolding set_word
set_word-total i c [] h = absurd (omega arith)
set_word-total i c (a ∷ []) h = absurd (omega arith)
set_word-total zero c (a ∷ b ∷ bs) h = (c / 2 ^ 8 ∷ c % 2 ^ 8 ∷ bs, refl)
set_word-total (suc i) c (a ∷ b ∷ bs) h =
    let (r, q) = set_word-total i c bs (omega arith) in (a ∷ b ∷ r, rw q refl)

-- The length stays, and what is written are bytes.
set_word-IsBytes :
    (i c : ℕ) (bs : Bytes) {r : Bytes}
    → c < 2 ^ 16
    → IsBytes bs
    → set_word i c bs ≡ some r
    → IsBytes r × (length r ≡ length bs)
unfolding set_word
set_word-IsBytes i c [] h k e = absurd (cc)
set_word-IsBytes i c (a ∷ []) h k e = absurd (cc)
set_word-IsBytes zero c (a ∷ b ∷ bs) {r} h (p, (q, k)) e =
    rw (← some-injective _ _ e) ((omega arith, (omega arith, k)), refl)
set_word-IsBytes (suc i) c (a ∷ b ∷ bs) {r} h (p, (q, k)) e =
    elim (Option-cases (set_word i c bs)) [
      | inl n ↦ absurd (cc (rw n at e))
      | inr (t, n) ↦
          let (fits, same) = set_word-IsBytes i c bs {r = t} h k n in
          rw (← some-injective _ _ (rw n at e)) ((p, (q, fits)), ap (λ m. suc (suc m)) same)
    ]

-- A word that takes the place of 0 adds to the sum.
set_word-sum :
    (i c : ℕ) (bs : Bytes) {z r : Bytes}
    → set_word i 0 bs ≡ some z
    → set_word i c z ≡ some r
    → words_sum r ≡ words_sum z + c
unfolding set_word
set_word-sum i c [] e f = absurd (cc)
set_word-sum i c (a ∷ []) e f = absurd (cc)
set_word-sum zero c (a ∷ b ∷ bs) {z} {r} e f =
    let same : 0 / 2 ^ 8 ∷ 0 % 2 ^ 8 ∷ bs ≡ z = some-injective _ _ e in
    let put : c / 2 ^ 8 ∷ c % 2 ^ 8 ∷ bs ≡ r = some-injective _ _ (rw (← same) at f) in
    rw (← same, ← put) (omega arith)
set_word-sum (suc i) c (a ∷ b ∷ bs) {z} {r} e f = elim (Option-cases (set_word i 0 bs)) [
  | inl n ↦ absurd (cc (rw n at e))
  | inr (t, n) ↦
      let same : a ∷ b ∷ t ≡ z = some-injective _ _ (rw n at e) in
      elim (Option-cases (set_word i c t)) [
        | inl m ↦ absurd (cc (rw (← same, set_word, m) at f))
        | inr (u, m) ↦
            let put : a ∷ b ∷ u ≡ r = some-injective _ _ (rw (← same, set_word, m) at f) in
            let rest = set_word-sum i c bs {z = t} {r = u} n m in rw (← same, ← put) (omega arith)
      ]
]

fold_words-total :
    (n acc : ℕ) (bs : Bytes) → length bs ≡ 2 * n → (r : ℕ) × (fold_words acc bs ≡ some r)
unfolding fold_words
fold_words-total n acc [] h = (acc, refl)
fold_words-total n acc (a ∷ []) h = absurd (omega arith)
fold_words-total zero acc (a ∷ b ∷ bs) h = absurd (omega arith)
fold_words-total (suc n) acc (a ∷ b ∷ bs) h = fold_words-total n _ bs (omega arith)

ones_sum-complement : (n : ℕ) → ones_sum (n + (65535 - ones_sum n)) ≡ 65535
ones_sum-complement zero = refl
ones_sum-complement (suc n) =
    let split : suc n + (65535 - (1 + n % 65535)) ≡ suc (65535 * (n / 65535) + 65534) =
      omega arith in
    let last : 1 + (65535 * (n / 65535) + 65534) % 65535 ≡ 65535 = omega arith in
    ap ones_sum split ∙ last

folded : (bs : Bytes) {r : ℕ} → IsBytes bs → fold_words 0 bs ≡ some r → r ≡ ones_sum (words_sum bs)
folded bs {r} h e =
    let sum : 0 + words_sum bs ≡ words_sum bs = omega arith in
    fold_words-ones_sum 0 bs {r = r} (omega arith) h e ∙ ap ones_sum sum

-- The checksum of any packet of bytes with an even length of 14 or more is set without a panic, and
-- the packet that results passes the test.
pub auto_test-auto_set :
    (bs : Bytes) (n : ℕ)
    → IsBytes bs
    → length bs ≡ 2 * n
    → 7 ≤ n
    → (r : Bytes) × (auto_set_checksum bs ≡ some r) × (auto_test_checksum r ≡ some true)
unfolding auto_set_checksum auto_test_checksum
auto_test-auto_set bs n fits even long =
    let (z, zeroed) = set_word-total 6 0 bs (omega arith) in
    let (fits_z, len_z) = set_word-IsBytes 6 0 bs {r = z} (omega arith) fits zeroed in
    let (s, summed) = fold_words-total n 0 z (len_z ∙ even) in
    let s_is = folded z {r = s} fits_z summed in
    let small : s ≤ 65535 = rw s_is (ones_sum_le (words_sum z)) in
    let (r, written) = set_word-total 6 (65535 - s) z (omega arith) in
    let (fits_r, len_r) = set_word-IsBytes 6 (65535 - s) z {r = r} (omega arith) fits_z written in
    let (t, tested) = fold_words-total n 0 r (len_r ∙ len_z ∙ even) in
    let t_is = folded r {r = t} fits_r tested in
    let full = set_word-sum 6 (65535 - s) bs {z = z} {r = r} zeroed written in
    let right : t ≡ 65535 =
      t_is
      ∙ ap ones_sum full
      ∙ ap (λ (x : ℕ). ones_sum (words_sum z + (65535 - x))) s_is
      ∙ ones_sum-complement (words_sum z) in
    (r, rw (zeroed, summed) written, rw (tested, right) refl)
