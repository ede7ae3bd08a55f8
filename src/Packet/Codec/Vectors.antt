-- ===== src/Packet/Codec/Vectors.antt =====
-- The two loops that read a vector give back what `ToBytesMut for Vec` wrote.
use mathlib.Core.List.{append_assoc}
use rust_ospfd.Prelude.{
  ℕ, zero, suc, List, [], ◌∷◌, ◌++◌, Option, some, ◌≡◌, arith, ◌<◌, ◌≤◌, length, length-append, All,
  Option-cases, inl, inr,
}
use rust_ospfd.Packet.Bits.{Bytes}
use rust_ospfd.Packet.Macros.{get_vec, get_rest}
use rust_ospfd.Packet.Codec.{vec_to_bytes}

-- The bytes of a vector that is not empty, split.
abbrev pub Splits : {A : Type 0} → (A → Option Bytes) → A → List A → Bytes → Type 0
Splits f x xs bs =
    (b : Bytes) × (c : Bytes) × (f x ≡ some b) × (vec_to_bytes f xs ≡ some c) × (bs ≡ b ++ c)

module _ {A : Type 0} (f : A → Option Bytes) where
  pub vec_to_bytes-Splits :
      (x : A) (xs : List A) (bs : Bytes) → vec_to_bytes f (x ∷ xs) ≡ some bs → Splits f x xs bs
  unfolding vec_to_bytes
  vec_to_bytes-Splits x xs bs e = elim (Option-cases (f x)) [
    | inl p ↦ absurd (cc (rw p at e))
    | inr (b, p) ↦ elim (Option-cases (vec_to_bytes f xs)) [
      | inl q ↦ absurd (cc (rw (p, q) at e))
      | inr (c, q) ↦ (b, c, p, q, cc (rw (p, q) at e))
    ]
  ]

-- One turn of the loop.
get_rest_cons :
    {A : Type 0} (g : Bytes → Option (A × Bytes)) (x : A) (xs : List A) (b c : Bytes) (fuel : ℕ)
    → 0 < length b
    → length (b ++ c) ≤ fuel
    → g (b ++ c) ≡ some (x, c)
    → ((k : ℕ) → length c ≤ k → get_rest g k c ≡ some (xs, []))
    → get_rest g fuel (b ++ c) ≡ some (x ∷ xs, [])
unfolding get_rest
get_rest_cons g x xs [] c fuel p l e rest = absurd (omega arith)
get_rest_cons g x xs (y ∷ b) c zero p l e rest = absurd (omega arith)
get_rest_cons g x xs (y ∷ b) c (suc fuel) p l e rest =
    rw (e, rest fuel (omega (arith, length-append b c)))

module _ {A : Type 0} (f : A → Option Bytes) (g : Bytes → Option (A × Bytes)) (Fits : A → Type 0)
    (back : (a : A) (b r : Bytes) → Fits a → f a ≡ some b → g (b ++ r) ≡ some (a, r)) where
  pub get_vec-vec_to_bytes :
      (xs : List A) (bs r : Bytes)
      → All Fits xs
      → vec_to_bytes f xs ≡ some bs
      → get_vec g (length xs) (bs ++ r) ≡ some (xs, r)
  unfolding vec_to_bytes get_vec
  get_vec-vec_to_bytes [] bs r h e = let p : [] ≡ bs = cc in rw (← p)
  get_vec-vec_to_bytes (x ∷ xs) bs r h e =
      let (b, c, p, q, s) = vec_to_bytes-Splits f x xs bs e in
      rw (s, append_assoc b c r, back x b (c ++ r) h.0 p, get_vec-vec_to_bytes xs c r h.1 q)

  -- Where no item is empty, fuel for the bytes is fuel for the items.
  pub get_rest-vec_to_bytes :
      ((a : A) (b : Bytes) → f a ≡ some b → 0 < length b)
      → (xs : List A) (bs : Bytes) (fuel : ℕ) → length bs ≤ fuel
      → All Fits xs
      → vec_to_bytes f xs ≡ some bs
      → get_rest g fuel bs ≡ some (xs, [])
  unfolding vec_to_bytes get_rest
  get_rest-vec_to_bytes pos [] bs fuel l h e = let p : [] ≡ bs = cc in rw (← p)
  get_rest-vec_to_bytes pos (x ∷ xs) bs fuel l h e =
      let (b, c, p, q, s) = vec_to_bytes-Splits f x xs bs e in
      rw s (
        get_rest_cons g x xs b c fuel (pos x b p) (rw s at l) (back x b c h.0 p)
          (λ k m. get_rest-vec_to_bytes pos xs c k m h.1 q))
