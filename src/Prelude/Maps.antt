-- ===== src/Prelude/Maps.antt =====
-- `HashMap` and `HashSet` as association lists in the order of iteration. The order of a Rust
-- hash map is not specified: what is proved holds for every order.
use Prim.Native.Nat.{ℕ}
use mathlib.Core.Path.{◌≡◌, refl, ◌∙◌, ap}
use mathlib.Core.Logic.{◌↔◌, inl, inr}
use mathlib.Core.Bool.{Bool, true, false, not, ◌||◌}
use mathlib.Core.List.{List, [], ◌∷◌, map}
use mathlib.Core.Option.{Option, none, some}
use rust_ospfd.Prelude.Tests.{if◌then◌else◌, Bool-cases, ◌==◌, ==_iff}
use rust_ospfd.Prelude.Lists.{filter, any}

pub record Eq {ℓ} (A : Type ℓ) : Type ℓ where
  pub beq : A → A → Bool
  pub beq_iff : (a b : A) → (beq a b ≡ true) ↔ (a ≡ b)

instance abbrev pub nat_eq : Eq ℕ
nat_eq = record { beq = ◌==◌; beq_iff = ==_iff }

module _ {ℓ} {K : Type ℓ} ⦃e : Eq K⦄ where
  unfoldable pub contains : List K → K → Bool
  contains xs k = any (λ x. e.beq x k) xs

  unfoldable pub insert_set : K → List K → List K
  insert_set k xs = if any (λ x. e.beq x k) xs then xs else k ∷ xs

  unfoldable pub remove_set : K → List K → List K
  remove_set k xs = filter (λ x. not (e.beq x k)) xs

module _ {ℓ κ} {K : Type ℓ} {V : Type κ} where
  abbrev pub values : List (K × V) → List V
  values m = map (λ p. p.1) m

  abbrev pub keys : List (K × V) → List K
  keys m = map (λ p. p.0) m

module _ {ℓ κ} {K : Type ℓ} {V : Type κ} ⦃e : Eq K⦄ where
  abbrev pub get : K → List (K × V) → Option V
  get k [] = none
  get k ((j, v) ∷ m) = if e.beq j k then some v else get k m

  abbrev pub insert : K → V → List (K × V) → List (K × V)
  insert k v [] = (k, v) ∷ []
  insert k v ((j, w) ∷ m) = if e.beq j k then (k, v) ∷ m else (j, w) ∷ insert k v m

  abbrev pub remove : K → List (K × V) → List (K × V)
  remove k [] = []
  remove k ((j, w) ∷ m) = if e.beq j k then remove k m else (j, w) ∷ remove k m

  -- `get_mut` and a change of the value that it finds.
  abbrev pub modify : K → (V → V) → List (K × V) → List (K × V)
  modify k f [] = []
  modify k f ((j, v) ∷ m) = if e.beq j k then (j, f v) ∷ m else (j, v) ∷ modify k f m

  pub get-insert_self : (k : K) (v : V) (m : List (K × V)) → get k (insert k v m) ≡ some v
  get-insert_self k v [] = rw ((e.beq_iff k k).1 refl)
  get-insert_self k v ((j, w) ∷ m) = elim (Bool-cases (e.beq j k)) [
    | inl q ↦ rw (q, (e.beq_iff k k).1 refl)
    | inr q ↦ rw (q, q) (get-insert_self k v m)
  ]

  pub get-insert_ne :
      (k j : K) (v : V) (m : List (K × V)) → e.beq k j ≡ false → get j (insert k v m) ≡ get j m
  get-insert_ne k j v [] h = rw h
  get-insert_ne k j v ((i, w) ∷ m) h = elim (Bool-cases (e.beq i k)) [
    | inl q ↦ let s : i ≡ k = (e.beq_iff i k).0 q in rw (q, s, h)
    | inr q ↦ elim (Bool-cases (e.beq i j)) [
      | inl p ↦ rw (q, p)
      | inr p ↦ rw (q, p) (get-insert_ne k j v m h)
    ]
  ]

module _ {ℓ} {K : Type ℓ} ⦃e : Eq K⦄ where
  -- Membership in a set after a removal.
  pub contains-remove_set :
      (k j : K) (xs : List K)
      → contains (remove_set k xs) j ≡ (if e.beq k j then false else contains xs j)
  unfolding contains remove_set
  contains-remove_set k j [] = elim (Bool-cases (e.beq k j)) [ inl q ↦ rw q | inr q ↦ rw q ]
  contains-remove_set k j (x ∷ xs) = elim (Bool-cases (e.beq x k)) [
    | inl p ↦ elim (Bool-cases (e.beq k j)) [
      | inl q ↦ rw (p, q) (contains-remove_set k j xs ∙ rw q)
      | inr q ↦
          let s : x ≡ k = (e.beq_iff x k).0 p in
          rw (p, q) (contains-remove_set k j xs ∙ rw (q, s, q))
    ]
    | inr p ↦ elim (Bool-cases (e.beq k j)) [
      | inl q ↦
          let s : k ≡ j = (e.beq_iff k j).0 q in
          let n : e.beq x j ≡ false = rw (← s) p in rw (p, q, n) (contains-remove_set k j xs ∙ rw q)
      | inr q ↦ rw (p, q) (ap (λ b. e.beq x j || b) (contains-remove_set k j xs ∙ rw q))
    ]
  ]

  pub contains-insert_set : (k : K) (xs : List K) → contains (insert_set k xs) k ≡ true
  unfolding contains insert_set
  contains-insert_set k xs = elim (Bool-cases (any (λ x. e.beq x k) xs)) [
    | inl q ↦ rw q q
    | inr q ↦ rw (q, (e.beq_iff k k).1 refl)
  ]
