-- ===== src/Area/Tree/Pop.antt =====
-- What `pop` takes from the heap: an item of least distance.
use mathlib.Core.Option.{some-injective}
use rust_ospfd.Prelude.{
  ℕ, suc, true, false, List, [], ◌∷◌, some, ◌≡◌, refl, ap, ◌⊎◌, inl, inr, arith, ◌≤◌, In, length,
  Bool-cases, Ordering, compare,
}
use rust_ospfd.Area.Nodes.{HeapNode, compare_heap, then_by}
use rust_ospfd.Area.Tree.{is_less, select_max, pop_max}

distance_le_of_then :
    (a b : ℕ) (o : Ordering)
    → (then_by (compare b a) o ≡ Ordering.lt → b ≤ a)
      × (then_by (compare b a) o ≡ Ordering.gt → a ≤ b)
      × (then_by (compare b a) o ≡ Ordering.eq → a ≡ b)
distance_le_of_then a b o = ground arith

is_less-distance :
    (x y : HeapNode)
    → (is_less x y ≡ true → y.distance ≤ x.distance)
      × (is_less x y ≡ false → x.distance ≤ y.distance)
unfolding compare_heap
is_less-distance x y = ground arith

-- The chosen item and the others are the items of the list.
pub record Selected (xs : List HeapNode) (m : HeapNode) (rest : List HeapNode) : Type 0 where
  pub size : length xs ≡ suc (length rest)
  pub chosen : In m xs
  pub kept : (h : HeapNode) → In h rest → In h xs
  pub split : (h : HeapNode) → In h xs → (h ≡ m) ⊎ In h rest
  pub least : (h : HeapNode) → In h xs → m.distance ≤ h.distance

-- The search goes on with the second item, or with the first.
past_less :
    (x y : HeapNode) (ys : List HeapNode) {m : HeapNode} {rest : List HeapNode}
    → Selected (y ∷ ys) m rest
    → y.distance ≤ x.distance
    → Selected (x ∷ y ∷ ys) m (x ∷ rest)
past_less x y ys {m} r le = record {
  size = ap suc r.size;
  chosen = inr r.chosen;
  kept = λ h i. elim i [ inl e ↦ inl e | inr j ↦ inr (r.kept h j) ];
  split = λ h i. elim i [
    | inl e ↦ inr (inl e)
    | inr j ↦ elim (r.split h j) [ inl e ↦ inl e | inr k ↦ inr (inr k) ]
  ];
  least = λ h i. elim i [
    | inl e ↦ let l = r.least y (inl refl) in rw e (omega arith)
    | inr j ↦ r.least h j
  ];
}

past_more :
    (x y : HeapNode) (ys : List HeapNode) {m : HeapNode} {rest : List HeapNode}
    → Selected (x ∷ ys) m rest
    → x.distance ≤ y.distance
    → Selected (x ∷ y ∷ ys) m (y ∷ rest)
past_more x y ys {m} r le = record {
  size = ap suc r.size;
  chosen = elim r.chosen [ inl e ↦ inl e | inr j ↦ inr (inr j) ];
  kept = λ h i. elim i [
    | inl e ↦ inr (inl e)
    | inr j ↦ elim (r.kept h j) [ inl e ↦ inl e | inr k ↦ inr (inr k) ]
  ];
  split = λ h i. elim i [
    | inl e ↦ elim (r.split h (inl e)) [ inl q ↦ inl q | inr k ↦ inr (inr k) ]
    | inr (inl e) ↦ inr (inl e)
    | inr (inr j) ↦ elim (r.split h (inr j)) [ inl q ↦ inl q | inr k ↦ inr (inr k) ]
  ];
  least = λ h i. elim i [
    | inl e ↦ r.least h (inl e)
    | inr (inl e) ↦ let l = r.least x (inl refl) in rw e (omega arith)
    | inr (inr j) ↦ r.least h (inr j)
  ];
}

select_max-Selected :
    (x : HeapNode) (xs : List HeapNode) → Selected (x ∷ xs) (select_max x xs).0 (select_max x xs).1
unfolding select_max
select_max-Selected x [] = record {
  size = refl;
  chosen = inl refl;
  kept = λ h i. elim i [ ];
  split = λ h i. i;
  least = λ h i. elim i [ inl e ↦ rw e (omega arith) | inr i ↦ elim i [ ] ];
}
select_max-Selected x (y ∷ ys) = elim (Bool-cases (is_less x y)) [
  | inl e ↦ rw e (past_less x y ys (select_max-Selected y ys) ((is_less-distance x y).0 e))
  | inr e ↦ rw e (past_more x y ys (select_max-Selected x ys) ((is_less-distance x y).1 e))
]

pub pop_max-Selected :
    (heap : List HeapNode) {m : HeapNode} {rest : List HeapNode}
    → pop_max heap ≡ some (m, rest)
    → Selected heap m rest
unfolding pop_max
pop_max-Selected [] e = absurd (cc)
pop_max-Selected (x ∷ xs) {m} {rest} e =
    let same : select_max x xs ≡ (m, rest) = some-injective _ _ e in
    let fst : (select_max x xs).0 ≡ m = ap (λ (p : HeapNode × List HeapNode). p.0) same in
    let snd : (select_max x xs).1 ≡ rest = ap (λ (p : HeapNode × List HeapNode). p.1) same in
    rw (← fst, ← snd) (select_max-Selected x xs)
