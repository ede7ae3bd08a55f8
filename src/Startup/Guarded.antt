-- ===== src/Startup/Guarded.antt =====
-- The guard of all interfaces that `upgrade_lock` of ospfd/database/mod.rs gives.
use mathlib.Core.Option.{some-injective}
use rust_ospfd.Prelude.{
  ℕ, zero, suc, ◌≡◌, refl, sym, ap, true, false, List, [], ◌∷◌, some, none, ◌==◌, ==_iff, any,
  length, All, Bool-cases, Option-cases, inl, inr, ◌↔◌,
}
use rust_ospfd.Packet.Lsa.{Ipv4Addr}
use rust_ospfd.Interface.State.{Interface}
use rust_ospfd.Flooding.{Interfaces, last, drop_last, close_gap, swap_remove_back}
use rust_ospfd.Startup.{position_of, upgrade_lock}

length-drop_last : (y : Interface) (ys : List Interface) → length (drop_last y ys) ≡ length ys
length-drop_last y [] = refl
length-drop_last y (z ∷ zs) = ap suc (length-drop_last z zs)

length-close_gap : (x : Interface) (xs : List Interface) → length (close_gap (x ∷ xs)) ≡ length xs
length-close_gap x [] = refl
length-close_gap x (y ∷ ys) = ap suc (length-drop_last y ys)

not_found :
    (ip : Ipv4Addr) (is : List Interface)
    → position_of ip is ≡ none
    → any (λ i. i.ip_addr == ip) is ≡ false
unfolding position_of
not_found ip [] e = refl
not_found ip (i ∷ is) e = elim (Bool-cases (i.ip_addr == ip)) [
  | inl q ↦ absurd (cc (rw q at e))
  | inr q ↦ elim (Option-cases (position_of ip is)) [
    | inl p ↦ rw q (not_found ip is p)
    | inr (x, p) ↦ absurd (cc (rw (q, p) at e))
  ]
]

module _ (P : Interface → Type 0) where
  last-All :
      (y : Interface) (ys : List Interface)
      → All P (y ∷ ys) ↔ (P (last y ys) × All P (drop_last y ys))
  last-All y [] = (λ h. h, λ h. h)
  last-All y (z ∷ zs) =
      let rest = last-All z zs in
      (λ h. let r = rest.0 h.1 in (r.0, (h.0, r.1)), λ h. (h.1.0, rest.1 (h.0, h.1.1)))

  close_gap-All :
      (xs : List Interface) (x : Interface) → All P (x ∷ xs) ↔ (P x × All P (close_gap (x ∷ xs)))
  close_gap-All [] x = (λ h. h, λ h. h)
  close_gap-All (y ∷ ys) x =
      let rest = last-All y ys in (λ h. (h.0, rest.0 h.1), λ h. (h.0, rest.1 h.1))

  -- The interface has the address, and it and the others are all that there are.
  abbrev pub IsSplit : Ipv4Addr → List Interface → Interface → List Interface → Type 0
  IsSplit ip is me other =
      (me.ip_addr ≡ ip) × (length is ≡ suc (length other)) × (All P is ↔ (P me × All P other))

  later-IsSplit :
      (ip : Ipv4Addr) (is other : List Interface) (i me : Interface)
      → IsSplit ip is me other
      → IsSplit ip (i ∷ is) me (i ∷ other)
  later-IsSplit ip is other i me (a, n, h) =
      (a, ap suc n, (λ g. let r = h.0 g.1 in (r.0, (g.0, r.1)), λ g. (g.1.0, h.1 (g.0, g.1.1))))

  position_of-IsSplit :
      (ip : Ipv4Addr) (is : List Interface) (k : ℕ) (me : Interface)
      → position_of ip is ≡ some (k, me)
      → IsSplit ip is me (swap_remove_back k is)
  unfolding position_of
  position_of-IsSplit ip [] k me e = absurd (cc e)
  position_of-IsSplit ip (i ∷ is) k me e = elim (Bool-cases (i.ip_addr == ip)) [
    | inl q ↦
        let w = some-injective _ _ (rw q at e) in
        let zk : zero ≡ k = ap (λ (x : ℕ × Interface). x.0) w in
        let im : i ≡ me = ap (λ (x : ℕ × Interface). x.1) w in
        let here : IsSplit ip (i ∷ is) i (close_gap (i ∷ is)) =
          ((==_iff i.ip_addr ip).0 q, ap suc (sym (length-close_gap i is)), close_gap-All is i) in
        rw (← zk, ← im) here
    | inr q ↦ elim (Option-cases (position_of ip is)) [
      | inl p ↦ absurd (cc (rw (q, p) at e))
      | inr ((j, n), p) ↦
          let w = some-injective _ _ (rw (q, p) at e) in
          let jk : suc j ≡ k = ap (λ (x : ℕ × Interface). x.0) w in
          let nm : n ≡ me = ap (λ (x : ℕ × Interface). x.1) w in
          rw (← jk, ← nm)
            (later-IsSplit ip is (swap_remove_back j is) i n (position_of-IsSplit ip is j n p))
    ]
  ]

  -- If an interface has the address, `upgrade_lock` gives the guard without a panic: its first
  -- interface has the address, there are as many interfaces as before, and any predicate holds of
  -- all of them exactly when it holds of the first and of all others.
  pub upgrade_lock-IsSplit :
      (ip : Ipv4Addr) (is : List Interface)
      → any (λ i. i.ip_addr == ip) is ≡ true
      → (s : Interfaces) × (upgrade_lock ip is ≡ some s) × IsSplit ip is s.me s.other
  unfolding upgrade_lock
  upgrade_lock-IsSplit ip is h = elim (Option-cases (position_of ip is)) [
    | inl p ↦ absurd (cc (not_found ip is p, h))
    | inr ((k, me), p) ↦ (
      record { me = me; other = swap_remove_back k is },
      rw p refl,
      position_of-IsSplit ip is k me p,
    )
  ]
