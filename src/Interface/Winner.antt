-- ===== src/Interface/Winner.antt =====
-- What the election in ospfd/interface/state.rs chooses, against the words of RFC 2328, section 9.4.
use rust_ospfd.Prelude.{
  ℕ, Bool, true, false, List, [], ◌∷◌, ◌≡◌, refl, arith, ◌<◌, ◌≤◌, ◌⊎◌, inl, inr, ◌==◌, not, ◌&&◌,
  filter-filter, All, In, In-filter, All-of_filter, filter, is_empty, Bool-cases, if◌then◌else◌,
}
use rust_ospfd.Neighbor.Event.{Env}
use rust_ospfd.Interface.State.{Interface}
use rust_ospfd.Interface.Elect.{
  SelectDr, cmp, keep_greater, max_from, max_by, candidates, not_dr, declared_bdr, elect_bdr,
  elect_dr, elect_round, adj_ok_all, select_dr, ip_or, elected_state,
}
use rust_ospfd.Interface.Loop.{elect_loop_total}

-- By priority, and at equal priority by router identifier.
abbrev pub AtMost : SelectDr → SelectDr → Type 0
AtMost c w = (c.priority < w.priority) ⊎ ((c.priority ≡ w.priority) × (c.id ≤ w.id))

AtMost-trans : (a b c : SelectDr) → AtMost a b → AtMost b c → AtMost a c
AtMost-trans a b c p q = ground arith

AtMost-keep_left : (x y : SelectDr) → AtMost x (keep_greater x y)
unfolding cmp
AtMost-keep_left x y = ground arith

AtMost-keep_right : (x y : SelectDr) → AtMost y (keep_greater x y)
unfolding cmp
AtMost-keep_right x y = ground arith

max_from-AtMost : (x : SelectDr) (xs : List SelectDr) → All (λ c. AtMost c (max_from x xs)) (x ∷ xs)
unfolding max_from
max_from-AtMost x [] = (inr (refl, omega arith), tt)
max_from-AtMost x (y ∷ ys) =
    let h = max_from-AtMost (keep_greater x y) ys in
    (
      AtMost-trans x (keep_greater x y) (max_from (keep_greater x y) ys) (AtMost-keep_left x y) h.0,
      (
        AtMost-trans y (keep_greater x y) (max_from (keep_greater x y) ys) (AtMost-keep_right x y)
            h.0,
        h.1,
      ),
    )

keep_greater-In : (x y : SelectDr) → (keep_greater x y ≡ x) ⊎ (keep_greater x y ≡ y)
unfolding cmp
keep_greater-In x y = ground arith

max_from-In : (x : SelectDr) (xs : List SelectDr) → In (max_from x xs) (x ∷ xs)
unfolding max_from
max_from-In x [] = inl refl
max_from-In x (y ∷ ys) = shift (keep_greater-In x y) (max_from-In (keep_greater x y) ys)
  where
    shift :
        (keep_greater x y ≡ x) ⊎ (keep_greater x y ≡ y)
        → In (max_from (keep_greater x y) ys) (keep_greater x y ∷ ys)
        → In (max_from (keep_greater x y) ys) (x ∷ y ∷ ys)
    shift (inl e) (inl q) = inl (cc)
    shift (inr e) (inl q) = inr (inl (cc))
    shift e (inr m) = inr (inr m)

-- The greatest item of a list, if there is one.
abbrev pub Greatest : List SelectDr → SelectDr → Type 0
Greatest xs w = In w xs × All (λ c. AtMost c w) xs

max_by-Greatest :
    (xs : List SelectDr) (d : ℕ)
    → ((xs ≡ []) × (ip_or d (max_by xs) ≡ d))
      ⊎ ((w : SelectDr) × (ip_or d (max_by xs) ≡ w.ip) × Greatest xs w)
unfolding max_by
max_by-Greatest [] d = inl (refl, refl)
max_by-Greatest (x ∷ xs) d = inr (max_from x xs, refl, (max_from-In x xs, max_from-AtMost x xs))

-- The state after an election, without the loop.
pub select_dr_lem :
    (env : Env) (i : Interface)
    → select_dr env i ≡ (
        let i' = (elect_round (candidates env i) i).0 in
        adj_ok_all env (record i' { state = elected_state i' }))
unfolding select_dr
select_dr_lem env i = rw (elect_loop_total 0 (candidates env i) i)

-- A choice among the candidates that pass a test: the greatest of them, or `d` if none passes.
abbrev pub Chosen : (SelectDr → Bool) → List SelectDr → ℕ → ℕ → Type 0
Chosen p can d ip =
    (All (λ c. p c ≡ false) can × (ip ≡ d))
    ⊎ ((w : SelectDr) × In w can
        × (p w ≡ true)
        × (ip ≡ w.ip)
        × All (λ c. p c ≡ true → AtMost c w) can)

none_pass :
    (p : SelectDr → Bool) (xs : List SelectDr) → filter p xs ≡ [] → All (λ c. p c ≡ false) xs
none_pass p [] e = tt
none_pass p (x ∷ xs) e = elim (Bool-cases (p x)) [
  | inl q ↦ absurd (cc (rw q at e))
  | inr q ↦ (q, none_pass p xs (rw q at e))
]

max_by-Chosen :
    (p : SelectDr → Bool) (can : List SelectDr) (d : ℕ)
    → Chosen p can d (ip_or d (max_by (filter p can)))
max_by-Chosen p can d = elim (max_by-Greatest (filter p can) d) [
  | inl (e, q) ↦ inl (none_pass p can e, q)
  | inr (w, q, g) ↦
      let r = In-filter p can g.0 in inr (w, r.0, r.1, q, All-of_filter (λ c. AtMost c w) p can g.1)
]

-- The DR is the greatest candidate that declares itself DR; if none does, it is the elected BDR.
pub elect_dr-Chosen :
    (can : List SelectDr) (bdr : ℕ) → Chosen (λ v. v.dr == v.ip) can bdr (elect_dr can bdr)
unfolding elect_dr
elect_dr-Chosen can bdr = max_by-Chosen (λ v. v.dr == v.ip) can bdr

-- The candidates that declare themselves BDR and not DR.
abbrev pub declares_bdr : SelectDr → Bool
declares_bdr v = not (v.dr == v.ip) && v.bdr == v.ip

-- The elected BDR: the greatest of those that declare themselves BDR and not DR; if there is none,
-- the greatest of those that do not declare themselves DR; 0 if there is none of these either.
abbrev pub ChosenBdr : List SelectDr → ℕ → Type 0
ChosenBdr can ip =
    (All (λ c. declares_bdr c ≡ false) can × Chosen (λ v. not (v.dr == v.ip)) can 0 ip)
    ⊎ ((w : SelectDr) × In w can
        × (declares_bdr w ≡ true)
        × (ip ≡ w.ip)
        × All (λ c. declares_bdr c ≡ true → AtMost c w) can)

declared_bdr-not_dr : (xs : List SelectDr) → declared_bdr (not_dr xs) ≡ filter declares_bdr xs
declared_bdr-not_dr xs = filter-filter (λ v. v.bdr == v.ip) (λ v. not (v.dr == v.ip)) xs

elect_bdr-ChosenBdr : (can : List SelectDr) → ChosenBdr can (elect_bdr can)
unfolding elect_bdr
elect_bdr-ChosenBdr can = rw (declared_bdr-not_dr can) (by_list (filter declares_bdr can) refl)
  where
    by_list :
        (vec : List SelectDr)
        → filter declares_bdr can ≡ vec
        → ChosenBdr can (ip_or 0 (max_by (if is_empty vec then not_dr can else vec)))
    by_list [] e = inl (none_pass declares_bdr can e, max_by-Chosen (λ v. not (v.dr == v.ip)) can 0)
    by_list (x ∷ xs) e = elim (max_by-Greatest (x ∷ xs) 0) [
      | inl (q, _) ↦ absurd (cc)
      | inr (w, q, g) ↦
          let m = In-filter declares_bdr {a = w} can (rw e g.0) in
          inr (w, m.0, m.1, q, All-of_filter (λ c. AtMost c w) declares_bdr can (rw e g.1))
    ]

-- What `select_dr` leaves in `dr` and `bdr`, for some address b. b is that of the greatest
-- candidate, by priority and then router identifier, among those that declare themselves BDR and
-- not DR; if there is none, of the greatest among those that do not declare themselves DR; 0 if
-- there is none of these either. The DR is the greatest candidate that declares itself DR, or b if
-- none does. The BDR is 0 if the DR is b, and b otherwise.
pub select_dr-Chosen :
    (env : Env) (i : Interface)
    → (b : ℕ) × ChosenBdr (candidates env i) b
      × Chosen (λ v. v.dr == v.ip) (candidates env i) b (select_dr env i).dr
      × ((select_dr env i).bdr ≡ (if (select_dr env i).dr == b then 0 else b))
unfolding elect_round adj_ok_all
select_dr-Chosen env i =
    let can = candidates env i in
    rw (select_dr_lem env i)
      (elect_bdr can, elect_bdr-ChosenBdr can, elect_dr-Chosen can (elect_bdr can), refl)
