-- ===== src/Routing/Kernel/Replayed.antt =====
-- A sequence of requests to a lawful kernel, network by network.
use rust_ospfd.Prelude.{
  ℕ, ◌≡◌, refl, ◌∙◌, sym, true, false, List, [], ◌∷◌, ◌++◌, ◌==◌, if◌then◌else◌, Bool-cases, inl,
  inr, ◌⊎◌, In,
}
use rust_ospfd.Routing.Table.{RouteChange}
use rust_ospfd.Routing.Table
use rust_ospfd.Routing.Socket.{RawItem, Endian, Kernel, to_raw}
use rust_ospfd.Routing.Kernel.{IsLawful, is_at, apply}
use rust_ospfd.Routing.Kernel.Wrapped.{
  Becomes, OneAtMost, OnlyOwn, add_route-Becomes, delete_route-Becomes,
}

module _ (K : Kernel) (e : Endian) (law : IsLawful K) where
  -- A request that does something, of a route that can be added.
  abbrev pub IsLive : RouteChange → Type 0
  IsLive (Table.RouteChange.add_route r) =
      ((r.nexthop == 0) ≡ false) × (law.usable (to_raw e r) ≡ true)
  IsLive (Table.RouteChange.delete_route r) = (r.nexthop == 0) ≡ false

  abbrev pub target : RouteChange → RawItem
  target (Table.RouteChange.add_route r) = to_raw e r
  target (Table.RouteChange.delete_route r) = to_raw e r

  abbrev pub value : RouteChange → List ℕ
  value (Table.RouteChange.add_route r) = (to_raw e r).nexthop ∷ []
  value (Table.RouteChange.delete_route r) = []

  -- A request that keeps the network to one gateway, from the gateways that are there.
  abbrev pub IsReady : RouteChange → List ℕ → Type 0
  IsReady (Table.RouteChange.add_route r) v = OnlyOwn K e law (to_raw e r).nexthop v
  IsReady (Table.RouteChange.delete_route r) v = OneAtMost K e law v

  value-IsReady : (c : RouteChange) → IsReady c (value c)
  value-IsReady (Table.RouteChange.add_route r) = inr refl
  value-IsReady (Table.RouteChange.delete_route r) = inl refl

  abbrev pub at_target : RouteChange → K.State → List ℕ
  at_target c s = law.gateways s (target c).dest (target c).mask

  -- Another request has made the gateways what this one would, or has not touched them.
  still-IsReady :
      (c other : RouteChange) (s s' : K.State)
      → Becomes K e law (target other) (value other) s s'
      → (is_at (target c).dest (target c).mask (target other) ≡ true → value c ≡ value other)
      → IsReady c (at_target c s)
      → IsReady c (at_target c s')
  still-IsReady c other s s' b agree h =
      elim (Bool-cases (is_at (target c).dest (target c).mask (target other))) [
        | inl q ↦
            let v : at_target c s' ≡ value c =
              b (target c).dest (target c).mask ∙ rw q (sym (agree q)) in
            rw v (value-IsReady c)
        | inr q ↦
            let v : at_target c s' ≡ at_target c s =
              b (target c).dest (target c).mask ∙ rw q refl in
            rw v h
      ]

  -- Requests that are ready one by one, and ask for the same where they are for one network.
  abbrev pub AreReady : List RouteChange → K.State → Type 0
  AreReady cs s =
      ((c : RouteChange) → In c cs → IsLive c)
      × ((c : RouteChange) → In c cs → IsReady c (at_target c s))
      × ((c other : RouteChange)
          → In c cs
          → In other cs
          → is_at (target c).dest (target c).mask (target other) ≡ true
          → value c ≡ value other)

  later-AreReady :
      (c : RouteChange) (cs : List RouteChange) (s s' : K.State)
      → Becomes K e law (target c) (value c) s s'
      → AreReady (c ∷ cs) s
      → AreReady cs s'
  later-AreReady c cs s s' b (live, ready, agree) = (
    λ d i. live d (inr i),
    λ d i. still-IsReady d c s s' b (agree d c (inr i) (inl refl)) (ready d (inr i)),
    λ d other i j. agree d other (inr i) (inr j),
  )

  -- The gateway of one network after the requests.
  unfoldable pub replay : List RouteChange → ℕ → ℕ → List ℕ → List ℕ
  replay [] d m v = v
  replay (c ∷ cs) d m v = replay cs d m (if is_at d m (target c) then value c else v)

  pub apply-replay :
      (cs : List RouteChange) (s : K.State) (d m : ℕ)
      → AreReady cs s
      → law.gateways (apply K e cs s) d m ≡ replay cs d m (law.gateways s d m)
  unfolding apply replay
  apply-replay [] s d m h = refl
  apply-replay (Table.RouteChange.add_route r ∷ cs) s d m h =
      let c = Table.RouteChange.add_route r in
      let live = h.0 c (inl refl) in
      let b = (add_route-Becomes K e law r s live.0 live.1 (h.1 c (inl refl))).1 in
      rw (← b d m) (apply-replay cs _ d m (later-AreReady c cs s _ b h))
  apply-replay (Table.RouteChange.delete_route r ∷ cs) s d m h =
      let c = Table.RouteChange.delete_route r in
      let b = (delete_route-Becomes K e law r s (h.0 c (inl refl)) (h.1 c (inl refl))).1 in
      rw (← b d m) (apply-replay cs _ d m (later-AreReady c cs s _ b h))

  pub apply-append :
      (cs ds : List RouteChange) (s : K.State)
      → apply K e (cs ++ ds) s ≡ apply K e ds (apply K e cs s)
  unfolding apply
  apply-append [] ds s = refl
  apply-append (Table.RouteChange.add_route r ∷ cs) ds s = apply-append cs ds _
  apply-append (Table.RouteChange.delete_route r ∷ cs) ds s = apply-append cs ds _

  -- Requests that ask for one thing do it or leave what is there.
  pub replay_alike :
      (cs : List RouteChange) (d m : ℕ) (v w : List ℕ)
      → ((c : RouteChange) → In c cs → value c ≡ w)
      → (replay cs d m v ≡ v) ⊎ (replay cs d m v ≡ w)
  unfolding replay
  replay_alike [] d m v w h = inl refl
  replay_alike (c ∷ cs) d m v w h =
      let rest = λ (x : List ℕ). replay_alike cs d m x w (λ c' i. h c' (inr i)) in
      elim (Bool-cases (is_at d m (target c))) [
        | inr q ↦ rw q (rest v)
        | inl q ↦ rw q (elim (rest (value c)) [ inl p ↦ inr (p ∙ h c (inl refl)) | inr p ↦ inr p ])
      ]

  -- Requests that agree on a network, where one of them is for it or the value is theirs already.
  pub replay_settled :
      (cs : List RouteChange) (d m : ℕ) (v w : List ℕ)
      → ((c : RouteChange) → In c cs → is_at d m (target c) ≡ true → value c ≡ w)
      → (v ≡ w) ⊎ ((c : RouteChange) × In c cs × (is_at d m (target c) ≡ true))
      → replay cs d m v ≡ w
  unfolding replay
  replay_settled [] d m v w h (inl q) = q
  replay_settled [] d m v w h (inr (c, i, a)) = elim i [ ]
  replay_settled (c ∷ cs) d m v w h g = elim (Bool-cases (is_at d m (target c))) [
    | inl q ↦
        rw q (replay_settled cs d m (value c) w (λ c' i. h c' (inr i)) (inl (h c (inl refl) q)))
    | inr q ↦ rw q (
        replay_settled cs d m v w (λ c' i. h c' (inr i))
          (elim g [
            | inl p ↦ inl p
            | inr x ↦ elim (x.1) [
              | inl p ↦ absurd (cc (rw p at (x.2), q))
              | inr i ↦ inr (x.0, i, x.2)
            ]
          ]))
  ]

  pub replay_untouched :
      (cs : List RouteChange) (d m : ℕ) (v : List ℕ)
      → ((c : RouteChange) → In c cs → is_at d m (target c) ≡ true → ⊥)
      → replay cs d m v ≡ v
  replay_untouched cs d m v h = replay_settled cs d m v v (λ c i a. absurd (h c i a)) (inl refl)
