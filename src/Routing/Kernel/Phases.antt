-- ===== src/Routing/Kernel/Phases.antt =====
-- The kernel's gateways between and after the two groups of requests of `recalculate`.
use rust_ospfd.Prelude.{
  ℕ, ◌≡◌, refl, ◌∙◌, sym, ap, true, false, List, [], ◌∷◌, ◌++◌, arith, Bool-cases, inl, inr, ◌⊎◌,
  In,
}
use rust_ospfd.Routing.Table.{
  Table, RoutingItem, RouteChange, add_route, delete_route, has_route, requests,
}
use rust_ospfd.Routing.Table.Keyed.{IsKeyed}
use rust_ospfd.Routing.Table.Requests.{IsMissing, has_route-item, requests-asked, requests-meant}
use rust_ospfd.Routing.Table.Synced.{Holds, get-In, not_missing}
use rust_ospfd.Routing.Socket.{Endian, Kernel, to_raw, IsRanged}
use rust_ospfd.Routing.Kernel.{IsLawful, is_at, apply}
use rust_ospfd.Routing.Kernel.Replayed.{
  target, value, AreReady, replay, apply-replay, apply-append, replay_alike, replay_settled,
  replay_untouched,
}
use rust_ospfd.Routing.Kernel.Networks.{Holds-unique, same_destination, one_network}

-- A network that can take a route of a new table: the kernel has no gateway for it or only the
-- route's own, or the old table has a route for it.
abbrev pub CanTake : (K : Kernel) (e : Endian) → IsLawful K → K.State → Table → RoutingItem → Type 0
CanTake K e law s old q =
    (law.gateways s (to_raw e q).dest (to_raw e q).mask ≡ [])
    ⊎ ((law.gateways s (to_raw e q).dest (to_raw e q).mask ≡ (to_raw e q).nexthop ∷ [])
        ⊎ ((r : RoutingItem) × Holds old r × (r.dest ≡ q.dest) × (r.mask ≡ q.mask)))

module _ (K : Kernel) (e : Endian) (law : IsLawful K) (old new : Table) (keyed_old : IsKeyed old)
    (keyed_new : IsKeyed new) (ranged_old : (r : RoutingItem) → Holds old r → IsRanged r)
    (ranged_new : (r : RoutingItem) → Holds new r → IsRanged r)
    (usable : (r : RoutingItem) → Holds new r → law.usable (to_raw e r) ≡ true) (s : K.State)
    (had : (r : RoutingItem)
      → Holds old r
      → law.gateways s (to_raw e r).dest (to_raw e r).mask ≡ (to_raw e r).nexthop ∷ [])
    (can_take : (q : RoutingItem) → Holds new q → CanTake K e law s old q) where
  -- The gateway that a state has for the network of a route.
  abbrev gateway : K.State → RoutingItem → List ℕ
  gateway t r = law.gateways t (to_raw e r).dest (to_raw e r).mask

  abbrev after : K.State
  after = apply K e (requests delete_route new old ++ requests add_route old new) s

  abbrev dels : List RouteChange
  dels = requests delete_route new old

  abbrev adds : List RouteChange
  adds = requests add_route old new

  -- A request for a network is about a route of one of the tables.
  asked_delete :
      (c : RouteChange)
      → In c (requests delete_route new old)
      → (q : RoutingItem) × (c ≡ delete_route q) × Holds old q × IsMissing new old q
  asked_delete c i =
      let (q, p, (k, h, n)) = requests-meant delete_route new old {c = c} i in
      (q, p, (k, h), (k, h, n))

  asked_add :
      (c : RouteChange)
      → In c (requests add_route old new)
      → (q : RoutingItem) × (c ≡ add_route q) × Holds new q
  asked_add c i =
      let (q, p, (k, h, n)) = requests-meant add_route old new {c = c} i in (q, p, (k, h))

  self_at : (r : RoutingItem) → is_at (to_raw e r).dest (to_raw e r).mask (to_raw e r) ≡ true
  self_at r = ground arith

  adds_agree :
      (r : RoutingItem)
      → Holds new r
      → (c : RouteChange) → In c (requests add_route old new)
      → is_at (to_raw e r).dest (to_raw e r).mask (target K e law c) ≡ true
      → value K e law c ≡ (to_raw e r).nexthop ∷ []
  adds_agree r h c i a =
      let (q, p, g) = asked_add c i in
      let (d, m) = same_destination e q r (ranged_new q g) (ranged_new r h) (rw p at a) in
      let qr : q ≡ r = Holds-unique new q r keyed_new g h d m in rw (p, qr) refl

  not_deleted :
      (r : RoutingItem)
      → Holds new r
      → Holds old r
      → (c : RouteChange) → In c (requests delete_route new old)
      → is_at (to_raw e r).dest (to_raw e r).mask (target K e law c) ≡ true
      → ⊥
  not_deleted r h ho c i a =
      let (q, p, g, n) = asked_delete c i in
      let (d, m) = same_destination e q r (ranged_old q g) (ranged_old r ho) (rw p at a) in
      let qr : q ≡ r = Holds-unique old q r keyed_old g ho d m in
      not_missing new old r keyed_new keyed_old h (rw (← qr) n)

  dels-AreReady : AreReady K e law dels s
  dels-AreReady = (
    λ c i. let (q, p, (k, (x, m, o, hop)), n) = asked_delete c i in rw p hop,
    λ c i. let (q, p, g, n) = asked_delete c i in rw p (inr ((to_raw e q).nexthop, had q g)),
    λ c d i j a.
        let (q, p, _, _) = asked_delete c i in
        let (r, o, _, _) = asked_delete d j in rw (p, o) refl,
  )

  abbrev between : K.State
  between = apply K e dels s

  after_dels : (d m : ℕ) → law.gateways between d m ≡ replay K e law dels d m (law.gateways s d m)
  after_dels d m = apply-replay K e law dels s d m dels-AreReady

  deletes : (c : RouteChange) → In c dels → value K e law c ≡ []
  deletes c i = let (q, p, _, _) = asked_delete c i in rw p refl

  -- A route of the old table that is not in the new one is gone by then.
  gateway_cleared :
      (r : RoutingItem)
      → In (delete_route r) dels
      → (v : List ℕ) → replay K e law dels (to_raw e r).dest (to_raw e r).mask v ≡ []
  gateway_cleared r i v =
      replay_settled K e law dels _ _ v [] (λ c j _. deletes c j)
        (inr (delete_route r, i, self_at r))

  left_or_cleared :
      (q : RoutingItem)
      → (gateway s q ≡ []) ⊎ (gateway s q ≡ (to_raw e q).nexthop ∷ [])
      → (gateway between q ≡ []) ⊎ (gateway between q ≡ (to_raw e q).nexthop ∷ [])
  left_or_cleared q h =
      let t = after_dels (to_raw e q).dest (to_raw e q).mask in
      elim (replay_alike K e law dels (to_raw e q).dest (to_raw e q).mask (gateway s q) []
        deletes) [
          | inr p ↦ inl (t ∙ p)
          | inl p ↦ elim h [ inl x ↦ inl (t ∙ p ∙ x) | inr x ↦ inr (t ∙ p ∙ x) ]
        ]

  add-IsReady :
      (q : RoutingItem)
      → Holds new q
      → CanTake K e law s old q
      → (gateway between q ≡ []) ⊎ (gateway between q ≡ (to_raw e q).nexthop ∷ [])
  add-IsReady q g (inl h) = left_or_cleared q (inl h)
  add-IsReady q g (inr (inl h)) = left_or_cleared q (inr h)
  add-IsReady q g (inr (inr (r, (k, (i, x, p, hop)), d, m))) =
      elim (Bool-cases (has_route k r new)) [
        | inl b ↦
            let (j, at, o) = has_route-item k r new b in
            let hr : Holds new r = (k, (j, get-In k new {i = j} at, o, hop)) in
            let same : r ≡ q = Holds-unique new r q keyed_new hr g d m in
            left_or_cleared q (inr (rw (← same) (had r (k, (i, x, p, hop)))))
        | inr b ↦
            let (rd, rm) = one_network e r q d m in
            let gone =
              gateway_cleared r (requests-asked delete_route new old {r = r} (k, (i, x, p, hop), b))
                (gateway s q) in
            inl (after_dels (to_raw e q).dest (to_raw e q).mask ∙ (rw (rd, rm) at gone))
      ]

  adds-AreReady : AreReady K e law adds between
  adds-AreReady = (
    λ c i.
        let (q, p, (k, (x, m, o, hop))) = asked_add c i in rw p (hop, usable q (k, (x, m, o, hop))),
    λ c i. let (q, p, g) = asked_add c i in rw p (add-IsReady q g (can_take q g)),
    λ c d i j a. let (q, p, g) = asked_add c i in rw p (sym (adds_agree q g d j (rw p at a))),
  )

  after-replay :
      (d m : ℕ)
      → law.gateways after d m
        ≡ replay K e law adds d m (replay K e law dels d m (law.gateways s d m))
  after-replay d m =
      ap (λ (t : K.State). law.gateways t d m) (apply-append K e law dels adds s)
      ∙ apply-replay K e law adds between d m adds-AreReady
      ∙ ap (replay K e law adds d m) (after_dels d m)

  -- A route of the new table.
  pub gateway_added : (r : RoutingItem) → Holds new r → gateway after r ≡ (to_raw e r).nexthop ∷ []
  gateway_added r (k, (i, m, p, hop)) =
      let h : Holds new r = (k, (i, m, p, hop)) in
      after-replay _ _
      ∙ replay_settled K e law (requests add_route old new) _ _ _ _ (adds_agree r h)
          (elim (Bool-cases (has_route k r old)) [
            | inl b ↦
                let (j, g, q) = has_route-item k r old b in
                let ho : Holds old r = (k, (j, get-In k old {i = j} g, q, hop)) in
                inl (replay_untouched K e law _ _ _ _ (not_deleted r h ho) ∙ had r ho)
            | inr b ↦ inr (
              add_route r,
              requests-asked add_route old new {r = r} (k, (i, m, p, hop), b),
              self_at r,
            )
          ])

  -- A route of the old table to a network that the new one does not have.
  pub gateway_gone :
      (r : RoutingItem)
      → Holds old r
      → ((q : RoutingItem) → Holds new q → q.dest ≡ r.dest → q.mask ≡ r.mask → ⊥)
      → gateway after r ≡ []
  gateway_gone r (k, (i, m, p, hop)) none_new =
      let ho : Holds old r = (k, (i, m, p, hop)) in
      after-replay _ _
      ∙ replay_untouched K e law _ _ _ _ (λ c j a.
        let (q, x, g) = asked_add c j in
        let (d, n) = same_destination e q r (ranged_new q g) (ranged_old r ho) (rw x at a) in
        none_new q g d n)
      ∙ replay_settled K e law _ _ _ _ []
          (λ c j a. let (q, x, _, _) = asked_delete c j in rw x refl)
          (inr (delete_route r, missing (Bool-cases (has_route k r new)), self_at r))
    where
      missing :
          (has_route k r new ≡ true) ⊎ (has_route k r new ≡ false)
          → In (delete_route r) (requests delete_route new old)
      missing (inl b) =
          let (j, g, q) = has_route-item k r new b in
          absurd (none_new r (k, (j, get-In k new {i = j} g, q, hop)) refl refl)
      missing (inr b) = requests-asked delete_route new old {r = r} (k, (i, m, p, hop), b)

  -- A network of neither table.
  pub gateway_other :
      (d m : ℕ)
      → ((q : RoutingItem) → Holds old q → is_at d m (to_raw e q) ≡ true → ⊥)
      → ((q : RoutingItem) → Holds new q → is_at d m (to_raw e q) ≡ true → ⊥)
      → law.gateways after d m ≡ law.gateways s d m
  gateway_other d m no_old no_new =
      after-replay d m
      ∙ replay_untouched K e law _ d m _
          (λ c i a. let (q, x, g) = asked_add c i in no_new q g (rw x at a))
      ∙ replay_untouched K e law _ d m _
          (λ c i a. let (q, x, g, _) = asked_delete c i in no_old q g (rw x at a))
