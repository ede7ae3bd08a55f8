-- ===== src/Interface/Elect.antt =====
-- ospfd/interface/state.rs: the election of the designated router, `select_dr`.
use rust_ospfd.Prelude.{
  ℕ, zero, suc, Bool, List, [], ◌∷◌, ◌++◌, map, filter, is_empty, ◌==◌, ltb, not, ◌&&◌, ◌||◌,
  if◌then◌else◌, Option, some, none, compare, Ordering, values,
}
use rust_ospfd.Packet.Lsa.{Ipv4Addr}
use rust_ospfd.Neighbor.State.{Neighbor, two_way, ge_state}
use rust_ospfd.Neighbor.Event.{Env, adj_ok}
use rust_ospfd.Interface.State.{
  Interface, is_dr, is_bdr, InterfaceState, designated, backup, dr_other,
}

pub record SelectDr : Type 0 where
  pub priority : ℕ
  pub id : Ipv4Addr
  pub ip : Ipv4Addr
  pub bdr : Ipv4Addr
  pub dr : Ipv4Addr

-- `From<&Neighbor> for SelectDr`
abbrev pub of_neighbor : Neighbor → SelectDr
of_neighbor n = record {
  priority = n.priority;
  id = n.router_id;
  ip = n.ip_addr;
  bdr = n.bdr;
  dr = n.dr;
}

-- `From<&Interface> for SelectDr`
abbrev pub of_interface : Env → Interface → SelectDr
of_interface env i = record {
  priority = i.router_priority;
  id = env.router_id;
  ip = i.ip_addr;
  bdr = i.bdr;
  dr = i.dr;
}

-- Step 1: the neighbors that are two-way at least, and the router itself, with positive priority.
unfoldable pub candidates : Env → Interface → List SelectDr
candidates env i =
    filter (λ c. ltb 0 c.priority)
      (map of_neighbor (filter (λ n. ge_state n.state two_way) (values i.neighbors))
        ++ of_interface env i ∷ [])

-- The closure `cmp`: by priority, then by router identifier.
unfoldable pub cmp : SelectDr → SelectDr → Ordering
cmp x y = if x.priority == y.priority then compare x.id y.id else compare x.priority y.priority

-- `Iterator::max_by`: the last of the greatest items.
abbrev pub keep_greater : SelectDr → SelectDr → SelectDr
keep_greater x y = elim (cmp x y) [ Ordering.gt ↦ x | _ ↦ y ]

unfoldable pub max_from : SelectDr → List SelectDr → SelectDr
max_from x [] = x
max_from x (y ∷ ys) = max_from (keep_greater x y) ys

unfoldable pub max_by : List SelectDr → Option SelectDr
unfolding max_from
max_by [] = none
max_by (x ∷ xs) = some (max_from x xs)

-- `.map(|v| v.ip).unwrap_or(d)`
abbrev pub ip_or : Ipv4Addr → Option SelectDr → Ipv4Addr
ip_or d none = d
ip_or d (some v) = v.ip

-- The candidates that do not, and that do, declare themselves DR; and those declared BDR.
abbrev pub not_dr : List SelectDr → List SelectDr
not_dr can = filter (λ v. not (v.dr == v.ip)) can

abbrev pub declared_dr : List SelectDr → List SelectDr
declared_dr can = filter (λ v. v.dr == v.ip) can

abbrev pub declared_bdr : List SelectDr → List SelectDr
declared_bdr can = filter (λ v. v.bdr == v.ip) can

-- Step 2.
unfoldable pub elect_bdr : List SelectDr → Ipv4Addr
elect_bdr all =
    let can = not_dr all in
    let vec = declared_bdr can in ip_or 0 (max_by (if is_empty vec then can else vec))

-- Step 3.
unfoldable pub elect_dr : List SelectDr → Ipv4Addr → Ipv4Addr
elect_dr can bdr = ip_or bdr (max_by (declared_dr can))

-- One round of the loop: the interface with the new DR and BDR, and `new_select`.
unfoldable pub elect_round : List SelectDr → Interface → Interface × Bool
elect_round can i =
    let bdr0 = elect_bdr can in
    let dr = elect_dr can bdr0 in
    let bdr = if dr == bdr0 then 0 else bdr0 in
    let new_select =
      (dr == i.ip_addr && not (is_dr i))
      || ((bdr == i.ip_addr && not (is_bdr i))
          || ((is_dr i && not (dr == i.ip_addr)) || (is_bdr i && not (bdr == i.ip_addr)))) in
    (record i { dr = dr; bdr = bdr }, new_select)

-- The loop, on fuel. `none`: the fuel ran out.
unfoldable pub elect_loop : ℕ → List SelectDr → Interface → Option Interface
elect_loop zero can i = none
elect_loop (suc fuel) can i =
    let (i', again) = elect_round can i in
    let rest = elect_loop fuel can i' in if again then rest else some i'

-- Step 5.
abbrev pub elected_state : Interface → InterfaceState
elected_state i = if is_dr i then designated else if is_bdr i then backup else dr_other

abbrev pub unwrap_or {ℓ} : {A : Type ℓ} → A → Option A → A
unwrap_or d none = d
unwrap_or d (some a) = a

-- Step 7: `adj_ok` for each neighbor. It changes that neighbor alone, and reads of the interface
-- only what it leaves as it is.
unfoldable pub adj_ok_all : Env → Interface → Interface
adj_ok_all env i = record i { neighbors = map (λ p. (p.0, adj_ok env i p.1)) i.neighbors }

-- `select_dr`. Two rounds are enough (`Interface.Loop`).
unfoldable pub select_dr : Env → Interface → Interface
unfolding adj_ok_all
select_dr env i =
    let i' = unwrap_or i (elect_loop 2 (candidates env i) i) in
    adj_ok_all env (record i' { state = elected_state i' })
