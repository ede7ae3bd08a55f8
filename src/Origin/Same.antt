-- ===== src/Origin/Same.antt =====
-- ospf-packet/src/lsa.rs, `PartialEq` of `LsaData`: the links of a router and the routers of a
-- network are compared without regard to their order.
use rust_ospfd.Prelude.{
  Bool, true, false, List, [], ◌∷◌, ◌==◌, ◌&&◌, compare, Ordering, if◌then◌else◌,
}
use rust_ospfd.Packet.Lsa.{
  RouterLsaLink, RouterLsa, NetworkLsa, SummaryLsa, AsExternalLsa, LsaData, router, network,
  summary_ip, summary_asbr, as_external,
}
use rust_ospfd.Area.Nodes.{then_by}

-- `sort_unstable`: the order of equal items is of no matter, since they are the same.
module _ {A : Type 0} (cmp : A → A → Ordering) where
  abbrev pub is_before : A → A → Bool
  is_before x y = elim (cmp x y) [ Ordering.lt ↦ true | Ordering.eq ↦ true | Ordering.gt ↦ false ]

  unfoldable pub put : A → List A → List A
  put x [] = x ∷ []
  put x (y ∷ ys) = if is_before x y then x ∷ y ∷ ys else y ∷ put x ys

  unfoldable pub sort : List A → List A
  unfolding put
  sort [] = []
  sort (x ∷ xs) = put x (sort xs)

  abbrev pub is_same : A → A → Bool
  is_same x y = elim (cmp x y) [ Ordering.lt ↦ false | Ordering.eq ↦ true | Ordering.gt ↦ false ]

  abbrev pub same_list : List A → List A → Bool
  same_list [] [] = true
  same_list [] (y ∷ ys) = false
  same_list (x ∷ xs) [] = false
  same_list (x ∷ xs) (y ∷ ys) = is_same x y && same_list xs ys

-- The derived order of `RouterLSALink`.
unfoldable pub compare_link : RouterLsaLink → RouterLsaLink → Ordering
compare_link a b = then_by (compare a.link_id b.link_id) (
    then_by (compare a.link_data b.link_data) (
      then_by (compare a.link_type b.link_type)
        (then_by (compare a.tos b.tos) (compare a.metric b.metric))))

unfoldable pub same_router : RouterLsa → RouterLsa → Bool
unfolding sort compare_link
same_router a b =
    a.v == b.v
    && (a.e == b.e
        && (a.b == b.b
            && (a.num_links == b.num_links
                && same_list compare_link (sort compare_link a.links) (sort compare_link b.links))))

unfoldable pub same_network : NetworkLsa → NetworkLsa → Bool
unfolding sort
same_network a b =
    a.network_mask == b.network_mask
    && same_list compare (sort compare a.attached_routers) (sort compare b.attached_routers)

abbrev pub same_summary : SummaryLsa → SummaryLsa → Bool
same_summary a b = a.network_mask == b.network_mask && a.metric == b.metric

abbrev pub same_external : AsExternalLsa → AsExternalLsa → Bool
same_external a b =
    a.network_mask == b.network_mask
    && (a.e == b.e
        && (a.metric == b.metric
            && (a.forwarding_address == b.forwarding_address
                && a.external_router_tag == b.external_router_tag)))

unfoldable pub same_body : LsaData → LsaData → Bool
unfolding same_router same_network
same_body (router a) (router b) = same_router a b
same_body (network a) (network b) = same_network a b
same_body (summary_ip a) (summary_ip b) = same_summary a b
same_body (summary_asbr a) (summary_asbr b) = same_summary a b
same_body (as_external a) (as_external b) = same_external a b
same_body _ _ = false
