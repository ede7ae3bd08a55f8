-- ===== src/Packet/Convert.antt =====
-- ospf-packet/src/lsa.rs, `build_convert!`: the conversions between an `Lsa` and its header with a
-- body of a given type.
use rust_ospfd.Prelude.{
  ℕ, List, [], ◌∷◌, Option, some, none, ◌==◌, leb, ◌&&◌, if◌then◌else◌, ◌≡◌, ◌↔◌, arith,
}
use rust_ospfd.Packet.Lsa.{
  LsaHeader, Lsa, LsaData, router, network, summary_ip, summary_asbr, as_external, RouterLsa,
  NetworkLsa, SummaryLsa, AsExternalLsa, router_lsa, network_lsa, summary_ip_lsa, summary_asbr_lsa,
  as_external_lsa,
}

pub data ConvertError : Type 0 where
  type_unknown type_mismatched : ConvertError

pub data Converted (A : Type 0) : Type 0 where
  ok : A → Converted A
  err : ConvertError → Converted A

-- The last two arms of the `match` on the type.
unfoldable pub refuse : {A : Type 0} → ℕ → Converted A
refuse ty = err (if leb 1 ty && leb ty 5 then type_mismatched else type_unknown)

module _ {T : Type 0} where
  -- `TryFrom<(LsaHeader, T)> for Lsa`, by the arms that the macro is given.
  unfoldable pub to_lsa : List (ℕ × (T → LsaData)) → LsaHeader → T → Converted Lsa
  unfolding refuse
  to_lsa [] h d = refuse h.ls_type
  to_lsa ((ty, con) ∷ arms) h d =
      if h.ls_type == ty then ok (record { header = h; body = con d }) else to_lsa arms h d

  -- `unpack!`
  abbrev pub unpack : LsaHeader → Option T → Converted (LsaHeader × T)
  unpack h none = err type_mismatched
  unpack h (some d) = ok (h, d)

  -- `TryFrom<Lsa> for (LsaHeader, T)`
  unfoldable pub of_lsa : List (ℕ × (LsaData → Option T)) → Lsa → Converted (LsaHeader × T)
  unfolding refuse
  of_lsa [] l = refuse l.header.ls_type
  of_lsa ((ty, get) ∷ arms) l =
      if l.header.ls_type == ty then unpack l.header (get l.body) else of_lsa arms l

abbrev pub get_router : LsaData → Option RouterLsa
get_router (router d) = some d
get_router _ = none

abbrev pub get_network : LsaData → Option NetworkLsa
get_network (network d) = some d
get_network _ = none

abbrev pub get_summary_ip : LsaData → Option SummaryLsa
get_summary_ip (summary_ip d) = some d
get_summary_ip _ = none

abbrev pub get_summary_asbr : LsaData → Option SummaryLsa
get_summary_asbr (summary_asbr d) = some d
get_summary_asbr _ = none

abbrev pub get_external : LsaData → Option AsExternalLsa
get_external (as_external d) = some d
get_external _ = none

-- The four uses of the macro.
unfoldable pub router_to_lsa : LsaHeader → RouterLsa → Converted Lsa
unfolding to_lsa
router_to_lsa = to_lsa ((router_lsa, router) ∷ [])

unfoldable pub lsa_to_router : Lsa → Converted (LsaHeader × RouterLsa)
unfolding of_lsa
lsa_to_router = of_lsa ((router_lsa, get_router) ∷ [])

unfoldable pub network_to_lsa : LsaHeader → NetworkLsa → Converted Lsa
unfolding to_lsa
network_to_lsa = to_lsa ((network_lsa, network) ∷ [])

unfoldable pub lsa_to_network : Lsa → Converted (LsaHeader × NetworkLsa)
unfolding of_lsa
lsa_to_network = of_lsa ((network_lsa, get_network) ∷ [])

unfoldable pub summary_to_lsa : LsaHeader → SummaryLsa → Converted Lsa
unfolding to_lsa
summary_to_lsa = to_lsa ((summary_ip_lsa, summary_ip) ∷ (summary_asbr_lsa, summary_asbr) ∷ [])

unfoldable pub lsa_to_summary : Lsa → Converted (LsaHeader × SummaryLsa)
unfolding of_lsa
lsa_to_summary =
    of_lsa ((summary_ip_lsa, get_summary_ip) ∷ (summary_asbr_lsa, get_summary_asbr) ∷ [])

unfoldable pub external_to_lsa : LsaHeader → AsExternalLsa → Converted Lsa
unfolding to_lsa
external_to_lsa = to_lsa ((as_external_lsa, as_external) ∷ [])

unfoldable pub lsa_to_external : Lsa → Converted (LsaHeader × AsExternalLsa)
unfolding of_lsa
lsa_to_external = of_lsa ((as_external_lsa, get_external) ∷ [])

router_inverse :
    (h : LsaHeader) (d : RouterLsa) (l : Lsa)
    → (router_to_lsa h d ≡ ok l) ↔ (lsa_to_router l ≡ ok (h, d))
unfolding router_to_lsa lsa_to_router
router_inverse h d l = ground arith

network_inverse :
    (h : LsaHeader) (d : NetworkLsa) (l : Lsa)
    → (network_to_lsa h d ≡ ok l) ↔ (lsa_to_network l ≡ ok (h, d))
unfolding network_to_lsa lsa_to_network
network_inverse h d l = ground arith

summary_inverse :
    (h : LsaHeader) (d : SummaryLsa) (l : Lsa)
    → (summary_to_lsa h d ≡ ok l) ↔ (lsa_to_summary l ≡ ok (h, d))
unfolding summary_to_lsa lsa_to_summary
summary_inverse h d l = ground arith

external_inverse :
    (h : LsaHeader) (d : AsExternalLsa) (l : Lsa)
    → (external_to_lsa h d ≡ ok l) ↔ (lsa_to_external l ≡ ok (h, d))
unfolding external_to_lsa lsa_to_external
external_inverse h d l = ground arith

-- For each of the four types of body, a header and a body convert to an LSA exactly when that LSA
-- converts to them.
pub conversions_inverse :
    (h : LsaHeader) (r : RouterLsa) (n : NetworkLsa) (s : SummaryLsa) (x : AsExternalLsa) (l : Lsa)
    → ((router_to_lsa h r ≡ ok l) ↔ (lsa_to_router l ≡ ok (h, r)))
      × ((network_to_lsa h n ≡ ok l) ↔ (lsa_to_network l ≡ ok (h, n)))
      × ((summary_to_lsa h s ≡ ok l) ↔ (lsa_to_summary l ≡ ok (h, s)))
      × ((external_to_lsa h x ≡ ok l) ↔ (lsa_to_external l ≡ ok (h, x)))
conversions_inverse h r n s x l =
    (router_inverse h r l, network_inverse h n l, summary_inverse h s l, external_inverse h x l)
