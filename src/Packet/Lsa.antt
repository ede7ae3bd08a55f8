-- ===== src/Packet/Lsa.antt =====
-- ospf-packet/src/lsa.rs: the LSA structures, `LsaIndex`, and the conversions between an `Lsa` and
-- its typed parts. An `Ipv4Addr` is the number that its four octets make, first octet highest, so
-- that the order of addresses is the order of numbers. A field of w bits is a number that a
-- predicate (`HeaderFits` and its like) bounds by 2 ^ w; an `i32` is an integer; `PhantomData` fields hold
-- nothing and are left out.
use rust_ospfd.Prelude.{ℕ, Bool, true, List, ◌==◌, ◌&&◌, ◌≡◌, ◌↔◌, Eq, arith}
use rust_ospfd.Prelude.Int.{ℤ}

abbrev pub Ipv4Addr : Type 0
Ipv4Addr = ℕ

-- `lsa::types`
abbrev pub router_lsa : ℕ
router_lsa = 1

abbrev pub network_lsa : ℕ
network_lsa = 2

abbrev pub summary_ip_lsa : ℕ
summary_ip_lsa = 3

abbrev pub summary_asbr_lsa : ℕ
summary_asbr_lsa = 4

abbrev pub as_external_lsa : ℕ
as_external_lsa = 5

-- `lsa::link_types`
abbrev pub p2p_link : ℕ
p2p_link = 1

abbrev pub transit_link : ℕ
transit_link = 2

abbrev pub stub_link : ℕ
stub_link = 3

abbrev pub virtual_link : ℕ
virtual_link = 4

-- ospf-packet/src/constant.rs and ospfd/constant.rs `LsaMaxAge`, `MaxAgeDiff`, `LSInfinity`,
-- `LsRefreshTime`.
abbrev pub lsa_max_age : ℕ
lsa_max_age = 3600

abbrev pub max_age_diff : ℕ
max_age_diff = 900

abbrev pub ls_infinity : ℕ
ls_infinity = 0xff_ffff

abbrev pub ls_refresh_time : ℕ
ls_refresh_time = 1800

pub record LsaHeader : Type 0 where
  pub ls_age : ℕ
  pub options : ℕ
  pub ls_type : ℕ
  pub link_state_id : Ipv4Addr
  pub advertising_router : Ipv4Addr
  pub ls_sequence_number : ℤ
  pub ls_checksum : ℕ
  pub length : ℕ

pub record RouterLsaLink : Type 0 where
  pub link_id : Ipv4Addr
  pub link_data : Ipv4Addr
  pub link_type : ℕ
  pub tos : ℕ
  pub metric : ℕ

pub record RouterLsa : Type 0 where
  pub v : ℕ
  pub e : ℕ
  pub b : ℕ
  pub num_links : ℕ
  pub links : List RouterLsaLink

pub record NetworkLsa : Type 0 where
  pub network_mask : Ipv4Addr
  pub attached_routers : List Ipv4Addr

pub record SummaryLsa : Type 0 where
  pub network_mask : Ipv4Addr
  pub metric : ℕ

pub record AsExternalLsa : Type 0 where
  pub network_mask : Ipv4Addr
  pub e : ℕ
  pub metric : ℕ
  pub forwarding_address : Ipv4Addr
  pub external_router_tag : ℕ

pub data LsaData : Type 0 where
  router : RouterLsa → LsaData
  network : NetworkLsa → LsaData
  summary_ip : SummaryLsa → LsaData
  summary_asbr : SummaryLsa → LsaData
  as_external : AsExternalLsa → LsaData

pub record Lsa : Type 0 where
  pub header : LsaHeader
  pub body : LsaData

pub record LsaIndex : Type 0 where
  pub ls_type : ℕ
  pub ls_id : Ipv4Addr
  pub ad_router : Ipv4Addr

-- `LsaIndex::from(LsaHeader)`
abbrev pub index : LsaHeader → LsaIndex
index h = record { ls_type = h.ls_type; ls_id = h.link_state_id; ad_router = h.advertising_router }

abbrev pub index_beq : LsaIndex → LsaIndex → Bool
index_beq a b = a.ls_type == b.ls_type && (a.ls_id == b.ls_id && a.ad_router == b.ad_router)

pub index_beq_iff : (a b : LsaIndex) → (index_beq a b ≡ true) ↔ (a ≡ b)
index_beq_iff a b = ground arith

instance abbrev pub index_eq : Eq LsaIndex
index_eq = record { beq = index_beq; beq_iff = index_beq_iff }
