-- ===== src/Packet/Types.antt =====
-- ospf-packet/src/packet.rs: the five packets, their type codes and the option bits; and the
-- addresses of ospfd/constant.rs.
use rust_ospfd.Prelude.{ℕ, Bool, List, ◌==◌, not, ◌/◌, ◌%◌}
use rust_ospfd.Packet.Lsa.{Ipv4Addr, LsaHeader, Lsa}

-- `packet::types`
abbrev pub hello_packet : ℕ
hello_packet = 1

abbrev pub db_description : ℕ
db_description = 2

abbrev pub ls_request : ℕ
ls_request = 3

abbrev pub ls_update : ℕ
ls_update = 4

abbrev pub ls_acknowledge : ℕ
ls_acknowledge = 5

-- `options::E`, as the number of its bit.
abbrev pub option_e : ℕ
option_e = 2

abbrev pub all_spf_routers : Ipv4Addr
all_spf_routers = 0xe000_0005

abbrev pub all_d_routers : Ipv4Addr
all_d_routers = 0xe000_0006

abbrev pub backbone_area : Ipv4Addr
backbone_area = 0

pub record HelloPacket : Type 0 where
  pub network_mask : Ipv4Addr
  pub hello_interval : ℕ
  pub options : ℕ
  pub router_priority : ℕ
  pub router_dead_interval : ℕ
  pub designated_router : Ipv4Addr
  pub backup_designated_router : Ipv4Addr
  pub neighbors : List Ipv4Addr

pub record DbDescription : Type 0 where
  pub interface_mtu : ℕ
  pub options : ℕ
  pub init : ℕ
  pub more : ℕ
  pub master : ℕ
  pub db_sequence_number : ℕ
  pub lsa_header : List LsaHeader

pub record LsRequest : Type 0 where
  pub ls_type : ℕ
  pub ls_id : Ipv4Addr
  pub advertising_router : Ipv4Addr

pub record LsUpdate : Type 0 where
  pub num_lsa : ℕ
  pub lsa : List Lsa

pub record LsAcknowledge : Type 0 where
  pub lsa_header : List LsaHeader

-- `OptionExt::is_set` at one bit: `(options & option) != 0`, where `option` is a power of two.
abbrev pub is_set : ℕ → ℕ → Bool
is_set options option = not (options / option % 2 == 0)

-- What `send_packet` is given: an `impl OspfSubPacket`.
pub data SubPacket : Type 0 where
  hello : HelloPacket → SubPacket
  dd : DbDescription → SubPacket
  lsr : LsRequest → SubPacket
  lsu : LsUpdate → SubPacket
  ack : LsAcknowledge → SubPacket

-- `OspfSubPacket::get_type`
pub get_type : SubPacket → ℕ
get_type (hello _) = hello_packet
get_type (dd _) = db_description
get_type (lsr _) = ls_request
get_type (lsu _) = ls_update
get_type (ack _) = ls_acknowledge
