-- ===== src/LinkState.antt =====
-- include/link_state.h: the structures of link_state.cpp. A structure in network order has the
-- same type, with the numbers that the host loads from it.
pub mod Header
pub mod Wire
pub mod Database
use ospf_lite.Base.{ℕ, ◌<◌, List, []}

pub record LsaHeader : Type 0 where
  pub ls_age : ℕ  -- uint16
  pub options : ℕ  -- uint8
  pub ls_type : ℕ  -- uint8
  pub link_state_id : ℕ  -- uint32
  pub advertising_router : ℕ  -- uint32
  pub ls_seq_num : ℕ  -- uint32
  pub ls_checksum : ℕ  -- uint16
  pub length : ℕ  -- uint16

-- The values of `LSAType` that the code handles.
abbrev pub lsa_router : ℕ
lsa_router = 1

abbrev pub lsa_network : ℕ
lsa_network = 2

pub record LsaRouterLink : Type 0 where
  pub link_id : ℕ  -- uint32
  pub link_data : ℕ  -- uint32
  pub type : ℕ  -- uint8
  pub tos_num : ℕ  -- uint8
  pub metric : ℕ  -- uint16

pub record LsaRouter : Type 0 where
  pub header : LsaHeader
  pub zero0 : ℕ  -- 5 bits
  pub b_v : ℕ  -- 1 bit
  pub b_e : ℕ  -- 1 bit
  pub b_b : ℕ  -- 1 bit
  pub zero1 : ℕ  -- uint8
  pub links_num : ℕ  -- uint16
  pub links : List LsaRouterLink

pub record LsaNetwork : Type 0 where
  pub header : LsaHeader
  pub network_mask : ℕ  -- uint32
  pub attached_routers : List ℕ  -- uint32

-- The class LSDB, less its thread and its mutex, which no code locks.
pub record Lsdb : Type 0 where
  pub router_lsas : List LsaRouter
  pub network_lsas : List LsaNetwork

abbrev pub empty_lsdb : Lsdb
empty_lsdb = record { router_lsas = []; network_lsas = [] }

-- The fields of a header fit their widths.
pub record IsHeader (h : LsaHeader) : Type 0 where
  pub age_fits : h.ls_age < 65536
  pub options_fits : h.options < 256
  pub type_fits : h.ls_type < 256
  pub id_fits : h.link_state_id < 4294967296
  pub router_fits : h.advertising_router < 4294967296
  pub seq_fits : h.ls_seq_num < 4294967296
  pub checksum_fits : h.ls_checksum < 65536
  pub length_fits : h.length < 65536
