-- ===== src/Examples/Data.antt =====
-- A router with priority 1 on a LAN with one neighbor, for the runs.
use ospf_lite.Base.{ℕ, true, false, List, [], ◌∷◌}
use ospf_lite.Config.{GlobalConfig}
use ospf_lite.LinkState.{LsaHeader, LsaRouterLink, LsaRouter, LsaNetwork, empty_lsdb}
use ospf_lite.Neighbor.{NeighborState, Neighbor}
use ospf_lite.Interface.{Interface, InterfaceState, NetworkType}
use ospf_lite.Area.{Router}

abbrev pub config : GlobalConfig
config = record {
  ip = 0x0a000001;
  ip_interface_mask = 0xffffff00;
  router_id = 0x08080808;
  hello_interval = 10;
  dead_interval = 40;
  wait_interval = 40;
  ospf_options = 2;
  ls_sequence_cnt = 0x80000001;
}

abbrev pub neighbor_in : NeighborState → Neighbor
neighbor_in s = record {
  state = s;
  is_master = true;
  dd_seq_num = 0;
  last_recv_dd_seq_num = 0;
  last_recv_dd_i = false;
  last_recv_dd_m = false;
  last_recv_dd_ms = false;
  last_send_dd_data = [];
  last_send_dd_data_len = 0;
  id = 7;
  pri = 1;
  ip = 0x0a000002;
  options = 2;
  dr = 0;
  bdr = 0;
  link_state_retransmission_list = [];
  database_summary_list = [];
  link_state_request_list = [];
  is_empty_dd_sender_running = false;
  empty_dd_sender_stop = false;
  lsr_sender_created = false;
  last_recv_hello_time = 0;
}

abbrev pub interface_with : InterfaceState → List Neighbor → Interface
interface_with s ns = record {
  type = NetworkType.broadcast;
  state = s;
  ip_interface_address = 0x0a000001;
  ip_interface_mask = 0xffffff00;
  hello_interval = 10;
  router_dead_interval = 40;
  inf_trans_delay = 1;
  router_priority = 1;
  neighbors = ns;
  dr = 0;
  bdr = 0;
  rxmt_interval = 5;
  au_type = 0;
  mtu = 1500;
  waiting_timeout = false;
  cost = 1;
}

-- Waiting for the first election, and what the election decides.
abbrev pub waiting_lan : Interface
waiting_lan = interface_with InterfaceState.waiting (neighbor_in NeighborState.two_way ∷ [])

abbrev pub dr_lan_with : List Neighbor → Interface
dr_lan_with ns = record (interface_with InterfaceState.dr ns) { dr = 0x0a000001; bdr = 0x0a000002 }

abbrev pub elected_lan : Interface
elected_lan = dr_lan_with (neighbor_in NeighborState.exstart ∷ [])

abbrev pub header_of : ℕ → ℕ → ℕ → LsaHeader
header_of type seq len = record {
  ls_age = 1;
  options = 2;
  ls_type = type;
  link_state_id = 0x0a000001;
  advertising_router = 0x08080808;
  ls_seq_num = seq;
  ls_checksum = 0;
  length = len;
}

abbrev pub stub_link : LsaRouterLink
stub_link = record {
  link_id = 0x0a000000;
  link_data = 0xffffff00;
  type = 3;
  tos_num = 0;
  metric = 1;
}

abbrev pub router_lsa : LsaRouter
router_lsa = record {
  header = header_of 1 0x80000001 36;
  zero0 = 3;
  b_v = 0;
  b_e = 1;
  b_b = 0;
  zero1 = 9;
  links_num = 1;
  links = stub_link ∷ [];
}

abbrev pub network_lsa : ℕ → LsaNetwork
network_lsa seq = record {
  header = header_of 2 seq 32;
  network_mask = 0xffffff00;
  attached_routers = 7 ∷ 9 ∷ [];
}

-- The router in an area with this interface alone.
abbrev pub router_at : Interface → Router
router_at i = record {
  config = config;
  area_id = 0;
  lsdb = empty_lsdb;
  before = [];
  interface = i;
  after = [];
  trace = [];
}
