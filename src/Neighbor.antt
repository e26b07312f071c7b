-- ===== src/Neighbor.antt =====
-- include/neighbor.h: the neighbor data structure and its states.
pub mod Events
use ospf_lite.Base.{ℕ, Bool, false, List, [], ◌==◌, leb}
use ospf_lite.LinkState.{LsaHeader}

pub data NeighborState : Type 0 where
  down attempt init two_way exstart exchange loading full : NeighborState

-- The value of the enumerator, by which `==` and `>=` compare states.
abbrev pub rank : NeighborState → ℕ
rank NeighborState.down = 0
rank NeighborState.attempt = 1
rank NeighborState.init = 2
rank NeighborState.two_way = 3
rank NeighborState.exstart = 4
rank NeighborState.exchange = 5
rank NeighborState.loading = 6
rank NeighborState.full = 7

abbrev pub is : NeighborState → NeighborState → Bool
is s t = rank s == rank t

abbrev pub at_least : NeighborState → NeighborState → Bool
at_least s t = leb (rank t) (rank s)

-- The thread handles and mutexes are left out: `Effect` records what is done with them.
pub record Neighbor : Type 0 where
  pub state : NeighborState
  pub is_master : Bool
  pub dd_seq_num : ℕ
  pub last_recv_dd_seq_num : ℕ
  pub last_recv_dd_i : Bool
  pub last_recv_dd_m : Bool
  pub last_recv_dd_ms : Bool
  pub last_send_dd_data : List ℕ
  pub last_send_dd_data_len : ℕ
  pub id : ℕ
  pub pri : ℕ
  pub ip : ℕ
  pub options : ℕ
  pub dr : ℕ
  pub bdr : ℕ
  pub link_state_retransmission_list : List LsaHeader
  pub database_summary_list : List LsaHeader
  pub link_state_request_list : List LsaHeader
  pub is_empty_dd_sender_running : Bool
  pub empty_dd_sender_stop : Bool
  pub lsr_sender_created : Bool
  pub last_recv_hello_time : ℕ

-- The constructor. What it leaves unset, the bits and the data of the last DD packets and the time,
-- is zero here: the code writes them before it acts on them.
unfoldable pub new_neighbor : ℕ → Neighbor
new_neighbor ip = record {
  state = NeighborState.down;
  is_master = false;
  dd_seq_num = 0;
  last_recv_dd_seq_num = 0;
  last_recv_dd_i = false;
  last_recv_dd_m = false;
  last_recv_dd_ms = false;
  last_send_dd_data = [];
  last_send_dd_data_len = 0;
  id = 0;
  pri = 0;
  ip = ip;
  options = 2;
  dr = 0;
  bdr = 0;
  link_state_retransmission_list = [];
  database_summary_list = [];
  link_state_request_list = [];
  is_empty_dd_sender_running = false;
  empty_dd_sender_stop = false;
  lsr_sender_created = false;
  last_recv_hello_time = 0;
}
