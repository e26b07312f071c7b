-- ===== src/Interface.antt =====
-- include/interface.h: the interface data structure, and the methods of interface.cpp on its
-- neighbors. A `Neighbor*` into the list is the address of the neighbor, which never changes.
pub mod Election
pub mod Events
use ospf_lite.Base.{
  ℕ, Bool, true, false, ◌||◌, List, [], ◌∷◌, ◌++◌, Option, ◌==◌, find_if, if◌then◌else◌,
}
use ospf_lite.Neighbor.{Neighbor}

pub data NetworkType : Type 0 where
  p2p broadcast nbma p2mp virtual : NetworkType

pub data InterfaceState : Type 0 where
  down loopback waiting point2point drother backup dr : InterfaceState

abbrev pub rank : InterfaceState → ℕ
rank InterfaceState.down = 0
rank InterfaceState.loopback = 1
rank InterfaceState.waiting = 2
rank InterfaceState.point2point = 3
rank InterfaceState.drother = 4
rank InterfaceState.backup = 5
rank InterfaceState.dr = 6

abbrev pub is : InterfaceState → InterfaceState → Bool
is s t = rank s == rank t

-- The pointer to the area and the handle of the waiting timer are left out.
pub record Interface : Type 0 where
  pub type : NetworkType
  pub state : InterfaceState
  pub ip_interface_address : ℕ
  pub ip_interface_mask : ℕ
  pub hello_interval : ℕ
  pub router_dead_interval : ℕ
  pub inf_trans_delay : ℕ
  pub router_priority : ℕ
  pub neighbors : List Neighbor
  pub dr : ℕ
  pub bdr : ℕ
  pub rxmt_interval : ℕ
  pub au_type : ℕ
  pub mtu : ℕ
  pub waiting_timeout : Bool
  pub cost : ℕ

-- The default member values.
unfoldable pub new_interface : Interface
new_interface = record {
  type = NetworkType.broadcast;
  state = InterfaceState.down;
  ip_interface_address = 0;
  ip_interface_mask = 0;
  hello_interval = 10;
  router_dead_interval = 40;
  inf_trans_delay = 1;
  router_priority = 1;
  neighbors = [];
  dr = 0;
  bdr = 0;
  rxmt_interval = 5;
  au_type = 0;
  mtu = 1500;
  waiting_timeout = false;
  cost = 1;
}

unfoldable pub find_neighbor : ℕ → Interface → Option Neighbor
find_neighbor ip i = find_if (λ n. n.ip == ip) i.neighbors

unfoldable pub add_neighbor : Neighbor → Interface → Interface
add_neighbor n i = record i { neighbors = i.neighbors ++ n ∷ [] }

-- The list once the neighbor at the address of `n` has become `n`.
unfoldable pub store_neighbor : Neighbor → List Neighbor → List Neighbor
store_neighbor n [] = []
store_neighbor n (m ∷ ms) = (if m.ip == n.ip then n else m) ∷ store_neighbor n ms

abbrev pub is_point_to_point : NetworkType → Bool
is_point_to_point NetworkType.p2p = true
is_point_to_point NetworkType.p2mp = true
is_point_to_point NetworkType.virtual = true
is_point_to_point _ = false

-- The condition under which `event_2way_received` and `event_adj_ok` want an adjacency with the
-- neighbor at `ip`.
unfoldable pub wants_adjacency : Interface → ℕ → Bool
wants_adjacency i ip =
    is_point_to_point i.type
    || i.dr == i.ip_interface_address
    || i.bdr == i.ip_interface_address
    || i.dr == ip
    || i.bdr == ip
