-- ===== src/System/Reachable.antt =====
-- The states that the process reaches from its start in main of main.cpp: rounds of the receiving
-- thread of ospf.cpp, and the two other threads that write to the interface and its neighbors,
-- waiting_timer_thread of interface.cpp and send_empty_dd_packet_thread of ospf.cpp.
use ospf_lite.Base.{ℕ, ◌≡◌, Bool, true, false, ◌&&◌, List, some}
use ospf_lite.Base.Outcome.{done}
use ospf_lite.Config.{config_init}
use ospf_lite.Neighbor.{Neighbor}
use ospf_lite.Interface.{Interface, find_neighbor}
use ospf_lite.Area.{OspfNetwork, Router, belongs, complement32}
use ospf_lite.Lsa.Adjacency.{with_neighbor}
use ospf_lite.System.{Surroundings, round, boot, loopback_interface, interface_init}
use ospf_lite.System.Rounds.{IsFrame}

-- What waiting_timer_thread does once its time is over.
unfoldable pub waiting_timer_ends : Router → Router
waiting_timer_ends r = record r { interface = record (r.interface) { waiting_timeout = true } }

-- What send_empty_dd_packet_thread does to its neighbor when it ends.
unfoldable pub empty_dd_sender_ends : Neighbor → Router → Router
empty_dd_sender_ends n r = with_neighbor (record n { is_empty_dd_sender_running = false }) r

pub data Step (p_proto : ℕ) : Router → Router → Type 0 where
  received :
      {r r' : Router} (s : Surroundings) (packet : List ℕ)
      → IsFrame packet
      → round p_proto s packet r ≡ done r'
      → Step p_proto r r'
  waited : {r : Router} → Step p_proto r (waiting_timer_ends r)
  stopped :
      {r : Router} {n : Neighbor} (ip : ℕ)
      → find_neighbor ip r.interface ≡ some n
      → Step p_proto r (empty_dd_sender_ends n r)

-- From the start on the address and mask that the system gives.
pub data Reachable (p_proto ip mask : ℕ) : Router → Type 0 where
  started : {r : Router} → boot ip mask ≡ done r → Reachable p_proto ip mask r
  then_step :
      {r r' : Router}
      → Reachable p_proto ip mask r
      → Step p_proto r r'
      → Reachable p_proto ip mask r'

abbrev boot_network : ℕ → ℕ → OspfNetwork
boot_network ip mask = record { ip = ip; wildcard_mask = complement32 mask }

-- The test of `boot`.
abbrev boot_test : ℕ → ℕ → Bool
boot_test ip mask =
    belongs (boot_network ip mask) loopback_interface
    && belongs (boot_network ip mask) (interface_init (config_init ip mask))
