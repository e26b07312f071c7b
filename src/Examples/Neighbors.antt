-- ===== src/Examples/Neighbors.antt =====
-- Calls of the neighbor state machine on the LAN.
use ospf_lite.Base.{◌≡◌, ◌⊎◌, refl, true, arith}
use ospf_lite.LinkState.{empty_lsdb}
use ospf_lite.Neighbor.{NeighborState}
use ospf_lite.Neighbor.Events.{event_1way_received, event_2way_received, clear_lists, reset_dd}
use ospf_lite.Neighbor.Events.Calls.{
  two_way_received, one_way_received, inactivity_timer, apply, IsOrderly, apply-IsOrderly, Climbs,
  apply-Climbs, apply-joins, retrans_sender_runs,
}
use ospf_lite.Interface.{wants_adjacency}
use ospf_lite.Examples.Data.{neighbor_in, elected_lan}

exstart-IsOrderly : IsOrderly elected_lan (neighbor_in NeighborState.exstart)
unfolding wants_adjacency
exstart-IsOrderly = record {
  no_retransmission = λ h. refl;
  no_summary = λ h. refl;
  no_request = λ h. refl;
  adjacent_wanted = λ h. refl;
  two_way_unwanted = ground arith;
}

apply-IsOrderly_example :
    IsOrderly elected_lan
      (apply elected_lan empty_lsdb one_way_received (neighbor_in NeighborState.exstart)).0
apply-IsOrderly_example =
    apply-IsOrderly elected_lan empty_lsdb one_way_received (neighbor_in NeighborState.exstart)
      exstart-IsOrderly

apply-Climbs_example :
    Climbs elected_lan
      (neighbor_in NeighborState.init)
      two_way_received
      (apply elected_lan empty_lsdb two_way_received (neighbor_in NeighborState.init)).0.state
unfolding apply event_2way_received reset_dd wants_adjacency
apply-Climbs_example =
    apply-Climbs elected_lan empty_lsdb two_way_received (neighbor_in NeighborState.init)
      (omega arith)

apply-joins_example :
    (one_way_received ≡ inactivity_timer)
    ⊎ (retrans_sender_runs
          (apply elected_lan empty_lsdb one_way_received (neighbor_in NeighborState.exstart)).0
        ≡ true)
unfolding apply event_1way_received clear_lists
apply-joins_example =
    apply-joins elected_lan empty_lsdb one_way_received (neighbor_in NeighborState.exstart) refl
