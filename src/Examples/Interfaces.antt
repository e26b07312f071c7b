-- ===== src/Examples/Interfaces.antt =====
-- The interface state machine and the election on the LAN.
use ospf_lite.Base.{◌≡◌, refl, false, [], ◌∷◌, Option, arith}
use ospf_lite.Base.Outcome.{done, crash, null_pointer}
use ospf_lite.Effect.{create, empty_dd_sender}
use ospf_lite.Neighbor.{NeighborState, Neighbor}
use ospf_lite.Neighbor.Events.{event_adj_ok, restart_empty_dd_sender, reset_dd}
use ospf_lite.Interface.{Interface, InterfaceState, wants_adjacency}
use ospf_lite.Interface.Election.{
  bdr_candidates, dr_candidates, or_else, election_for_dr_and_ndr, election_rounds, election_round,
  next_round, call_election, announce, adj_ok_all, eligible, self_candidate, bdr_loop, dr_loop,
  bdr_step, dr_step,
}
use ospf_lite.Interface.Election.Best.{ElectsDr, ElectsBdr, election-Elects}
use ospf_lite.Interface.Election.Total.{election_rounds_end, call_election_crash}
use ospf_lite.Interface.Events.{event_wait_timer, office}
use ospf_lite.Interface.Events.Consistent.{wait_timer, run, IsConsistent, run-IsConsistent}
use ospf_lite.Examples.Data.{config, neighbor_in, waiting_lan, elected_lan, interface_with}

pub waiting_lan-IsConsistent : IsConsistent waiting_lan
unfolding wants_adjacency
waiting_lan-IsConsistent = record {
  addressed = ground arith;
  apart = ground arith;
  settled = (
    record {
      no_retransmission = λ h. refl;
      no_summary = λ h. refl;
      no_request = λ h. refl;
      adjacent_wanted = ground arith;
      two_way_unwanted = λ h. refl;
    },
    tt,
  );
  fits = ground arith;
}

election_runs :
    call_election config waiting_lan
    ≡ done (
      record elected_lan { state = InterfaceState.waiting },
      create empty_dd_sender 0x0a000002 ∷ [],
    )
unfolding call_election election_rounds election_round next_round election_for_dr_and_ndr announce
    adj_ok_all eligible bdr_candidates dr_candidates self_candidate bdr_loop dr_loop bdr_step
    dr_step event_adj_ok restart_empty_dd_sender reset_dd wants_adjacency
election_runs = refl

wait_timer_runs :
    run config wait_timer waiting_lan ≡ done (elected_lan, create empty_dd_sender 0x0a000002 ∷ [])
unfolding run event_wait_timer office
wait_timer_runs = rw (election_runs, event_wait_timer) refl

-- After the wait timer the router is DR, and starts an adjacency.
run-IsConsistent_example : IsConsistent elected_lan
run-IsConsistent_example =
    run-IsConsistent config wait_timer waiting_lan waiting_lan-IsConsistent wait_timer_runs

election-Elects_example :
    (declared : Option Neighbor) × ElectsDr (dr_candidates config waiting_lan false) declared
    × ElectsBdr
        (bdr_candidates config waiting_lan false)
        (election_for_dr_and_ndr config waiting_lan false).1
    × ((election_for_dr_and_ndr config waiting_lan false).0
        ≡ or_else declared (election_for_dr_and_ndr config waiting_lan false).1)
election-Elects_example = election-Elects config waiting_lan false

election_rounds_end_example :
    (j : Interface) × (election_rounds 2 config false waiting_lan ≡ done j)
    × (election_rounds 9 config false waiting_lan ≡ done j)
election_rounds_end_example =
    election_rounds_end 7 config waiting_lan (ground arith) (ground arith) (ground arith)

-- A router with priority 0, whose neighbor has been heard only.
abbrev idle_lan : Interface
idle_lan = record (interface_with InterfaceState.drother (neighbor_in NeighborState.init ∷ [])) {
  router_priority = 0;
}

call_election_crash_example : call_election config idle_lan ≡ crash null_pointer
unfolding eligible
call_election_crash_example = call_election_crash config idle_lan refl refl
