-- ===== src/Interface/Events.antt =====
-- interface.cpp: the events of the interface state machine. `event_loop_ind`, `event_unloop_ind` and
-- `event_interface_down` have empty bodies.
pub mod Offices
pub mod Adjacencies
pub mod Consistent
use ospf_lite.Base.{ℕ, Bool, false, ◌||◌, List, [], ◌∷◌, ◌++◌, ◌==◌, ◌!=◌, if◌then◌else◌}
use ospf_lite.Base.Outcome.{Outcome, done, ◌>>=◌}
use ospf_lite.Config.{GlobalConfig}
use ospf_lite.Effect.{Effect, create, join, cancel, waiting_timer}
use ospf_lite.Interface.{Interface, InterfaceState, is, is_point_to_point}
use ospf_lite.Interface.Election.{call_election}

unfoldable pub event_interface_up : Interface → Interface × List Effect
event_interface_up i =
    if is i.state InterfaceState.down
    then if is_point_to_point i.type
      then (record i { state = InterfaceState.point2point }, [])
      else if i.router_priority != 0
      then (
        record i { state = InterfaceState.waiting },
        create waiting_timer i.ip_interface_address ∷ [],
      )
      else (record i { state = InterfaceState.drother }, [])
    else (i, [])

-- The state that each of the three events takes from the outcome of the election.
unfoldable pub office : Interface → InterfaceState
office i =
    if i.ip_interface_address == i.dr
    then InterfaceState.dr
    else if i.ip_interface_address == i.bdr
    then InterfaceState.backup
    else InterfaceState.drother

unfoldable pub event_wait_timer : GlobalConfig → Interface → Outcome (Interface × List Effect)
unfolding office
event_wait_timer config i =
    if is i.state InterfaceState.waiting
    then (call_election config i >>= λ result.
        done (record (result.0) { state = office result.0 }, result.1))
    else done (i, [])

unfoldable pub event_backup_seen : GlobalConfig → Interface → Outcome (Interface × List Effect)
unfolding office
event_backup_seen config i =
    if is i.state InterfaceState.waiting
    then (call_election config i >>= λ result. done (
      record (result.0) { state = office result.0; waiting_timeout = false },
      result.1
          ++ (cancel waiting_timer i.ip_interface_address
              ∷ join waiting_timer i.ip_interface_address
              ∷ []),
    ))
    else done (i, [])

unfoldable pub event_neighbor_change : GlobalConfig → Interface → Outcome (Interface × List Effect)
unfolding office
event_neighbor_change config i =
    if is i.state InterfaceState.dr
      || is i.state InterfaceState.backup
      || is i.state InterfaceState.drother
    then (call_election config i >>= λ result.
        done (record (result.0) { state = office result.0 }, result.1))
    else done (i, [])
