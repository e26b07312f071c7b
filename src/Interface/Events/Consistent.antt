-- ===== src/Interface/Events/Consistent.antt =====
-- The interface state machine of interface.cpp as a whole.
use ospf_lite.Base.{
  ◌≡◌, ◌≢◌, ◌⊎◌, refl, sym, ◌∙◌, Bool, true, false, List, [], inl, inr, if◌then◌else◌, arith,
}
use ospf_lite.Base.Outcome.{Outcome, done, crash, ◌>>=◌}
use ospf_lite.Config.{GlobalConfig}
use ospf_lite.Effect.{Effect}
use ospf_lite.Interface.{Interface, InterfaceState}
use ospf_lite.Interface.Election.{call_election}
use ospf_lite.Interface.Election.Rounds.{Apart}
use ospf_lite.Interface.Events.{
  event_interface_up, event_wait_timer, event_backup_seen, event_neighbor_change, office,
}
use ospf_lite.Interface.Events.Offices.{one_office, StateFits, office-StateFits}
use ospf_lite.Interface.Events.Adjacencies.{
  IsSettled, call_election-IsSettled, call_election-Apart, set_state-IsSettled,
}

-- The events of the interface, and the whole step for each.
pub data Event : Type 0 where
  interface_up wait_timer backup_seen neighbor_change : Event

unfoldable pub run : GlobalConfig → Event → Interface → Outcome (Interface × List Effect)
unfolding event_interface_up event_wait_timer event_backup_seen event_neighbor_change
run config interface_up i = done (event_interface_up i)
run config wait_timer i = event_wait_timer config i
run config backup_seen i = event_backup_seen config i
run config neighbor_change i = event_neighbor_change config i

-- The state says which office the router holds, and each neighbor is in line with the offices.
pub record IsConsistent (i : Interface) : Type 0 where
  pub addressed : i.ip_interface_address ≢ 0
  pub apart : Apart i
  pub settled : IsSettled i
  pub fits : StateFits i

-- An election, and then the state that fits its outcome.
elected-IsConsistent :
    (config : GlobalConfig) (i : Interface) (flag : Bool) {j : Interface} {effects : List Effect}
    → IsConsistent i
    → call_election config i ≡ done (j, effects)
    → IsConsistent (record j { state = office j; waiting_timeout = flag })
elected-IsConsistent config i flag {j} c e =
    let (apart, address) = call_election-Apart config i c.apart e in
    record {
      addressed = rw address c.addressed;
      apart = apart;
      settled =
          set_state-IsSettled j (office j) flag (call_election-IsSettled config i c.settled e);
      fits = office-StateFits j (one_office config i c.apart c.addressed e);
    }

set_state-IsConsistent :
    (i : Interface) (s : InterfaceState)
    → IsConsistent i
    → StateFits (record i { state = s })
    → IsConsistent (record i { state = s })
set_state-IsConsistent i s c fits = record {
  addressed = c.addressed;
  apart = c.apart;
  settled = set_state-IsSettled i s i.waiting_timeout c.settled;
  fits = fits;
}

interface_up-state :
    (i : Interface) → (event_interface_up i).0 ≡ record i { state = (event_interface_up i).0.state }
unfolding event_interface_up
interface_up-state i = ground arith

interface_up-StateFits :
    (i : Interface) → StateFits i → StateFits (record i { state = (event_interface_up i).0.state })
unfolding event_interface_up
interface_up-StateFits i h = ground arith

-- An event either leaves the interface as it is or goes on from an election.
acted :
    (test : Bool) (outcome : Outcome (Interface × List Effect))
    (finish : Interface × List Effect → Interface × List Effect) (i : Interface) {j : Interface}
    {effects : List Effect}
    → (if test then (outcome >>= λ r. done (finish r)) else done (i, [])) ≡ done (j, effects)
    → (j ≡ i) ⊎ ((r : Interface × List Effect) × (outcome ≡ done r) × (j ≡ (finish r).0))
acted false outcome finish i e = inl (ground arith)
acted true (crash fault) finish i e = cc e
acted true (done r) finish i e = inr (r, refl, ground arith)

-- For any configuration, event and interface that is consistent (its address is not 0, no
-- neighbor has its address, every neighbor is orderly under its offices, and its state is DR
-- exactly if its DR is its address and Backup exactly if its BDR is): if the event completes, the
-- interface it leaves is consistent.
pub run-IsConsistent :
    (config : GlobalConfig) (event : Event) (i : Interface) {j : Interface} {effects : List Effect}
    → IsConsistent i
    → run config event i ≡ done (j, effects)
    → IsConsistent j
unfolding run
run-IsConsistent config interface_up i {j} c e =
    let made : record i { state = (event_interface_up i).0.state } ≡ j =
      sym (interface_up-state i) ∙ ground arith in
    rw (← made)
      (set_state-IsConsistent i (event_interface_up i).0.state c (interface_up-StateFits i c.fits))
run-IsConsistent config wait_timer i c e = elim (acted _ (call_election config i) _ i e) [
  | inl same ↦ rw same c
  | inr (r, elected, made) ↦ rw made (elected-IsConsistent config i r.0.waiting_timeout c elected)
]
run-IsConsistent config backup_seen i c e = elim (acted _ (call_election config i) _ i e) [
  | inl same ↦ rw same c
  | inr (r, elected, made) ↦ rw made (elected-IsConsistent config i false c elected)
]
run-IsConsistent config neighbor_change i c e = elim (acted _ (call_election config i) _ i e) [
  | inl same ↦ rw same c
  | inr (r, elected, made) ↦ rw made (elected-IsConsistent config i r.0.waiting_timeout c elected)
]
