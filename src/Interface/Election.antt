-- ===== src/Interface/Election.antt =====
-- interface.cpp: election_for_dr_and_ndr and Interface::call_election. The router itself stands in
-- the list of candidates by value; the source puts the address of a local there.
pub mod Best
pub mod Rounds
pub mod Total
use ospf_lite.Base.{
  ℕ, zero, suc, Bool, true, false, not, ◌&&◌, ◌||◌, List, [], ◌∷◌, ◌++◌, Option, none, some, ◌==◌,
  ◌!=◌, ltb, u8, if◌then◌else◌,
}
use ospf_lite.Base.Outcome.{Outcome, done, crash, null_pointer, out_of_fuel, ◌>>=◌}
use ospf_lite.Config.{GlobalConfig}
use ospf_lite.Effect.{Effect}
use ospf_lite.Neighbor.{NeighborState, Neighbor, new_neighbor, at_least}
use ospf_lite.Neighbor.Events.{event_adj_ok}
use ospf_lite.Interface.{Interface}

-- The router itself as a candidate; `pri` is a uint8_t.
unfoldable pub self_candidate : GlobalConfig → Interface → Neighbor
unfolding new_neighbor
self_candidate config i = record (new_neighbor i.ip_interface_address) {
  id = config.router_id;
  dr = i.dr;
  bdr = i.bdr;
  pri = u8 i.router_priority;
}

abbrev pub declares_dr : Neighbor → Bool
declares_dr c = c.dr == c.ip

abbrev pub declares_bdr : Neighbor → Bool
declares_bdr c = c.bdr == c.ip

-- `c` has the higher priority, or the same and the higher identifier.
abbrev pub outranks : Neighbor → Neighbor → Bool
outranks c d = ltb d.pri c.pri || (c.pri == d.pri && ltb d.id c.id)

-- The neighbors that may be elected.
unfoldable pub eligible : List Neighbor → List Neighbor
eligible [] = []
eligible (n ∷ ns) =
    if at_least n.state NeighborState.two_way && n.pri != 0 then n ∷ eligible ns else eligible ns

-- The candidates of the BDR loop, and those of the DR loop, to which the router may come late.
unfoldable pub bdr_candidates : GlobalConfig → Interface → Bool → List Neighbor
unfolding eligible
bdr_candidates config i no_bdr =
    if not no_bdr && i.router_priority != 0
    then self_candidate config i ∷ eligible i.neighbors
    else eligible i.neighbors

unfoldable pub dr_candidates : GlobalConfig → Interface → Bool → List Neighbor
unfolding bdr_candidates
dr_candidates config i no_bdr =
    if no_bdr && i.router_priority != 0
    then bdr_candidates config i no_bdr ++ self_candidate config i ∷ []
    else bdr_candidates config i no_bdr

-- The body of the BDR loop.
unfoldable pub bdr_step : Option Neighbor → Neighbor → Option Neighbor
bdr_step none c = if c.dr != c.ip then some c else none
bdr_step (some b) c =
    if c.dr != c.ip
    then if declares_bdr b
      then if declares_bdr c && outranks c b then some c else some b
      else if declares_bdr c || outranks c b
      then some c
      else some b
    else some b

unfoldable pub bdr_loop : Option Neighbor → List Neighbor → Option Neighbor
unfolding bdr_step
bdr_loop bdr [] = bdr
bdr_loop bdr (c ∷ cs) = bdr_loop (bdr_step bdr c) cs

-- The body of the DR loop.
unfoldable pub dr_step : Option Neighbor → Neighbor → Option Neighbor
dr_step none c = if c.dr != c.ip then none else some c
dr_step (some d) c = if c.dr != c.ip then some d else if outranks c d then some c else some d

unfoldable pub dr_loop : Option Neighbor → List Neighbor → Option Neighbor
unfolding dr_step
dr_loop dr [] = dr
dr_loop dr (c ∷ cs) = dr_loop (dr_step dr c) cs

abbrev pub or_else : Option Neighbor → Option Neighbor → Option Neighbor
or_else none b = b
or_else (some d) b = some d

-- `*dr_ptr` and `*bdr_ptr`.
unfoldable pub election_for_dr_and_ndr :
    GlobalConfig → Interface → Bool → Option Neighbor × Option Neighbor
election_for_dr_and_ndr config i no_bdr =
    let bdr = bdr_loop none (bdr_candidates config i no_bdr) in
    (or_else (dr_loop none (dr_candidates config i no_bdr)) bdr, bdr)

abbrev pub ip_or_zero : Option Neighbor → ℕ
ip_or_zero none = 0
ip_or_zero (some n) = n.ip

-- The value of `no_bdr` for another round, or `none` to leave the loop; `old` is the interface
-- before the round.
unfoldable pub next_round : Interface → Interface → Option Bool
next_round old i =
    if i.ip_interface_address == i.dr && i.ip_interface_address != old.dr
    then some true
    else if i.ip_interface_address == i.bdr && i.ip_interface_address != old.bdr
    then some false
    else none

-- One round of `while(1)`: `dr->ip` is read without a check.
unfoldable pub election_round : GlobalConfig → Bool → Interface → Outcome (Interface × Option Bool)
unfolding next_round
election_round config no_bdr i =
    let (dr, bdr) = election_for_dr_and_ndr config i no_bdr in
    elim dr [
      | none ↦ crash null_pointer
      | some d ↦ let i' = record i { dr = d.ip; bdr = ip_or_zero bdr } in done (i', next_round i i')
    ]

unfoldable pub election_rounds : ℕ → GlobalConfig → Bool → Interface → Outcome Interface
election_rounds zero config no_bdr i = crash out_of_fuel
election_rounds (suc fuel) config no_bdr i = election_round config no_bdr i >>= λ result.
    elim result.1 [ none ↦ done result.0 | some again ↦ election_rounds fuel config again result.0 ]

-- `event_adj_ok` on each neighbor in turn.
unfoldable pub adj_ok_all : Interface → List Neighbor → List Neighbor × List Effect
adj_ok_all i [] = ([], [])
adj_ok_all i (n ∷ ns) =
    let (m, done_one) = event_adj_ok i n in
    let (ms, done_rest) = adj_ok_all i ns in (m ∷ ms, done_one ++ done_rest)

-- What follows the loop: the neighbors reconsider their adjacencies if an office has moved.
unfoldable pub announce : Interface → Interface → Interface × List Effect
unfolding adj_ok_all
announce old i =
    if old.dr != i.dr || old.bdr != i.bdr
    then (let (ns, effects) = adj_ok_all i i.neighbors in (record i { neighbors = ns }, effects))
    else (i, [])

-- The loop on fuel for two rounds, and what follows it.
unfoldable pub call_election : GlobalConfig → Interface → Outcome (Interface × List Effect)
call_election config i = election_rounds 2 config false i >>= λ i'. done (announce i i')
