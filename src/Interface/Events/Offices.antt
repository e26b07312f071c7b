-- ===== src/Interface/Events/Offices.antt =====
-- Interface::call_election of interface.cpp and the offices of the router.
use ospf_lite.Base.{
  ℕ, zero, suc, ◌≡◌, ◌≢◌, ◌↔◌, refl, List, Bool, false, Option, none, Option-cases, inl, inr, arith,
}
use ospf_lite.Base.Outcome.{done, Outcome-cases}
use ospf_lite.Config.{GlobalConfig}
use ospf_lite.Effect.{Effect}
use ospf_lite.Interface.{Interface, InterfaceState}
use ospf_lite.Interface.Events.{office}
use ospf_lite.Interface.Election.{
  election_for_dr_and_ndr, bdr_loop, bdr_candidates, next_round, election_round, election_rounds,
  ip_or_zero, announce, call_election,
}
use ospf_lite.Interface.Election.Rounds.{Apart, election_round-eq-done, bdr_self}

-- `i` differs from `origin` in the offices alone.
abbrev pub OfficesOnly : Interface → Interface → Type 0
OfficesOnly origin i = (d : ℕ) × (b : ℕ) × (i ≡ record origin { dr = d; bdr = b })

election_round-OfficesOnly :
    (config : GlobalConfig) (no_bdr : Bool) (origin i : Interface) {j : Interface}
    {again : Option Bool}
    → OfficesOnly origin i
    → election_round config no_bdr i ≡ done (j, again)
    → OfficesOnly origin j
election_round-OfficesOnly config no_bdr origin i (d, b, same) e =
    let (elected, _, made, _) = election_round-eq-done config no_bdr i e in
    (elected.ip, ip_or_zero (election_for_dr_and_ndr config i no_bdr).1, ground arith)

-- The last round of the loop.
pub record LastRound (config : GlobalConfig) (origin j : Interface) : Type 0 where
  pub no_bdr : Bool
  pub before : Interface
  pub same : OfficesOnly origin before
  pub round : election_round config no_bdr before ≡ done (j, none)

election_rounds-LastRound :
    (fuel : ℕ) (config : GlobalConfig) (no_bdr : Bool) (origin i : Interface) {j : Interface}
    → OfficesOnly origin i
    → election_rounds fuel config no_bdr i ≡ done j
    → LastRound config origin j
unfolding election_rounds
election_rounds-LastRound zero config no_bdr origin i same e = cc e
election_rounds-LastRound (suc fuel) config no_bdr origin i {j} same e =
    elim (Outcome-cases (election_round config no_bdr i)) [
      | inr (fault, h) ↦ cc (rw (h, election_rounds) at e)
      | inl ((k, again), h) ↦ elim (Option-cases again) [
        | inl last ↦
            let h' : election_round config no_bdr i ≡ done (k, none) = rw last at h in
            let k_is : k ≡ j = ground arith in
            record { no_bdr = no_bdr; before = i; same = same; round = rw k_is at h' }
        | inr (next, more) ↦
            election_rounds-LastRound fuel config next origin k
              (election_round-OfficesOnly config no_bdr origin i same h) (ground arith)
      ]
    ]

pub election_rounds-OfficesOnly :
    (config : GlobalConfig) (i : Interface) {j : Interface}
    → election_rounds 2 config false i ≡ done j
    → OfficesOnly i j
election_rounds-OfficesOnly config i e =
    let last = election_rounds-LastRound 2 config false i i (i.dr, i.bdr, refl) e in
    election_round-OfficesOnly config last.no_bdr i last.before last.same last.round

round_one_office :
    (config : GlobalConfig) (no_bdr : Bool) (i : Interface) {j : Interface}
    → Apart i
    → i.ip_interface_address ≢ 0
    → election_round config no_bdr i ≡ done (j, none)
    → ¬ ((j.dr ≡ j.ip_interface_address) × (j.bdr ≡ j.ip_interface_address))
unfolding next_round election_for_dr_and_ndr
round_one_office config no_bdr i apart own e both =
    elim (Option-cases (bdr_loop none (bdr_candidates config i no_bdr))) [
      | inl nobody ↦ ground (arith, election_round-eq-done config no_bdr i e)
      | inr (b, elected) ↦ ground (
        arith,
        election_round-eq-done config no_bdr i e,
        bdr_self config i apart no_bdr b elected,
      )
    ]

OfficesOnly-Apart : (origin i : Interface) → OfficesOnly origin i → Apart origin → Apart i
OfficesOnly-Apart origin i (d, b, same) apart = rw same apart

-- If no neighbor has the address of the interface, the address is not 0 and call_election
-- returns, the interface does not have its own address both as DR and as BDR.
pub one_office :
    (config : GlobalConfig) (i : Interface) {j : Interface} {effects : List Effect}
    → Apart i
    → i.ip_interface_address ≢ 0
    → call_election config i ≡ done (j, effects)
    → ¬ ((j.dr ≡ j.ip_interface_address) × (j.bdr ≡ j.ip_interface_address))
unfolding call_election announce
one_office config i {j} apart own e = elim (Outcome-cases (election_rounds 2 config false i)) [
  | inr (fault, h) ↦ cc (rw h at e)
  | inl (k, h) ↦
      let last = election_rounds-LastRound 2 config false i i (i.dr, i.bdr, refl) h in
      let apart' = OfficesOnly-Apart i last.before last.same apart in
      let own' : last.before.ip_interface_address ≢ 0 = ground (arith, last.same) in
      let apart_offices = round_one_office config last.no_bdr last.before apart' own' last.round in
      ground (arith, apart_offices)
]

-- The state of the interface says which office the router holds, and says so exactly.
abbrev pub StateFits : Interface → Type 0
StateFits i =
    ((i.state ≡ InterfaceState.dr) ↔ (i.dr ≡ i.ip_interface_address))
    × ((i.state ≡ InterfaceState.backup) ↔ (i.bdr ≡ i.ip_interface_address))

pub office-StateFits :
    (j : Interface)
    → ¬ ((j.dr ≡ j.ip_interface_address) × (j.bdr ≡ j.ip_interface_address))
    → StateFits (record j { state = office j })
unfolding office
office-StateFits j h = ground arith
