-- ===== src/Interface/Election/Total.antt =====
-- Interface::call_election of interface.cpp: where its loop ends and where it faults.
use ospf_lite.Base.{
  ℕ, suc, ◌≡◌, ◌≢◌, inl, inr, refl, sym, ◌∙◌, Bool, true, false, List, [], ◌∷◌, ◌++◌, Option, none,
  some, All, Option-cases, arith,
}
use ospf_lite.Base.Outcome.{done, crash, null_pointer}
use ospf_lite.Config.{GlobalConfig}
use ospf_lite.Effect.{Effect}
use ospf_lite.Neighbor.{Neighbor}
use ospf_lite.Interface.{Interface}
use ospf_lite.Interface.Election.{
  declares_dr, self_candidate, eligible, dr_loop, bdr_loop, bdr_candidates, dr_candidates, or_else,
  election_for_dr_and_ndr, next_round, election_round, election_rounds, ip_or_zero, announce,
  call_election,
}
use ospf_lite.Interface.Election.Best.{dr_loop-ElectsDr, bdr_loop-ElectsBdr, ElectsDr, ElectsBdr}
use ospf_lite.Interface.Election.Rounds.{Apart, election_round-eq-done, round_settles}

-- Somebody is elected from a list that is not empty.
somebody :
    (c : Neighbor) (cs : List Neighbor)
    → or_else (dr_loop none (c ∷ cs)) (bdr_loop none (c ∷ cs)) ≢ none
somebody c cs e = elim (Option-cases (dr_loop none (c ∷ cs))) [
  | inr (d, h) ↦ cc (rw h at e)
  | inl h ↦
      let undeclared : ElectsDr (c ∷ cs) none = rw h at (dr_loop-ElectsDr (c ∷ cs)) in
      let declared : ElectsBdr (c ∷ cs) none = rw (rw h at e) at (bdr_loop-ElectsBdr (c ∷ cs)) in
      let clash : false ≡ true = sym undeclared.0 ∙ declared.0 in cc clash
]

All-last : (P : Neighbor → Type 0) (cs : List Neighbor) (c : Neighbor) → All P (cs ++ c ∷ []) → P c
All-last P [] c h = h.0
All-last P (x ∷ cs) c h = All-last P cs c h.1

early_candidates :
    (config : GlobalConfig) (i : Interface)
    → i.router_priority ≢ 0
    → (dr_candidates config i false ≡ self_candidate config i ∷ eligible i.neighbors)
      × (bdr_candidates config i false ≡ self_candidate config i ∷ eligible i.neighbors)
unfolding dr_candidates bdr_candidates
early_candidates config i p = (ground arith, ground arith)

late_candidates :
    (config : GlobalConfig) (i : Interface)
    → i.router_priority ≢ 0
    → dr_candidates config i true ≡ eligible i.neighbors ++ self_candidate config i ∷ []
unfolding dr_candidates bdr_candidates
late_candidates config i p = ground arith

self_declares :
    (config : GlobalConfig) (i : Interface)
    → i.dr ≡ i.ip_interface_address
    → declares_dr (self_candidate config i) ≡ true
unfolding self_candidate
self_declares config i h = ground arith

-- A round of a router that may be elected elects somebody.
round_elects :
    (config : GlobalConfig) (no_bdr : Bool) (i : Interface)
    → i.router_priority ≢ 0
    → (no_bdr ≡ true → i.dr ≡ i.ip_interface_address)
    → (election_for_dr_and_ndr config i no_bdr).0 ≢ none
unfolding election_for_dr_and_ndr
round_elects config false i p h e =
    let (dr_eq, bdr_eq) = early_candidates config i p in
    somebody (self_candidate config i) (eligible i.neighbors) (rw (dr_eq, bdr_eq) at e)
round_elects config true i p h e =
    elim (Option-cases (dr_loop none (dr_candidates config i true))) [
      | inr (d, found) ↦ cc (rw found at e)
      | inl nobody ↦
          let undeclared : ElectsDr (dr_candidates config i true) none =
            rw nobody at (dr_loop-ElectsDr (dr_candidates config i true)) in
          let last = All-last _ _ _ (rw (late_candidates config i p) at undeclared) in
          let clash : false ≡ true = sym last ∙ self_declares config i (h refl) in cc clash
    ]

round_done :
    (config : GlobalConfig) (no_bdr : Bool) (i : Interface)
    → i.router_priority ≢ 0
    → (no_bdr ≡ true → i.dr ≡ i.ip_interface_address)
    → (j : Interface) × (again : Option Bool) × (election_round config no_bdr i ≡ done (j, again))
unfolding election_round
round_done config no_bdr i p h = elim (Option-cases (election_for_dr_and_ndr config i no_bdr).0) [
  | inl nobody ↦ absurd (round_elects config no_bdr i p h nobody)
  | inr (d, e) ↦
      let bdr = (election_for_dr_and_ndr config i no_bdr).1 in
      let j : Interface = record i { dr = d.ip; bdr = ip_or_zero bdr } in
      (j, next_round i j, rw (e, election_round))
]

after_one :
    (fuel : ℕ) (config : GlobalConfig) (i : Interface) {j : Interface}
    → election_round config false i ≡ done (j, none)
    → election_rounds (suc fuel) config false i ≡ done j
unfolding election_rounds
after_one fuel config i e = rw (e, election_rounds)

after_two :
    (fuel : ℕ) (config : GlobalConfig) (i j : Interface) (no_bdr : Bool) {k : Interface}
    → election_round config false i ≡ done (j, some no_bdr)
    → election_round config no_bdr j ≡ done (k, none)
    → election_rounds (suc (suc fuel)) config false i ≡ done k
unfolding election_rounds
after_two fuel config i j no_bdr e f = rw (e, f, election_rounds)

-- What the first round leaves for a second.
hand_on :
    (config : GlobalConfig) (i : Interface) (no_bdr : Bool) {j : Interface}
    → election_round config false i ≡ done (j, some no_bdr)
    → (j.router_priority ≡ i.router_priority) × (no_bdr ≡ true → j.dr ≡ j.ip_interface_address)
unfolding next_round
hand_on config i no_bdr e = (
  ground (arith, election_round-eq-done config false i e),
  λ t. ground (arith, election_round-eq-done config false i e),
)

-- If no neighbor has the address of the interface, the address is not 0 and the router priority
-- is not 0, the loop of call_election ends within two rounds without a fault, and any larger fuel
-- gives the same interface.
pub election_rounds_end :
    (fuel : ℕ) (config : GlobalConfig) (i : Interface)
    → Apart i
    → i.ip_interface_address ≢ 0
    → i.router_priority ≢ 0
    → (j : Interface) × (election_rounds 2 config false i ≡ done j)
      × (election_rounds (suc (suc fuel)) config false i ≡ done j)
election_rounds_end fuel config i apart own p = go (round_done config false i p (λ e. cc e))
  where
    go :
        (j : Interface) × (again : Option Bool) × (election_round config false i ≡ done (j, again))
        → (j : Interface) × (election_rounds 2 config false i ≡ done j)
          × (election_rounds (suc (suc fuel)) config false i ≡ done j)
    go (j, none, e) = (j, after_one 1 config i e, after_one (suc fuel) config i e)
    go (j, some no_bdr, e) =
        let (kept, takes) = hand_on config i no_bdr e in
        let (k, again, f) = round_done config no_bdr j (rw kept p) takes in
        let last = round_settles config i no_bdr apart own e f in
        let f' : election_round config no_bdr j ≡ done (k, none) = rw last at f in
        (k, after_two 0 config i j no_bdr e f', after_two fuel config i j no_bdr e f')

-- If no neighbor has the address of the interface, the address is not 0 and the router priority
-- is not 0, call_election returns.
pub call_election_total :
    (config : GlobalConfig) (i : Interface)
    → Apart i
    → i.ip_interface_address ≢ 0
    → i.router_priority ≢ 0
    → (result : Interface × List Effect) × (call_election config i ≡ done result)
unfolding call_election
call_election_total config i apart own p =
    let (j, e, _) = election_rounds_end 0 config i apart own p in
    (announce i j, rw (e, call_election))

-- If the router priority is 0 and no neighbor is eligible, call_election follows a null pointer.
pub call_election_crash :
    (config : GlobalConfig) (i : Interface)
    → i.router_priority ≡ 0
    → eligible i.neighbors ≡ []
    → call_election config i ≡ crash null_pointer
unfolding call_election election_rounds election_round election_for_dr_and_ndr dr_candidates
    bdr_candidates dr_loop bdr_loop
call_election_crash config i p e = ground arith
