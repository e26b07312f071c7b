-- ===== src/Interface/Election/Rounds.antt =====
-- Interface::call_election of interface.cpp: one round of its loop after another.
use ospf_lite.Base.{
  ℕ, ◌≡◌, ◌≢◌, ◌⊎◌, sym, inl, inr, Bool, true, false, ◌&&◌, List, [], ◌∷◌, ◌++◌, Option, none, some,
  All, ◌!=◌, refl, arith, Option-cases, Bool-cases,
}
use ospf_lite.Base.Outcome.{done}
use ospf_lite.Config.{GlobalConfig}
use ospf_lite.Neighbor.{NeighborState, Neighbor, at_least}
use ospf_lite.Interface.{Interface}
use ospf_lite.Interface.Election.{
  self_candidate, eligible, dr_loop, bdr_loop, bdr_candidates, dr_candidates,
  election_for_dr_and_ndr, next_round, election_round, ip_or_zero,
}
use ospf_lite.Interface.Election.Best.{IsIn, dr_loop-IsIn, bdr_loop-IsIn}

-- The neighbors have other addresses than the interface: the receiver drops the router's own packets.
abbrev pub Apart : Interface → Type 0
Apart i = All (λ n. n.ip ≢ i.ip_interface_address) i.neighbors

eligible_apart :
    (ip : ℕ) (d : Neighbor) (ns : List Neighbor)
    → All (λ n. n.ip ≢ ip) ns
    → IsIn d (eligible ns)
    → d.ip ≢ ip
unfolding eligible
eligible_apart ip d [] h m = absurd m
eligible_apart ip d (n ∷ ns) h m =
    elim (Bool-cases (at_least n.state NeighborState.two_way && n.pri != 0)) [
      | inl e ↦ elim (rw e at m) [
        | inl same ↦ rw same h.0
        | inr later ↦ eligible_apart ip d ns h.1 later
      ]
      | inr e ↦ eligible_apart ip d ns h.1 (rw e at m)
    ]

IsIn-append : (d : Neighbor) (xs ys : List Neighbor) → IsIn d (xs ++ ys) → IsIn d xs ⊎ IsIn d ys
IsIn-append d [] ys m = inr m
IsIn-append d (x ∷ xs) ys (inl e) = inl (inl e)
IsIn-append d (x ∷ xs) ys (inr m) = elim (IsIn-append d xs ys m) [
  | inl early ↦ inl (inr early)
  | inr late ↦ inr late
]

module _ (config : GlobalConfig) (i : Interface) (apart : Apart i) where
  -- A candidate is the router, and then this is no late round, or a neighbor at another address.
  bdr_candidate :
      (no_bdr : Bool) (d : Neighbor)
      → IsIn d (bdr_candidates config i no_bdr)
      → ((d ≡ self_candidate config i) × (no_bdr ≡ false)) ⊎ (d.ip ≢ i.ip_interface_address)
  unfolding bdr_candidates
  bdr_candidate true d m = inr (eligible_apart _ d i.neighbors apart m)
  bdr_candidate false d m = elim (Bool-cases (i.router_priority != 0)) [
    | inl e ↦ elim (rw e at m) [
      | inl same ↦ inl (same, refl)
      | inr later ↦ inr (eligible_apart _ d i.neighbors apart later)
    ]
    | inr e ↦ inr (eligible_apart _ d i.neighbors apart (rw e at m))
  ]

  dr_candidate :
      (no_bdr : Bool) (d : Neighbor)
      → IsIn d (dr_candidates config i no_bdr)
      → (d ≡ self_candidate config i) ⊎ (d.ip ≢ i.ip_interface_address)
  unfolding dr_candidates
  dr_candidate no_bdr d m = elim (Bool-cases (no_bdr && i.router_priority != 0)) [
    | inl e ↦ elim (IsIn-append d (bdr_candidates config i no_bdr) _ (rw e at m)) [
      | inl early ↦ early_candidate early
      | inr (inl same) ↦ inl same
      | inr (inr none_left) ↦ absurd none_left
    ]
    | inr e ↦ early_candidate (rw e at m)
  ]
    where
      early_candidate :
          IsIn d (bdr_candidates config i no_bdr)
          → (d ≡ self_candidate config i) ⊎ (d.ip ≢ i.ip_interface_address)
      early_candidate n = elim (bdr_candidate no_bdr d n) [ inl h ↦ inl h.0 | inr h ↦ inr h ]

  -- Who declares himself DR is not the router, as long as the router is not DR.
  declared_apart :
      (no_bdr : Bool) (d : Neighbor)
      → i.dr ≢ i.ip_interface_address
      → dr_loop none (dr_candidates config i no_bdr) ≡ some d
      → d.ip ≢ i.ip_interface_address
  unfolding self_candidate
  declared_apart no_bdr d h e = elim (dr_loop-IsIn _ none d e) [
    | inl never ↦ cc never
    | inr (m, declared) ↦ elim (dr_candidate no_bdr d m) [
      | inl same ↦ ground arith
      | inr other ↦ other
    ]
  ]

  -- The router becomes BDR only if it is not DR, and not in a late round.
  pub bdr_self :
      (no_bdr : Bool) (b : Neighbor)
      → bdr_loop none (bdr_candidates config i no_bdr) ≡ some b
      → b.ip ≡ i.ip_interface_address
      → (no_bdr ≡ false) × (i.dr ≢ i.ip_interface_address)
  unfolding self_candidate
  bdr_self no_bdr b e own = elim (bdr_loop-IsIn _ none b e) [
    | inl never ↦ cc never
    | inr (m, open_to) ↦ elim (bdr_candidate no_bdr b m) [
      | inl (same, late) ↦ (late, ground arith)
      | inr other ↦ absurd (other own)
    ]
  ]

dr_loop_skip :
    (config : GlobalConfig) (i : Interface)
    → i.dr ≢ i.ip_interface_address
    → dr_loop none (dr_candidates config i false) ≡ dr_loop none (eligible i.neighbors)
unfolding dr_candidates bdr_candidates self_candidate dr_loop
dr_loop_skip config i h = ground arith

pub election_round-eq-done :
    (config : GlobalConfig) (no_bdr : Bool) (i : Interface) {j : Interface} {again : Option Bool}
    → election_round config no_bdr i ≡ done (j, again)
    → (d : Neighbor) × ((election_for_dr_and_ndr config i no_bdr).0 ≡ some d)
      × (j ≡ record i { dr = d.ip; bdr = ip_or_zero (election_for_dr_and_ndr config i no_bdr).1 })
      × (again ≡ next_round i j)
unfolding election_round
election_round-eq-done config no_bdr i e =
    elim (Option-cases (election_for_dr_and_ndr config i no_bdr).0) [
      | inl h ↦ cc (rw (h, election_round) at e)
      | inr (d, h) ↦ (d, h, ground arith, ground arith)
    ]

-- In a late round somebody else becomes BDR, or nobody.
late_bdr :
    (config : GlobalConfig) (i : Interface)
    → Apart i
    → i.ip_interface_address ≢ 0
    → ip_or_zero (election_for_dr_and_ndr config i true).1 ≢ i.ip_interface_address
unfolding election_for_dr_and_ndr
late_bdr config i apart own h = elim (Option-cases (bdr_loop none (bdr_candidates config i true))) [
  | inl e ↦ own (sym (rw e at h))
  | inr (b, e) ↦ cc (bdr_self config i apart true b e (rw e at h)).0
]

-- A round after the router has become DR ends the loop.
late_round :
    (config : GlobalConfig) (i : Interface) {j : Interface} {again : Option Bool}
    → Apart i
    → i.ip_interface_address ≢ 0
    → i.dr ≡ i.ip_interface_address
    → election_round config true i ≡ done (j, again)
    → again ≡ none
unfolding next_round
late_round config i apart own h e =
    ground (arith, election_round-eq-done config true i e, late_bdr config i apart own)

-- A round after the router has become BDR, beside a DR that has declared itself, ends the loop.
second_round :
    (config : GlobalConfig) (i : Interface) (d : Neighbor) {j : Interface} {again : Option Bool}
    → Apart i
    → i.dr ≢ i.ip_interface_address
    → i.bdr ≡ i.ip_interface_address
    → dr_loop none (eligible i.neighbors) ≡ some d
    → election_round config false i ≡ done (j, again)
    → again ≡ none
unfolding next_round election_for_dr_and_ndr
second_round config i d apart h b e r = ground (
  arith,
  election_round-eq-done config false i r,
  dr_loop_skip config i h,
  declared_apart config i apart false d h,
)

-- A round keeps the neighbors and the address.
round-Apart :
    (config : GlobalConfig) (no_bdr : Bool) (i : Interface) {j : Interface} {again : Option Bool}
    → Apart i
    → election_round config no_bdr i ≡ done (j, again)
    → Apart j
round-Apart config no_bdr i apart e =
    let (d, _, made, _) = election_round-eq-done config no_bdr i e in rw made apart

-- The router has become BDR: it was not DR, and the DR has declared itself.
became_bdr :
    (config : GlobalConfig) (i : Interface) {j : Interface}
    → Apart i
    → i.ip_interface_address ≢ 0
    → election_round config false i ≡ done (j, some false)
    → (j.dr ≢ j.ip_interface_address)
      × (j.bdr ≡ j.ip_interface_address)
      × ((d : Neighbor) × (dr_loop none (eligible j.neighbors) ≡ some d))
unfolding next_round election_for_dr_and_ndr
became_bdr config i {j} apart own e =
    elim (Option-cases (bdr_loop none (bdr_candidates config i false))) [
      | inl nobody ↦ absurd (ground (arith, election_round-eq-done config false i e))
      | inr (b, elected) ↦ elim (Option-cases (dr_loop none (eligible i.neighbors))) [
        | inl undeclared ↦ absurd (
            ground (
              arith,
              election_round-eq-done config false i e,
              bdr_self config i apart false b elected,
              dr_loop_skip config i,
            ))
        | inr (d, declared) ↦ (
          ground (
            arith,
            election_round-eq-done config false i e,
            bdr_self config i apart false b elected,
          ),
          ground (arith, election_round-eq-done config false i e),
          (d, ground (arith, election_round-eq-done config false i e)),
        )
      ]
    ]

-- Whatever the first round asks for, the second round asks for nothing more.
pub round_settles :
    (config : GlobalConfig) (i : Interface) (no_bdr : Bool) {j k : Interface} {again : Option Bool}
    → Apart i
    → i.ip_interface_address ≢ 0
    → election_round config false i ≡ done (j, some no_bdr)
    → election_round config no_bdr j ≡ done (k, again)
    → again ≡ none
unfolding next_round
round_settles config i true {j} apart own e f =
    late_round config j (round-Apart config false i apart e)
      (ground (arith, election_round-eq-done config false i e))
      (ground (arith, election_round-eq-done config false i e)) f
round_settles config i false {j} apart own e f =
    let (h, b, (d, declared)) = became_bdr config i apart own e in
    second_round config j d (round-Apart config false i apart e) h b declared f
