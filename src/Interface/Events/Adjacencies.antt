-- ===== src/Interface/Events/Adjacencies.antt =====
-- Interface::call_election of interface.cpp and the adjacencies of the neighbors.
use ospf_lite.Base.{
  ℕ, ◌≡◌, ◌≢◌, refl, Bool, false, List, [], ◌∷◌, All, ◌!=◌, ◌||◌, Bool-cases, inl, inr, arith,
}
use ospf_lite.Base.Outcome.{done, Outcome-cases}
use ospf_lite.Config.{GlobalConfig}
use ospf_lite.Effect.{Effect}
use ospf_lite.Neighbor.{Neighbor}
use ospf_lite.Neighbor.Events.{event_adj_ok}
use ospf_lite.Neighbor.Events.Calls.{IsOrderly}
use ospf_lite.Interface.{Interface, InterfaceState, wants_adjacency}
use ospf_lite.Interface.Election.{election_rounds, announce, adj_ok_all, call_election}
use ospf_lite.Interface.Election.Rounds.{Apart}
use ospf_lite.Interface.Events.Offices.{OfficesOnly, election_rounds-OfficesOnly}

-- The event settles a neighbor under the new offices, whatever adjacency the old ones wanted.
event_adj_ok_settles :
    (old i : Interface) (n : Neighbor) → IsOrderly old n → IsOrderly i (event_adj_ok i n).0
unfolding event_adj_ok
event_adj_ok_settles old i n h = ground arith

adj_ok_all_settles :
    (old i : Interface) (ns : List Neighbor)
    → All (IsOrderly old) ns
    → All (IsOrderly i) (adj_ok_all i ns).0
unfolding adj_ok_all
adj_ok_all_settles old i [] h = tt
adj_ok_all_settles old i (n ∷ ns) h =
    (event_adj_ok_settles old i n h.0, adj_ok_all_settles old i ns h.1)

-- The part of an interface that decides which adjacencies are wanted.
abbrev pub SameWants : Interface → Interface → Type 0
SameWants old i =
    (i.type ≡ old.type)
    × (i.ip_interface_address ≡ old.ip_interface_address)
    × (i.dr ≡ old.dr)
    × (i.bdr ≡ old.bdr)

IsOrderly-same :
    (old i : Interface) (n : Neighbor) → SameWants old i → IsOrderly old n → IsOrderly i n
unfolding wants_adjacency
IsOrderly-same old i n s h = ground arith

pub All-IsOrderly-same :
    (old i : Interface) (ns : List Neighbor)
    → SameWants old i
    → All (IsOrderly old) ns
    → All (IsOrderly i) ns
All-IsOrderly-same old i [] s h = tt
All-IsOrderly-same old i (n ∷ ns) s h =
    (IsOrderly-same old i n s h.0, All-IsOrderly-same old i ns s h.1)

-- Every neighbor of the interface is orderly.
abbrev pub IsSettled : Interface → Type 0
IsSettled i = All (IsOrderly i) i.neighbors

announce-IsSettled :
    (old i : Interface) → OfficesOnly old i → IsSettled old → IsSettled (announce old i).0
unfolding announce
announce-IsSettled old i (d, b, same) h = elim (Bool-cases (old.dr != i.dr || old.bdr != i.bdr)) [
  | inl moved ↦
      rw (moved, announce)
        (All-IsOrderly-same i (record i { neighbors = (adj_ok_all i i.neighbors).0 }) _
          (refl, refl, refl, refl) (adj_ok_all_settles old i i.neighbors (rw same h)))
  | inr kept ↦ rw (kept, announce) (All-IsOrderly-same old i i.neighbors (ground arith) (rw same h))
]

-- An election leaves every neighbor orderly under the offices that it decides.
pub call_election-IsSettled :
    (config : GlobalConfig) (i : Interface) {j : Interface} {effects : List Effect}
    → IsSettled i
    → call_election config i ≡ done (j, effects)
    → IsSettled j
unfolding call_election
call_election-IsSettled config i {j} h e = elim (Outcome-cases (election_rounds 2 config false i)) [
  | inr (fault, f) ↦ cc (rw f at e)
  | inl (k, f) ↦
      let made : (announce i k).0 ≡ j = ground arith in
      rw (← made) (announce-IsSettled i k (election_rounds-OfficesOnly config i f) h)
]

adj_ok_all_apart :
    (i : Interface) (ip : ℕ) (ns : List Neighbor)
    → All (λ n. n.ip ≢ ip) ns
    → All (λ n. n.ip ≢ ip) (adj_ok_all i ns).0
unfolding adj_ok_all event_adj_ok
adj_ok_all_apart i ip [] h = tt
adj_ok_all_apart i ip (n ∷ ns) h = (ground (arith, h.0), adj_ok_all_apart i ip ns h.1)

announce-Apart : (old k : Interface) → Apart k → Apart (announce old k).0
unfolding announce
announce-Apart old k h = elim (Bool-cases (old.dr != k.dr || old.bdr != k.bdr)) [
  | inl moved ↦ rw (moved, announce) (adj_ok_all_apart k k.ip_interface_address k.neighbors h)
  | inr kept ↦ rw (kept, announce) h
]

-- An election changes no address.
pub call_election-Apart :
    (config : GlobalConfig) (i : Interface) {j : Interface} {effects : List Effect}
    → Apart i
    → call_election config i ≡ done (j, effects)
    → Apart j × (j.ip_interface_address ≡ i.ip_interface_address)
unfolding call_election announce
call_election-Apart config i {j} h e = elim (Outcome-cases (election_rounds 2 config false i)) [
  | inr (fault, f) ↦ cc (rw f at e)
  | inl (k, f) ↦
      let (d, b, same) = election_rounds-OfficesOnly config i f in
      let apart : Apart k = rw same h in
      let made : (announce i k).0 ≡ j = ground arith in
      (rw (← made) (announce-Apart i k apart), ground arith)
]

-- The state, and a timeout flag, are no part of what decides adjacencies.
pub set_state-IsSettled :
    (i : Interface) (s : InterfaceState) (t : Bool)
    → IsSettled i
    → IsSettled (record i { state = s; waiting_timeout = t })
set_state-IsSettled i s t h =
    All-IsOrderly-same i (record i { state = s; waiting_timeout = t }) i.neighbors
      (refl, refl, refl, refl) h
