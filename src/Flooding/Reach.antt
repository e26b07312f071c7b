-- ===== src/Flooding/Reach.antt =====
-- flooding_lsa of ospf.cpp: what it does at each neighbor.
use ospf_lite.Base.{
  ℕ, ◌≡◌, ◌≢◌, ◌⊎◌, inl, inr, refl, Bool, true, false, ◌||◌, List, [], ◌∷◌, ◌++◌, none, some, ℤ,
  pos, negsuc, is_neg, ◌==◌, All, find_if, erase_first, Option-cases, Bool-cases, arith,
}
use ospf_lite.Base.Outcome.{done}
use ospf_lite.LinkState.{LsaHeader}
use ospf_lite.LinkState.Header.{ntoh, lsa_header_cmp}
use ospf_lite.LinkState.Wire.{load_header}
use ospf_lite.Neighbor.{NeighborState, Neighbor, is}
use ospf_lite.Interface.{Interface}
use ospf_lite.Flooding.{is_zero, requests, flood_neighbor, flood_neighbors, flood_lsa, flooding_lsa}

-- Neither Exchange nor Loading.
abbrev pub IsSkipped : Neighbor → Type 0
IsSkipped n = (n.state ≢ NeighborState.exchange) × (n.state ≢ NeighborState.loading)

abbrev pub IsReached : Neighbor → Type 0
IsReached n = (n.state ≡ NeighborState.exchange) ⊎ (n.state ≡ NeighborState.loading)

skipped_same :
    (h : LsaHeader) (src : ℕ) (ns : List Neighbor)
    → All IsSkipped ns
    → flood_neighbors h src ns ≡ (ns, false)
unfolding flood_neighbors flood_neighbor
skipped_same h src [] s = refl
skipped_same h src (n ∷ ns) s = ground (arith, skipped_same h src ns s.1)

-- If the header of the LSA can be loaded and no neighbor is in Exchange or Loading, all of them
-- Full for one, then flooding_lsa changes nothing, sends nothing and returns -1.
pub flooding_lsa-skipped :
    (bytes : List ℕ) (src : ℕ) (i : Interface) {header : LsaHeader} {rest : List ℕ}
    → load_header bytes ≡ some (header, rest)
    → All IsSkipped i.neighbors
    → flooding_lsa bytes src i ≡ done (i, negsuc 0, [])
unfolding flooding_lsa flood_lsa
flooding_lsa-skipped bytes src i {header} loaded s =
    rw (loaded, flooding_lsa) (ground (arith, skipped_same (ntoh header) src i.neighbors s))

-- The fate of the LSA at one neighbor, by the state and the request that the neighbor has for it.
pub data Fate (h : LsaHeader) (src : ℕ) (n : Neighbor) : Neighbor × Bool → Type 0 where
  skipped : IsSkipped n → Fate h src n (n, false)
  not_requested :
      IsReached n
      → find_if (requests h) n.link_state_request_list ≡ none
      → Fate h src n (
        record n { link_state_retransmission_list = n.link_state_retransmission_list ++ h ∷ [] },
        true,
      )
  satisfied :
      (request : LsaHeader)
      → IsReached n
      → find_if (requests h) n.link_state_request_list ≡ some request
      → (lsa_header_cmp h request ≡ pos 0)
        ⊎ ((is_neg (lsa_header_cmp h request) ≡ true) × (src ≡ n.ip))
      → Fate h src n (
        record n { link_state_request_list = erase_first (requests h) n.link_state_request_list },
        false,
      )
  forwarded :
      (request : LsaHeader)
      → IsReached n
      → find_if (requests h) n.link_state_request_list ≡ some request
      → is_neg (lsa_header_cmp h request) ≡ true
      → src ≢ n.ip
      → Fate h src n (
        record n {
          link_state_request_list = erase_first (requests h) n.link_state_request_list;
          link_state_retransmission_list = n.link_state_retransmission_list ++ h ∷ [];
        },
        true,
      )
  outdated :
      (request : LsaHeader)
      → IsReached n
      → find_if (requests h) n.link_state_request_list ≡ some request
      → is_neg (lsa_header_cmp request h) ≡ true
      → Fate h src n (n, false)

outdated_by :
    (a b : LsaHeader)
    → is_zero (lsa_header_cmp a b) ≡ false
    → is_neg (lsa_header_cmp a b) ≡ false
    → is_neg (lsa_header_cmp b a) ≡ true
unfolding lsa_header_cmp
outdated_by a b z n = ground arith

zero_is : (z : ℤ) → is_zero z ≡ true → z ≡ pos 0
zero_is (pos n) e = ground arith
zero_is (negsuc n) e = cc e

-- At a neighbor in Exchange or Loading that has a request for the LSA.
requested-Fate :
    (h request : LsaHeader) (src : ℕ) (n : Neighbor)
    → find_if (requests h) n.link_state_request_list ≡ some request
    → (is n.state NeighborState.exchange || is n.state NeighborState.loading) ≡ true
    → IsReached n
    → Fate h src n (flood_neighbor h src n)
unfolding flood_neighbor
requested-Fate h request src n e busy r = elim (Bool-cases (is_zero (lsa_header_cmp h request))) [
  | inl z ↦
      rw (busy, e, z, flood_neighbor)
        (satisfied request r e (inl (zero_is (lsa_header_cmp h request) z)))
  | inr z ↦ elim (Bool-cases (is_neg (lsa_header_cmp h request))) [
    | inr newer ↦
        rw (busy, e, z, newer, flood_neighbor)
          (outdated request r e (outdated_by h request z newer))
    | inl older ↦ elim (Bool-cases (src == n.ip)) [
      | inl own ↦
          rw (busy, e, z, older, own, flood_neighbor)
            (satisfied request r e (inr (older, ground arith)))
      | inr other ↦
          rw (busy, e, z, older, other, flood_neighbor) (forwarded request r e older (ground arith))
    ]
  ]
]

reached :
    (n : Neighbor)
    → (is n.state NeighborState.exchange || is n.state NeighborState.loading) ≡ true
    → IsReached n
reached n busy = ground arith

-- For any neighbor the step of flooding_lsa does one of five things: outside Exchange and Loading
-- nothing; with no request for the LSA it puts the LSA on the retransmission list; with a request
-- for the same instance, or for an older one if the neighbor is the sender, it drops the request
-- alone; with a request for an older instance and another sender it does both; with a request for
-- a more recent instance nothing. It reports an addition exactly where it makes one.
pub flood_neighbor-Fate :
    (h : LsaHeader) (src : ℕ) (n : Neighbor) → Fate h src n (flood_neighbor h src n)
unfolding flood_neighbor
flood_neighbor-Fate h src n =
    elim (Bool-cases (is n.state NeighborState.exchange || is n.state NeighborState.loading)) [
      | inr idle ↦ rw (idle, flood_neighbor) (skipped (ground arith))
      | inl busy ↦ elim (Option-cases (find_if (requests h) n.link_state_request_list)) [
        | inl e ↦ rw (busy, e, flood_neighbor) (not_requested (reached n busy) e)
        | inr (request, e) ↦ requested-Fate h request src n e busy (reached n busy)
      ]
    ]
