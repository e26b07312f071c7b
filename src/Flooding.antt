-- ===== src/Flooding.antt =====
-- ospf.cpp: flooding_lsa. The addresses are in host order; the source compares them swapped.
pub mod Reach
use ospf_lite.Base.{
  ℕ, ◌+◌, Bool, true, false, ◌&&◌, ◌||◌, not, List, [], ◌∷◌, ◌++◌, Option, none, some, ℤ, pos,
  negsuc, is_neg, ◌==◌, u16, htonl, if◌then◌else◌, find_if, erase_first, length, leb, take, bytes32,
}
use ospf_lite.Base.Outcome.{Outcome, done, crash, out_of_bounds}
use ospf_lite.Effect.{Effect, send}
use ospf_lite.LinkState.{LsaHeader}
use ospf_lite.LinkState.Header.{ntoh, lsa_header_cmp, names}
use ospf_lite.LinkState.Wire.{load_header}
use ospf_lite.Neighbor.{NeighborState, Neighbor, is}
use ospf_lite.Interface.{Interface, InterfaceState}
use ospf_lite.Interface

abbrev pub is_zero : ℤ → Bool
is_zero (pos n) = n == 0
is_zero (negsuc n) = false

-- The request for an LSA: the type is no part of the test.
abbrev pub requests : LsaHeader → LsaHeader → Bool
requests h request = names h.link_state_id h.advertising_router request

abbrev pub drop_request : LsaHeader → Neighbor → Neighbor
drop_request h n = record n {
  link_state_request_list = erase_first (requests h) n.link_state_request_list;
}

abbrev pub retransmit : LsaHeader → Neighbor → Neighbor
retransmit h n = record n {
  link_state_retransmission_list = n.link_state_retransmission_list ++ h ∷ [];
}

-- The body of the loop over the neighbors: the neighbor, and whether the LSA was put on its
-- retransmission list.
unfoldable pub flood_neighbor : LsaHeader → ℕ → Neighbor → Neighbor × Bool
flood_neighbor h src n =
    if is n.state NeighborState.exchange || is n.state NeighborState.loading
    then elim (find_if (requests h) n.link_state_request_list) [
      | none ↦ (retransmit h n, true)
      | some request ↦
          if is_zero (lsa_header_cmp h request)
          then (drop_request h n, false)
          else if is_neg (lsa_header_cmp h request)
          then if src == n.ip
            then (drop_request h n, false)
            else (retransmit h (drop_request h n), true)
          else (n, false)
    ]
    else (n, false)

unfoldable pub flood_neighbors : LsaHeader → ℕ → List Neighbor → List Neighbor × Bool
unfolding flood_neighbor
flood_neighbors h src [] = ([], false)
flood_neighbors h src (n ∷ ns) =
    let (m, added) = flood_neighbor h src n in
    let (ms, added_later) = flood_neighbors h src ns in (m ∷ ms, added || added_later)

-- The arguments of `send_ospf_packet`, which takes a host-order address: the two numbers are those
-- that `inet_addr` gives, in network order.
abbrev pub flood_destination : Interface → ℕ
flood_destination i =
    if Interface.is i.state InterfaceState.dr || Interface.is i.state InterfaceState.backup
    then htonl 0xe0000005
    else htonl 0xe0000006

-- `flooding_lsa` behind the copy of the header in host order, `h`. The result is the interface, the
-- returned number and what was sent.
unfoldable pub flood_lsa :
    LsaHeader → List ℕ → ℕ → Interface → Outcome (Interface × ℤ × List Effect)
unfolding flood_neighbors
flood_lsa h bytes src i =
    if h.ls_type == 5
    then done (i, negsuc 0, [])
    else (let (ns, added) = flood_neighbors h src i.neighbors in
        let i' : Interface = record i { neighbors = ns } in
        if not added || src == i.dr || src == i.bdr || Interface.is i.state InterfaceState.backup
        then done (i', negsuc 0, [])
        else if leb (4 + h.length) 1024 && leb h.length (length bytes)
        then done (
          i',
          pos 0,
          send (flood_destination i) 4 (bytes32 (htonl 1) ++ take h.length bytes) ∷ [],
        )
        else crash out_of_bounds)

-- `flooding_lsa` on the LSA at the front of `bytes`.
unfoldable pub flooding_lsa : List ℕ → ℕ → Interface → Outcome (Interface × ℤ × List Effect)
unfolding flood_lsa
flooding_lsa bytes src i = elim (load_header bytes) [
  | none ↦ crash out_of_bounds
  | some (header_net, _) ↦ flood_lsa (ntoh header_net) bytes src i
]
