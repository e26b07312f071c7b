-- ===== src/Senders.antt =====
-- ospf.cpp: the rounds of send_empty_dd_packet_thread, send_lsr_packet_thread and retrans_sender_thread.
pub mod Requested
pub mod Retransmits
use ospf_lite.Base.{
  ℕ, ◌+◌, ◌*◌, Bool, true, false, not, ◌&&◌, ◌||◌, List, [], ◌∷◌, ◌++◌, Option, none, some, ◌==◌,
  ltb, leb, u8, u16, htons, htonl, bytes16, bytes32, length, if◌then◌else◌,
}
use ospf_lite.Base.Outcome.{Outcome, done, crash, null_pointer, out_of_bounds, ◌>>=◌}
use ospf_lite.Effect.{Effect, send}
use ospf_lite.LinkState.{LsaHeader, LsaRouter, LsaNetwork, Lsdb}
use ospf_lite.LinkState.Wire.{store_router, store_network}
use ospf_lite.LinkState.Database.{find_router_lsa, find_network_lsa}
use ospf_lite.Neighbor.{NeighborState, Neighbor, is}
use ospf_lite.Lsa.Adjacency.{is_empty}

-- OSPFDD with the three bits set; the sequence number is stored as the host has it.
unfoldable empty_dd : ℕ → ℕ → List ℕ
empty_dd mtu dd_seq_num = bytes16 (htons (u16 mtu)) ++ (2 ∷ 7 ∷ []) ++ bytes32 dd_seq_num

-- One round of `send_empty_dd_packet_thread`: `none` where its loop ends.
unfoldable empty_dd_round : ℕ → Neighbor → Option Effect
unfolding empty_dd
empty_dd_round mtu n =
    if not (is n.state NeighborState.exstart) || n.empty_dd_sender_stop
    then none
    else some (send n.ip 2 (empty_dd mtu n.dd_seq_num))

-- OSPFLsr, 12 bytes.
unfoldable lsr_entry : LsaHeader → List ℕ
lsr_entry h =
    bytes32 (htonl h.ls_type)
    ++ bytes32 (htonl h.link_state_id)
    ++ bytes32 (htonl h.advertising_router)

-- The loop that fills the request, with `len` bytes so far.
unfoldable pub lsr_data : ℕ → List LsaHeader → List ℕ
unfolding lsr_entry
lsr_data len [] = []
lsr_data len (h ∷ hs) =
    let rest = lsr_data (len + 12) hs in if ltb 1024 (len + 12) then [] else lsr_entry h ++ rest

-- One round of `send_lsr_packet_thread`, which waits first but in its first round.
unfoldable lsr_round : Bool → Neighbor → Option Effect
unfolding lsr_data
lsr_round is_first n =
    if not (is n.state NeighborState.exchange)
      || (not is_first && is_empty n.link_state_request_list)
    then none
    else some (send n.ip 3 (lsr_data 0 n.link_state_request_list))

-- The header goes out as the host has it, but for the age.
abbrev pub retrans_header : ℕ → LsaHeader → LsaHeader
retrans_header delay h = record h { ls_age = htons (u16 (h.ls_age + delay)) }

-- The bytes for one entry of the retransmission list; an LSA that the database lacks is a null pointer.
unfoldable pub retrans_lsa : ℕ → Lsdb → LsaHeader → Outcome (List ℕ)
retrans_lsa delay lsdb h =
    if h.ls_type == 1
    then elim (find_router_lsa h.link_state_id h.advertising_router lsdb) [
      | none ↦ crash null_pointer
      | some lsa ↦ done (store_router (retrans_header delay lsa.header) lsa)
    ]
    else if h.ls_type == 2
    then elim (find_network_lsa h.link_state_id h.advertising_router lsdb) [
      | none ↦ crash null_pointer
      | some lsa ↦ done (store_network (retrans_header delay lsa.header) lsa)
    ]
    else done []

-- The tests that leave the loop: no room by the length of the header, or a network LSA from byte 900 on.
abbrev pub is_full : List ℕ → LsaHeader → Bool
is_full lsas h =
    ltb 1024 (4 + length lsas + h.length) || (h.ls_type == 2 && leb 900 (4 + length lsas))

-- The loop over the retransmission list, from `num` LSAs and their bytes: every entry sends the update
-- as it is so far. The buffer has 1024 bytes.
unfoldable retrans_all : ℕ → Lsdb → ℕ → List LsaHeader → ℕ → List ℕ → Outcome (List Effect)
unfolding retrans_lsa
retrans_all delay lsdb ip [] num lsas = done []
retrans_all delay lsdb ip (h ∷ hs) num lsas =
    if is_full lsas h
    then done []
    else retrans_lsa delay lsdb h >>= λ bytes. elim (ltb 1024 (4 + length (lsas ++ bytes))) [
      | true ↦ crash out_of_bounds
      | false ↦ retrans_all delay lsdb ip hs (num + 1) (lsas ++ bytes) >>= λ later.
          done (send ip 4 (bytes32 (htonl (num + 1)) ++ (lsas ++ bytes)) ∷ later)
    ]

-- One round of `retrans_sender_thread`: `none` where its loop ends.
unfoldable pub retrans_round : ℕ → Lsdb → Neighbor → Outcome (Option (List Effect))
unfolding retrans_all
retrans_round delay lsdb n =
    if is n.state NeighborState.down
    then done none
    else retrans_all delay lsdb n.ip n.link_state_retransmission_list 0 [] >>= λ sent.
        done (some sent)
