-- ===== src/Acknowledge.antt =====
-- ospf.cpp: the LSAck handler of recv_ospf_packet_thread.
pub mod Acked
use ospf_lite.Base.{
  ℕ, ◌-◌, ◌/◌, ◌%◌, Bool, ◌&&◌, ◌||◌, List, [], ◌∷◌, Option, none, some, ◌==◌, ◌!=◌, ltb, htonl,
  if◌then◌else◌, erase_first,
}
use ospf_lite.Base.Outcome.{Outcome, done, crash, out_of_bounds, failed_assert}
use ospf_lite.LinkState.{LsaHeader}
use ospf_lite.Neighbor.{NeighborState, Neighbor, at_least}
use ospf_lite.Interface.{Interface, find_neighbor, store_neighbor}
use ospf_lite.Exchange.{load_headers}

-- `lsa` is the entry, `net` the header of the packet as it lies there.
abbrev pub acknowledges : LsaHeader → LsaHeader → Bool
acknowledges net lsa =
    lsa.ls_type == net.ls_type
    && lsa.link_state_id == htonl net.link_state_id
    && lsa.advertising_router == htonl net.advertising_router

-- The loop over the headers: each takes the first entry of its name off the list.
unfoldable pub acknowledge_all : List LsaHeader → List LsaHeader → List LsaHeader
acknowledge_all [] list = list
acknowledge_all (net ∷ nets) list = acknowledge_all nets (erase_first (acknowledges net) list)

-- `lsa_header_end` lies `packet_length` bytes behind the start of the OSPF packet, the headers 24.
unfoldable pub ack_headers : ℕ → List ℕ → Option (List LsaHeader)
unfolding load_headers
ack_headers packet_length bytes =
    if ltb packet_length 24 || (packet_length - 24) % 20 != 0
    then none
    else load_headers ((packet_length - 24) / 20) bytes

-- The handler for a packet from `src`; `bytes` is the buffer behind the OSPF header.
unfoldable pub recv_lsack : ℕ → ℕ → List ℕ → Interface → Outcome Interface
unfolding acknowledge_all ack_headers
recv_lsack src packet_length bytes i = elim (find_neighbor src i) [
  | none ↦ crash failed_assert
  | some n ↦
      if at_least n.state NeighborState.exchange
      then elim (ack_headers packet_length bytes) [
        | none ↦ crash out_of_bounds
        | some nets ↦ done (record i {
          neighbors =
              store_neighbor
                (record n {
                  link_state_retransmission_list =
                      acknowledge_all nets n.link_state_retransmission_list;
                })
                i.neighbors;
        })
      ]
      else done i
]
