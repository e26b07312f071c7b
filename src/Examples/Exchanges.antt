-- ===== src/Examples/Exchanges.antt =====
-- Packets of a database exchange on the LAN.
use ospf_lite.Base.{
  ◌≡◌, ◌<◌, refl, true, false, ℕ, List, [], ◌∷◌, some, length, htonl, htons, arith,
}
use ospf_lite.LinkState.{LsaHeader, Lsdb, empty_lsdb}
use ospf_lite.Neighbor.{NeighborState, Neighbor}
use ospf_lite.Neighbor.Events.{event_negotiation_done}
use ospf_lite.Exchange.{OspfDd, negotiate, push_requests}
use ospf_lite.Exchange.Drains.{replies, replies-drains}
use ospf_lite.Exchange.Reply.{send_reply}
use ospf_lite.Exchange.Roles.{summary, negotiate-roles, push_requests-network}
use ospf_lite.Examples.Data.{config, neighbor_in, header_of, router_lsa}

-- The answer of a slave to the first packet.
abbrev slave_dd : OspfDd
slave_dd = record {
  interface_mtu = 1500;
  options = 2;
  b_ms = false;
  b_m = true;
  b_i = false;
  dd_seq_num = 0;
}

abbrev stored : Lsdb
stored = record { router_lsas = router_lsa ∷ []; network_lsas = [] }

abbrev with_summary : Neighbor
with_summary = record (neighbor_in NeighborState.exchange) {
  is_master = false;
  database_summary_list = router_lsa.header ∷ [];
}

negotiated :
    negotiate config stored slave_dd (neighbor_in NeighborState.exstart) ≡ some with_summary
unfolding negotiate event_negotiation_done htonl
negotiated = refl

negotiate-roles_example :
    (with_summary.state ≡ NeighborState.exchange)
    × (with_summary.database_summary_list ≡ summary stored)
    × (with_summary.is_master ≡ true → 0x08080808 < with_summary.id)
    × (with_summary.is_master ≡ false → with_summary.id < 0x08080808)
negotiate-roles_example =
    negotiate-roles config stored slave_dd (neighbor_in NeighborState.exstart) refl negotiated

push_requests-network_example :
    push_requests empty_lsdb (header_of 2 5 32 ∷ []) (router_lsa.header ∷ [])
    ≡ router_lsa.header ∷ []
unfolding htons
push_requests-network_example =
    push_requests-network empty_lsdb (header_of 2 5 32 ∷ []) (router_lsa.header ∷ []) (ground arith)

replies-drains_example :
    (m : Neighbor) × (replies config 1500 (0 ∷ []) (send_reply config 0 1500 with_summary).0
      ≡ some m)
    × (m.database_summary_list ≡ [])
replies-drains_example = replies-drains config 0 1500 (0 ∷ []) with_summary (omega arith)

-- A header of the type 0, to a neighbor that was sent a header.
abbrev bad_bytes : List ℕ
bad_bytes = 0 ∷ 1 ∷ 2 ∷ 0 ∷ 10 ∷ 0 ∷ 0 ∷ 1 ∷ 8 ∷ 8 ∷ 8 ∷ 8 ∷ 128 ∷ 0 ∷ 0 ∷ 1 ∷ 0 ∷ 0 ∷ 0 ∷ 36 ∷ []

abbrev bad_header : LsaHeader
bad_header = record {
  ls_age = 256;
  options = 2;
  ls_type = 0;
  link_state_id = 0x0100000a;
  advertising_router = 0x08080808;
  ls_seq_num = 0x01000080;
  ls_checksum = 0;
  length = 9216;
}

abbrev answered : Neighbor
answered = record with_summary { last_send_dd_data_len = 28 }
