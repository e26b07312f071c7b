-- ===== src/Examples/Replies.antt =====
-- Acknowledgments and requests on the LAN.
use ospf_lite.Base.{
  ℕ, ◌*◌, ◌≡◌, refl, List, [], ◌∷◌, none, some, any, remove_if, htonl, htons, arith,
}
use ospf_lite.Base.Outcome.{done}
use ospf_lite.LinkState.{LsaHeader, Lsdb}
use ospf_lite.LinkState.Header.{ntoh}
use ospf_lite.LinkState.Wire.{store_network, store_header, store_ids}
use ospf_lite.LinkState.Database.{find_router_lsa, find_network_lsa}
use ospf_lite.Acknowledge.{acknowledges, acknowledge_all}
use ospf_lite.Acknowledge.Acked.{IsSingle, acknowledge_all-remove_if}
use ospf_lite.Request.{OspfLsr, copy_lsa, copy_network, answer_requests}
use ospf_lite.Request.Answered.{SomeLacks, answer_requests-SomeLacks, answer_requests-count}
use ospf_lite.Examples.Data.{header_of, network_lsa}

-- The header of the router LSA in network order, and a list that waits for it.
abbrev acked : LsaHeader
acked = record (header_of 1 5 36) { link_state_id = 0x0100000a; advertising_router = 0x08080808 }

waiting-IsSingle : IsSingle (header_of 1 5 36 ∷ header_of 2 5 32 ∷ [])
waiting-IsSingle net = ground arith

acknowledge_all-remove_if_example :
    acknowledge_all (acked ∷ []) (header_of 1 5 36 ∷ header_of 2 5 32 ∷ [])
    ≡ remove_if
        (λ lsa. any (λ net. acknowledges net lsa) (acked ∷ []))
        (header_of 1 5 36 ∷ header_of 2 5 32 ∷ [])
acknowledge_all-remove_if_example =
    acknowledge_all-remove_if (acked ∷ []) (header_of 1 5 36 ∷ header_of 2 5 32 ∷ [])
      waiting-IsSingle

abbrev request : ℕ → OspfLsr
request type = record {
  ls_type = type;
  link_state_id = 0x0a000001;
  advertising_router = 0x08080808;
}

abbrev stored : Lsdb
stored = record { router_lsas = []; network_lsas = network_lsa 5 ∷ [] }

stopped : answer_requests stored (request 2 ∷ request 1 ∷ []) 0 [] ≡ done none
unfolding answer_requests copy_lsa copy_network find_router_lsa find_network_lsa store_network
    store_header store_ids ntoh htons htonl
stopped = refl

answer_requests-SomeLacks_example : SomeLacks stored (request 2 ∷ request 1 ∷ [])
answer_requests-SomeLacks_example =
    answer_requests-SomeLacks stored (request 2 ∷ request 1 ∷ []) 0 [] stopped

abbrev answer : ℕ × List ℕ
answer = (256, store_network (ntoh (network_lsa 5).header) (network_lsa 5))

answered : answer_requests stored (request 2 ∷ []) 0 [] ≡ done (some (answer.0, answer.1))
unfolding answer_requests copy_lsa copy_network find_router_lsa find_network_lsa store_network
    store_header store_ids ntoh htons htonl
answered = refl

answer_requests-count_example : htonl 256 ≡ 65536 * 1
answer_requests-count_example = answer_requests-count stored (request 2 ∷ []) (omega arith) answered
