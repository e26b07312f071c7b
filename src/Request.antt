-- ===== src/Request.antt =====
-- ospf.cpp: the LSR handler of recv_ospf_packet_thread.
pub mod Answered
use ospf_lite.Base.{
  ℕ, zero, suc, ◌+◌, ◌-◌, ◌/◌, ◌%◌, Bool, ◌||◌, List, [], ◌∷◌, ◌++◌, Option, none, some, ◌==◌, ◌!=◌,
  ltb, leb, u16, htons, htonl, bytes32, length, if◌then◌else◌,
}
use ospf_lite.Base.Outcome.{Outcome, done, crash, out_of_bounds, failed_assert, ◌>>=◌}
use ospf_lite.Effect.{Effect, send}
use ospf_lite.LinkState.{LsaHeader, LsaRouter, LsaNetwork, Lsdb}
use ospf_lite.LinkState.Header.{ntoh}
use ospf_lite.LinkState.Wire.{load32, store_router, store_network}
use ospf_lite.LinkState.Database.{find_router_lsa, find_network_lsa}
use ospf_lite.Checksum.{lsa_checksum}
use ospf_lite.Neighbor.{NeighborState, Neighbor, at_least}
use ospf_lite.Neighbor.Events.{event_bad_ls_req}
use ospf_lite.Interface.{Interface, find_neighbor, store_neighbor}

-- One request, in host order.
pub record OspfLsr : Type 0 where
  pub ls_type : ℕ
  pub link_state_id : ℕ
  pub advertising_router : ℕ

unfoldable pub load_requests : ℕ → List ℕ → Option (List OspfLsr)
unfolding load32
load_requests zero bytes = some []
load_requests (suc n) bytes = elim (load32 bytes) [
  | none ↦ none
  | some (type, r1) ↦ elim (load32 r1) [
    | none ↦ none
    | some (id, r2) ↦ elim (load32 r2) [
      | none ↦ none
      | some (router, r3) ↦ elim (load_requests n r3) [
        | none ↦ none
        | some requests ↦ some (
            record {
              ls_type = htonl type;
              link_state_id = htonl id;
              advertising_router = htonl router;
            }
            ∷ requests)
      ]
    ]
  ]
]

-- A router LSA of the database as it goes into the update; the swap is called `ntoh` here.
unfoldable pub copy_router : LsaRouter → Outcome (List ℕ)
copy_router lsa =
    let net = ntoh lsa.header in
    elim (lsa_checksum (store_router net lsa) (htons net.length)) [
      | none ↦ crash out_of_bounds
      | some checksum ↦ done (store_router (record net { ls_checksum = htons checksum }) lsa)
    ]

-- A network LSA goes out with the checksum that it has.
unfoldable pub copy_network : LsaNetwork → List ℕ
copy_network lsa = store_network (ntoh lsa.header) lsa

-- The bytes for one request: `none` if the database lacks it, no bytes for a type that the code does
-- not treat.
unfoldable pub copy_lsa : Lsdb → OspfLsr → Outcome (Option (List ℕ))
unfolding copy_router copy_network
copy_lsa lsdb request =
    if request.ls_type == 1
    then elim (find_router_lsa request.link_state_id request.advertising_router lsdb) [
      | none ↦ done none
      | some lsa ↦ copy_router lsa >>= λ bytes. done (some bytes)
    ]
    else if request.ls_type == 2
    then elim (find_network_lsa request.link_state_id request.advertising_router lsdb) [
      | none ↦ done none
      | some lsa ↦ done (some (copy_network lsa))
    ]
    else done (some [])

-- `lsu->num = htons(ntohs(lsu->num) + 1)` on a uint32_t.
abbrev pub count_lsa : ℕ → ℕ
count_lsa num = htons (u16 (htons (u16 num) + 1))

-- The loop over the requests, from `num` and the bytes so far: `none` where it stops at a request
-- for an LSA that is not there. The buffer has 1024 bytes.
unfoldable pub answer_requests : Lsdb → List OspfLsr → ℕ → List ℕ → Outcome (Option (ℕ × List ℕ))
unfolding copy_lsa
answer_requests lsdb [] num lsas = done (some (num, lsas))
answer_requests lsdb (request ∷ requests) num lsas = copy_lsa lsdb request >>= λ copy. elim copy [
  | none ↦ done none
  | some bytes ↦
      if leb (4 + length (lsas ++ bytes)) 1024
      then answer_requests lsdb requests (count_lsa num) (lsas ++ bytes)
      else crash out_of_bounds
]

unfoldable pub lsr_requests : ℕ → List ℕ → Option (List OspfLsr)
unfolding load_requests
lsr_requests packet_length bytes =
    if ltb packet_length 24 || (packet_length - 24) % 12 != 0
    then none
    else load_requests ((packet_length - 24) / 12) bytes

-- The handler for a packet from `src`; `bytes` is the buffer behind the OSPF header.
unfoldable pub recv_lsr : ℕ → ℕ → List ℕ → Lsdb → Interface → Outcome (Interface × List Effect)
unfolding answer_requests lsr_requests
recv_lsr src packet_length bytes lsdb i = elim (find_neighbor src i) [
  | none ↦ crash failed_assert
  | some n ↦
      if at_least n.state NeighborState.exchange
      then elim (lsr_requests packet_length bytes) [
        | none ↦ crash out_of_bounds
        | some requests ↦ answer_requests lsdb requests 0 [] >>= λ answered. elim answered [
          | some (num, lsas) ↦ done (i, send n.ip 4 (bytes32 num ++ lsas) ∷ [])
          | none ↦
              let (m, effects) = event_bad_ls_req n in
              done (record i { neighbors = store_neighbor m i.neighbors }, effects)
        ]
      ]
      else done (i, [])
]
