-- ===== src/Intake.antt =====
-- ospf.cpp: the LSU handler of recv_ospf_packet_thread. The two flags that only choose what is printed,
-- `lsa_self` and the branch on MaxSequenceNumber, are left out.
pub mod Replaces
pub mod Advances
pub mod Downgrades
pub mod Floods
pub mod Sent
pub mod Stores
pub mod Arrives
use ospf_lite.Base.{
  ℕ, zero, suc, ◌+◌, Bool, true, false, not, ◌&&◌, ◌||◌, List, [], ◌∷◌, ◌++◌, map, any, Option,
  none, some, ◌==◌, ◌!=◌, ltb, leb, is_neg, htons, htonl, if◌then◌else◌, length, take, drop,
  remove_if, ℤ,
}
use ospf_lite.Base.Outcome.{Outcome, done, crash, out_of_bounds, failed_assert, ◌>>=◌}
use ospf_lite.Config.{max_age}
use ospf_lite.Effect.{Effect, send}
use ospf_lite.LinkState.{LsaHeader, LsaRouter, LsaNetwork, Lsdb}
use ospf_lite.LinkState.Header.{ntoh, lsa_header_cmp, names}
use ospf_lite.LinkState.Wire.{load_header}
use ospf_lite.LinkState.Database.{
  find_router_lsa, find_network_lsa, install_router_lsa, install_network_lsa,
}
use ospf_lite.Checksum.{lsa_checksum}
use ospf_lite.Neighbor.{NeighborState, Neighbor}
use ospf_lite.Neighbor
use ospf_lite.Neighbor.Events.{event_bad_ls_req}
use ospf_lite.Interface.{Interface, InterfaceState, find_neighbor, store_neighbor}
use ospf_lite.Interface
use ospf_lite.Area.{Router, emit}
use ospf_lite.Lsa.{flood_address}
use ospf_lite.Lsa.Adjacency.{with_neighbor}
use ospf_lite.Flooding.{flooding_lsa, is_zero}

-- What the database has under the name of a received LSA: `lsa_exist` and `lsa_cmp_result`.
unfoldable pub compare_copy : LsaHeader → Lsdb → Option ℤ
compare_copy h lsdb =
    if h.ls_type == 1
    then elim (find_router_lsa h.link_state_id h.advertising_router lsdb) [
      | none ↦ none
      | some lsa ↦ some (lsa_header_cmp h lsa.header)
    ]
    else if h.ls_type == 2
    then elim (find_network_lsa h.link_state_id h.advertising_router lsdb) [
      | none ↦ none
      | some lsa ↦ some (lsa_header_cmp h lsa.header)
    ]
    else none

-- No copy, or an older one.
abbrev pub is_newer : Option ℤ → Bool
is_newer none = true
is_newer (some result) = is_neg result

-- `flooding_lsa` on each of the interfaces, which are changed in their places.
unfoldable pub flood_all : List ℕ → ℕ → List Interface → Outcome (List Interface × List Effect)
flood_all bytes src [] = done ([], [])
flood_all bytes src (i ∷ is) = flooding_lsa bytes src i >>= λ one.
    flood_all bytes src is >>= λ rest. done (one.0 ∷ rest.0, one.2 ++ rest.1)

-- Flooding through the area, and whether the receiving interface flooded.
unfoldable pub flood_area : List ℕ → ℕ → Router → Outcome (Router × Bool)
unfolding flood_all
flood_area bytes src r = flood_all bytes src r.before >>= λ before.
    flooding_lsa bytes src r.interface >>= λ own. flood_all bytes src r.after >>= λ after. done (
      emit (before.1 ++ own.2 ++ after.1)
          (record r { before = before.0; interface = own.0; after = after.0 }),
      is_zero own.1,
    )

abbrev pub forget : LsaHeader → Neighbor → Neighbor
forget h n = record n {
  link_state_retransmission_list =
      remove_if (names h.link_state_id h.advertising_router) n.link_state_retransmission_list;
}

-- The old instance leaves the retransmission list of every neighbor of the interface.
abbrev pub forget_all : LsaHeader → Router → Router
forget_all h r = record r {
  interface = record (r.interface) { neighbors = map (forget h) r.interface.neighbors };
}

-- Installation by type; `unset` is for `install_network_lsa`.
unfoldable pub install : ℕ → LsaHeader → List ℕ → Router → Outcome Router
install unset h bytes r =
    if h.ls_type == 1
    then elim (install_router_lsa bytes r.lsdb) [
      | none ↦ crash out_of_bounds
      | some lsdb ↦ done (record r { lsdb = lsdb })
    ]
    else if h.ls_type == 2
    then elim (install_network_lsa unset bytes r.lsdb) [
      | none ↦ crash out_of_bounds
      | some lsdb ↦ done (record r { lsdb = lsdb })
    ]
    else done r

-- Whether the LSA is acknowledged, once it has not been flooded back.
abbrev pub is_acked : ℕ → Interface → Bool
is_acked src i = if Interface.is i.state InterfaceState.backup then src == i.dr else true

-- The handler while it runs: the router, the acknowledgments so far, and `bad_ls_req`.
pub record Progress : Type 0 where
  pub router : Router
  pub acks : List ℕ
  pub bad_ls_req : Bool

-- Step 5: the LSA is new.
unfoldable pub accept_lsa : ℕ → ℕ → LsaHeader → List ℕ → Router → List ℕ → Outcome Progress
unfolding flood_area install
accept_lsa unset src h bytes r acks = flood_area bytes src r >>= λ flooded.
    install unset h bytes (forget_all h flooded.0) >>= λ r'. done (record {
      router = r';
      acks = if not flooded.1 && is_acked src r'.interface then acks ++ take 20 bytes else acks;
      bad_ls_req = false;
    })

-- Step 7: the same instance from a neighbor is its acknowledgment.
abbrev pub acknowledge : LsaHeader → Option ℤ → Neighbor → Router → Router
acknowledge h none n r = r
acknowledge h (some result) n r = if is_zero result then with_neighbor (forget h n) r else r

-- Steps 6 to 8: the database has this instance or a later one.
unfoldable pub refuse_lsa :
    ℕ → LsaHeader → Option ℤ → List ℕ → Neighbor → Router → List ℕ → Outcome Progress
refuse_lsa unset h copy bytes n r acks =
    if any (names h.link_state_id h.advertising_router) n.link_state_request_list
    then (let (m, effects) = event_bad_ls_req n in
        done (record { router = emit effects (with_neighbor m r); acks = acks; bad_ls_req = true }))
    else (let implied : Router = acknowledge h copy n r in
        (if h.ls_type == 2 then install unset h bytes implied else done implied) >>= λ r'.
        done (record { router = r'; acks = acks; bad_ls_req = false }))

-- Step 4: an LSA at MaxAge is acknowledged and dropped if no database is being synchronised.
abbrev pub is_flushed : LsaHeader → Interface → Bool
is_flushed h i =
    h.ls_age == max_age
    && not (
        any
          (λ n.
            Neighbor.is n.state NeighborState.exchange || Neighbor.is n.state NeighborState.loading)
          i.neighbors)

-- Steps 1 and 2 for the LSA at the front of `bytes`: the checksum and the type.
unfoldable pub is_intact : LsaHeader → List ℕ → Outcome Bool
is_intact net bytes = elim (lsa_checksum bytes (htons net.length)) [
  | none ↦ crash out_of_bounds
  | some checksum ↦
      done (net.ls_checksum == htons checksum && leb 1 net.ls_type && leb net.ls_type 5)
]

-- The body of the loop behind those steps.
unfoldable pub weigh_lsa : ℕ → ℕ → LsaHeader → List ℕ → Router → List ℕ → Outcome Progress
unfolding compare_copy accept_lsa refuse_lsa
weigh_lsa unset src h bytes r acks =
    let copy = compare_copy h r.lsdb in
    if is_flushed h r.interface
    then done (record {
      router = emit (send src 5 (take 20 bytes) ∷ []) r;
      acks = acks;
      bad_ls_req = false;
    })
    else if is_newer copy
    then accept_lsa unset src h bytes r acks
    else elim (find_neighbor src r.interface) [
      | none ↦ crash failed_assert
      | some n ↦ refuse_lsa unset h copy bytes n r acks
    ]

-- The loop over `lsa_num` LSAs; the next one lies `length` bytes further on, whatever became of this.
unfoldable pub intake_all : ℕ → ℕ → ℕ → List ℕ → Router → List ℕ → Outcome Progress
unfolding is_intact weigh_lsa
intake_all unset src zero bytes r acks =
    done (record { router = r; acks = acks; bad_ls_req = false })
intake_all unset src (suc n) bytes r acks = elim (load_header bytes) [
  | none ↦ crash out_of_bounds
  | some (net, _) ↦ is_intact net bytes >>= λ intact.
      (if intact
        then weigh_lsa unset src (ntoh net) bytes r acks
        else done (record { router = r; acks = acks; bad_ls_req = false }))
      >>= λ p. elim p.bad_ls_req [
        | true ↦ done p
        | false ↦ intake_all unset src n (drop (htons net.length) bytes) p.router p.acks
      ]
]

-- The acknowledgments are gathered in 1024 bytes.
unfoldable pub send_acks : Progress → Outcome Router
send_acks p =
    if leb (length p.acks) 1024
    then done (
        if not p.bad_ls_req && ltb 0 (length p.acks)
        then emit (send (flood_address p.router.interface) 5 p.acks ∷ []) p.router
        else p.router)
    else crash out_of_bounds

-- `num` as an int counts nothing from 2 ^ 31 on.
abbrev pub lsa_count : ℕ → ℕ
lsa_count num = if ltb (htonl num) 2147483648 then htonl num else 0

-- The handler for an update of `num` LSAs from `src`, which lie in `bytes`.
unfoldable pub recv_lsu : ℕ → ℕ → ℕ → List ℕ → Router → Outcome Router
unfolding intake_all send_acks
recv_lsu unset src num bytes r = elim (find_neighbor src r.interface) [
  | none ↦ crash failed_assert
  | some n ↦ intake_all unset src (lsa_count num) bytes r [] >>= send_acks
]
