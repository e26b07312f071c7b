-- ===== src/Examples/Sends.antt =====
-- What the sending threads send on the LAN.
use ospf_lite.Base.{
  ℕ, ◌≡◌, ◌≤◌, ◌+◌, ◌*◌, refl, List, [], ◌∷◌, ◌++◌, map, some, length, htons, htonl, arith,
}
use ospf_lite.Base.Outcome.{Outcome, done, crash, null_pointer, out_of_bounds}
use ospf_lite.LinkState.{LsaHeader}
use ospf_lite.LinkState.Header.{hton, lsa_header_cmp}
use ospf_lite.LinkState.Wire.{
  load_header, store_router, store_network, store_header, store_links, store_link, store_ids,
}
use ospf_lite.LinkState.Database.{find_router_lsa, find_network_lsa, remove_network_lsa}
use ospf_lite.Checksum.{lsa_checksum, fletcher16_ru, fletcher_loop}
use ospf_lite.Neighbor.{NeighborState, Neighbor}
use ospf_lite.Interface.{find_neighbor}
use ospf_lite.Area.{Router}
use ospf_lite.Lsa.{
  Update, full_ids, generate_network_lsa, replace_own_network_lsa, add_lsa, finish_lsa,
  retransmit_to_full, update_network, update_lsas,
}
use ospf_lite.Lsa.Fits.{update_lsas-done}
use ospf_lite.Request.{lsr_requests}
use ospf_lite.Intake.{is_intact}
use ospf_lite.Senders.{lsr_data, retrans_header, retrans_lsa, retrans_round}
use ospf_lite.Senders.Requested.{request_of, lsr_requests-lsr_data}
use ospf_lite.Senders.Retransmits.{update_network-retrans_round, retrans_lsa-is_intact}
use ospf_lite.Examples.Databases.{router_lsa-IsRouterLsa}
use ospf_lite.Examples.Data.{
  neighbor_in, dr_lan_with, router_at, router_lsa, network_lsa, header_of,
}

abbrev wanted : List LsaHeader
wanted = header_of 1 5 36 ∷ header_of 2 7 32 ∷ []

lsr_requests-lsr_data_example :
    lsr_requests (length (lsr_data 0 wanted) + 24) (lsr_data 0 wanted ++ 9 ∷ [])
    ≡ some (map request_of wanted)
lsr_requests-lsr_data_example = lsr_requests-lsr_data wanted (9 ∷ []) (omega arith) (ground arith)

-- The DR has originated a network LSA before.
abbrev networked : Router
networked = record (router_at (dr_lan_with (neighbor_in NeighborState.full ∷ []))) {
  lsdb = record { router_lsas = router_lsa ∷ []; network_lsas = network_lsa 5 ∷ [] };
}

abbrev update_or : Router → Outcome Update → Update
update_or r (done u) = u
update_or r (crash _) = record { router = r; num = 0; lsas = [] }

abbrev renewed : Update
renewed = update_or networked (update_network networked)

renewal-runs : update_network networked ≡ done renewed
unfolding update_network add_lsa finish_lsa replace_own_network_lsa generate_network_lsa full_ids
    retransmit_to_full find_network_lsa remove_network_lsa lsa_header_cmp lsa_checksum fletcher16_ru
    fletcher_loop hton store_network store_header store_ids htons htonl
renewal-runs = refl

own-found : find_network_lsa 0x0a000001 0x08080808 networked.lsdb ≡ some (network_lsa 5)
unfolding find_network_lsa
own-found = refl

known : find_neighbor 0x0a000002 networked.interface ≡ some (neighbor_in NeighborState.full)
unfolding find_neighbor
known = refl

few : 24 + 4 * length (full_ids networked.interface.neighbors) ≤ 1020
unfolding full_ids
few = omega arith

update_network-retrans_round_example :
    (m : Neighbor) × (find_neighbor 0x0a000002 renewed.router.interface ≡ some m)
    × (retrans_round 1 renewed.router.lsdb m ≡ crash null_pointer)
update_network-retrans_round_example =
    update_network-retrans_round 1 0x0a000002 networked (neighbor_in NeighborState.full)
      (network_lsa 5) refl own-found (omega arith) few known refl refl renewal-runs

own-router : find_router_lsa 0x0a000001 0x08080808 networked.lsdb ≡ some router_lsa
unfolding find_router_lsa
own-router = refl

retransmitted-length :
    length (store_router (retrans_header 1 router_lsa.header) router_lsa ++ 0 ∷ []) ≤ 1500
unfolding store_router store_header store_links store_link
retransmitted-length = omega arith

retrans_lsa-is_intact_example :
    (retrans_lsa 1 networked.lsdb router_lsa.header
      ≡ done (store_router (retrans_header 1 router_lsa.header) router_lsa))
    × ((net : LsaHeader) × (behind : List ℕ) × (load_header
            (store_router (retrans_header 1 router_lsa.header) router_lsa ++ 0 ∷ [])
          ≡ some (net, behind))
        × (is_intact net (store_router (retrans_header 1 router_lsa.header) router_lsa ++ 0 ∷ [])
            ≡ crash out_of_bounds))
retrans_lsa-is_intact_example =
    retrans_lsa-is_intact 1 networked.lsdb router_lsa.header router_lsa (0 ∷ []) refl own-router
      router_lsa-IsRouterLsa.header_fits (omega arith) (omega arith) retransmitted-length

room : 52 + 4 * length (full_ids networked.interface.neighbors) + 12 * 1 ≤ 1024
unfolding full_ids
room = omega arith

update_lsas-done_example : (r' : Router) × (update_lsas 0 networked ≡ done r')
update_lsas-done_example = update_lsas-done 0 networked room
