-- ===== src/Examples/Intakes.antt =====
-- Updates that reach the LAN.
use ospf_lite.Base.{ℕ, ◌≡◌, ◌<◌, refl, List, [], ◌∷◌, ◌++◌, some, htons, htonl, arith}
use ospf_lite.Base.Outcome.{Outcome, done, crash}
use ospf_lite.LinkState.{LsaHeader, LsaRouter, LsaNetwork}
use ospf_lite.LinkState.Header.{ntoh, hton, lsa_header_cmp}
use ospf_lite.LinkState.Wire.{
  load8, load16, load32, load_header, store_router, store_network, store_header, store_links,
  store_link, store_ids, router_flags,
}
use ospf_lite.LinkState.Database.{
  find_router_lsa, find_network_lsa, read_network_lsa, read_attached,
}
use ospf_lite.Checksum.{lsa_checksum, fletcher16_ru, fletcher_loop}
use ospf_lite.Neighbor.{NeighborState}
use ospf_lite.Interface.{find_neighbor}
use ospf_lite.Area.{Router}
use ospf_lite.Lsa.{finish_lsa}
use ospf_lite.Intake.{Progress, weigh_lsa, recv_lsu}
use ospf_lite.Intake.Downgrades.{weigh_lsa-older}
use ospf_lite.Intake.Arrives.{received_copy, recv_lsu-finish_lsa}
use ospf_lite.Examples.Databases.{router_lsa-IsRouterLsa}
use ospf_lite.Examples.Data.{neighbor_in, dr_lan_with, router_at, router_lsa, network_lsa}

abbrev receiver : Router
receiver = router_at (dr_lan_with (neighbor_in NeighborState.full ∷ []))

abbrev bytes_or : List ℕ → Outcome (List ℕ) → List ℕ
bytes_or default (done bytes) = bytes
bytes_or default (crash _) = default

abbrev sent : List ℕ
sent = bytes_or [] (finish_lsa (λ h. store_router h router_lsa) (hton router_lsa.header) 1)

sent-made : finish_lsa (λ h. store_router h router_lsa) (hton router_lsa.header) 1 ≡ done sent
unfolding finish_lsa lsa_checksum fletcher16_ru fletcher_loop hton store_router store_header
    store_links store_link router_flags htons htonl
sent-made = refl

receiver-knows : find_neighbor 0x0a000002 receiver.interface ≡ some (neighbor_in NeighborState.full)
unfolding find_neighbor
receiver-knows = refl

receiver-fresh :
    (old : LsaRouter)
    → find_router_lsa 0x0a000001 0x08080808 receiver.lsdb ≡ some old
    → old.header.ls_seq_num < 0x80000001
unfolding find_router_lsa
receiver-fresh old e = cc e

recv_lsu-finish_lsa_example :
    (r' : Router) × (recv_lsu 0 0x0a000002 (htonl 1) (sent ++ 5 ∷ []) receiver ≡ done r')
    × ((c : ℕ) × (find_router_lsa 0x0a000001 0x08080808 r'.lsdb
          ≡ some (received_copy router_lsa c)))
recv_lsu-finish_lsa_example =
    recv_lsu-finish_lsa 0 0x0a000002 1 router_lsa (5 ∷ []) receiver router_lsa-IsRouterLsa refl
      (omega arith) sent-made receiver-knows receiver-fresh

abbrev stocked : Router
stocked = record receiver {
  lsdb = record { router_lsas = router_lsa ∷ []; network_lsas = network_lsa 9 ∷ [] };
}

-- An instance with the sequence number 5, where the database has 9.
abbrev old_net : LsaHeader
unfolding hton htons htonl
old_net = hton (network_lsa 5).header

abbrev old_bytes : List ℕ
unfolding store_network store_header store_ids hton htons htonl
old_bytes = store_network old_net (network_lsa 5)

old-loaded :
    load_header old_bytes
    ≡ some (old_net, 0xff ∷ 0xff ∷ 0xff ∷ 0 ∷ 0 ∷ 0 ∷ 0 ∷ 7 ∷ 0 ∷ 0 ∷ 0 ∷ 9 ∷ [])
unfolding old_bytes old_net load_header load8 load16 load32 store_network store_header store_ids
    hton htons htonl
old-loaded = refl

abbrev old_read : LsaNetwork
old_read = record {
  header = record (network_lsa 5).header { ls_age = 0 };
  network_mask = 0;
  attached_routers = 7 ∷ 9 ∷ [];
}

old-read : read_network_lsa 0 old_bytes ≡ some old_read
unfolding old_bytes old_net read_network_lsa read_attached load_header load8 load16 load32 ntoh
    store_network store_header store_ids hton htons htonl
old-read = refl

old-host : ntoh old_net ≡ record (network_lsa 5).header { ls_age = 0 }
unfolding old_net ntoh hton htons htonl
old-host = refl

weigh_lsa-older_example :
    (p : Progress) × (weigh_lsa 0 0x0a000002 (ntoh old_net) old_bytes stocked [] ≡ done p)
    × (find_network_lsa (ntoh old_net).link_state_id (ntoh old_net).advertising_router p.router.lsdb
        ≡ some old_read)
unfolding old_net ntoh hton htons htonl find_network_lsa lsa_header_cmp
weigh_lsa-older_example =
    weigh_lsa-older 0 0x0a000002 old_bytes stocked [] (neighbor_in NeighborState.full)
      (network_lsa 9) old-loaded (ground arith) refl refl refl receiver-knows refl old-read
