-- ===== src/Examples/Originates.antt =====
-- The DR on the LAN originates its LSAs and sends them.
use ospf_lite.Base.{ℕ, ◌≡◌, refl, List, [], ◌∷◌, ◌++◌, arith}
use ospf_lite.Base.Outcome.{Outcome, done, crash}
use ospf_lite.LinkState.{Lsdb}
use ospf_lite.Neighbor.{NeighborState}
use ospf_lite.Area.{Router}
use ospf_lite.Lsa.{update_lsas}
use ospf_lite.Packet.{ospf_packet, header_front, header_back, fill_checksum}
use ospf_lite.Packet.Verifies.{Verifies, ospf_packet-Verifies}
use ospf_lite.Examples.Data.{config, neighbor_in, dr_lan_with, router_at, network_lsa}

abbrev full_router : Router
full_router = router_at (dr_lan_with (neighbor_in NeighborState.full ∷ []))

abbrev exchange_router : Router
exchange_router = router_at (dr_lan_with (neighbor_in NeighborState.exchange ∷ []))

-- What an outcome has become, for a run whose result is too large to write out.
abbrev result_or : Router → Outcome Router → Router
result_or r (done r') = r'
result_or r (crash _) = r

abbrev updated : Router
updated = result_or full_router (update_lsas 0 full_router)

abbrev networked : Lsdb
networked = record { router_lsas = []; network_lsas = network_lsa 5 ∷ [] }

abbrev zeros : List ℕ
zeros = 0 ∷ 0 ∷ 0 ∷ 0 ∷ 0 ∷ 0 ∷ 0 ∷ 0 ∷ []

abbrev sent_packet : List ℕ
sent_packet =
    fill_checksum (header_front config 0 5 26)
      (header_back zeros full_router.interface ++ 1 ∷ 2 ∷ [])

packet_made : ospf_packet zeros config 0 full_router.interface 5 (1 ∷ 2 ∷ []) ≡ done sent_packet
unfolding ospf_packet
packet_made = refl

ospf_packet-Verifies_example : Verifies sent_packet
ospf_packet-Verifies_example =
    ospf_packet-Verifies zeros config 0 full_router.interface 5 (1 ∷ 2 ∷ []) refl (ground arith)
      (ground arith) packet_made
