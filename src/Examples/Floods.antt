-- ===== src/Examples/Floods.antt =====
-- An LSA that floods from a LAN.
use ospf_lite.Base.{ℕ, ◌≡◌, some, negsuc, List, [], ◌∷◌, ◌++◌, arith}
use ospf_lite.Base.Outcome.{done}
use ospf_lite.LinkState.Header.{hton}
use ospf_lite.LinkState.Wire.{load_header, store_header}
use ospf_lite.LinkState.Wire.Loads.{load_header-store_header}
use ospf_lite.LinkState.Header.Swap.{hton-IsHeader}
use ospf_lite.Neighbor.{NeighborState}
use ospf_lite.Flooding.{flood_neighbor, flooding_lsa}
use ospf_lite.Flooding.Reach.{Fate, flood_neighbor-Fate, flooding_lsa-skipped}
use ospf_lite.Examples.Data.{neighbor_in, dr_lan_with, header_of}

-- A header in memory, with nothing behind it.
abbrev flooded : List ℕ
flooded = store_header (hton (header_of 1 5 20)) ++ []

flooded-loads : load_header flooded ≡ some (hton (header_of 1 5 20), [])
flooded-loads =
    load_header-store_header (hton (header_of 1 5 20)) []
      (hton-IsHeader (header_of 1 5 20) (ground arith))

flooding_lsa-skipped_example :
    flooding_lsa flooded 0x0a000003 (dr_lan_with (neighbor_in NeighborState.full ∷ []))
    ≡ done (dr_lan_with (neighbor_in NeighborState.full ∷ []), negsuc 0, [])
flooding_lsa-skipped_example =
    flooding_lsa-skipped flooded 0x0a000003 (dr_lan_with (neighbor_in NeighborState.full ∷ []))
      flooded-loads (ground arith)

flood_neighbor-Fate_example :
    Fate
      (header_of 1 5 20)
      0x0a000003
      (neighbor_in NeighborState.exchange)
      (flood_neighbor (header_of 1 5 20) 0x0a000003 (neighbor_in NeighborState.exchange))
flood_neighbor-Fate_example =
    flood_neighbor-Fate (header_of 1 5 20) 0x0a000003 (neighbor_in NeighborState.exchange)
