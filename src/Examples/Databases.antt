-- ===== src/Examples/Databases.antt =====
-- LSAs on the wire and in the database.
use ospf_lite.Base.{ℕ, ◌≡◌, refl, List, [], ◌∷◌, ◌++◌, map, some, if◌then◌else◌, arith}
use ospf_lite.LinkState.{LsaRouter, LsaNetwork, Lsdb, empty_lsdb}
use ospf_lite.LinkState.Header.{hton, names}
use ospf_lite.LinkState.Wire.{store_router, store_network, load_header}
use ospf_lite.LinkState.Database.{
  read_router_lsa, read_network_lsa, find_router_lsa, install_router_lsa, install_network_lsa,
  put_router_lsa, put_network_lsa,
}
use ospf_lite.LinkState.Database.Lookup.{IsUnique, install_router_lsa-find}
use ospf_lite.LinkState.Database.RoundTrip.{
  IsRouterLsa, IsNetworkLsa, read_router_lsa-store_router, read_network_lsa-store_network,
}
use ospf_lite.LinkState.Database.Aging.{
  aging_rounds, older_router, older_network, aging_rounds-older,
}
use ospf_lite.Examples.Data.{router_lsa, network_lsa}

pub router_lsa-IsRouterLsa : IsRouterLsa router_lsa
router_lsa-IsRouterLsa = ground arith

network_lsa-IsNetworkLsa : IsNetworkLsa (network_lsa 5)
network_lsa-IsNetworkLsa = ground arith

-- The copy that a receiver makes of the router LSA.
abbrev received_router : LsaRouter
received_router = record router_lsa {
  header = record (router_lsa.header) { ls_age = 0 };
  zero0 = 0;
  zero1 = 0;
}

abbrev received_network : LsaNetwork
received_network = record (network_lsa 5) {
  header = record ((network_lsa 5).header) { ls_age = 0 };
  network_mask = 77;
}

read_router_lsa-store_router_example :
    read_router_lsa (store_router (hton router_lsa.header) router_lsa ++ 5 ∷ [])
    ≡ some received_router
read_router_lsa-store_router_example =
    read_router_lsa-store_router router_lsa (5 ∷ []) router_lsa-IsRouterLsa

read_network_lsa-store_network_example :
    read_network_lsa 77 (store_network (hton (network_lsa 5).header) (network_lsa 5) ++ 5 ∷ [])
    ≡ some received_network
read_network_lsa-store_network_example =
    read_network_lsa-store_network 77 (network_lsa 5) (5 ∷ []) network_lsa-IsNetworkLsa

empty_lsdb-IsUnique : IsUnique empty_lsdb
empty_lsdb-IsUnique = record { routers = λ j r. ground arith; networks = λ j r. ground arith }

-- The bytes of the router LSA and of the network LSA in an update.
abbrev router_bytes : List ℕ
router_bytes = store_router (hton router_lsa.header) router_lsa

abbrev network_bytes : List ℕ
network_bytes = store_network (hton (network_lsa 5).header) (network_lsa 5)

router_installs :
    install_router_lsa router_bytes empty_lsdb
    ≡ some (record { router_lsas = received_router ∷ []; network_lsas = [] })
unfolding install_router_lsa put_router_lsa load_header store_router
router_installs =
    rw (read_router_lsa-store_router router_lsa [] router_lsa-IsRouterLsa, install_router_lsa) refl

network_installs :
    install_network_lsa 77 network_bytes empty_lsdb
    ≡ some (record { router_lsas = []; network_lsas = received_network ∷ [] })
unfolding install_network_lsa put_network_lsa load_header store_network
network_installs =
    rw
      (
        read_network_lsa-store_network 77 (network_lsa 5) [] network_lsa-IsNetworkLsa,
        install_network_lsa,
      )
      refl

abbrev routed : Lsdb
routed = record { router_lsas = received_router ∷ []; network_lsas = [] }

abbrev networked : Lsdb
networked = record { router_lsas = []; network_lsas = received_network ∷ [] }

install_router_lsa-find_example :
    IsUnique routed
    × ((lsa : LsaRouter) × (read_router_lsa router_bytes ≡ some lsa)
        × ((j r : ℕ)
            → find_router_lsa j r routed
              ≡ (if names j r lsa.header then some lsa else find_router_lsa j r empty_lsdb)))
install_router_lsa-find_example =
    install_router_lsa-find router_bytes empty_lsdb empty_lsdb-IsUnique router_installs

aging_rounds-older_example :
    ((aging_rounds 300 routed).router_lsas ≡ map (older_router 300) routed.router_lsas)
    × ((aging_rounds 300 routed).network_lsas ≡ map (older_network 300) routed.network_lsas)
aging_rounds-older_example = aging_rounds-older 300 routed (ground arith)
