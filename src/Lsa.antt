-- ===== src/Lsa.antt =====
-- lsa.cpp: the LSAs that the router originates, and their installation and flooding.
pub mod Blocks
pub mod Installed
pub mod Fits
pub mod Adjacency
use Prim.Native.Nat.{bit_and}
use ospf_lite.Base.{
  ℕ, ◌+◌, ◌*◌, Bool, true, false, not, ◌&&◌, ◌||◌, List, [], ◌∷◌, ◌++◌, map, Option, none, some,
  ◌==◌, ◌!=◌, u16, u32, htons, htonl, bytes32, is_neg, leb, if◌then◌else◌, length, any,
}
use ospf_lite.Base.Outcome.{Outcome, done, crash, out_of_bounds, ◌>>=◌}
use ospf_lite.Config.{GlobalConfig}
use ospf_lite.Effect.{Effect, send}
use ospf_lite.LinkState.{LsaHeader, LsaRouterLink, LsaRouter, LsaNetwork, Lsdb}
use ospf_lite.LinkState.Header.{hton, lsa_header_cmp}
use ospf_lite.LinkState.Database.{
  find_router_lsa, find_network_lsa, remove_router_lsa, remove_network_lsa,
}
use ospf_lite.LinkState.Wire.{store_router, store_network}
use ospf_lite.Checksum.{lsa_checksum}
use ospf_lite.Neighbor.{NeighborState, Neighbor}
use ospf_lite.Neighbor
use ospf_lite.Interface.{Interface, InterfaceState}
use ospf_lite.Interface
use ospf_lite.Area.{Router, area_interfaces, emit}

-- The test of the inner loop: a full neighbor through which the interface is a transit link.
abbrev pub is_transit : Interface → Neighbor → Bool
is_transit i n =
    Neighbor.is n.state NeighborState.full
    && (Interface.is i.state InterfaceState.dr || n.ip == i.dr)

-- The link that describes one interface. `tos` is the `tos_num` of the local `link`, which the code
-- never sets.
unfoldable pub make_link : ℕ → Interface → LsaRouterLink
make_link tos i =
    if Interface.is i.state InterfaceState.loopback
    then record {
      link_id = i.ip_interface_address;
      link_data = 0xffffffff;
      type = 3;
      tos_num = tos;
      metric = 0;
    }
    else if not (Interface.is i.state InterfaceState.waiting) && any (is_transit i) i.neighbors
    then record {
      link_id = i.dr;
      link_data = i.ip_interface_address;
      type = 2;
      tos_num = tos;
      metric = i.cost;
    }
    else record {
      link_id = bit_and i.ip_interface_address i.ip_interface_mask;
      link_data = i.ip_interface_mask;
      type = 3;
      tos_num = tos;
      metric = i.cost;
    }

abbrev pub own_header : GlobalConfig → ℕ → ℕ → ℕ → LsaHeader
own_header config type id len = record {
  ls_age = 1;
  options = config.ospf_options;
  ls_type = type;
  link_state_id = id;
  advertising_router = config.router_id;
  ls_seq_num = config.ls_sequence_cnt;
  ls_checksum = 0;
  length = u16 len;
}

-- `++ myconfig.ls_sequence_cnt`, a uint32_t.
abbrev pub count_sequence : GlobalConfig → GlobalConfig
count_sequence config = record config { ls_sequence_cnt = u32 (config.ls_sequence_cnt + 1) }

unfoldable pub generate_router_lsa : ℕ → GlobalConfig → List Interface → LsaRouter
unfolding make_link
generate_router_lsa tos config interfaces = record {
  header = own_header config 1 config.router_id (24 + 12 * length interfaces);
  zero0 = 0;
  b_v = 0;
  b_e = 0;
  b_b = 0;
  zero1 = 0;
  links_num = u16 (length interfaces);
  links = map (make_link tos) interfaces;
}

-- The identifiers of the full neighbors, in the order of the list.
unfoldable pub full_ids : List Neighbor → List ℕ
full_ids [] = []
full_ids (n ∷ ns) =
    if Neighbor.is n.state NeighborState.full then n.id ∷ full_ids ns else full_ids ns

unfoldable pub generate_network_lsa : GlobalConfig → Interface → LsaNetwork
unfolding full_ids
generate_network_lsa config i = record {
  header = own_header config 2 i.ip_interface_address (24 + 4 * length (full_ids i.neighbors));
  network_mask = i.ip_interface_mask;
  attached_routers = full_ids i.neighbors;
}

-- `link_state_retransmission_list.push_back` for each full neighbor.
unfoldable pub retransmit_to_full : LsaHeader → List Neighbor → List Neighbor
retransmit_to_full h [] = []
retransmit_to_full h (n ∷ ns) =
    (if Neighbor.is n.state NeighborState.full
      then record n { link_state_retransmission_list = n.link_state_retransmission_list ++ h ∷ [] }
      else n)
    ∷ retransmit_to_full h ns

-- The bytes of an LSA in the update: checksum and age are written into the finished structure.
unfoldable pub finish_lsa : (LsaHeader → List ℕ) → LsaHeader → ℕ → Outcome (List ℕ)
finish_lsa store net inf_trans_delay = elim (lsa_checksum (store net) (htons net.length)) [
  | none ↦ crash out_of_bounds
  | some checksum ↦ done (
      store (record net {
        ls_checksum = htons checksum;
        ls_age = htons (u16 (htons net.ls_age + inf_trans_delay));
      }))
]

-- The database part of the first block of `update_lsas`, and `is_flooding`. An older instance is
-- removed, and the new one is not put in its place.
unfoldable pub replace_own_network_lsa : LsaNetwork → Lsdb → Lsdb × Bool
replace_own_network_lsa lsa db =
    elim (find_network_lsa lsa.header.link_state_id lsa.header.advertising_router db) [
      | none ↦ (record db { network_lsas = db.network_lsas ++ lsa ∷ [] }, true)
      | some old ↦
          if is_neg (lsa_header_cmp lsa.header old.header)
          then (remove_network_lsa lsa.header.link_state_id lsa.header.advertising_router db, true)
          else (db, false)
    ]

-- The database part of the second block, and `is_flooding`.
unfoldable pub replace_own_router_lsa : LsaRouter → Lsdb → Lsdb × Bool
replace_own_router_lsa lsa db =
    elim (find_router_lsa lsa.header.link_state_id lsa.header.advertising_router db) [
      | none ↦ (record db { router_lsas = db.router_lsas ++ lsa ∷ [] }, true)
      | some old ↦
          if is_neg (lsa_header_cmp lsa.header old.header)
          then (let cleared =
                remove_router_lsa lsa.header.link_state_id lsa.header.advertising_router db in
              (record cleared { router_lsas = cleared.router_lsas ++ lsa ∷ [] }, true))
          else (db, false)
    ]

-- The router while an update is built: `num` and the bytes behind it.
pub record Update : Type 0 where
  pub router : Router
  pub num : ℕ
  pub lsas : List ℕ

-- The retransmission lists and the bytes for an LSA that is flooded.
unfoldable pub add_lsa : Router → LsaHeader → (LsaHeader → List ℕ) → ℕ → List ℕ → Outcome Update
add_lsa r header store num lsas =
    finish_lsa store (hton header) r.interface.inf_trans_delay >>= λ bytes. done (record {
      router = record r {
        interface = record (r.interface) {
          neighbors = retransmit_to_full header r.interface.neighbors;
        };
      };
      num = num + 1;
      lsas = lsas ++ bytes;
    })

unfoldable pub update_network : Router → Outcome Update
update_network r =
    let lsa = generate_network_lsa r.config r.interface in
    let (db, is_flooding) = replace_own_network_lsa lsa r.lsdb in
    let r' : Router = record r { config = count_sequence r.config; lsdb = db } in
    if Interface.is r.interface.state InterfaceState.dr
    then if is_flooding
      then add_lsa r' lsa.header (λ h. store_network h lsa) 0 []
      else done (record { router = r'; num = 0; lsas = [] })
    else done (record { router = r; num = 0; lsas = [] })

unfoldable pub update_router : ℕ → Update → Outcome Update
update_router tos u =
    let lsa = generate_router_lsa tos u.router.config (area_interfaces u.router) in
    let (db, is_flooding) = replace_own_router_lsa lsa u.router.lsdb in
    let r' : Router = record (u.router) { config = count_sequence u.router.config; lsdb = db } in
    if is_flooding
    then add_lsa r' lsa.header (λ h. store_router h lsa) u.num u.lsas
    else done (record { router = r'; num = u.num; lsas = u.lsas })

-- 224.0.0.5 and 224.0.0.6.
abbrev pub all_spf_routers : ℕ
all_spf_routers = 0xe0000005

abbrev pub all_d_routers : ℕ
all_d_routers = 0xe0000006

-- The destination of updates and acknowledgments: the other routers, or the two that hold offices.
abbrev pub flood_address : Interface → ℕ
flood_address i =
    if Interface.is i.state InterfaceState.dr || Interface.is i.state InterfaceState.backup
    then all_spf_routers
    else all_d_routers

-- The buffer has 1024 bytes, and a longer update is written past its end.
unfoldable pub send_update : Update → Outcome Router
send_update u =
    if leb (4 + length u.lsas) 1024
    then done (
        if u.num == 0
        then u.router
        else emit (send (flood_address u.router.interface) 4 (bytes32 (htonl u.num) ++ u.lsas) ∷ [])
            u.router)
    else crash out_of_bounds

unfoldable pub update_lsas : ℕ → Router → Outcome Router
update_lsas tos r = update_network r >>= λ u. update_router tos u >>= λ v. send_update v
