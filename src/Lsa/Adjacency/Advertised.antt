-- ===== src/Lsa/Adjacency/Advertised.antt =====
-- event_exchange_done and event_loading_done of neighbor.cpp and the router LSA.
use ospf_lite.Base.{
  ℕ, ◌+◌, ◌<◌, ◌≡◌, refl, ◌∙◌, true, List, [], ◌∷◌, ◌++◌, map, some, any, ◌==◌, arith,
}
use ospf_lite.Base.Outcome.{done}
use ospf_lite.LinkState.{LsaRouterLink, LsaRouter}
use ospf_lite.LinkState.Database.{find_router_lsa}
use ospf_lite.Neighbor.{NeighborState, Neighbor}
use ospf_lite.Interface.{store_neighbor, Interface, InterfaceState}
use ospf_lite.Area.{Router}
use ospf_lite.Lsa.{is_transit, make_link, update_lsas}
use ospf_lite.Lsa.Installed.{OwnUsed, update_lsas-find_router_lsa}
use ospf_lite.Lsa.Adjacency.{with_neighbor, event_loading_done}

-- The link of a transit network, through the DR.
abbrev pub transit_link : ℕ → Interface → LsaRouterLink
transit_link tos i = record {
  link_id = i.dr;
  link_data = i.ip_interface_address;
  type = 2;
  tos_num = tos;
  metric = i.cost;
}

-- What the database holds of the router once the link of its interface is a transit link.
abbrev pub IsAdvertised : ℕ → Router → Router → Type 0
IsAdvertised tos r r' =
    (lsa : LsaRouter) × (find_router_lsa r.config.router_id r.config.router_id r'.lsdb ≡ some lsa)
    × (lsa.links
        ≡ map (make_link tos) r.before
          ++ transit_link tos r.interface ∷ map (make_link tos) r.after)

transit_found :
    (i : Interface) (n : Neighbor) (ns : List Neighbor)
    → i.state ≡ InterfaceState.dr
    → any (λ (m : Neighbor). m.ip == n.ip) ns ≡ true
    → any (is_transit i) (store_neighbor (record n { state = NeighborState.full }) ns) ≡ true
unfolding store_neighbor
transit_found i n [] s h = cc h
transit_found i n (m ∷ ms) s h = ground (arith, transit_found i n ms s)

dr_link :
    (tos : ℕ) (i : Interface)
    → i.state ≡ InterfaceState.dr
    → any (is_transit i) i.neighbors ≡ true
    → make_link tos i ≡ transit_link tos i
unfolding make_link
dr_link tos i s h = ground arith

map-append :
    (tos : ℕ) (xs ys : List Interface)
    → map (make_link tos) (xs ++ ys) ≡ map (make_link tos) xs ++ map (make_link tos) ys
map-append tos [] ys = refl
map-append tos (x ∷ xs) ys = ground (arith, map-append tos xs ys)

full-IsAdvertised :
    (tos : ℕ) (n : Neighbor) (r : Router) {r' : Router}
    → r.interface.state ≡ InterfaceState.dr
    → any (λ (m : Neighbor). m.ip == n.ip) r.interface.neighbors ≡ true
    → OwnUsed r
    → r.config.ls_sequence_cnt + 2 < 4294967296
    → update_lsas tos (with_neighbor (record n { state = NeighborState.full }) r) ≡ done r'
    → IsAdvertised tos r r'
full-IsAdvertised tos n r s m used room e =
    let full : Router = with_neighbor (record n { state = NeighborState.full }) r in
    let (lsa, found, links, _) = update_lsas-find_router_lsa tos full used room e in
    let link : make_link tos full.interface ≡ transit_link tos r.interface =
      dr_link tos full.interface s (transit_found full.interface n r.interface.neighbors s m) in
    (lsa, found, links ∙ map-append tos r.before (full.interface ∷ r.after) ∙ rw link)

event_loading_done-IsAdvertised :
    (tos : ℕ) (n : Neighbor) (r : Router) {r' : Router}
    → n.state ≡ NeighborState.loading
    → r.interface.state ≡ InterfaceState.dr
    → any (λ (m : Neighbor). m.ip == n.ip) r.interface.neighbors ≡ true
    → OwnUsed r
    → r.config.ls_sequence_cnt + 2 < 4294967296
    → event_loading_done tos n r ≡ done r'
    → IsAdvertised tos r r'
unfolding event_loading_done
event_loading_done-IsAdvertised tos n r st s m used room e =
    full-IsAdvertised tos n r s m used room (rw st at e)
