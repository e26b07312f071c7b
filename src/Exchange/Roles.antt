-- ===== src/Exchange/Roles.antt =====
-- The DD handler of ospf.cpp: negotiation, dispatch on the state, and the request list.
use ospf_lite.Base.{
  ◌<◌, ◌≡◌, ◌≢◌, refl, Bool, true, false, List, [], ◌∷◌, ◌++◌, map, All, some, htons, arith,
}
use ospf_lite.Config.{GlobalConfig}
use ospf_lite.LinkState.{LsaHeader, Lsdb}
use ospf_lite.Neighbor.{NeighborState, Neighbor}
use ospf_lite.Neighbor.Events.{event_2way_received, event_negotiation_done}
use ospf_lite.Neighbor.Events.Calls.{
  IsOrderly, apply, apply-IsOrderly, two_way_received, seq_number_mismatch,
}
use ospf_lite.Interface.{Interface}
use ospf_lite.Exchange.{OspfDd, negotiate, dispatch_state, dispatch, is_wanted, push_requests}

-- The headers of the database, as the summary list takes them.
abbrev pub summary : Lsdb → List LsaHeader
summary lsdb = map (λ lsa. lsa.header) lsdb.router_lsas ++ map (λ lsa. lsa.header) lsdb.network_lsas

-- If a DD packet ends the negotiation of a neighbor in ExStart, the neighbor is in Exchange, its
-- summary list has the headers of all router and then all network LSAs of the database, and it is
-- master only if its identifier is larger than the router's, slave only if smaller.
pub negotiate-roles :
    (config : GlobalConfig) (lsdb : Lsdb) (dd : OspfDd) (n : Neighbor) {m : Neighbor}
    → n.state ≡ NeighborState.exstart
    → negotiate config lsdb dd n ≡ some m
    → (m.state ≡ NeighborState.exchange)
      × (m.database_summary_list ≡ summary lsdb)
      × (m.is_master ≡ true → config.router_id < m.id)
      × (m.is_master ≡ false → m.id < config.router_id)
unfolding negotiate event_negotiation_done
negotiate-roles config lsdb dd n s e = ground arith

negotiate-IsOrderly :
    (i : Interface) (config : GlobalConfig) (lsdb : Lsdb) (dd : OspfDd) (n : Neighbor)
    {m : Neighbor}
    → IsOrderly i n
    → n.state ≡ NeighborState.exstart
    → negotiate config lsdb dd n ≡ some m
    → IsOrderly i m
unfolding negotiate event_negotiation_done
negotiate-IsOrderly i config lsdb dd n h s e = ground arith

dispatch_state-IsOrderly :
    (i : Interface) (config : GlobalConfig) (lsdb : Lsdb) (dd : OspfDd) (is_dumplicated : Bool)
    (n : Neighbor)
    → IsOrderly i n
    → IsOrderly i (dispatch_state config lsdb dd is_dumplicated n).0
unfolding dispatch_state apply
dispatch_state-IsOrderly i config lsdb dd is_dumplicated n h =
    ground (arith, apply-IsOrderly i lsdb seq_number_mismatch n h)

-- If below Exchange a neighbor has three empty lists, if from ExStart on an adjacency with it is
-- wanted, and if in 2-Way none is wanted, then the same holds after the DD handler has treated a
-- packet by the state of the neighbor, from Init through 2-Way or ExStart included.
pub dispatch-IsOrderly :
    (i : Interface) (config : GlobalConfig) (lsdb : Lsdb) (dd : OspfDd) (is_dumplicated : Bool)
    (n : Neighbor)
    → IsOrderly i n
    → IsOrderly i (dispatch config lsdb i dd is_dumplicated n).0
unfolding dispatch apply
dispatch-IsOrderly i config lsdb dd is_dumplicated n h = ground (
  arith,
  apply-IsOrderly i lsdb two_way_received n h,
  dispatch_state-IsOrderly i config lsdb dd is_dumplicated n h,
  dispatch_state-IsOrderly i config lsdb dd is_dumplicated (event_2way_received i n).0,
)

-- If all headers of a DD packet are of network LSAs and have an age other than 2, the request
-- list stays as it is, whatever the database lacks.
pub push_requests-network :
    (lsdb : Lsdb) (hs requests : List LsaHeader)
    → All (λ h. (h.ls_type ≡ 2) × (htons h.ls_age ≢ 2)) hs
    → push_requests lsdb hs requests ≡ requests
unfolding push_requests is_wanted
push_requests-network lsdb [] requests a = refl
push_requests-network lsdb (h ∷ hs) requests a =
    ground (arith, push_requests-network lsdb hs requests a.1)
