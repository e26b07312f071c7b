-- ===== src/Lsa/Adjacency.antt =====
-- neighbor.cpp: event_exchange_done and event_loading_done, the events that regenerate the LSAs.
pub mod Advertised
use ospf_lite.Base.{ℕ, Bool, true, false, ◌||◌, List, [], ◌∷◌, map, ◌==◌, if◌then◌else◌}
use ospf_lite.Base.Outcome.{Outcome, done}
use ospf_lite.Interface.{store_neighbor}
use ospf_lite.Neighbor.{NeighborState, Neighbor, is}
use ospf_lite.Area.{Router}
use ospf_lite.Lsa.{update_lsas}

abbrev pub with_neighbor : Neighbor → Router → Router
with_neighbor n r = record r {
  interface = record (r.interface) { neighbors = store_neighbor n r.interface.neighbors };
}

abbrev pub is_empty {ℓ} : {A : Type ℓ} → List A → Bool
is_empty [] = true
is_empty (_ ∷ _) = false

-- The test of the source begins with `true ||`, so that Loading is never entered.
unfoldable pub event_exchange_done : ℕ → Neighbor → Router → Outcome Router
event_exchange_done tos n r =
    if is n.state NeighborState.exchange
    then if true || is_empty n.link_state_request_list
      then update_lsas tos (with_neighbor (record n { state = NeighborState.full }) r)
      else done
          (with_neighbor (record n { state = NeighborState.loading; lsr_sender_created = false }) r)
    else done r

unfoldable pub event_loading_done : ℕ → Neighbor → Router → Outcome Router
event_loading_done tos n r =
    if is n.state NeighborState.loading
    then update_lsas tos (with_neighbor (record n { state = NeighborState.full }) r)
    else done r
