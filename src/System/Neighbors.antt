-- ===== src/System/Neighbors.antt =====
-- The loops of lsa.cpp and ospf.cpp over the neighbors, and the consistency of the interface.
use ospf_lite.Base.{
  ℕ, ◌≢◌, refl, List, [], ◌∷◌, ◌++◌, map, All, Option-cases, inl, inr, arith, if◌then◌else◌,
}
use ospf_lite.Base.Outcome.{Ensures}
use ospf_lite.LinkState.{LsaHeader}
use ospf_lite.LinkState.Header.{ntoh}
use ospf_lite.LinkState.Wire.{load_header}
use ospf_lite.Neighbor.{NeighborState, Neighbor, is}
use ospf_lite.Neighbor.Events.Calls.{IsOrderly}
use ospf_lite.Interface.{Interface}
use ospf_lite.Interface.Events.Consistent.{IsConsistent}
use ospf_lite.Interface.Events.Adjacencies.{All-IsOrderly-same}
use ospf_lite.Receive.Keeps.{set_neighbors-IsConsistent}
use ospf_lite.Flooding.{flood_neighbor, flood_neighbors, flood_lsa, flooding_lsa}
use ospf_lite.Lsa.{retransmit_to_full}
use ospf_lite.Intake.{forget}

-- The neighbor is orderly and has another address than the interface.
abbrev pub IsFit : Interface → Neighbor → Type 0
IsFit i n = IsOrderly i n × (n.ip ≢ i.ip_interface_address)

zip-IsFit :
    (i : Interface) (ns : List Neighbor)
    → All (IsOrderly i) ns
    → All (λ n. n.ip ≢ i.ip_interface_address) ns
    → All (IsFit i) ns
zip-IsFit i [] h k = tt
zip-IsFit i (n ∷ ns) h k = ((h.0, k.0), zip-IsFit i ns h.1 k.1)

IsFit-IsOrderly : (i : Interface) (ns : List Neighbor) → All (IsFit i) ns → All (IsOrderly i) ns
IsFit-IsOrderly i [] h = tt
IsFit-IsOrderly i (n ∷ ns) h = (h.0.0, IsFit-IsOrderly i ns h.1)

IsFit-apart :
    (i : Interface) (ns : List Neighbor)
    → All (IsFit i) ns
    → All (λ n. n.ip ≢ i.ip_interface_address) ns
IsFit-apart i [] h = tt
IsFit-apart i (n ∷ ns) h = (h.0.1, IsFit-apart i ns h.1)

-- The other neighbors have no part in it.
pub moved-IsFit :
    (i : Interface) (ns : List Neighbor) (n : Neighbor)
    → IsFit i n
    → IsFit (record i { neighbors = ns }) n
moved-IsFit i ns n fit = (
  (All-IsOrderly-same i (record i { neighbors = ns }) (n ∷ []) (refl, refl, refl, refl)
      (fit.0, tt)).0,
  fit.1,
)

pub neighbors-IsFit : (i : Interface) → IsConsistent i → All (IsFit i) i.neighbors
neighbors-IsFit i c = zip-IsFit i i.neighbors c.settled c.apart

pub fit-IsConsistent :
    (i : Interface) (ns : List Neighbor)
    → IsConsistent i
    → All (IsFit i) ns
    → IsConsistent (record i { neighbors = ns })
fit-IsConsistent i ns c h =
    set_neighbors-IsConsistent i ns c (IsFit-IsOrderly i ns h) (IsFit-apart i ns h)

flood_neighbor-IsFit :
    (i : Interface) (h : LsaHeader) (src : ℕ) (n : Neighbor)
    → IsFit i n
    → IsFit i (flood_neighbor h src n).0
unfolding flood_neighbor
flood_neighbor-IsFit i h src n fit = ground arith

flood_neighbors-IsFit :
    (i : Interface) (h : LsaHeader) (src : ℕ) (ns : List Neighbor)
    → All (IsFit i) ns
    → All (IsFit i) (flood_neighbors h src ns).0
unfolding flood_neighbors
flood_neighbors-IsFit i h src [] fit = tt
flood_neighbors-IsFit i h src (n ∷ ns) fit =
    (flood_neighbor-IsFit i h src n fit.0, flood_neighbors-IsFit i h src ns fit.1)

retransmit-IsFit :
    (i : Interface) (h : LsaHeader) (n : Neighbor)
    → IsFit i n
    → IsFit i (
        if is n.state NeighborState.full
        then record n {
          link_state_retransmission_list = n.link_state_retransmission_list ++ h ∷ [];
        }
        else n)
retransmit-IsFit i h n fit = ground arith

pub retransmit_to_full-IsFit :
    (i : Interface) (h : LsaHeader) (ns : List Neighbor)
    → All (IsFit i) ns
    → All (IsFit i) (retransmit_to_full h ns)
unfolding retransmit_to_full
retransmit_to_full-IsFit i h [] fit = tt
retransmit_to_full-IsFit i h (n ∷ ns) fit =
    (retransmit-IsFit i h n fit.0, retransmit_to_full-IsFit i h ns fit.1)

pub forget-IsFit : (i : Interface) (h : LsaHeader) (n : Neighbor) → IsFit i n → IsFit i (forget h n)
forget-IsFit i h n fit = ground arith

pub map-forget-IsFit :
    (i : Interface) (h : LsaHeader) (ns : List Neighbor)
    → All (IsFit i) ns
    → All (IsFit i) (map (forget h) ns)
map-forget-IsFit i h [] fit = tt
map-forget-IsFit i h (n ∷ ns) fit = (forget-IsFit i h n fit.0, map-forget-IsFit i h ns fit.1)

flood_lsa-IsConsistent :
    (h : LsaHeader) (bytes : List ℕ) (src : ℕ) (i : Interface)
    → IsConsistent i
    → Ensures (λ out. IsConsistent out.0) (flood_lsa h bytes src i)
unfolding flood_lsa
flood_lsa-IsConsistent h bytes src i c =
    let after =
      fit-IsConsistent i (flood_neighbors h src i.neighbors).0 c
        (flood_neighbors-IsFit i h src i.neighbors (neighbors-IsFit i c)) in
    ground arith

pub flooding_lsa-IsConsistent :
    (bytes : List ℕ) (src : ℕ) (i : Interface)
    → IsConsistent i
    → Ensures (λ out. IsConsistent out.0) (flooding_lsa bytes src i)
unfolding flooding_lsa
flooding_lsa-IsConsistent bytes src i c = elim (Option-cases (load_header bytes)) [
  | inl e ↦ rw (e, flooding_lsa) tt
  | inr ((net, rest), e) ↦ rw (e, flooding_lsa) (flood_lsa-IsConsistent (ntoh net) bytes src i c)
]
