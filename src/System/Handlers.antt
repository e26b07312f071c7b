-- ===== src/System/Handlers.antt =====
-- The LSR and LSAck handlers of recv_ospf_packet_thread in ospf.cpp, and the state of the router.
use ospf_lite.Base.{ℕ, ◌≡◌, ◌≤◌, refl, true, List, [], none, some, Option-cases, inl, inr, arith}
use ospf_lite.Base.Outcome.{done, crash, Outcome-cases, Ensures, Ensures-if}
use ospf_lite.LinkState.{LsaHeader, Lsdb, empty_lsdb}
use ospf_lite.Neighbor.{NeighborState, Neighbor, rank, at_least}
use ospf_lite.Neighbor.Events.{event_bad_ls_req}
use ospf_lite.Neighbor.Events.Calls.{apply, apply-IsOrderly, apply-ip, bad_ls_req}
use ospf_lite.Interface.{Interface, find_neighbor}
use ospf_lite.Interface.Events.Consistent.{IsConsistent}
use ospf_lite.Area.{Router}
use ospf_lite.Receive.{Result}
use ospf_lite.Receive.Keeps.{Keeps, with_neighbor-IsConsistent, found-facts}
use ospf_lite.Acknowledge.{recv_lsack, ack_headers}
use ospf_lite.Request.{recv_lsr, lsr_requests, answer_requests}
use ospf_lite.System.Neighbors.{IsFit}
use ospf_lite.System.Sound.{IsSound, emit-IsSound, interface-IsSound}
use ospf_lite.System.{on_interface}

pub on_interface-IsSound :
    (result : Result) (r : Router)
    → IsSound r
    → Keeps result
    → Ensures IsSound (on_interface result r)
on_interface-IsSound (crash fault) r s k = tt
on_interface-IsSound (done (i, effects)) r s k =
    emit-IsSound effects _ (interface-IsSound r i s (k i effects refl))

pub bad_ls_req-IsFit : (i : Interface) (n : Neighbor) → IsFit i n → IsFit i (event_bad_ls_req n).0
unfolding apply
bad_ls_req-IsFit i n fit =
    (apply-IsOrderly i empty_lsdb bad_ls_req n fit.0, rw (apply-ip i empty_lsdb bad_ls_req n) fit.1)

at_least-rank : (a b : NeighborState) → at_least a b ≡ true → rank b ≤ rank a
at_least-rank a b h = ground arith

acked-IsFit :
    (i : Interface) (n : Neighbor) (list : List LsaHeader)
    → IsFit i n
    → 5 ≤ rank n.state
    → IsFit i (record n { link_state_retransmission_list = list })
acked-IsFit i n list fit h = ground (arith, fit)

pub recv_lsack-IsConsistent :
    (src packet_length : ℕ) (bytes : List ℕ) (i : Interface)
    → IsConsistent i
    → Ensures IsConsistent (recv_lsack src packet_length bytes i)
unfolding recv_lsack
recv_lsack-IsConsistent src packet_length bytes i c = elim (Option-cases (find_neighbor src i)) [
  | inl e ↦ rw (e, recv_lsack) tt
  | inr (n, e) ↦
      let (orderly, apart, _) = found-facts i src c e in
      rw (e, recv_lsack)
        (Ensures-if IsConsistent (at_least n.state NeighborState.exchange) _ _
          (λ far. (elim (Option-cases (ack_headers packet_length bytes)) [
            | inl f ↦ rw f tt
            | inr (nets, f) ↦
                let fit =
                  acked-IsFit i n _ (orderly, apart) (at_least-rank _ NeighborState.exchange far) in
                rw f (with_neighbor-IsConsistent i _ c fit.0 fit.1)
          ]))
          (λ near. c))
]

pub recv_lsr-Keeps :
    (src packet_length : ℕ) (bytes : List ℕ) (lsdb : Lsdb) (i : Interface)
    → IsConsistent i
    → Ensures (λ step. IsConsistent step.0) (recv_lsr src packet_length bytes lsdb i)
unfolding recv_lsr
recv_lsr-Keeps src packet_length bytes lsdb i c = elim (Option-cases (find_neighbor src i)) [
  | inl e ↦ rw (e, recv_lsr) tt
  | inr (n, e) ↦
      let (orderly, apart, _) = found-facts i src c e in
      let fit = bad_ls_req-IsFit i n (orderly, apart) in
      rw (e, recv_lsr)
        (Ensures-if _ (at_least n.state NeighborState.exchange) _ _
          (λ far. (elim (Option-cases (lsr_requests packet_length bytes)) [
            | inl f ↦ rw f tt
            | inr (requests, f) ↦ rw f (elim (Outcome-cases (answer_requests lsdb requests 0 [])) [
              | inr (fault, g) ↦ rw g tt
              | inl (none, g) ↦ rw g (with_neighbor-IsConsistent i _ c fit.0 fit.1)
              | inl (some answered, g) ↦ rw g c
            ])
          ]))
          (λ near. c))
]
