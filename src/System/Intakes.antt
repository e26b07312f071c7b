-- ===== src/System/Intakes.antt =====
-- The LSU handler of recv_ospf_packet_thread in ospf.cpp, and the state of the router.
use ospf_lite.Base.{
  ℕ, zero, suc, not, ◌&&◌, List, [], ◌∷◌, All, any, Option, none, some, ℤ, length, leb, ltb, ◌==◌,
  Option-cases, Bool-cases, inl, inr,
}
use ospf_lite.Base.Outcome.{Ensures, Ensures-bind, Ensures-if, Ensures-any, if-holds}
use ospf_lite.LinkState.{LsaHeader}
use ospf_lite.LinkState.Header.{ntoh, names}
use ospf_lite.LinkState.Wire.{load_header}
use ospf_lite.LinkState.Database.{install_router_lsa, install_network_lsa}
use ospf_lite.LinkState.Database.Lookup.{install_router_lsa-find, install_network_lsa-find}
use ospf_lite.Neighbor.{Neighbor}
use ospf_lite.Interface.{Interface, find_neighbor}
use ospf_lite.Interface.Events.Consistent.{IsConsistent}
use ospf_lite.Area.{Router}
use ospf_lite.Flooding.{flooding_lsa, is_zero}
use ospf_lite.Intake.{
  compare_copy, is_newer, flood_all, flood_area, forget_all, install, Progress, accept_lsa,
  acknowledge, refuse_lsa, is_flushed, is_intact, weigh_lsa, intake_all, send_acks, recv_lsu,
  lsa_count,
}
use ospf_lite.System.Neighbors.{
  IsFit, neighbors-IsFit, fit-IsConsistent, forget-IsFit, map-forget-IsFit,
  flooding_lsa-IsConsistent,
}
use ospf_lite.System.Sound.{
  IsSound, emit-IsSound, interface-IsSound, lsdb-IsSound, with_neighbor-IsSound, found-IsFit,
}
use ospf_lite.System.Handlers.{bad_ls_req-IsFit}

flood_all-IsConsistent :
    (bytes : List ℕ) (src : ℕ) (is : List Interface)
    → All IsConsistent is
    → Ensures (λ out. All IsConsistent out.0) (flood_all bytes src is)
unfolding flood_all
flood_all-IsConsistent bytes src [] c = tt
flood_all-IsConsistent bytes src (i ∷ is) c =
    Ensures-bind (λ out. IsConsistent out.0) (λ out. All IsConsistent out.0)
      (flooding_lsa bytes src i) _ (flooding_lsa-IsConsistent bytes src i c.0)
      λ one h.
        Ensures-bind (λ out. All IsConsistent out.0) (λ out. All IsConsistent out.0)
          (flood_all bytes src is) _ (flood_all-IsConsistent bytes src is c.1) λ rest k. (h, k)

flood_area-IsSound :
    (bytes : List ℕ) (src : ℕ) (r : Router)
    → IsSound r
    → Ensures (λ out. IsSound out.0) (flood_area bytes src r)
unfolding flood_area
flood_area-IsSound bytes src r s =
    Ensures-bind (λ out. All IsConsistent out.0) (λ out. IsSound out.0)
      (flood_all bytes src r.before) _ (flood_all-IsConsistent bytes src r.before s.before)
      λ before b.
        Ensures-bind (λ out. IsConsistent out.0) (λ out. IsSound out.0)
          (flooding_lsa bytes src r.interface) _
          (flooding_lsa-IsConsistent bytes src r.interface s.own)
          λ own o.
            Ensures-bind (λ out. All IsConsistent out.0) (λ out. IsSound out.0)
              (flood_all bytes src r.after) _ (flood_all-IsConsistent bytes src r.after s.after)
              λ after a. record { before = b; own = o; after = a; unique = s.unique }

forget_all-IsSound : (h : LsaHeader) (r : Router) → IsSound r → IsSound (forget_all h r)
forget_all-IsSound h r s = interface-IsSound r _ s (
    fit-IsConsistent r.interface _ s.own
      (map-forget-IsFit r.interface h r.interface.neighbors (neighbors-IsFit r.interface s.own)))

install-IsSound :
    (unset : ℕ) (h : LsaHeader) (bytes : List ℕ) (r : Router)
    → IsSound r
    → Ensures IsSound (install unset h bytes r)
unfolding install
install-IsSound unset h bytes r s =
    Ensures-if IsSound (h.ls_type == 1) _ _
      (λ router. (elim (Option-cases (install_router_lsa bytes r.lsdb)) [
        | inl e ↦ rw e tt
        | inr (db, e) ↦
            rw e (lsdb-IsSound r db s (install_router_lsa-find bytes r.lsdb s.unique e).0)
      ]))
      (λ other.
        Ensures-if IsSound (h.ls_type == 2) _ _
          (λ network. (elim (Option-cases (install_network_lsa unset bytes r.lsdb)) [
            | inl e ↦ rw e tt
            | inr (db, e) ↦
                rw e
                  (lsdb-IsSound r db s (install_network_lsa-find unset bytes r.lsdb s.unique e).0)
          ]))
          (λ none_of_them. s))

abbrev StaysSound : Progress → Type 0
StaysSound p = IsSound p.router

accept_lsa-IsSound :
    (unset src : ℕ) (h : LsaHeader) (bytes : List ℕ) (r : Router) (acks : List ℕ)
    → IsSound r
    → Ensures StaysSound (accept_lsa unset src h bytes r acks)
unfolding accept_lsa
accept_lsa-IsSound unset src h bytes r acks s =
    Ensures-bind (λ out. IsSound out.0) StaysSound (flood_area bytes src r) _
      (flood_area-IsSound bytes src r s)
      λ flooded f.
        Ensures-bind IsSound StaysSound (install unset h bytes (forget_all h flooded.0)) _
          (install-IsSound unset h bytes _ (forget_all-IsSound h flooded.0 f)) λ r' s'. s'

-- The implied acknowledgment.
implied-IsSound :
    (h : LsaHeader) (copy : Option ℤ) (n : Neighbor) (r : Router)
    → IsSound r
    → IsFit r.interface n
    → IsSound (acknowledge h copy n r)
implied-IsSound h none n r s fit = s
implied-IsSound h (some result) n r s fit =
    if-holds IsSound (is_zero result)
      (with_neighbor-IsSound r _ s (forget-IsFit r.interface h n fit)) s

refuse_lsa-IsSound :
    (unset : ℕ) (h : LsaHeader) (copy : Option ℤ) (bytes : List ℕ) (n : Neighbor) (r : Router)
    (acks : List ℕ)
    → IsSound r
    → IsFit r.interface n
    → Ensures StaysSound (refuse_lsa unset h copy bytes n r acks)
unfolding refuse_lsa
refuse_lsa-IsSound unset h copy bytes n r acks s fit =
    Ensures-if StaysSound
      (any (names h.link_state_id h.advertising_router) n.link_state_request_list) _ _
      (λ requested.
        emit-IsSound _ _ (with_neighbor-IsSound r _ s (bad_ls_req-IsFit r.interface n fit)))
      (λ other.
        (let s' = implied-IsSound h copy n r s fit in
          Ensures-bind IsSound StaysSound _ _
            (Ensures-if IsSound (h.ls_type == 2) _ _ (λ network. install-IsSound unset h bytes _ s')
              (λ router. s'))
            λ r' s''. s''))

weigh_lsa-IsSound :
    (unset src : ℕ) (h : LsaHeader) (bytes : List ℕ) (r : Router) (acks : List ℕ)
    → IsSound r
    → Ensures StaysSound (weigh_lsa unset src h bytes r acks)
unfolding weigh_lsa
weigh_lsa-IsSound unset src h bytes r acks s =
    Ensures-if StaysSound (is_flushed h r.interface) _ _ (λ flushed. emit-IsSound _ r s)
      (λ kept.
        Ensures-if StaysSound (is_newer (compare_copy h r.lsdb)) _ _
          (λ newer. accept_lsa-IsSound unset src h bytes r acks s)
          (λ older. (elim (Option-cases (find_neighbor src r.interface)) [
            | inl e ↦ rw e tt
            | inr (n, e) ↦ rw e (
                refuse_lsa-IsSound unset h (compare_copy h r.lsdb) bytes n r acks s
                  (found-IsFit r src s e))
          ])))

intake_all-IsSound :
    (unset src n : ℕ) (bytes : List ℕ) (r : Router) (acks : List ℕ)
    → IsSound r
    → Ensures StaysSound (intake_all unset src n bytes r acks)
unfolding intake_all
intake_all-IsSound unset src zero bytes r acks s = s
intake_all-IsSound unset src (suc n) bytes r acks s = elim (Option-cases (load_header bytes)) [
  | inl e ↦ rw (e, intake_all) tt
  | inr ((net, rest), e) ↦
      rw (e, intake_all)
        (Ensures-bind (λ intact. Unit {0}) StaysSound (is_intact net bytes) _
          (Ensures-any (is_intact net bytes))
          λ intact u.
            Ensures-bind StaysSound StaysSound _ _
              (Ensures-if StaysSound intact _ _
                (λ right. weigh_lsa-IsSound unset src (ntoh net) bytes r acks s) (λ wrong. s))
              λ p sp. (elim (Bool-cases p.bad_ls_req) [
                | inl bad ↦ rw bad sp
                | inr fine ↦ rw fine (intake_all-IsSound unset src n _ p.router p.acks sp)
              ]))
]

send_acks-IsSound : (p : Progress) → IsSound p.router → Ensures IsSound (send_acks p)
unfolding send_acks
send_acks-IsSound p s =
    Ensures-if IsSound (leb (length p.acks) 1024) _ _
      (λ fits.
        if-holds IsSound (not p.bad_ls_req && ltb 0 (length p.acks)) (emit-IsSound _ p.router s) s)
      (λ long. tt)

pub recv_lsu-IsSound :
    (unset src num : ℕ) (bytes : List ℕ) (r : Router)
    → IsSound r
    → Ensures IsSound (recv_lsu unset src num bytes r)
unfolding recv_lsu
recv_lsu-IsSound unset src num bytes r s = elim (Option-cases (find_neighbor src r.interface)) [
  | inl e ↦ rw (e, recv_lsu) tt
  | inr (n, e) ↦
      rw (e, recv_lsu)
        (Ensures-bind StaysSound IsSound (intake_all unset src (lsa_count num) bytes r []) _
          (intake_all-IsSound unset src (lsa_count num) bytes r [] s)
          λ p sp. send_acks-IsSound p sp)
]
