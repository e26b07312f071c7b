-- ===== src/Intake/Advances.antt =====
-- The LSU handler of ospf.cpp and the router LSAs of the database.
use ospf_lite.Base.{
  ℕ, zero, suc, ◌≡◌, refl, ap, true, ◌&&◌, List, [], Option, none, some, ℤ, htons, any, leb, ltb,
  length, not, drop, ◌==◌, Option-cases, Bool-cases, inl, inr, arith,
}
use ospf_lite.Base.Outcome.{
  Outcome, Ensures, Ensures-bind, Ensures-if, Ensures-imp, Ensures-any, if-holds,
}
use ospf_lite.LinkState.{LsaHeader, Lsdb}
use ospf_lite.LinkState.Header.{ntoh, names}
use ospf_lite.LinkState.Wire.{load_header}
use ospf_lite.LinkState.Database.{install_network_lsa, read_network_lsa, put_network_lsa}
use ospf_lite.Neighbor.{Neighbor}
use ospf_lite.Interface.{find_neighbor}
use ospf_lite.Area.{Router}
use ospf_lite.Flooding.{flooding_lsa, is_zero}
use ospf_lite.Intake.{
  compare_copy, is_newer, flood_all, flood_area, forget_all, install, Progress, accept_lsa,
  acknowledge, refuse_lsa, is_flushed, is_intact, weigh_lsa, intake_all, send_acks, recv_lsu,
  lsa_count,
}
use ospf_lite.Intake.Replaces.{Advances, Advances-same, Advances-then, install-Advances}

-- The steps that leave the database alone.
abbrev Same : Router → Router → Type 0
Same r r' = r'.lsdb ≡ r.lsdb

flood_area-Same :
    (bytes : List ℕ) (src : ℕ) (r : Router) → Ensures (λ out. Same r out.0) (flood_area bytes src r)
unfolding flood_area
flood_area-Same bytes src r =
    Ensures-bind (λ a. Unit {0}) (λ out. Same r out.0) (flood_all bytes src r.before) _
      (Ensures-any (flood_all bytes src r.before))
      λ before _.
        Ensures-bind (λ a. Unit {0}) (λ out. Same r out.0) (flooding_lsa bytes src r.interface) _
          (Ensures-any (flooding_lsa bytes src r.interface))
          λ own _.
            Ensures-bind (λ a. Unit {0}) (λ out. Same r out.0) (flood_all bytes src r.after) _
              (Ensures-any (flood_all bytes src r.after)) λ after _. refl

from_Same :
    (r r' : Router) (o : Outcome Router)
    → Same r r'
    → Ensures (λ (r'' : Router). Advances r'.lsdb r''.lsdb) o
    → Ensures (λ (r'' : Router). Advances r.lsdb r''.lsdb) o
from_Same r r' o same h =
    Ensures-imp _ _ o
      (λ r'' ahead.
        Advances-then r.lsdb r'.lsdb r''.lsdb
          (Advances-same r.lsdb r'.lsdb (ap (λ (db : Lsdb). db.router_lsas) same)) ahead)
      h

abbrev Ahead : Router → Progress → Type 0
Ahead r p = Advances r.lsdb p.router.lsdb

accept_lsa-Ahead :
    (unset src : ℕ) (bytes : List ℕ) (r : Router) (acks : List ℕ) {net : LsaHeader} {rest : List ℕ}
    → load_header bytes ≡ some (net, rest)
    → is_newer (compare_copy (ntoh net) r.lsdb) ≡ true
    → Ensures (Ahead r) (accept_lsa unset src (ntoh net) bytes r acks)
unfolding accept_lsa
accept_lsa-Ahead unset src bytes r acks {net} e newer =
    Ensures-bind (λ out. Same r out.0) (Ahead r) (flood_area bytes src r) _
      (flood_area-Same bytes src r)
      λ flooded same.
        Ensures-bind (λ r'. Advances r.lsdb r'.lsdb) (Ahead r)
          (install unset (ntoh net) bytes (forget_all (ntoh net) flooded.0)) _
          (from_Same r flooded.0 (install unset (ntoh net) bytes (forget_all (ntoh net) flooded.0))
            same (install-Advances unset bytes (forget_all (ntoh net) flooded.0) e (rw same newer)))
          λ r' ahead. ahead

-- A network LSA that is installed leaves the router LSAs.
install_network-Advances :
    (unset : ℕ) (h : LsaHeader) (bytes : List ℕ) (r : Router)
    → (h.ls_type == 2) ≡ true
    → Ensures (λ r'. Advances r.lsdb r'.lsdb) (install unset h bytes r)
unfolding install install_network_lsa put_network_lsa
install_network-Advances unset h bytes r type =
    Ensures-if _ (h.ls_type == 1) _ _ (λ router. ground arith)
      (λ other. rw type (elim (Option-cases (read_network_lsa unset bytes)) [
        | inl f ↦ rw f tt
        | inr (lsa, f) ↦ rw f (Advances-same r.lsdb _ refl)
      ]))

implied-Same :
    (h : LsaHeader) (copy : Option ℤ) (n : Neighbor) (r : Router) → Same r (acknowledge h copy n r)
implied-Same h none n r = refl
implied-Same h (some result) n r = if-holds (Same r) (is_zero result) refl refl

refuse_lsa-Ahead :
    (unset : ℕ) (h : LsaHeader) (copy : Option ℤ) (bytes : List ℕ) (n : Neighbor) (r : Router)
    (acks : List ℕ)
    → Ensures (Ahead r) (refuse_lsa unset h copy bytes n r acks)
unfolding refuse_lsa
refuse_lsa-Ahead unset h copy bytes n r acks =
    Ensures-if (Ahead r)
      (any (names h.link_state_id h.advertising_router) n.link_state_request_list) _ _
      (λ requested. Advances-same r.lsdb _ refl)
      (λ other.
        (let same = implied-Same h copy n r in
          Ensures-bind (λ r'. Advances r.lsdb r'.lsdb) (Ahead r) _ _
            (Ensures-if _ (h.ls_type == 2) _ _
              (λ network.
                from_Same r (acknowledge h copy n r) _ same
                  (install_network-Advances unset h bytes (acknowledge h copy n r) network))
              (λ router. Advances-same r.lsdb _ (ap (λ (db : Lsdb). db.router_lsas) same)))
            λ r' ahead. ahead))

weigh_lsa-Ahead :
    (unset src : ℕ) (bytes : List ℕ) (r : Router) (acks : List ℕ) {net : LsaHeader} {rest : List ℕ}
    → load_header bytes ≡ some (net, rest)
    → Ensures (Ahead r) (weigh_lsa unset src (ntoh net) bytes r acks)
unfolding weigh_lsa
weigh_lsa-Ahead unset src bytes r acks {net} e =
    Ensures-if (Ahead r) (is_flushed (ntoh net) r.interface) _ _
      (λ flushed. Advances-same r.lsdb _ refl)
      (λ kept.
        Ensures-if (Ahead r) (is_newer (compare_copy (ntoh net) r.lsdb)) _ _
          (λ newer. accept_lsa-Ahead unset src bytes r acks e newer)
          (λ older. (elim (Option-cases (find_neighbor src r.interface)) [
            | inl f ↦ rw f tt
            | inr (n, f) ↦
                rw f (
                  refuse_lsa-Ahead unset (ntoh net) (compare_copy (ntoh net) r.lsdb) bytes n r acks)
          ])))

intake_all-Ahead :
    (unset src n : ℕ) (bytes : List ℕ) (r : Router) (acks : List ℕ)
    → Ensures (Ahead r) (intake_all unset src n bytes r acks)
unfolding intake_all
intake_all-Ahead unset src zero bytes r acks = Advances-same r.lsdb _ refl
intake_all-Ahead unset src (suc n) bytes r acks = elim (Option-cases (load_header bytes)) [
  | inl e ↦ rw (e, intake_all) tt
  | inr ((net, rest), e) ↦
      rw (e, intake_all)
        (Ensures-bind (λ intact. Unit {0}) (Ahead r) (is_intact net bytes) _
          (Ensures-any (is_intact net bytes))
          λ intact u.
            Ensures-bind (Ahead r) (Ahead r) _ _
              (Ensures-if (Ahead r) intact _ _ (λ right. weigh_lsa-Ahead unset src bytes r acks e)
                (λ wrong. Advances-same r.lsdb _ refl))
              λ p ahead. (elim (Bool-cases p.bad_ls_req) [
                | inl bad ↦ rw bad ahead
                | inr fine ↦ rw fine (
                    Ensures-imp (Ahead p.router) (Ahead r) _
                      (λ (q : Progress) further.
                        Advances-then r.lsdb p.router.lsdb q.router.lsdb ahead further)
                      (intake_all-Ahead unset src n (drop (htons net.length) bytes) p.router
                        p.acks))
              ]))
]

send_acks-Same : (p : Progress) → Ensures (Same p.router) (send_acks p)
unfolding send_acks
send_acks-Same p =
    Ensures-if (Same p.router) (leb (length p.acks) 1024) _ _
      (λ fits. if-holds (Same p.router) (not p.bad_ls_req && ltb 0 (length p.acks)) refl refl)
      (λ long. tt)

-- Whatever an update holds, when its handler completes, every router LSA that the database had is
-- still there, or one that lsa_header_cmp finds more recent is in its place.
pub recv_lsu-Advances :
    (unset src num : ℕ) (bytes : List ℕ) (r : Router)
    → Ensures (λ (r' : Router). Advances r.lsdb r'.lsdb) (recv_lsu unset src num bytes r)
unfolding recv_lsu
recv_lsu-Advances unset src num bytes r = elim (Option-cases (find_neighbor src r.interface)) [
  | inl e ↦ rw (e, recv_lsu) tt
  | inr (n, e) ↦
      rw (e, recv_lsu)
        (Ensures-bind (Ahead r) (λ (r' : Router). Advances r.lsdb r'.lsdb)
          (intake_all unset src (lsa_count num) bytes r []) _
          (intake_all-Ahead unset src (lsa_count num) bytes r [])
          λ p ahead.
            Ensures-imp (Same p.router) _ (send_acks p)
              (λ r' same.
                Advances-then r.lsdb p.router.lsdb r'.lsdb ahead
                  (Advances-same p.router.lsdb r'.lsdb (ap (λ (db : Lsdb). db.router_lsas) same)))
              (send_acks-Same p))
]
