-- ===== src/Intake/Arrives.antt =====
-- The LSU handler of ospf.cpp on the bytes of update_lsas in lsa.cpp.
use ospf_lite.Base.{
  ℕ, ◌+◌, ◌≤◌, ◌<◌, ◌≡◌, refl, ap, ◌∙◌, List, [], ◌++◌, some, u16, htons, htonl, htons-htons,
  htons-lt, htonl_low, htonl-htonl, length, length-append, arith,
}
use ospf_lite.Base.Outcome.{done}
use ospf_lite.LinkState.{LsaHeader, LsaRouter, IsHeader}
use ospf_lite.LinkState.Header.{ntoh, hton}
use ospf_lite.LinkState.Header.Swap.{hton-IsHeader}
use ospf_lite.LinkState.Wire.{store_header, store_router}
use ospf_lite.LinkState.Wire.Loads.{load_header-store_header}
use ospf_lite.LinkState.Database.{find_router_lsa}
use ospf_lite.LinkState.Database.RoundTrip.{IsRouterLsa, read_router_lsa-store}
use ospf_lite.Checksum.{lsa_checksum}
use ospf_lite.Checksum.Fields.{lsa_checksum-bounds}
use ospf_lite.Lsa.{finish_lsa}
use ospf_lite.Neighbor.{Neighbor}
use ospf_lite.Interface.{find_neighbor}
use ospf_lite.Area.{Router}
use ospf_lite.Intake.{Progress, intake_all, lsa_count, recv_lsu}
use ospf_lite.Intake.Sent.{finished, finish_lsa-eq-done, finished-IsHeader, is_intact-finished}
use ospf_lite.Intake.Stores.{HasStored, is_newer-fresh, intake-stored, send_acks-done}

lsa_count-one : lsa_count (htonl 1) ≡ 1
unfolding htonl
lsa_count-one = refl

-- The header that the receiver works with.
ntoh-finished :
    (h : LsaHeader) (age c : ℕ)
    → IsHeader h
    → age < 65536
    → c < 65536
    → ntoh (finished (hton h) age (htons c)) ≡ record h { ls_age = 0; ls_checksum = c }
unfolding ntoh hton
ntoh-finished h age c v small fits = ground (
  arith,
  htonl_low age small,
  htonl-htonl h.link_state_id,
  htonl-htonl h.advertising_router,
  htonl-htonl h.ls_seq_num,
  htons-htons c,
  htons-htons h.length,
  v,
)

-- The receiver's copy of an LSA: the age and the two unused fields are cleared.
abbrev pub received_copy : LsaRouter → ℕ → LsaRouter
received_copy lsa c = record lsa {
  header = record (lsa.header) { ls_age = 0; ls_checksum = c };
  zero0 = 0;
  zero1 = 0;
}

store_router-length :
    (a b : LsaHeader) (lsa : LsaRouter) → length (store_router a lsa) ≡ length (store_router b lsa)
unfolding store_router store_header
store_router-length a b lsa = refl

finished-stored :
    (unset src age c : ℕ) (lsa : LsaRouter) (rest : List ℕ) (r : Router)
    → IsRouterLsa lsa
    → lsa.header.ls_type ≡ 1
    → lsa.header.length ≤ 1020
    → age < 65536
    → lsa_checksum (store_router (hton lsa.header) lsa) (htons (hton lsa.header).length) ≡ some c
    → ((old : LsaRouter)
        → find_router_lsa lsa.header.link_state_id lsa.header.advertising_router r.lsdb ≡ some old
        → old.header.ls_seq_num < lsa.header.ls_seq_num)
    → (p : Progress) × (intake_all unset src 1
          (store_router (finished (hton lsa.header) age (htons c)) lsa ++ rest)
          r
          []
        ≡ done p)
      × HasStored (received_copy lsa c) p
unfolding store_router
finished-stored unset src age c lsa rest r v type short small e fresh =
    let net : LsaHeader = finished (hton lsa.header) age (htons c) in
    let (c_fits, long, held) = lsa_checksum-bounds (store_router (hton lsa.header) lsa) _ e in
    let host = ntoh-finished lsa.header age c v.header_fits small c_fits in
    let fits =
      finished-IsHeader (hton lsa.header) age (htons c) (hton-IsHeader lsa.header v.header_fits)
        small (htons-lt c) in
    let size : htons (hton lsa.header).length ≡ lsa.header.length =
      unfold hton in htons-htons lsa.header.length v.header_fits.length_fits in
    intake-stored unset src (store_router net lsa ++ rest) r (load_header-store_header net _ fits)
      (is_intact-finished lsa (hton lsa.header) age c rest e (unfold hton in ground arith))
      (rw host type) (rw host refl) (rw host (omega arith))
      (rw host (
        omega (
          arith,
          length-append (store_router net lsa) rest,
          size,
          store_router-length net (hton lsa.header) lsa,
        )))
      (read_router_lsa-store net lsa rest fits v ∙ rw host refl)
      (rw host
        (is_newer-fresh (record (lsa.header) { ls_age = 0; ls_checksum = c }) r.lsdb type fresh))

-- If the fields of a router LSA fit their widths, its link count is that of its links, its length
-- is at most 1020, and its bytes as update_lsas finishes them, aged by any delay, arrive alone in
-- an update at a router that knows the sender and has no copy or only one with a smaller sequence
-- number, then whatever else the buffer holds the LSU handler returns, and the search for the LSA
-- gives the sender's, with some checksum and with the age and the two unused fields cleared.
pub recv_lsu-finish_lsa :
    (unset src delay : ℕ) (lsa : LsaRouter) (rest : List ℕ) (r : Router) {bytes : List ℕ}
    {n : Neighbor}
    → IsRouterLsa lsa
    → lsa.header.ls_type ≡ 1
    → lsa.header.length ≤ 1020
    → finish_lsa (λ h. store_router h lsa) (hton lsa.header) delay ≡ done bytes
    → find_neighbor src r.interface ≡ some n
    → ((old : LsaRouter)
        → find_router_lsa lsa.header.link_state_id lsa.header.advertising_router r.lsdb ≡ some old
        → old.header.ls_seq_num < lsa.header.ls_seq_num)
    → (r' : Router) × (recv_lsu unset src (htonl 1) (bytes ++ rest) r ≡ done r')
      × ((c : ℕ) × (find_router_lsa lsa.header.link_state_id lsa.header.advertising_router r'.lsdb
            ≡ some (received_copy lsa c)))
unfolding recv_lsu
recv_lsu-finish_lsa unset src delay lsa rest r v type short e known fresh =
    let (c, f, made) = finish_lsa-eq-done lsa (hton lsa.header) delay e in
    let age : ℕ = htons (u16 (htons (hton lsa.header).ls_age + delay)) in
    let (p, g, (fine, few, stored)) =
      finished-stored unset src age c lsa rest r v type short (htons-lt _) f fresh in
    let (r', k, same) = send_acks-done p few in
    rw (known, recv_lsu, lsa_count-one, made, g)
      (r', k, (c, ap (find_router_lsa _ _) same ∙ stored))
