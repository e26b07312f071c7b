-- ===== src/Intake/Stores.antt =====
-- The LSU handler of ospf.cpp on one LSA that it accepts.
use ospf_lite.Base.{
  ℕ, zero, suc, ◌+◌, ◌≤◌, ◌<◌, ◌≡◌, refl, ◌∙◌, Bool, true, false, not, ◌&&◌, List, [], ◌∷◌, ◌++◌,
  some, ◌==◌, leb, ltb, length, take, Option-cases, inl, inr, arith, if◌then◌else◌,
}
use ospf_lite.Base.Outcome.{Outcome, done, if-holds}
use ospf_lite.LinkState.{LsaHeader, LsaRouter, Lsdb}
use ospf_lite.LinkState.Header.{ntoh}
use ospf_lite.LinkState.Wire.{load_header}
use ospf_lite.LinkState.Database.{
  find_router_lsa, install_router_lsa, read_router_lsa, put_router_lsa,
}
use ospf_lite.LinkState.Database.Lookup.{find_router_lsa-put_router_lsa}
use ospf_lite.Lsa.Blocks.{names_self, newer_wins}
use ospf_lite.Area.{Router}
use ospf_lite.Intake.{
  compare_copy, is_newer, forget_all, install, Progress, accept_lsa, is_flushed, is_intact,
  weigh_lsa, intake_all, send_acks,
}
use ospf_lite.Intake.Floods.{flood_area-done}

take-length : (n : ℕ) (xs : List ℕ) → length (take n xs) ≤ n
take-length zero xs = omega arith
take-length (suc n) [] = omega arith
take-length (suc n) (x ∷ xs) = omega (arith, take-length n xs)

-- What the receiver has once it has stored an LSA.
abbrev pub HasStored : LsaRouter → Progress → Type 0
HasStored lsa p =
    (p.bad_ls_req ≡ false)
    × (length p.acks ≤ 20)
    × (find_router_lsa lsa.header.link_state_id lsa.header.advertising_router p.router.lsdb
        ≡ some lsa)

acks-length :
    (test : Bool) (bytes : List ℕ) → length (if test then [] ++ take 20 bytes else []) ≤ 20
acks-length true bytes = take-length 20 bytes
acks-length false bytes = omega arith

install-stored :
    (unset : ℕ) (h : LsaHeader) (bytes : List ℕ) (r : Router) {lsa : LsaRouter}
    → h.ls_type ≡ 1
    → read_router_lsa bytes ≡ some lsa
    → install unset h bytes r ≡ done (record r { lsdb = put_router_lsa lsa r.lsdb })
unfolding install install_router_lsa
install-stored unset h bytes r type e =
    let test : (h.ls_type == 1) ≡ true = ground arith in rw (test, e, install) refl

accept_lsa-stored :
    (unset src : ℕ) (bytes : List ℕ) (r : Router) {net : LsaHeader} {rest : List ℕ}
    {lsa : LsaRouter}
    → load_header bytes ≡ some (net, rest)
    → (ntoh net).ls_type ≡ 1
    → 4 + (ntoh net).length ≤ 1024
    → (ntoh net).length ≤ length bytes
    → read_router_lsa bytes ≡ some lsa
    → (p : Progress) × (accept_lsa unset src (ntoh net) bytes r [] ≡ done p) × HasStored lsa p
unfolding accept_lsa
accept_lsa-stored unset src bytes r {net} {rest} {lsa} e type fits held read =
    let (flooded, f, same) = flood_area-done bytes src r e fits held in
    let stored =
      find_router_lsa-put_router_lsa lsa.header.link_state_id lsa.header.advertising_router lsa
        flooded.0.lsdb
      ∙ rw (names_self lsa.header) refl in
    rw
      (
        f,
        accept_lsa,
        install-stored unset (ntoh net) bytes (forget_all (ntoh net) flooded.0) type read,
      )
      (_, refl, (refl, acks-length _ bytes, stored))

-- An LSA that no copy precedes: age 0, and every copy has a smaller sequence number.
pub is_newer-fresh :
    (h : LsaHeader) (lsdb : Lsdb)
    → h.ls_type ≡ 1
    → ((old : LsaRouter)
        → find_router_lsa h.link_state_id h.advertising_router lsdb ≡ some old
        → old.header.ls_seq_num < h.ls_seq_num)
    → is_newer (compare_copy h lsdb) ≡ true
unfolding compare_copy
is_newer-fresh h lsdb type fresh =
    let test : (h.ls_type == 1) ≡ true = ground arith in
    elim (Option-cases (find_router_lsa h.link_state_id h.advertising_router lsdb)) [
      | inl e ↦ rw (compare_copy, test, e) refl
      | inr (old, e) ↦ rw (compare_copy, test, e) (newer_wins h old.header (fresh old e))
    ]

is_flushed-young : (h : LsaHeader) (r : Router) → h.ls_age ≡ 0 → is_flushed h r.interface ≡ false
is_flushed-young h r e = ground arith

-- Behind the last LSA.
intake-ends :
    (p : Progress)
    → p.bad_ls_req ≡ false
    → (elim p.bad_ls_req as (λ b. Outcome Progress) [
      | true ↦ done p
      | false ↦ done (record { router = p.router; acks = p.acks; bad_ls_req = false })
    ])
      ≡ done p
intake-ends p fine = rw fine refl

pub intake-stored :
    (unset src : ℕ) (bytes : List ℕ) (r : Router) {net : LsaHeader} {rest : List ℕ}
    {lsa : LsaRouter}
    → load_header bytes ≡ some (net, rest)
    → is_intact net bytes ≡ done true
    → (ntoh net).ls_type ≡ 1
    → (ntoh net).ls_age ≡ 0
    → 4 + (ntoh net).length ≤ 1024
    → (ntoh net).length ≤ length bytes
    → read_router_lsa bytes ≡ some lsa
    → is_newer (compare_copy (ntoh net) r.lsdb) ≡ true
    → (p : Progress) × (intake_all unset src 1 bytes r [] ≡ done p) × HasStored lsa p
unfolding intake_all weigh_lsa
intake-stored unset src bytes r {net} e intact type age fits held read newer =
    let (p, f, (fine, few, stored)) = accept_lsa-stored unset src bytes r e type fits held read in
    rw (intake_all, e, intact, is_flushed-young (ntoh net) r age, newer, f)
      (p, intake-ends p fine, (fine, few, stored))

pub send_acks-done :
    (p : Progress)
    → length p.acks ≤ 20
    → (r' : Router) × (send_acks p ≡ done r') × (r'.lsdb ≡ p.router.lsdb)
unfolding send_acks
send_acks-done p few =
    let fits : leb (length p.acks) 1024 ≡ true = ground arith in
    rw (fits, send_acks)
      (
        _,
        refl,
        if-holds (λ (r' : Router). r'.lsdb ≡ p.router.lsdb)
            (not p.bad_ls_req && ltb 0 (length p.acks)) refl refl,
      )
