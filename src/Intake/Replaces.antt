-- ===== src/Intake/Replaces.antt =====
-- The LSU handler of ospf.cpp and the installation of a router LSA.
use ospf_lite.Base.{
  ℕ, ◌≡◌, ◌⊎◌, refl, ◌∙◌, true, List, some, is_neg, htons, ◌==◌, Option-cases, Bool-cases, inl, inr,
  arith,
}
use ospf_lite.Base.Outcome.{Ensures, Ensures-if}
use ospf_lite.LinkState.{LsaHeader, LsaRouter, Lsdb}
use ospf_lite.LinkState.Header.{ntoh, names, lsa_header_cmp}
use ospf_lite.LinkState.Header.Order.{lsa_header_cmp_trans}
use ospf_lite.LinkState.Wire.{load8, load16, load_header}
use ospf_lite.LinkState.Database.{
  find_router_lsa, install_router_lsa, install_network_lsa, read_router_lsa, read_links,
  read_network_lsa, put_network_lsa, put_router_lsa,
}
use ospf_lite.LinkState.Database.Lookup.{find_router_lsa-put_router_lsa}
use ospf_lite.Area.{Router}
use ospf_lite.Intake.{compare_copy, is_newer, install}

-- Every router LSA of the first database is in the second, or a more recent instance of it is.
abbrev pub Advances : Lsdb → Lsdb → Type 0
Advances db db' =
    (id router : ℕ) (old : LsaRouter)
    → find_router_lsa id router db ≡ some old
    → (new : LsaRouter) × (find_router_lsa id router db' ≡ some new)
      × ((new ≡ old) ⊎ (is_neg (lsa_header_cmp new.header old.header) ≡ true))

pub Advances-same : (db db' : Lsdb) → db'.router_lsas ≡ db.router_lsas → Advances db db'
unfolding find_router_lsa
Advances-same db db' same id router old e = (old, rw same e, inl refl)

pub Advances-then : (a b c : Lsdb) → Advances a b → Advances b c → Advances a c
Advances-then a b c h k id router old e =
    let (mid, found, first) = h id router old e in
    let (new, found', second) = k id router mid found in (new, found', joined first second)
  where
    joined :
        {new mid old : LsaRouter}
        → (mid ≡ old) ⊎ (is_neg (lsa_header_cmp mid.header old.header) ≡ true)
        → (new ≡ mid) ⊎ (is_neg (lsa_header_cmp new.header mid.header) ≡ true)
        → (new ≡ old) ⊎ (is_neg (lsa_header_cmp new.header old.header) ≡ true)
    joined (inl p) (inl q) = inl (q ∙ p)
    joined (inl p) (inr q) = inr (rw p at q)
    joined {new} {mid} {old} (inr p) (inl q) = inr (rw q p)
    joined {new} {mid} {old} (inr p) (inr q) =
        inr (lsa_header_cmp_trans new.header mid.header old.header q p)

read_router_lsa-header :
    (bytes : List ℕ) {net : LsaHeader} {rest : List ℕ} {lsa : LsaRouter}
    → load_header bytes ≡ some (net, rest)
    → read_router_lsa bytes ≡ some lsa
    → lsa.header ≡ ntoh net
unfolding read_router_lsa
read_router_lsa-header bytes {net} {rest} e f = elim (Option-cases (load8 rest)) [
  | inl g ↦ cc (rw (e, g, read_router_lsa) at f)
  | inr (flags, g) ↦ elim (Option-cases (load8 flags.1)) [
    | inl k ↦ cc (rw (e, g, k, read_router_lsa) at f)
    | inr (zero1, k) ↦ elim (Option-cases (load16 zero1.1)) [
      | inl l ↦ cc (rw (e, g, k, l, read_router_lsa) at f)
      | inr (num, l) ↦ elim (Option-cases (read_links (htons num.0) num.1)) [
        | inl m ↦ cc (rw (e, g, k, l, m, read_router_lsa) at f)
        | inr (links, m) ↦ ground (arith, rw (e, g, k, l, m, read_router_lsa) at f)
      ]
    ]
  ]
]

-- A copy that is in the database is what the received instance is compared with.
compare_copy-router :
    (h : LsaHeader) (db : Lsdb) (old : LsaRouter)
    → h.ls_type ≡ 1
    → find_router_lsa h.link_state_id h.advertising_router db ≡ some old
    → compare_copy h db ≡ some (lsa_header_cmp h old.header)
unfolding compare_copy
compare_copy-router h db old type e =
    let test : (h.ls_type == 1) ≡ true = ground arith in rw (compare_copy, test, e) refl

-- An LSA that is more recent than the copy it replaces.
pub put_recent :
    (lsa : LsaRouter) (db : Lsdb)
    → ((old : LsaRouter)
        → find_router_lsa lsa.header.link_state_id lsa.header.advertising_router db ≡ some old
        → is_neg (lsa_header_cmp lsa.header old.header) ≡ true)
    → Advances db (put_router_lsa lsa db)
put_recent lsa db wins id router old e = elim (Bool-cases (names id router lsa.header)) [
  | inl named ↦
      let same_id : lsa.header.link_state_id ≡ id = ground arith in
      let same_router : lsa.header.advertising_router ≡ router = ground arith in
      (
        lsa,
        find_router_lsa-put_router_lsa id router lsa db ∙ rw named refl,
        inr (wins old (rw (same_id, same_router) e)),
      )
  | inr other ↦
      (old, find_router_lsa-put_router_lsa id router lsa db ∙ rw (other, e) refl, inl refl)
]

put_newer :
    (h : LsaHeader) (db : Lsdb) (lsa : LsaRouter)
    → h.ls_type ≡ 1
    → lsa.header ≡ h
    → is_newer (compare_copy h db) ≡ true
    → Advances db (put_router_lsa lsa db)
put_newer h db lsa type same newer = put_recent lsa db λ old e.
    (let wins : is_neg (lsa_header_cmp h old.header) ≡ true =
        rw (compare_copy-router h db old type (rw same at e)) at newer in
      rw same wins)

pub install-Advances :
    (unset : ℕ) (bytes : List ℕ) (r : Router) {net : LsaHeader} {rest : List ℕ}
    → load_header bytes ≡ some (net, rest)
    → is_newer (compare_copy (ntoh net) r.lsdb) ≡ true
    → Ensures (λ (r' : Router). Advances r.lsdb r'.lsdb) (install unset (ntoh net) bytes r)
unfolding install install_router_lsa install_network_lsa put_network_lsa
install-Advances unset bytes r {net} e newer =
    Ensures-if _ ((ntoh net).ls_type == 1) _ _
      (λ router. (elim (Option-cases (read_router_lsa bytes)) [
        | inl f ↦ rw f tt
        | inr (lsa, f) ↦ rw f (
            put_newer (ntoh net) r.lsdb lsa (ground arith) (read_router_lsa-header bytes e f) newer)
      ]))
      (λ other.
        Ensures-if _ ((ntoh net).ls_type == 2) _ _
          (λ network. (elim (Option-cases (read_network_lsa unset bytes)) [
            | inl f ↦ rw f tt
            | inr (lsa, f) ↦ rw f (Advances-same r.lsdb _ refl)
          ]))
          (λ neither. Advances-same r.lsdb _ refl))
