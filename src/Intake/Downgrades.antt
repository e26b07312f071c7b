-- ===== src/Intake/Downgrades.antt =====
-- The LSU handler of ospf.cpp and the network LSAs of the database.
use ospf_lite.Base.{
  ℕ, ◌≡◌, ◌<◌, refl, ◌∙◌, true, false, List, Option, none, some, ℤ, is_neg, htons, htonl_low, any,
  ltb, ◌-◌, ◌==◌, Option-cases, Bool-cases, inl, inr, arith,
}
use ospf_lite.Base.Outcome.{done}
use ospf_lite.LinkState.{LsaHeader, LsaNetwork, Lsdb}
use ospf_lite.LinkState.Header.{ntoh, names, lsa_header_cmp}
use ospf_lite.LinkState.Wire.{load_header, load32}
use ospf_lite.LinkState.Database.{
  find_network_lsa, install_network_lsa, read_network_lsa, read_attached, put_network_lsa,
}
use ospf_lite.LinkState.Database.Lookup.{find_network_lsa-put_network_lsa}
use ospf_lite.Lsa.Blocks.{names_self}
use ospf_lite.Neighbor.{Neighbor}
use ospf_lite.Interface.{Interface, find_neighbor}
use ospf_lite.Area.{Router}
use ospf_lite.Flooding.{is_zero}
use ospf_lite.Intake.{
  compare_copy, is_newer, install, Progress, acknowledge, refuse_lsa, is_flushed, weigh_lsa,
}

-- The type of a received LSA is not 1 and 2 at once.
type_tests :
    (h : LsaHeader) → h.ls_type ≡ 2 → ((h.ls_type == 1) ≡ false) × ((h.ls_type == 2) ≡ true)
type_tests h e = (ground arith, ground arith)

read_network_lsa-header :
    (unset : ℕ) (bytes : List ℕ) {net : LsaHeader} {rest : List ℕ} {lsa : LsaNetwork}
    → load_header bytes ≡ some (net, rest)
    → read_network_lsa unset bytes ≡ some lsa
    → lsa.header ≡ ntoh net
unfolding read_network_lsa
read_network_lsa-header unset bytes {net} {rest} e f = elim (Option-cases (load32 rest)) [
  | inl g ↦ cc (rw (e, g, read_network_lsa) at f)
  | inr (mask, g) ↦ elim (Bool-cases (ltb (htons net.length) 24)) [
    | inl short ↦ cc (rw (e, g, short, read_network_lsa) at f)
    | inr long ↦ elim (Option-cases (read_attached (htons net.length - 24) mask.1)) [
      | inl k ↦ cc (rw (e, g, long, k, read_network_lsa) at f)
      | inr (routers, k) ↦ ground (arith, rw (e, g, long, k, read_network_lsa) at f)
    ]
  ]
]

-- The age of a received LSA is 0, whatever was sent.
ntoh-age : (net : LsaHeader) → net.ls_age < 65536 → (ntoh net).ls_age ≡ 0
unfolding ntoh
ntoh-age net h = htonl_low net.ls_age h

not_flushed : (h : LsaHeader) (i : Interface) → h.ls_age ≡ 0 → is_flushed h i ≡ false
not_flushed h i e = ground arith

acknowledge-lsdb :
    (h : LsaHeader) (copy : Option ℤ) (n : Neighbor) (r : Router)
    → (acknowledge h copy n r).lsdb ≡ r.lsdb
acknowledge-lsdb h none n r = refl
acknowledge-lsdb h (some result) n r = elim (Bool-cases (is_zero result)) [
  | inl same ↦ rw same
  | inr other ↦ rw other
]

install-network :
    (unset : ℕ) (h : LsaHeader) (bytes : List ℕ) (r : Router) {lsa : LsaNetwork}
    → h.ls_type ≡ 2
    → read_network_lsa unset bytes ≡ some lsa
    → install unset h bytes r ≡ done (record r { lsdb = put_network_lsa lsa r.lsdb })
unfolding install install_network_lsa
install-network unset h bytes r type e =
    let (other, network) = type_tests h type in rw (other, network, e, install) refl

refuse_lsa-network :
    (unset : ℕ) (h : LsaHeader) (copy : Option ℤ) (bytes : List ℕ) (n : Neighbor) (r : Router)
    (acks : List ℕ) {lsa : LsaNetwork}
    → h.ls_type ≡ 2
    → any (names h.link_state_id h.advertising_router) n.link_state_request_list ≡ false
    → read_network_lsa unset bytes ≡ some lsa
    → lsa.header ≡ h
    → (p : Progress) × (refuse_lsa unset h copy bytes n r acks ≡ done p)
      × (find_network_lsa h.link_state_id h.advertising_router p.router.lsdb ≡ some lsa)
unfolding refuse_lsa
refuse_lsa-network unset h copy bytes n r acks {lsa} type unasked read same =
    let stored =
      find_network_lsa-put_network_lsa h.link_state_id h.advertising_router lsa
        (acknowledge h copy n r).lsdb
      ∙ rw (same, names_self h) refl in
    let (other, network) = type_tests h type in
    rw
      (
        unasked,
        refuse_lsa,
        network,
        install-network unset h bytes (acknowledge h copy n r) type read,
      )
      (_, refl, stored)

compare_copy-network :
    (h : LsaHeader) (db : Lsdb) (old : LsaNetwork)
    → h.ls_type ≡ 2
    → find_network_lsa h.link_state_id h.advertising_router db ≡ some old
    → compare_copy h db ≡ some (lsa_header_cmp h old.header)
unfolding compare_copy
compare_copy-network h db old type found =
    let (other, network) = type_tests h type in rw (compare_copy, other, network, found) refl

-- If the database holds a network LSA, and an instance that lsa_header_cmp does not find more
-- recent arrives within its buffer from a known neighbor that it has not been requested from,
-- then the handler goes on and the search for its name gives what was read from those bytes: an
-- older instance takes the place of a later one.
pub weigh_lsa-older :
    (unset src : ℕ) (bytes : List ℕ) (r : Router) (acks : List ℕ) (n : Neighbor) (old : LsaNetwork)
    {net : LsaHeader} {rest : List ℕ} {lsa : LsaNetwork}
    → load_header bytes ≡ some (net, rest)
    → net.ls_age < 65536
    → (ntoh net).ls_type ≡ 2
    → find_network_lsa (ntoh net).link_state_id (ntoh net).advertising_router r.lsdb ≡ some old
    → is_neg (lsa_header_cmp (ntoh net) old.header) ≡ false
    → find_neighbor src r.interface ≡ some n
    → any (names (ntoh net).link_state_id (ntoh net).advertising_router) n.link_state_request_list
      ≡ false
    → read_network_lsa unset bytes ≡ some lsa
    → (p : Progress) × (weigh_lsa unset src (ntoh net) bytes r acks ≡ done p)
      × (find_network_lsa (ntoh net).link_state_id (ntoh net).advertising_router p.router.lsdb
          ≡ some lsa)
unfolding weigh_lsa
weigh_lsa-older unset src bytes r acks n old {net} e small type found older known unasked read =
    let (other, network) = type_tests (ntoh net) type in
    let copy : compare_copy (ntoh net) r.lsdb ≡ some (lsa_header_cmp (ntoh net) old.header) =
      compare_copy-network (ntoh net) r.lsdb old type found in
    let kept : is_newer (compare_copy (ntoh net) r.lsdb) ≡ false = rw copy older in
    rw (not_flushed (ntoh net) r.interface (ntoh-age net small), weigh_lsa, kept, known)
      (refuse_lsa-network unset (ntoh net) (compare_copy (ntoh net) r.lsdb) bytes n r acks type
        unasked read (read_network_lsa-header unset bytes e read))
