-- ===== src/Senders/Retransmits.antt =====
-- retrans_sender_thread of ospf.cpp: what it retransmits.
use ospf_lite.Base.{
  ℕ, ◌+◌, ◌*◌, ◌≤◌, ◌<◌, ◌≡◌, refl, ap, find_if, true, false, List, [], ◌∷◌, ◌++◌, none, some, ◌==◌,
  htons, htons-lt, length, Bool-cases, inl, inr, arith,
}
use ospf_lite.Base.Outcome.{done, crash, null_pointer, out_of_bounds}
use ospf_lite.LinkState.{LsaHeader, LsaRouter, LsaNetwork, Lsdb, IsHeader}
use ospf_lite.LinkState.Wire.{load_header, store_router, store_network}
use ospf_lite.LinkState.Wire.Loads.{load_header-store_header}
use ospf_lite.LinkState.Database.{find_router_lsa, find_network_lsa}
use ospf_lite.Neighbor.{NeighborState, Neighbor, is}
use ospf_lite.Area.{Router}
use ospf_lite.Interface.{Interface, InterfaceState, find_neighbor}
use ospf_lite.Interface
use ospf_lite.Lsa.{
  own_header, generate_network_lsa, full_ids, replace_own_network_lsa, retransmit_to_full, Update,
  update_network,
}
use ospf_lite.Lsa.Blocks.{add_lsa-eq-done, counted_network, newer_wins}
use ospf_lite.Lsa.Installed.{replace_own_network_lsa-lost}
use ospf_lite.Checksum.Fields.{lsa_checksum-none}
use ospf_lite.Intake.{is_intact}
use ospf_lite.Senders.{retrans_header, retrans_lsa, is_full, retrans_round}

-- The front of the list decides.
retrans_round-missing :
    (delay : ℕ) (lsdb : Lsdb) (h : LsaHeader) (later : List LsaHeader) (n : Neighbor)
    → is n.state NeighborState.down ≡ false
    → n.link_state_retransmission_list ≡ h ∷ later
    → h.ls_type ≡ 2
    → h.length ≤ 1020
    → find_network_lsa h.link_state_id h.advertising_router lsdb ≡ none
    → retrans_round delay lsdb n ≡ crash null_pointer
unfolding retrans_round
retrans_round-missing delay lsdb h later n up list type fits e =
    let room : is_full [] h ≡ false = ground arith in
    let network : (h.ls_type == 1) ≡ false = ground arith in
    let network' : (h.ls_type == 2) ≡ true = ground arith in
    rw (up, retrans_round, list, room, network, network', e) refl

find-retransmit_to_full :
    (h : LsaHeader) (ip : ℕ) (ns : List Neighbor) {n : Neighbor}
    → find_if (λ (m : Neighbor). m.ip == ip) ns ≡ some n
    → is n.state NeighborState.full ≡ true
    → find_if (λ (m : Neighbor). m.ip == ip) (retransmit_to_full h ns)
      ≡ some
          (record n { link_state_retransmission_list = n.link_state_retransmission_list ++ h ∷ [] })
unfolding retransmit_to_full
find-retransmit_to_full h ip [] e full = cc e
find-retransmit_to_full h ip (m ∷ ms) {n} e full = elim (Bool-cases (m.ip == ip)) [
  | inl same ↦
      let found : m ≡ n = ground arith in rw (found, full) (ground (arith, rw found at same))
  | inr other ↦
      let later : find_if (λ (k : Neighbor). k.ip == ip) ms ≡ some n = rw other at e in
      elim (Bool-cases (is m.state NeighborState.full)) [
        | inl there ↦ rw (there, other) (find-retransmit_to_full h ip ms later full)
        | inr below ↦ rw (below, other) (find-retransmit_to_full h ip ms later full)
      ]
]

own-header :
    (r : Router)
    → (generate_network_lsa r.config r.interface).header
      ≡ own_header r.config 2 r.interface.ip_interface_address
          (24 + 4 * length (full_ids r.interface.neighbors))
unfolding generate_network_lsa
own-header r = refl

replaced :
    (lsa old : LsaNetwork) (db : Lsdb)
    → find_network_lsa lsa.header.link_state_id lsa.header.advertising_router db ≡ some old
    → old.header.ls_seq_num < lsa.header.ls_seq_num
    → (replace_own_network_lsa lsa db).1 ≡ true
unfolding replace_own_network_lsa
replaced lsa old db e older =
    rw (e, replace_own_network_lsa) (rw (newer_wins lsa.header old.header older) refl)

-- The old instance is out of the database, and the neighbor is to get the new one.
lost-network :
    (r : Router) (old : LsaNetwork) {u : Update}
    → Interface.is r.interface.state InterfaceState.dr ≡ true
    → find_network_lsa r.interface.ip_interface_address r.config.router_id r.lsdb ≡ some old
    → old.header.ls_seq_num < r.config.ls_sequence_cnt
    → update_network r ≡ done u
    → (find_network_lsa r.interface.ip_interface_address r.config.router_id u.router.lsdb ≡ none)
      × (u.router.interface ≡ record (r.interface) {
        neighbors =
            retransmit_to_full
              (generate_network_lsa r.config r.interface).header
              r.interface.neighbors;
      })
unfolding update_network generate_network_lsa
lost-network r old {u} holder e older done_u =
    let lsa : LsaNetwork = generate_network_lsa r.config r.interface in
    let gone = replace_own_network_lsa-lost lsa old r.lsdb e older in
    let flooding : (replace_own_network_lsa lsa r.lsdb).1 ≡ true =
      replaced lsa old r.lsdb e older in
    let (_, _, made) =
      add_lsa-eq-done (counted_network r) lsa.header (λ h. store_network h lsa) 0 [] {u = u}
        (rw (holder, flooding, update_network) at done_u) in
    (rw made gone, ap (λ (v : Update). v.router.interface) made)

-- If the interface is DR, the database has a network LSA of the router's own with a sequence
-- number below the counter, the new one is at most 1020 bytes long, a neighbor is Full with an
-- empty retransmission list, and the first block of update_lsas returns, then the next round of
-- the retransmission thread of that neighbor follows a null pointer.
pub update_network-retrans_round :
    (delay ip : ℕ) (r : Router) (n : Neighbor) (old : LsaNetwork) {u : Update}
    → Interface.is r.interface.state InterfaceState.dr ≡ true
    → find_network_lsa r.interface.ip_interface_address r.config.router_id r.lsdb ≡ some old
    → old.header.ls_seq_num < r.config.ls_sequence_cnt
    → 24 + 4 * length (full_ids r.interface.neighbors) ≤ 1020
    → find_neighbor ip r.interface ≡ some n
    → n.state ≡ NeighborState.full
    → n.link_state_retransmission_list ≡ []
    → update_network r ≡ done u
    → (m : Neighbor) × (find_neighbor ip u.router.interface ≡ some m)
      × (retrans_round delay u.router.lsdb m ≡ crash null_pointer)
unfolding find_neighbor
update_network-retrans_round delay ip r n old {u} holder e older fits known full empty done_u =
    let h : LsaHeader = (generate_network_lsa r.config r.interface).header in
    let (gone, changed) = lost-network r old holder e older done_u in
    let m : Neighbor = record n {
      link_state_retransmission_list = n.link_state_retransmission_list ++ h ∷ [];
    } in
    let found : find_neighbor ip u.router.interface ≡ some m =
      rw changed (find-retransmit_to_full h ip r.interface.neighbors known (ground arith)) in
    let header = own-header r in
    (
      m,
      found,
      retrans_round-missing delay u.router.lsdb h [] m (ground arith) (rw empty refl)
          (ap (λ (k : LsaHeader). k.ls_type) header) (rw header (omega arith)) (rw header gone),
    )

retrans_header-IsHeader :
    (delay : ℕ) (h : LsaHeader) → IsHeader h → IsHeader (retrans_header delay h)
retrans_header-IsHeader delay h v = record {
  age_fits = htons-lt _;
  options_fits = v.options_fits;
  type_fits = v.type_fits;
  id_fits = v.id_fits;
  router_fits = v.router_fits;
  seq_fits = v.seq_fits;
  checksum_fits = v.checksum_fits;
  length_fits = v.length_fits;
}

swapped-length : (n size : ℕ) → 6 ≤ n → n < 256 → size ≤ 1500 → size < htons n
unfolding htons
swapped-length n size h k l = omega arith

retrans_lsa-router :
    (delay : ℕ) (lsdb : Lsdb) (h : LsaHeader) (lsa : LsaRouter)
    → h.ls_type ≡ 1
    → find_router_lsa h.link_state_id h.advertising_router lsdb ≡ some lsa
    → retrans_lsa delay lsdb h ≡ done (store_router (retrans_header delay lsa.header) lsa)
unfolding retrans_lsa
retrans_lsa-router delay lsdb h lsa type e =
    let test : (h.ls_type == 1) ≡ true = ground arith in rw (test, e, retrans_lsa) refl

-- If the database has the router LSA of an entry, its fields fit their widths and its length is
-- from 6 to 255, then a retransmission writes its header in the byte order of the host, and the
-- LSU handler of a receiver whose buffer has at most 1500 bytes from there on reads past the end
-- of that buffer as it checks the LSA.
pub retrans_lsa-is_intact :
    (delay : ℕ) (lsdb : Lsdb) (h : LsaHeader) (lsa : LsaRouter) (rest : List ℕ)
    → h.ls_type ≡ 1
    → find_router_lsa h.link_state_id h.advertising_router lsdb ≡ some lsa
    → IsHeader lsa.header
    → 6 ≤ lsa.header.length
    → lsa.header.length < 256
    → length (store_router (retrans_header delay lsa.header) lsa ++ rest) ≤ 1500
    → (retrans_lsa delay lsdb h ≡ done (store_router (retrans_header delay lsa.header) lsa))
      × ((net : LsaHeader) × (behind : List ℕ) × (load_header
              (store_router (retrans_header delay lsa.header) lsa ++ rest)
            ≡ some (net, behind))
          × (is_intact net (store_router (retrans_header delay lsa.header) lsa ++ rest)
              ≡ crash out_of_bounds))
unfolding is_intact store_router
retrans_lsa-is_intact delay lsdb h lsa rest type e v long short room =
    let net : LsaHeader = retrans_header delay lsa.header in
    let bytes : List ℕ = store_router net lsa ++ rest in
    let beyond =
      lsa_checksum-none bytes (htons net.length)
        (swapped-length net.length (length bytes) long short room) in
    (
      retrans_lsa-router delay lsdb h lsa type e,
      (
        net,
        _,
        load_header-store_header net _ (retrans_header-IsHeader delay lsa.header v),
        rw (beyond, is_intact) refl,
      ),
    )
