-- ===== src/Lsa/Blocks.antt =====
-- The two blocks of update_lsas of lsa.cpp, by what they leave in the router.

use ospf_lite.Base.{
  ℕ, ◌+◌, ◌<◌, ◌≤◌, ◌≡◌, ◌⊎◌, refl, ◌∙◌, ap, true, List, [], ◌∷◌, ◌++◌, map, none, some, any,
  is_neg, inl, inr, Option-cases, Bool-cases, find_if-append, arith,
}
use ospf_lite.Base.Outcome.{done, Outcome-cases}
use ospf_lite.LinkState.{LsaHeader, LsaRouter, LsaNetwork, Lsdb}
use ospf_lite.LinkState.Header.{hton, lsa_header_cmp, names}
use ospf_lite.LinkState.Header.Order.{by_sequence, MoreRecent-lsa_header_cmp}
use ospf_lite.LinkState.Database.{
  find_router_lsa, find_network_lsa, remove_network_lsa, put_router_lsa,
}
use ospf_lite.LinkState.Wire.{store_network}
use ospf_lite.LinkState.Database.Lookup.{find_router_lsa-put_router_lsa}
use ospf_lite.Neighbor.{Neighbor}
use ospf_lite.Interface.{Interface, InterfaceState, is}
use ospf_lite.Area.{Router, area_interfaces}
use ospf_lite.Lsa.{
  make_link, is_transit, retransmit_to_full, generate_network_lsa, replace_own_router_lsa,
  replace_own_network_lsa, add_lsa, finish_lsa, update_network, count_sequence, Update,
}

pub names_self : (h : LsaHeader) → names h.link_state_id h.advertising_router h ≡ true
names_self h = ground arith

pub newer_wins :
    (a b : LsaHeader) → b.ls_seq_num < a.ls_seq_num → is_neg (lsa_header_cmp a b) ≡ true
newer_wins a b h = rw (MoreRecent-lsa_header_cmp a b (by_sequence h))

append-find :
    (lsa : LsaRouter) (db : Lsdb)
    → find_router_lsa lsa.header.link_state_id lsa.header.advertising_router db ≡ none
    → find_router_lsa lsa.header.link_state_id lsa.header.advertising_router
        (record db { router_lsas = db.router_lsas ++ lsa ∷ [] })
      ≡ some lsa
unfolding find_router_lsa
append-find lsa db e =
    find_if-append _ db.router_lsas (lsa ∷ []) e ∙ ground (arith, names_self lsa.header)

-- The LSA that the second block puts into the database is found there, if its sequence number is new.
pub replace_own_router_lsa-find :
    (lsa : LsaRouter) (db : Lsdb)
    → ((old : LsaRouter)
        → find_router_lsa lsa.header.link_state_id lsa.header.advertising_router db ≡ some old
        → old.header.ls_seq_num < lsa.header.ls_seq_num)
    → (find_router_lsa lsa.header.link_state_id lsa.header.advertising_router
          (replace_own_router_lsa lsa db).0
        ≡ some lsa)
      × ((replace_own_router_lsa lsa db).1 ≡ true)
unfolding replace_own_router_lsa
replace_own_router_lsa-find lsa db fresh =
    elim (Option-cases
      (find_router_lsa lsa.header.link_state_id lsa.header.advertising_router db)) [
        | inl e ↦ rw (e, replace_own_router_lsa) (append-find lsa db e, refl)
        | inr (old, e) ↦
            rw (e, replace_own_router_lsa)
              (rw (newer_wins lsa.header old.header (fresh old e)) (
                unfold put_router_lsa in
                    (find_router_lsa-put_router_lsa _ _ lsa db
                      ∙ ground (arith, names_self lsa.header)),
                refl,
              ))
      ]

transit_kept :
    (i : Interface) (h : LsaHeader) (ns : List Neighbor)
    → any (is_transit i) (retransmit_to_full h ns) ≡ any (is_transit i) ns
unfolding retransmit_to_full
transit_kept i h [] = refl
transit_kept i h (n ∷ ns) = ground (arith, transit_kept i h ns)

make_link_kept :
    (tos : ℕ) (i : Interface) (h : LsaHeader)
    → make_link tos (record i { neighbors = retransmit_to_full h i.neighbors }) ≡ make_link tos i
unfolding make_link
make_link_kept tos i h = ground (arith, transit_kept i h i.neighbors)

links_kept :
    (tos : ℕ) (h : LsaHeader) (before after : List Interface) (i : Interface)
    → map
        (make_link tos)
        (before ++ record i { neighbors = retransmit_to_full h i.neighbors } ∷ after)
      ≡ map (make_link tos) (before ++ i ∷ after)
links_kept tos h [] after i = ap (λ l. l ∷ map (make_link tos) after) (make_link_kept tos i h)
links_kept tos h (b ∷ before) after i = ap (◌∷◌ (make_link tos b)) (links_kept tos h before after i)

pub add_lsa-eq-done :
    (r : Router) (h : LsaHeader) (store : LsaHeader → List ℕ) (num : ℕ) (lsas : List ℕ) {u : Update}
    → add_lsa r h store num lsas ≡ done u
    → (bytes : List ℕ) × (finish_lsa store (hton h) r.interface.inf_trans_delay ≡ done bytes)
      × (u ≡ record {
        router = record r {
          interface = record (r.interface) {
            neighbors = retransmit_to_full h r.interface.neighbors;
          };
        };
        num = num + 1;
        lsas = lsas ++ bytes;
      })
unfolding add_lsa
add_lsa-eq-done r h store num lsas e =
    elim (Outcome-cases (finish_lsa store (hton h) r.interface.inf_trans_delay)) [
      | inr (fault, f) ↦ cc (rw (f, add_lsa) at e)
      | inl (bytes, f) ↦ (bytes, f, ground arith)
    ]

pub network_kept :
    (lsa : LsaNetwork) (db : Lsdb) → (replace_own_network_lsa lsa db).0.router_lsas ≡ db.router_lsas
unfolding replace_own_network_lsa remove_network_lsa
network_kept lsa db =
    elim (Option-cases
      (find_network_lsa lsa.header.link_state_id lsa.header.advertising_router db)) [
        | inl e ↦ rw (e, replace_own_network_lsa)
        | inr (old, e) ↦ rw (e, replace_own_network_lsa) (ground arith)
      ]

-- The router behind the first block of an interface that is DR.
abbrev pub counted_network : Router → Router
counted_network r = record r {
  config = count_sequence r.config;
  lsdb = (replace_own_network_lsa (generate_network_lsa r.config r.interface) r.lsdb).0;
}

-- The three ways through the first block.
pub update_network-eq-done :
    (r : Router) {u : Update}
    → update_network r ≡ done u
    → (u.router ≡ r)
      ⊎ (u.router ≡ counted_network r)
      ⊎ (u.router ≡ record (counted_network r) {
        interface = record (r.interface) {
          neighbors =
              retransmit_to_full
                (generate_network_lsa r.config r.interface).header
                r.interface.neighbors;
        };
      })
unfolding update_network
update_network-eq-done r {u} e = elim (Bool-cases (is r.interface.state InterfaceState.dr)) [
  | inr other ↦ inl (ground arith)
  | inl holder ↦
      elim (Bool-cases
        (replace_own_network_lsa (generate_network_lsa r.config r.interface) r.lsdb).1) [
          | inr silent ↦ inr (inl (ground arith))
          | inl flooding ↦
              let (_, _, made) =
                add_lsa-eq-done (counted_network r)
                  (generate_network_lsa r.config r.interface).header
                  (λ h. store_network h (generate_network_lsa r.config r.interface)) 0 [] {u = u}
                  (ground arith) in
              inr (inr (ap (λ (v : Update). v.router) made))
        ]
]

-- What the first block leaves to the second.
pub network_block :
    (tos : ℕ) (r : Router) {u : Update}
    → r.config.ls_sequence_cnt + 1 < 4294967296
    → update_network r ≡ done u
    → (u.router.lsdb.router_lsas ≡ r.lsdb.router_lsas)
      × (u.router.config.router_id ≡ r.config.router_id)
      × (r.config.ls_sequence_cnt ≤ u.router.config.ls_sequence_cnt)
      × (map (make_link tos) (area_interfaces u.router) ≡ map (make_link tos) (area_interfaces r))
network_block tos r {u} h e =
    let lsa = generate_network_lsa r.config r.interface in
    let kept = network_kept lsa r.lsdb in
    let links = links_kept tos lsa.header r.before r.after r.interface in
    elim (update_network-eq-done r e) [
      | inl made ↦ rw made (refl, refl, omega arith, refl)
      | inr (inl made) ↦ rw made (kept, refl, omega arith, refl)
      | inr (inr made) ↦ rw made (kept, refl, omega arith, links)
    ]
