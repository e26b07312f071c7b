-- ===== src/Lsa/Installed.antt =====
-- update_lsas of lsa.cpp and the LSAs of the router in the database.
use mathlib.Core.Path.{subst₂}
use ospf_lite.Base.{
  ℕ, ◌+◌, ◌<◌, ◌≤◌, ◌≡◌, refl, ◌∙◌, ap, sym, map, none, some, inl, inr, Bool-cases, arith,
}
use ospf_lite.Base.Outcome.{done, Outcome-cases}
use ospf_lite.LinkState.{LsaRouter, LsaNetwork, Lsdb}
use ospf_lite.LinkState.Database.{find_router_lsa, find_network_lsa}
use ospf_lite.LinkState.Wire.{store_router}
use ospf_lite.LinkState.Database.Lookup.{find_network_lsa-remove_network_lsa}
use ospf_lite.Area.{Router, area_interfaces}
use ospf_lite.Lsa.{
  make_link, generate_router_lsa, replace_own_router_lsa, replace_own_network_lsa, update_network,
  count_sequence, update_router, update_lsas, send_update, Update,
}
use ospf_lite.Lsa.Blocks.{newer_wins, replace_own_router_lsa-find, add_lsa-eq-done, network_block}

-- Every LSA of the router's own in the database has a sequence number that it has used.
abbrev pub OwnUsed : Router → Type 0
OwnUsed r =
    (old : LsaRouter)
    → find_router_lsa r.config.router_id r.config.router_id r.lsdb ≡ some old
    → old.header.ls_seq_num < r.config.ls_sequence_cnt

find_same :
    (id router : ℕ) (db db' : Lsdb)
    → db.router_lsas ≡ db'.router_lsas
    → find_router_lsa id router db ≡ find_router_lsa id router db'
unfolding find_router_lsa
find_same id router db db' e = rw e

abbrev pub second_lsa : ℕ → Update → LsaRouter
second_lsa tos u = generate_router_lsa tos u.router.config (area_interfaces u.router)

pub router_block :
    (tos : ℕ) (u : Update) {v : Update}
    → update_router tos u ≡ done v
    → v.router.lsdb ≡ (replace_own_router_lsa (second_lsa tos u) u.router.lsdb).0
unfolding update_router
router_block tos u {v} e =
    elim (Bool-cases (replace_own_router_lsa (second_lsa tos u) u.router.lsdb).1) [
      | inr silent ↦ ground arith
      | inl flooding ↦
          let (_, _, made) =
            add_lsa-eq-done
              (record (u.router) {
                config = count_sequence u.router.config;
                lsdb = (replace_own_router_lsa (second_lsa tos u) u.router.lsdb).0;
              })
              (second_lsa tos u).header (λ h. store_router h (second_lsa tos u)) u.num u.lsas
              {u = v} (ground arith) in
          ap (λ (w : Update). w.router.lsdb) made
    ]

pub send_block : (v : Update) {r' : Router} → send_update v ≡ done r' → r'.lsdb ≡ v.router.lsdb
unfolding send_update
send_block v e = ground arith

second_lsa-facts :
    (tos : ℕ) (u : Update)
    → ((second_lsa tos u).header.link_state_id ≡ u.router.config.router_id)
      × ((second_lsa tos u).header.advertising_router ≡ u.router.config.router_id)
      × ((second_lsa tos u).header.ls_seq_num ≡ u.router.config.ls_sequence_cnt)
      × ((second_lsa tos u).links ≡ map (make_link tos) (area_interfaces u.router))
unfolding generate_router_lsa
second_lsa-facts tos u = (refl, refl, refl, refl)

second_lsa-find :
    (tos : ℕ) (r : Router) (u : Update)
    → OwnUsed r
    → u.router.lsdb.router_lsas ≡ r.lsdb.router_lsas
    → u.router.config.router_id ≡ r.config.router_id
    → r.config.ls_sequence_cnt ≤ u.router.config.ls_sequence_cnt
    → find_router_lsa r.config.router_id r.config.router_id
        (replace_own_router_lsa (second_lsa tos u) u.router.lsdb).0
      ≡ some (second_lsa tos u)
second_lsa-find tos r u used kept id_kept counted =
    let facts = second_lsa-facts tos u in
    let id : (second_lsa tos u).header.link_state_id ≡ r.config.router_id = facts.0 ∙ id_kept in
    let router : (second_lsa tos u).header.advertising_router ≡ r.config.router_id =
      facts.1 ∙ id_kept in
    let before_and_now =
      find_same r.config.router_id r.config.router_id u.router.lsdb r.lsdb kept in
    let found = replace_own_router_lsa-find (second_lsa tos u) u.router.lsdb λ old h.
      (let h' : find_router_lsa r.config.router_id r.config.router_id r.lsdb ≡ some old =
          sym before_and_now
          ∙ subst₂ (λ a b. find_router_lsa a b u.router.lsdb ≡ some old) id router h in
        omega (arith, used old h', facts.2)) in
    subst₂
      (λ a b.
        find_router_lsa a b (replace_own_router_lsa (second_lsa tos u) u.router.lsdb).0
        ≡ some (second_lsa tos u))
      id router found.0

pub update_lsas-find_router_lsa :
    (tos : ℕ) (r : Router) {r' : Router}
    → OwnUsed r
    → r.config.ls_sequence_cnt + 2 < 4294967296
    → update_lsas tos r ≡ done r'
    → (lsa : LsaRouter) × (find_router_lsa r.config.router_id r.config.router_id r'.lsdb ≡ some lsa)
      × (lsa.links ≡ map (make_link tos) (area_interfaces r))
      × (r.config.ls_sequence_cnt ≤ lsa.header.ls_seq_num)
unfolding update_lsas
update_lsas-find_router_lsa tos r {r'} used room e = elim (Outcome-cases (update_network r)) [
  | inr (fault, f) ↦ cc (rw (f, update_lsas) at e)
  | inl (u, f) ↦ elim (Outcome-cases (update_router tos u)) [
    | inr (fault, g) ↦ cc (rw (f, g, update_lsas) at e)
    | inl (v, g) ↦
        let sent : send_update v ≡ done r' = rw (f, g, update_lsas) at e in
        let (kept, id_kept, counted, links) = network_block tos r (omega arith) f in
        let facts = second_lsa-facts tos u in
        let installed = router_block tos u g in
        (
          second_lsa tos u,
          rw (send_block v sent, installed) (second_lsa-find tos r u used kept id_kept counted),
          facts.3 ∙ links,
          omega (arith, facts.2),
        )
  ]
]

-- If the database holds a network LSA of the same name with a smaller sequence number, then after
-- the first block of update_lsas the search for that name finds nothing: the old instance is
-- removed and the new one is not stored.
pub replace_own_network_lsa-lost :
    (lsa old : LsaNetwork) (db : Lsdb)
    → find_network_lsa lsa.header.link_state_id lsa.header.advertising_router db ≡ some old
    → old.header.ls_seq_num < lsa.header.ls_seq_num
    → find_network_lsa lsa.header.link_state_id lsa.header.advertising_router
        (replace_own_network_lsa lsa db).0
      ≡ none
unfolding replace_own_network_lsa
replace_own_network_lsa-lost lsa old db e h =
    rw (e, replace_own_network_lsa)
      (rw (newer_wins lsa.header old.header h) (
        find_network_lsa-remove_network_lsa _ _ lsa.header.link_state_id
          lsa.header.advertising_router db
        ∙ ground arith))
