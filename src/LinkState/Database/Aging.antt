-- ===== src/LinkState/Database/Aging.antt =====
-- The rounds of lsdb_aging_thread of link_state.cpp and the ages in the database.
use Prim.Native.Nat.{min}
use ospf_lite.Base.{ℕ, zero, suc, ◌+◌, ◌≤◌, ◌≡◌, refl, sym, ◌∙◌, map, List, [], ◌∷◌, All, arith}
use ospf_lite.LinkState.{LsaHeader, LsaRouter, LsaNetwork, Lsdb}
use ospf_lite.LinkState.Database.{age_header, age_router, age_network, aging_round}

-- Rounds of the aging loop, one a second.
unfoldable pub aging_rounds : ℕ → Lsdb → Lsdb
unfolding aging_round
aging_rounds zero db = db
aging_rounds (suc n) db = aging_rounds n (aging_round db)

-- The header `n` seconds later, if the count went on and stopped at 255.
abbrev pub older : ℕ → LsaHeader → LsaHeader
older n h = record h { ls_age = min 0xff (h.ls_age + n) }

abbrev pub older_router : ℕ → LsaRouter → LsaRouter
older_router n lsa = record lsa { header = older n lsa.header }

abbrev pub older_network : ℕ → LsaNetwork → LsaNetwork
older_network n lsa = record lsa { header = older n lsa.header }

-- No age is above 255, at which the loop stops counting.
abbrev pub IsYoung : Lsdb → Type 0
IsYoung db =
    All (λ lsa. lsa.header.ls_age ≤ 0xff) db.router_lsas
    × All (λ lsa. lsa.header.ls_age ≤ 0xff) db.network_lsas

older-zero : (h : LsaHeader) → h.ls_age ≤ 0xff → older 0 h ≡ h
older-zero h y = ground arith

older-age_header :
    (n : ℕ) (h : LsaHeader) → h.ls_age ≤ 0xff → older n (age_header h) ≡ older (suc n) h
older-age_header n h y = ground arith

age_header-le : (h : LsaHeader) → h.ls_age ≤ 0xff → (age_header h).ls_age ≤ 0xff
age_header-le h y = ground arith

routers_now :
    (ls : List LsaRouter) → All (λ lsa. lsa.header.ls_age ≤ 0xff) ls → map (older_router 0) ls ≡ ls
routers_now [] y = refl
routers_now (l ∷ ls) y = ground (arith, older-zero l.header y.0, routers_now ls y.1)

networks_now :
    (ls : List LsaNetwork)
    → All (λ lsa. lsa.header.ls_age ≤ 0xff) ls
    → map (older_network 0) ls ≡ ls
networks_now [] y = refl
networks_now (l ∷ ls) y = ground (arith, older-zero l.header y.0, networks_now ls y.1)

routers_next :
    (n : ℕ) (ls : List LsaRouter)
    → All (λ lsa. lsa.header.ls_age ≤ 0xff) ls
    → (map (older_router n) (map age_router ls) ≡ map (older_router (suc n)) ls)
      × All (λ lsa. lsa.header.ls_age ≤ 0xff) (map age_router ls)
routers_next n [] y = (refl, tt)
routers_next n (l ∷ ls) y =
    let rest = routers_next n ls y.1 in
    (ground (arith, older-age_header n l.header y.0, rest.0), (age_header-le l.header y.0, rest.1))

networks_next :
    (n : ℕ) (ls : List LsaNetwork)
    → All (λ lsa. lsa.header.ls_age ≤ 0xff) ls
    → (map (older_network n) (map age_network ls) ≡ map (older_network (suc n)) ls)
      × All (λ lsa. lsa.header.ls_age ≤ 0xff) (map age_network ls)
networks_next n [] y = (refl, tt)
networks_next n (l ∷ ls) y =
    let rest = networks_next n ls y.1 in
    (ground (arith, older-age_header n l.header y.0, rest.0), (age_header-le l.header y.0, rest.1))

-- If no age in the database is above 255, then after n rounds of the aging loop every age is the
-- smaller of 255 and what it was plus n, and nothing else has changed.
pub aging_rounds-older :
    (n : ℕ) (db : Lsdb)
    → IsYoung db
    → ((aging_rounds n db).router_lsas ≡ map (older_router n) db.router_lsas)
      × ((aging_rounds n db).network_lsas ≡ map (older_network n) db.network_lsas)
unfolding aging_rounds
aging_rounds-older zero db y =
    (sym (routers_now db.router_lsas y.0), sym (networks_now db.network_lsas y.1))
aging_rounds-older (suc n) db y =
    let rs = routers_next n db.router_lsas y.0 in
    let ns = networks_next n db.network_lsas y.1 in
    let rest = aging_rounds-older n (aging_round db) (rs.1, ns.1) in (rest.0 ∙ rs.0, rest.1 ∙ ns.0)
