-- ===== src/Lsa/Fits.antt =====
-- update_lsas of lsa.cpp: the buffer of an update.
use ospf_lite.Base.{
  ℕ, ◌+◌, ◌*◌, ◌≤◌, ◌<◌, ◌≡◌, refl, true, List, [], ◌∷◌, ◌++◌, map, length, length-append, htons,
  htons-htons, leb, Bool-cases, inl, inr, arith,
}
use ospf_lite.Base.Outcome.{Outcome, done}
use ospf_lite.LinkState.{LsaHeader, LsaRouterLink, LsaRouter, LsaNetwork}
use ospf_lite.LinkState.Header.{hton}
use ospf_lite.LinkState.Wire.{
  store_header, store_link, store_links, store_router, store_ids, store_network,
}
use ospf_lite.Checksum.Fields.{lsa_checksum-some}
use ospf_lite.Interface.{Interface, InterfaceState, is}
use ospf_lite.Area.{Router, area_interfaces}
use ospf_lite.Lsa.{
  make_link, full_ids, generate_router_lsa, generate_network_lsa, replace_own_router_lsa,
  replace_own_network_lsa, finish_lsa, Update, add_lsa, update_network, update_router, send_update,
  update_lsas,
}

store_links-length : (links : List LsaRouterLink) → length (store_links links) ≡ 12 * length links
unfolding store_links store_link
store_links-length [] = refl
store_links-length (link ∷ links) = ground (arith, store_links-length links)

store_ids-length : (ids : List ℕ) → length (store_ids ids) ≡ 4 * length ids
unfolding store_ids
store_ids-length [] = refl
store_ids-length (id ∷ ids) = ground (arith, store_ids-length ids)

store_router-length :
    (h : LsaHeader) (lsa : LsaRouter) → length (store_router h lsa) ≡ 24 + 12 * length lsa.links
unfolding store_router store_header
store_router-length h lsa = omega (arith, store_links-length lsa.links)

store_network-length :
    (h : LsaHeader) (lsa : LsaNetwork)
    → length (store_network h lsa) ≡ 24 + 4 * length lsa.attached_routers
unfolding store_network store_header
store_network-length h lsa = omega (arith, store_ids-length lsa.attached_routers)

map-length : (tos : ℕ) (is : List Interface) → length (map (make_link tos) is) ≡ length is
map-length tos [] = refl
map-length tos (i ∷ is) = omega (arith, map-length tos is)

-- An LSA whose length field is right can be finished.
finish_lsa-done :
    (store : LsaHeader → List ℕ) (h : LsaHeader) (delay size : ℕ)
    → ((k : LsaHeader) → length (store k) ≡ size)
    → h.length ≡ size
    → 18 ≤ size
    → size < 65536
    → (bytes : List ℕ) × (finish_lsa store (hton h) delay ≡ done bytes) × (length bytes ≡ size)
unfolding finish_lsa hton
finish_lsa-done store h delay size sized len long small =
    let read : htons (hton h).length ≡ size = ground (arith, htons-htons h.length) in
    let (c, e) =
      lsa_checksum-some (store (hton h)) (htons (hton h).length) (omega (arith, read))
        (omega (arith, read, sized (hton h))) in
    rw (e, finish_lsa) (_, refl, sized _)

area-length :
    (before after : List Interface) (i j : Interface)
    → length (before ++ j ∷ after) ≡ length (before ++ i ∷ after)
area-length before after i j =
    omega (arith, length-append before (j ∷ after), length-append before (i ∷ after))

-- What a block of `update_lsas` leaves: at most so many bytes, and an area of as many interfaces.
abbrev Room : Router → ℕ → Outcome Update → Type 0
Room r size o =
    (u : Update) × (o ≡ done u)
    × (length u.lsas ≤ size)
    × (length (area_interfaces u.router) ≡ length (area_interfaces r))

add_lsa-done :
    (r : Router) (h : LsaHeader) (store : LsaHeader → List ℕ) (num : ℕ) (lsas : List ℕ)
    (size room : ℕ)
    → ((k : LsaHeader) → length (store k) ≡ size)
    → h.length ≡ size
    → 18 ≤ size
    → size < 65536
    → length lsas + size ≤ room
    → Room r room (add_lsa r h store num lsas)
unfolding add_lsa
add_lsa-done r h store num lsas size room sized len long small fits =
    let (bytes, e, written) =
      finish_lsa-done store h r.interface.inf_trans_delay size sized len long small in
    rw (e, add_lsa)
      (_, refl, omega (arith, length-append lsas bytes), area-length r.before r.after r.interface _)

update_network-done :
    (r : Router)
    → 24 + 4 * length (full_ids r.interface.neighbors) < 65536
    → Room r (24 + 4 * length (full_ids r.interface.neighbors)) (update_network r)
unfolding update_network generate_network_lsa
update_network-done r small =
    let lsa : LsaNetwork = generate_network_lsa r.config r.interface in
    elim (Bool-cases (is r.interface.state InterfaceState.dr)) [
      | inr other ↦ rw (other, update_network) (_, refl, omega arith, refl)
      | inl holder ↦ elim (Bool-cases (replace_own_network_lsa lsa r.lsdb).1) [
        | inr silent ↦ rw (holder, silent, update_network) (_, refl, omega arith, refl)
        | inl flooding ↦
            rw (holder, flooding, update_network)
              (add_lsa-done _ lsa.header (λ h. store_network h lsa) 0 []
                (24 + 4 * length (full_ids r.interface.neighbors)) _
                (λ k. store_network-length k lsa) (omega arith) (omega arith) small (omega arith))
      ]
    ]

update_router-done :
    (tos : ℕ) (u : Update)
    → 24 + 12 * length (area_interfaces u.router) < 65536
    → Room u.router
        (length u.lsas + 24 + 12 * length (area_interfaces u.router))
        (update_router tos u)
unfolding update_router generate_router_lsa
update_router-done tos u small =
    let lsa : LsaRouter = generate_router_lsa tos u.router.config (area_interfaces u.router) in
    let links = map-length tos (area_interfaces u.router) in
    elim (Bool-cases (replace_own_router_lsa lsa u.router.lsdb).1) [
      | inr silent ↦ rw (silent, update_router) (_, refl, omega arith, refl)
      | inl flooding ↦
          rw (flooding, update_router)
            (add_lsa-done _ lsa.header (λ h. store_router h lsa) u.num u.lsas
              (24 + 12 * length (area_interfaces u.router)) _
              (λ k. omega (arith, store_router-length k lsa, links)) (omega arith) (omega arith)
              small (omega arith))
    ]

send_update-done :
    (u : Update) → 4 + length u.lsas ≤ 1024 → (r' : Router) × (send_update u ≡ done r')
unfolding send_update
send_update-done u fits =
    let test : leb (4 + length u.lsas) 1024 ≡ true = ground arith in
    rw (test, send_update) (_, refl)

-- If 52 plus four for each full neighbor plus twelve for each interface of the area is at most
-- 1024, update_lsas returns: every checksum is taken within its LSA, and the update fits its
-- buffer of 1024 bytes.
pub update_lsas-done :
    (tos : ℕ) (r : Router)
    → 52 + 4 * length (full_ids r.interface.neighbors) + 12 * length (area_interfaces r) ≤ 1024
    → (r' : Router) × (update_lsas tos r ≡ done r')
unfolding update_lsas
update_lsas-done tos r fits =
    let (u, e, first, same) = update_network-done r (omega arith) in
    let (v, f, second, _) = update_router-done tos u (omega (arith, same)) in
    let (r', g) = send_update-done v (omega (arith, first, second, same)) in
    rw (e, update_lsas, f, g) (r', refl)
