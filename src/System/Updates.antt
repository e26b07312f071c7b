-- ===== src/System/Updates.antt =====
-- update_lsas of lsa.cpp and the events of neighbor.cpp that call it, and the state of the router.
use ospf_lite.Base.{
  arith, ℕ, is_neg, Bool-cases, Option-cases, inl, inr, leb, length, ◌+◌, ◌==◌, ◌≤◌,
}
use ospf_lite.Base.Outcome.{Ensures, Ensures-bind, Ensures-intro, Ensures-if, if-holds}
use ospf_lite.LinkState.{LsaHeader, LsaRouter, LsaNetwork, Lsdb}
use ospf_lite.LinkState.Header.{lsa_header_cmp}
use ospf_lite.LinkState.Database.{find_router_lsa, find_network_lsa, put_router_lsa}
use ospf_lite.LinkState.Database.Lookup.{
  IsUnique, add_router-IsUnique, add_network-IsUnique, remove_network_lsa-IsUnique,
  put_router_lsa-IsUnique,
}
use ospf_lite.LinkState.Wire.{store_router}
use ospf_lite.Neighbor.{NeighborState, Neighbor, is, rank}
use ospf_lite.Interface.{Interface}
use ospf_lite.Area.{Router, area_interfaces}
use ospf_lite.Lsa.{
  Update, update_network, update_router, add_lsa, update_lsas, send_update, replace_own_router_lsa,
  replace_own_network_lsa, retransmit_to_full, generate_network_lsa, generate_router_lsa,
  count_sequence,
}
use ospf_lite.Lsa.Blocks.{update_network-eq-done, counted_network, add_lsa-eq-done}
use ospf_lite.Lsa.Adjacency.{event_exchange_done, event_loading_done}
use ospf_lite.System.Neighbors.{IsFit, neighbors-IsFit, fit-IsConsistent, retransmit_to_full-IsFit}
use ospf_lite.System.Sound.{IsSound, emit-IsSound, interface-IsSound, with_neighbor-IsSound}

replace_own_network_lsa-IsUnique :
    (lsa : LsaNetwork) (db : Lsdb) → IsUnique db → IsUnique (replace_own_network_lsa lsa db).0
unfolding replace_own_network_lsa
replace_own_network_lsa-IsUnique lsa db u =
    elim (Option-cases
      (find_network_lsa lsa.header.link_state_id lsa.header.advertising_router db)) [
        | inl e ↦ rw (e, replace_own_network_lsa) (add_network-IsUnique lsa db e u)
        | inr (old, e) ↦ elim (Bool-cases (is_neg (lsa_header_cmp lsa.header old.header))) [
          | inl newer ↦
              rw (e, newer, replace_own_network_lsa) (remove_network_lsa-IsUnique _ _ db u)
          | inr other ↦ rw (e, other, replace_own_network_lsa) u
        ]
      ]

replace_own_router_lsa-IsUnique :
    (lsa : LsaRouter) (db : Lsdb) → IsUnique db → IsUnique (replace_own_router_lsa lsa db).0
unfolding replace_own_router_lsa
replace_own_router_lsa-IsUnique lsa db u =
    elim (Option-cases
      (find_router_lsa lsa.header.link_state_id lsa.header.advertising_router db)) [
        | inl e ↦ rw (e, replace_own_router_lsa) (add_router-IsUnique lsa db e u)
        | inr (old, e) ↦ elim (Bool-cases (is_neg (lsa_header_cmp lsa.header old.header))) [
          | inl newer ↦
              rw (e, newer, replace_own_router_lsa)
                (unfold put_router_lsa in put_router_lsa-IsUnique lsa db u)
          | inr other ↦ rw (e, other, replace_own_router_lsa) u
        ]
      ]

-- The counter of sequence numbers and the database change.
counted-IsSound :
    (r : Router) (db : Lsdb)
    → IsSound r
    → IsUnique db
    → IsSound (record r { config = count_sequence r.config; lsdb = db })
counted-IsSound r db s u = record { before = s.before; own = s.own; after = s.after; unique = u }

retransmitted-IsSound :
    (r : Router) (h : LsaHeader)
    → IsSound r
    → IsSound (record r {
      interface = record (r.interface) { neighbors = retransmit_to_full h r.interface.neighbors };
    })
retransmitted-IsSound r h s = interface-IsSound r _ s (
    fit-IsConsistent r.interface _ s.own (
      retransmit_to_full-IsFit r.interface h r.interface.neighbors
        (neighbors-IsFit r.interface s.own)))

network-IsSound :
    (r : Router) → IsSound r → Ensures (λ (u : Update). IsSound u.router) (update_network r)
network-IsSound r s = Ensures-intro _ (update_network r) λ u e.
    (let counted = counted-IsSound r _ s (
        replace_own_network_lsa-IsUnique (generate_network_lsa r.config r.interface) r.lsdb
          s.unique) in
      elim (update_network-eq-done r e) [
        | inl made ↦ rw made s
        | inr (inl made) ↦ rw made counted
        | inr (inr made) ↦ rw made (
            retransmitted-IsSound (counted_network r)
              (generate_network_lsa r.config r.interface).header counted)
      ])

-- The router behind the second block.
abbrev counted_router : LsaRouter → Router → Router
counted_router lsa r = record r {
  config = count_sequence r.config;
  lsdb = (replace_own_router_lsa lsa r.lsdb).0;
}

router-IsSound :
    (tos : ℕ) (u : Update)
    → IsSound u.router
    → Ensures (λ (v : Update). IsSound v.router) (update_router tos u)
unfolding update_router
router-IsSound tos u s =
    let lsa : LsaRouter = generate_router_lsa tos u.router.config (area_interfaces u.router) in
    let counted =
      counted-IsSound u.router (counted_router lsa u.router).lsdb s
        (replace_own_router_lsa-IsUnique lsa u.router.lsdb s.unique) in
    elim (Bool-cases (replace_own_router_lsa lsa u.router.lsdb).1) [
      | inr silent ↦ rw (silent, update_router) counted
      | inl flooding ↦
          rw (flooding, update_router)
            (Ensures-intro _
              (add_lsa (counted_router lsa u.router) lsa.header (λ h. store_router h lsa) u.num
                u.lsas)
              λ v e.
                (let (_, _, made) =
                    add_lsa-eq-done (counted_router lsa u.router) lsa.header
                      (λ h. store_router h lsa) u.num u.lsas e in
                  rw made (retransmitted-IsSound (counted_router lsa u.router) lsa.header counted)))
    ]

send_update-IsSound : (u : Update) → IsSound u.router → Ensures IsSound (send_update u)
unfolding send_update
send_update-IsSound u s =
    Ensures-if IsSound (leb (4 + length u.lsas) 1024) _ _
      (λ fits. if-holds IsSound (u.num == 0) s (emit-IsSound _ u.router s)) (λ long. tt)

update_lsas-IsSound : (tos : ℕ) (r : Router) → IsSound r → Ensures IsSound (update_lsas tos r)
unfolding update_lsas
update_lsas-IsSound tos r s =
    Ensures-bind _ IsSound (update_network r) _ (network-IsSound r s) λ u su.
      Ensures-bind _ IsSound (update_router tos u) _ (router-IsSound tos u su)
        λ v. send_update-IsSound v

-- A neighbor that is in Exchange or beyond is fit in every state from there on.
raised-IsFit :
    (i : Interface) (n : Neighbor) (s : NeighborState)
    → IsFit i n
    → 5 ≤ rank n.state
    → 5 ≤ rank s
    → IsFit i (record n { state = s })
raised-IsFit i n s fit h k = ground (arith, fit)

pub event_exchange_done-IsSound :
    (tos : ℕ) (n : Neighbor) (r : Router)
    → IsSound r
    → IsFit r.interface n
    → Ensures IsSound (event_exchange_done tos n r)
unfolding event_exchange_done
event_exchange_done-IsSound tos n r s fit =
    Ensures-if IsSound (is n.state NeighborState.exchange) _ _
      (λ there. update_lsas-IsSound tos _ (
        with_neighbor-IsSound r _ s
          (raised-IsFit r.interface n NeighborState.full fit (ground arith) (omega arith))))
      (λ other. s)

event_loading_done-IsSound :
    (tos : ℕ) (n : Neighbor) (r : Router)
    → IsSound r
    → IsFit r.interface n
    → Ensures IsSound (event_loading_done tos n r)
unfolding event_loading_done
event_loading_done-IsSound tos n r s fit =
    Ensures-if IsSound (is n.state NeighborState.loading) _ _
      (λ there. update_lsas-IsSound tos _ (
        with_neighbor-IsSound r _ s
          (raised-IsFit r.interface n NeighborState.full fit (ground arith) (omega arith))))
      (λ other. s)
