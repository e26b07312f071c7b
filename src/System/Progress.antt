-- ===== src/System/Progress.antt =====
-- Every handler of recv_ospf_packet_thread in ospf.cpp, update_lsas of lsa.cpp among what they call,
-- and the router LSAs of the database.
use ospf_lite.Base.{
  ℕ, ◌≡◌, refl, is_neg, List, [], ◌∷◌, ◌++◌, Bool, true, false, if◌then◌else◌, find_if, none, some,
  not, ◌&&◌, ◌==◌, Option-cases, Bool-cases, inl, inr,
}
use ospf_lite.Base.Outcome.{
  done, crash, out_of_bounds, Ensures, Ensures-bind, Ensures-intro, Ensures-imp, Ensures-any,
  Ensures-if, Ensures-demand,
}
use ospf_lite.LinkState.{LsaRouter, Lsdb}
use ospf_lite.LinkState.Header.{lsa_header_cmp}
use ospf_lite.LinkState.Wire.{load32}
use ospf_lite.LinkState.Database.{find_router_lsa, put_router_lsa}
use ospf_lite.Neighbor.{NeighborState, Neighbor, is}
use ospf_lite.Interface.{find_neighbor}
use ospf_lite.Area.{Router, emit}
use ospf_lite.Lsa.{
  Update, update_network, update_router, update_lsas, send_update, replace_own_router_lsa,
  generate_network_lsa,
}
use ospf_lite.Lsa.Installed.{second_lsa, router_block, send_block}
use ospf_lite.Lsa.Blocks.{network_kept, update_network-eq-done}
use ospf_lite.Lsa.Adjacency.{with_neighbor, event_exchange_done, is_empty}
use ospf_lite.Receive.{Result, accepts, run_timers}
use ospf_lite.Exchange.{
  OspfDd, answer, process, dd_headers, push_requests, check_types, is_duplicate, note_dd, dispatch,
  recv_dd, Dispatched,
}
use ospf_lite.Acknowledge.{recv_lsack}
use ospf_lite.Effect.{Effect}
use ospf_lite.Exchange.Reply.{confirm}
use ospf_lite.Intake.Replaces.{Advances, put_recent, Advances-same, Advances-then}
use ospf_lite.Intake.Advances.{recv_lsu-Advances}
use ospf_lite.Frame.{parse_packet, parse_hello, parse_dd, Packet}
use ospf_lite.System.Exchanges.{led}
use ospf_lite.System.{
  Surroundings, on_interface, handle_hello, handle_dd, handle_lsr, handle_lsu, handle_lsack, handle,
  receive, round,
}

-- What a step does to the router LSAs.
abbrev pub Leads : Router → Router → Type 0
Leads r r' = Advances r.lsdb r'.lsdb

pub stays : (r : Router) → Leads r r
stays r = Advances-same r.lsdb r.lsdb refl

-- What is found in front of added elements is found still.
find_if-kept {ℓ} :
    {A : Type ℓ} (p : A → Bool) (xs ys : List A) {x : A}
    → find_if p xs ≡ some x
    → find_if p (xs ++ ys) ≡ some x
find_if-kept p [] ys e = cc e
find_if-kept p (x ∷ xs) ys e = elim (Bool-cases (p x)) [
  | inl named ↦ rw named (rw named at e)
  | inr other ↦ rw other (find_if-kept p xs ys (rw other at e))
]

replace_own_router_lsa-Advances :
    (lsa : LsaRouter) (db : Lsdb) → Advances db (replace_own_router_lsa lsa db).0
unfolding replace_own_router_lsa find_router_lsa
replace_own_router_lsa-Advances lsa db =
    elim (Option-cases
      (find_router_lsa lsa.header.link_state_id lsa.header.advertising_router db)) [
        | inl e ↦
            rw (e, replace_own_router_lsa)
              λ id router old f. (old, find_if-kept _ db.router_lsas (lsa ∷ []) f, inl refl)
        | inr (old, e) ↦ elim (Bool-cases (is_neg (lsa_header_cmp lsa.header old.header))) [
          | inl newer ↦
              rw (e, newer, replace_own_router_lsa)
                (unfold put_router_lsa in put_recent lsa db λ old' e'. cc (e, e', newer))
          | inr other ↦ rw (e, other, replace_own_router_lsa) (Advances-same db db refl)
        ]
      ]

network_block-Advances : (r : Router) {u : Update} → update_network r ≡ done u → Leads r u.router
network_block-Advances r {u} e =
    let kept = network_kept (generate_network_lsa r.config r.interface) r.lsdb in
    elim (update_network-eq-done r e) [
      | inl made ↦ rw made (stays r)
      | inr (inl made) ↦ rw made (Advances-same r.lsdb _ kept)
      | inr (inr made) ↦ rw made (Advances-same r.lsdb _ kept)
    ]

update_lsas-Advances : (tos : ℕ) (r : Router) → Ensures (Leads r) (update_lsas tos r)
unfolding update_lsas
update_lsas-Advances tos r =
    Ensures-bind (λ u. Leads r u.router) (Leads r) (update_network r) _
      (Ensures-intro _ (update_network r) λ u e. network_block-Advances r e)
      λ u first.
        Ensures-bind (λ v. Leads r v.router) (Leads r) (update_router tos u) _
          (Ensures-intro _ (update_router tos u) λ v e.
            Advances-then r.lsdb u.router.lsdb v.router.lsdb first (
              rw (router_block tos u e)
                (replace_own_router_lsa-Advances (second_lsa tos u) u.router.lsdb)))
          λ v second. Ensures-intro _ (send_update v) λ r' e. rw (send_block v e) second

event_exchange_done-Advances :
    (tos : ℕ) (n : Neighbor) (r : Router) → Ensures (Leads r) (event_exchange_done tos n r)
unfolding event_exchange_done
event_exchange_done-Advances tos n r =
    Ensures-if (Leads r) (is n.state NeighborState.exchange) _ _
      (λ there.
        update_lsas-Advances tos (with_neighbor (record n { state = NeighborState.full }) r))
      (λ other. stays r)

answer-Advances :
    (tos unset : ℕ) (dd : OspfDd) (n : Neighbor) (r : Router)
    → Ensures (Leads r) (answer tos unset dd n r)
unfolding answer
answer-Advances tos unset dd n r =
    Ensures-bind (Leads r) (Leads r) _ _
      (Ensures-if (Leads r) (not dd.b_m && is_empty n.database_summary_list) _ _
        (λ last. event_exchange_done-Advances tos n r) (λ more. stays r))
      λ r' ahead. (elim (Option-cases (find_neighbor n.ip r'.interface)) [
        | inl e ↦ rw e ahead
        | inr (m, e) ↦ rw e ahead
      ])

confirmed-Advances :
    (tos unset : ℕ) (dd : OspfDd) (n : Neighbor) (effects : List Effect) (r : Router)
    → Ensures (Leads r) (elim (confirm n) [
      | none ↦ crash out_of_bounds
      | some m ↦ answer tos unset dd m (emit effects (with_neighbor m r))
    ])
confirmed-Advances tos unset dd n effects r = elim (Option-cases (confirm n)) [
  | inl e ↦ rw e tt
  | inr (m, e) ↦ rw e (answer-Advances tos unset dd m (emit effects (with_neighbor m r)))
]

process-Advances :
    (tos unset packet_length : ℕ) (dd : OspfDd) (bytes : List ℕ) (n : Neighbor) (r : Router)
    → Ensures (Leads r) (process tos unset packet_length dd bytes n r)
unfolding process
process-Advances tos unset packet_length dd bytes n r =
    elim (Option-cases (dd_headers packet_length bytes)) [
      | inl e ↦ rw (e, process) tt
      | inr (hs, e) ↦
          rw (e, process)
            (confirmed-Advances tos unset dd
              (record ((check_types hs (led dd n)).0) {
                link_state_request_list =
                    push_requests r.lsdb hs (check_types hs (led dd n)).0.link_state_request_list;
              })
              (check_types hs (led dd n)).1 r)
    ]

recv_dd-Advances :
    (tos unset src packet_length : ℕ) (dd : OspfDd) (bytes : List ℕ) (r : Router)
    → Ensures (Leads r) (recv_dd tos unset src packet_length dd bytes r)
unfolding recv_dd
recv_dd-Advances tos unset src packet_length dd bytes r =
    elim (Option-cases (find_neighbor src r.interface)) [
      | inl e ↦ rw (e, recv_dd) (stays r)
      | inr (n, e) ↦
          rw (e, recv_dd)
            (treated (dispatch r.config r.lsdb r.interface dd (is_duplicate dd n) (note_dd dd n)))
    ]
  where
    treated :
        (out : Dispatched)
        → Ensures (Leads r) (
            if out.2
            then process tos unset packet_length dd bytes out.0 (emit out.1 (with_neighbor out.0 r))
            else done (emit out.1 (with_neighbor out.0 r)))
    treated (m, effects, true) =
        process-Advances tos unset packet_length dd bytes m (emit effects (with_neighbor m r))
    treated (m, effects, false) = stays r

on_interface-Advances : (result : Result) (r : Router) → Ensures (Leads r) (on_interface result r)
on_interface-Advances (done step) r = stays r
on_interface-Advances (crash fault) r = tt

handle_lsack-Advances : (p : Packet) (r : Router) → Ensures (Leads r) (handle_lsack p r)
unfolding handle_lsack
handle_lsack-Advances p r =
    Ensures-bind (λ i. Unit {0}) (Leads r) (recv_lsack _ _ p.body r.interface) _
      (Ensures-any (recv_lsack _ _ p.body r.interface)) λ i any_i. stays r

handle-Advances : (s : Surroundings) (p : Packet) (r : Router) → Ensures (Leads r) (handle s p r)
unfolding handle handle_hello handle_dd handle_lsr handle_lsu
handle-Advances s p r =
    Ensures-if (Leads r) (p.ospf_header.type == 1) _ _
      (λ hello. Ensures-demand (Leads r) (parse_hello p.body) _ λ _ _. on_interface-Advances _ r)
      λ _.
        Ensures-if (Leads r) (p.ospf_header.type == 2) _ _
          (λ dd.
            Ensures-demand (Leads r) (parse_dd p.body) _
              λ body _. recv_dd-Advances s.tos s.unset _ _ body.0 body.1 r)
          λ _.
            Ensures-if (Leads r) (p.ospf_header.type == 3) _ _ (λ lsr. on_interface-Advances _ r)
              λ _.
                Ensures-if (Leads r) (p.ospf_header.type == 4) _ _
                  (λ lsu.
                    Ensures-demand (Leads r) (load32 p.body) _
                      λ num _. recv_lsu-Advances s.unset _ num.0 num.1 r)
                  λ _.
                    Ensures-if (Leads r) (p.ospf_header.type == 5) _ _
                      (λ lsack. handle_lsack-Advances p r) (λ other. stays r)

pub round-Advances :
    (p_proto : ℕ) (s : Surroundings) (packet : List ℕ) (r : Router)
    → Ensures (Leads r) (round p_proto s packet r)
unfolding round receive
round-Advances p_proto s packet r =
    Ensures-bind (Leads r) (Leads r) _ _
      (on_interface-Advances (run_timers r.config s.now r.interface) r)
      λ r' ahead.
        Ensures-imp (Leads r') (Leads r) (receive p_proto s packet r')
          (λ r'' further. Advances-then r.lsdb r'.lsdb r''.lsdb ahead further)
          (Ensures-demand (Leads r') (parse_packet packet) _ λ p e.
            Ensures-if (Leads r')
              (accepts p_proto r'.area_id r'.interface p.ip_header p.ospf_header) _ _
              (λ accepted. handle-Advances s p r') (λ refused. stays r'))
