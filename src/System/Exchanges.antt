-- ===== src/System/Exchanges.antt =====
-- The DD handler of recv_ospf_packet_thread in ospf.cpp, and the state of the router.
use ospf_lite.Base.{
  ℕ, ◌≡◌, ◌≤◌, refl, Bool, true, not, ◌||◌, ◌&&◌, List, [], ◌∷◌, All, none, some, htonl, ltb,
  Option-cases, Bool-cases, inl, inr, arith, if◌then◌else◌,
}
use ospf_lite.Base.Outcome.{crash, out_of_bounds, Ensures, Ensures-bind, Ensures-if}
use ospf_lite.Config.{GlobalConfig}
use ospf_lite.Effect.{Effect}
use ospf_lite.LinkState.{LsaHeader, Lsdb}
use ospf_lite.Neighbor.{Neighbor, rank}
use ospf_lite.Neighbor.Events.{event_2way_received}
use ospf_lite.Neighbor.Events.Calls.{apply, apply-ip, two_way_received}
use ospf_lite.Interface.{Interface, find_neighbor}
use ospf_lite.Area.{Router, emit}
use ospf_lite.Lsa.Adjacency.{with_neighbor, is_empty}
use ospf_lite.Exchange.{
  OspfDd, is_duplicate, note_dd, negotiate, dispatch_state, dispatch, dd_headers, check_types,
  push_requests, answer, process, recv_dd,
}
use ospf_lite.Exchange.Reply.{confirm, send_reply}
use ospf_lite.Exchange.Roles.{dispatch-IsOrderly}
use ospf_lite.System.Neighbors.{IsFit, moved-IsFit}
use ospf_lite.System.Sound.{IsSound, emit-IsSound, with_neighbor-IsSound, found-IsFit}
use ospf_lite.System.Updates.{event_exchange_done-IsSound}

-- The types by which the DD handler judges a header.
abbrev pub valid_type : LsaHeader → Bool
valid_type h = not (ltb h.ls_type 1 || ltb 5 h.ls_type)

check_types-valid :
    (hs : List LsaHeader) (n : Neighbor)
    → All (λ h. valid_type h ≡ true) hs
    → check_types hs n ≡ (n, [])
unfolding check_types
check_types-valid [] n v = refl
check_types-valid (h ∷ hs) n v = ground (arith, check_types-valid hs n v.1)

note_dd-IsFit : (i : Interface) (dd : OspfDd) (n : Neighbor) → IsFit i n → IsFit i (note_dd dd n)
unfolding note_dd
note_dd-IsFit i dd n fit = elim (Bool-cases (is_duplicate dd n)) [
  | inl again ↦ rw (again, note_dd) (ground arith)
  | inr first ↦ rw (first, note_dd) (ground arith)
]

dispatch_state-exchange :
    (config : GlobalConfig) (lsdb : Lsdb) (dd : OspfDd) (again : Bool) (n : Neighbor)
    → ((dispatch_state config lsdb dd again n).0.ip ≡ n.ip)
      × ((dispatch_state config lsdb dd again n).2 ≡ true
          → rank (dispatch_state config lsdb dd again n).0.state ≡ 5)
unfolding dispatch_state negotiate apply
dispatch_state-exchange config lsdb dd again n = ground arith

dispatch-exchange :
    (config : GlobalConfig) (lsdb : Lsdb) (i : Interface) (dd : OspfDd) (again : Bool)
    (n : Neighbor)
    → ((dispatch config lsdb i dd again n).0.ip ≡ n.ip)
      × ((dispatch config lsdb i dd again n).2 ≡ true
          → rank (dispatch config lsdb i dd again n).0.state ≡ 5)
unfolding dispatch apply
dispatch-exchange config lsdb i dd again n = ground (
  arith,
  apply-ip i lsdb two_way_received n,
  dispatch_state-exchange config lsdb dd again n,
  dispatch_state-exchange config lsdb dd again (event_2way_received i n).0,
)

-- The neighbor in Exchange with the numbers and lists of a packet.
asking-IsFit :
    (i : Interface) (n : Neighbor) (seq : ℕ) (requests : List LsaHeader)
    → IsFit i n
    → 5 ≤ rank n.state
    → IsFit i (record n { dd_seq_num = seq; link_state_request_list = requests })
asking-IsFit i n seq requests fit h = ground (arith, fit)

confirm-facts :
    (i : Interface) (n : Neighbor) {m : Neighbor}
    → IsFit i n
    → 5 ≤ rank n.state
    → confirm n ≡ some m
    → IsFit i m × (5 ≤ rank m.state)
unfolding confirm
confirm-facts i n fit h e = ground (arith, fit)

send_reply-IsFit :
    (i : Interface) (config : GlobalConfig) (unset mtu : ℕ) (n : Neighbor)
    → IsFit i n
    → IsFit i (send_reply config unset mtu n).0
unfolding send_reply
send_reply-IsFit i config unset mtu n fit = ground (arith, fit)

answer-IsSound :
    (tos unset : ℕ) (dd : OspfDd) (n : Neighbor) (r : Router)
    → IsSound r
    → IsFit r.interface n
    → Ensures IsSound (answer tos unset dd n r)
unfolding answer
answer-IsSound tos unset dd n r s fit =
    Ensures-bind IsSound IsSound _ _
      (Ensures-if IsSound (not dd.b_m && is_empty n.database_summary_list) _ _
        (λ last. event_exchange_done-IsSound tos n r s fit) (λ more. s))
      λ r' s'. (elim (Option-cases (find_neighbor n.ip r'.interface)) [
        | inl e ↦ rw e s'
        | inr (m, e) ↦ rw e (
            emit-IsSound _ _ (
              with_neighbor-IsSound r' _ s' (
                send_reply-IsFit r'.interface r'.config unset r'.interface.mtu m
                  (found-IsFit r' n.ip s' e))))
      ])

-- The types of the headers of a DD packet are valid.
abbrev pub IsTyped : ℕ → List ℕ → Type 0
IsTyped packet_length bytes =
    (hs : List LsaHeader)
    → dd_headers packet_length bytes ≡ some hs
    → All (λ h. valid_type h ≡ true) hs

-- The confirmation of the last packet, and the answer.
confirmed-IsSound :
    (tos unset : ℕ) (dd : OspfDd) (n : Neighbor) (effects : List Effect) (r : Router)
    → IsSound r
    → IsFit r.interface n × (5 ≤ rank n.state)
    → Ensures IsSound (elim (confirm n) [
      | none ↦ crash out_of_bounds
      | some m ↦ answer tos unset dd m (emit effects (with_neighbor m r))
    ])
confirmed-IsSound tos unset dd n effects r s (fit, h) = elim (Option-cases (confirm n)) [
  | inl f ↦ rw f tt
  | inr (m, f) ↦
      let facts = confirm-facts r.interface n fit h f in
      rw f (
        answer-IsSound tos unset dd m _
          (emit-IsSound effects _ (with_neighbor-IsSound r m s facts.0))
          (moved-IsFit r.interface (with_neighbor m r).interface.neighbors m facts.0))
]

abbrev pub led : OspfDd → Neighbor → Neighbor
led dd n = if n.is_master then record n { dd_seq_num = htonl dd.dd_seq_num } else n

led-facts :
    (i : Interface) (dd : OspfDd) (n : Neighbor)
    → IsFit i n
    → 5 ≤ rank n.state
    → IsFit i (led dd n) × (5 ≤ rank (led dd n).state)
led-facts i dd n fit h = ground (arith, fit)

checked-IsFit :
    (i : Interface) (n : Neighbor) (requests hs : List LsaHeader)
    → IsFit i n × (5 ≤ rank n.state)
    → All (λ h. valid_type h ≡ true) hs
    → IsFit i (record ((check_types hs n).0) { link_state_request_list = requests })
      × (5 ≤ rank (check_types hs n).0.state)
checked-IsFit i n requests hs (fit, h) typed =
    rw (check_types-valid hs n typed) (asking-IsFit i n n.dd_seq_num requests fit h, h)

process-IsSound :
    (tos unset packet_length : ℕ) (dd : OspfDd) (bytes : List ℕ) (n : Neighbor) (r : Router)
    → IsTyped packet_length bytes
    → IsSound r
    → IsFit r.interface n
    → 5 ≤ rank n.state
    → Ensures IsSound (process tos unset packet_length dd bytes n r)
unfolding process
process-IsSound tos unset packet_length dd bytes n r typed s fit h =
    elim (Option-cases (dd_headers packet_length bytes)) [
      | inl e ↦ rw (e, process) tt
      | inr (hs, e) ↦
          rw (e, process)
            (confirmed-IsSound tos unset dd
              (record ((check_types hs (led dd n)).0) {
                link_state_request_list =
                    push_requests r.lsdb hs (check_types hs (led dd n)).0.link_state_request_list;
              })
              (check_types hs (led dd n)).1 r s
              (checked-IsFit r.interface (led dd n) _ hs (led-facts r.interface dd n fit h)
                (typed hs e)))
    ]

pub recv_dd-IsSound :
    (tos unset src packet_length : ℕ) (dd : OspfDd) (bytes : List ℕ) (r : Router)
    → IsTyped packet_length bytes
    → IsSound r
    → Ensures IsSound (recv_dd tos unset src packet_length dd bytes r)
unfolding recv_dd
recv_dd-IsSound tos unset src packet_length dd bytes r typed s =
    elim (Option-cases (find_neighbor src r.interface)) [
      | inl e ↦ rw (e, recv_dd) s
      | inr (n, e) ↦
          let noted = note_dd-IsFit r.interface dd n (found-IsFit r src s e) in
          let facts =
            dispatch-exchange r.config r.lsdb r.interface dd (is_duplicate dd n) (note_dd dd n) in
          let fit : IsFit r.interface
              (dispatch r.config r.lsdb r.interface dd (is_duplicate dd n) (note_dd dd n)).0 =
            (
              dispatch-IsOrderly r.interface r.config r.lsdb dd (is_duplicate dd n) (note_dd dd n)
                  noted.0,
              rw facts.0 noted.1,
            ) in
          let s' =
            emit-IsSound
              (dispatch r.config r.lsdb r.interface dd (is_duplicate dd n) (note_dd dd n)).1 _
              (with_neighbor-IsSound r _ s fit) in
          rw (e, recv_dd)
            (Ensures-if IsSound
              (dispatch r.config r.lsdb r.interface dd (is_duplicate dd n) (note_dd dd n)).2 _ _
              (λ goes_on.
                process-IsSound tos unset packet_length dd bytes _ _ typed s'
                  (moved-IsFit r.interface _ _ fit) (omega (arith, facts.1 goes_on)))
              (λ ignored. s'))
    ]
