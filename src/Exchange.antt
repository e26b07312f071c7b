-- ===== src/Exchange.antt =====
-- ospf.cpp: the DD handler of recv_ospf_packet_thread. Numbers of a packet are as the host loads
-- them.
pub mod Reply
pub mod Roles
pub mod Pace
pub mod Drains
pub mod Invalid
use Prim.Native.Nat.{bit_and}
use ospf_lite.Base.{
  ℕ, zero, suc, ◌+◌, ◌-◌, ◌*◌, ◌/◌, ◌%◌, Bool, true, false, not, ◌&&◌, ◌||◌, List, [], ◌∷◌, ◌++◌,
  Option, none, some, ◌==◌, ◌!=◌, ltb, is_neg, u8, u16, u32, htons, htonl, bytes16, bytes32,
  if◌then◌else◌, take, length,
}
use ospf_lite.Base.Outcome.{Outcome, done, crash, out_of_bounds, ◌>>=◌}
use ospf_lite.Config.{GlobalConfig}
use ospf_lite.Effect.{Effect, send}
use ospf_lite.LinkState.{LsaHeader, Lsdb}
use ospf_lite.LinkState.Header.{hton, lsa_header_cmp}
use ospf_lite.LinkState.Wire.{load_header, store_header}
use ospf_lite.LinkState.Database.{find_router_lsa, find_network_lsa}
use ospf_lite.Neighbor.{NeighborState, Neighbor, is}
use ospf_lite.Neighbor.Events.{
  Step, event_2way_received, event_negotiation_done, event_seq_number_mismatch,
}
use ospf_lite.Interface.{Interface, find_neighbor}
use ospf_lite.Area.{Router, emit}
use ospf_lite.Lsa.Adjacency.{with_neighbor, is_empty, event_exchange_done}
use ospf_lite.Exchange.Reply.{confirm, send_reply}

pub record OspfDd : Type 0 where
  pub interface_mtu : ℕ
  pub options : ℕ
  pub b_ms : Bool
  pub b_m : Bool
  pub b_i : Bool
  pub dd_seq_num : ℕ

abbrev pub same_bit : Bool → Bool → Bool
same_bit true b = b
same_bit false b = not b

unfoldable pub is_duplicate : OspfDd → Neighbor → Bool
is_duplicate dd n =
    htonl dd.dd_seq_num == n.last_recv_dd_seq_num
    && same_bit dd.b_i n.last_recv_dd_i
    && same_bit dd.b_m n.last_recv_dd_m
    && same_bit dd.b_ms n.last_recv_dd_ms

-- The neighbor once the packet has been noted; a duplicate has nothing new to note.
unfoldable pub note_dd : OspfDd → Neighbor → Neighbor
unfolding is_duplicate
note_dd dd n = if is_duplicate dd n then record n { options = dd.options } else record n {
  options = dd.options;
  last_recv_dd_seq_num = htonl dd.dd_seq_num;
  last_recv_dd_i = dd.b_i;
  last_recv_dd_m = dd.b_m;
  last_recv_dd_ms = dd.b_ms;
}

-- ExStart: the neighbor in Exchange once the roles are settled, or `none` to ignore the packet.
unfoldable pub negotiate : GlobalConfig → Lsdb → OspfDd → Neighbor → Option Neighbor
negotiate config lsdb dd n =
    if dd.b_i && dd.b_m && dd.b_ms && ltb config.router_id n.id
    then some
        (event_negotiation_done lsdb
          (record n { is_master = true; dd_seq_num = htonl dd.dd_seq_num })).0
    else if not dd.b_i
        && not dd.b_ms
        && htonl dd.dd_seq_num == n.dd_seq_num
        && ltb n.id config.router_id
    then some (event_negotiation_done lsdb (record n { is_master = false })).0
    else none

-- Exchange: whether a packet that is no duplicate is out of order. The options are those that were
-- noted a moment ago.
unfoldable is_mismatch : OspfDd → Neighbor → Bool
is_mismatch dd n =
    bit_and dd.options 10 != bit_and n.options 10
    || dd.b_i
    || (if n.is_master
        then not dd.b_ms || htonl dd.dd_seq_num != u32 (n.dd_seq_num + 1)
        else dd.b_ms || htonl dd.dd_seq_num != n.dd_seq_num)

-- The last packet once more, to a master.
abbrev pub resend : Neighbor → List Effect
resend n =
    if n.is_master then send n.ip 2 (take n.last_send_dd_data_len n.last_send_dd_data) ∷ [] else []

-- The neighbor, what was done, and whether the packet goes on to be processed.
abbrev pub Dispatched : Type 0
Dispatched = Neighbor × List Effect × Bool

-- The cases behind the label DD_BEGIN, but for Init.
unfoldable pub dispatch_state : GlobalConfig → Lsdb → OspfDd → Bool → Neighbor → Dispatched
unfolding negotiate is_mismatch
dispatch_state config lsdb dd is_dumplicated n =
    if is n.state NeighborState.exstart
    then elim (negotiate config lsdb dd n) [ none ↦ (n, [], false) | some m ↦ (m, [], true) ]
    else if is n.state NeighborState.exchange
    then if is_dumplicated
      then (n, resend n, false)
      else if is_mismatch dd n
      then (let (m, effects) = event_seq_number_mismatch n in (m, effects, false))
      else (n, [], true)
    else if is n.state NeighborState.loading || is n.state NeighborState.full
    then (n, if is_dumplicated then resend n else [], false)
    else (n, [], false)

-- From Init the packet is taken up again if the event leads to ExStart.
unfoldable pub dispatch : GlobalConfig → Lsdb → Interface → OspfDd → Bool → Neighbor → Dispatched
unfolding dispatch_state
dispatch config lsdb i dd is_dumplicated n =
    if is n.state NeighborState.init
    then (let (m, effects) = event_2way_received i n in
        if is m.state NeighborState.exstart
        then (let (m', more, goes_on) = dispatch_state config lsdb dd is_dumplicated m in
            (m', effects ++ more, goes_on))
        else (m, effects, false))
    else dispatch_state config lsdb dd is_dumplicated n

-- The LSA headers of the packet, as they lie there.
unfoldable pub load_headers : ℕ → List ℕ → Option (List LsaHeader)
load_headers zero bytes = some []
load_headers (suc n) bytes = elim (load_header bytes) [
  | none ↦ none
  | some (h, rest) ↦ elim (load_headers n rest) [ none ↦ none | some hs ↦ some (h ∷ hs) ]
]

-- `lsa_header_end` lies `packet_length` bytes behind the start of the OSPF packet, the headers 32.
unfoldable pub dd_headers : ℕ → List ℕ → Option (List LsaHeader)
unfolding load_headers
dd_headers packet_length bytes =
    if ltb packet_length 32 || (packet_length - 32) % 20 != 0
    then none
    else load_headers ((packet_length - 32) / 20) bytes

-- The loop that checks the types: it goes on after an invalid one.
unfoldable pub check_types : List LsaHeader → Neighbor → Step
check_types [] n = (n, [])
check_types (h ∷ hs) n =
    let (m, effects) =
      if ltb h.ls_type 1 || ltb 5 h.ls_type then event_seq_number_mismatch n else (n, []) in
    let (m', more) = check_types hs m in (m', effects ++ more)

-- The copy of a header in host order, here with the age swapped as a 16-bit number.
abbrev pub host_header : LsaHeader → LsaHeader
host_header h = record {
  ls_age = htons h.ls_age;
  options = h.options;
  ls_type = h.ls_type;
  link_state_id = htonl h.link_state_id;
  advertising_router = htonl h.advertising_router;
  ls_seq_num = htonl h.ls_seq_num;
  ls_checksum = htons h.ls_checksum;
  length = htons h.length;
}

-- Whether the LSA is requested. The second test reads `ls_age`, as in the source.
unfoldable pub is_wanted : Lsdb → LsaHeader → Bool
is_wanted lsdb h =
    if h.ls_type == 1
    then elim (find_router_lsa h.link_state_id h.advertising_router lsdb) [
      | none ↦ true
      | some lsa ↦ is_neg (lsa_header_cmp h lsa.header)
    ]
    else if h.ls_age == 2
    then elim (find_network_lsa h.link_state_id h.advertising_router lsdb) [
      | none ↦ true
      | some lsa ↦ is_neg (lsa_header_cmp h lsa.header)
    ]
    else false

-- The loop that fills the request list.
unfoldable pub push_requests : Lsdb → List LsaHeader → List LsaHeader → List LsaHeader
unfolding is_wanted
push_requests lsdb [] requests = requests
push_requests lsdb (h ∷ hs) requests =
    push_requests lsdb hs
      (if is_wanted lsdb (host_header h) then requests ++ host_header h ∷ [] else requests)

-- The reply, and on the last packet `event_exchange_done` before it. The neighbor is read again, as
-- the event may have changed it.
unfoldable pub answer : ℕ → ℕ → OspfDd → Neighbor → Router → Outcome Router
unfolding send_reply
answer tos unset dd n r =
    (if not dd.b_m && is_empty n.database_summary_list then event_exchange_done tos n r else done r)
    >>= λ r'. elim (find_neighbor n.ip r'.interface) [
      | none ↦ done r'
      | some m ↦
          let (m', effects) = send_reply r'.config unset r'.interface.mtu m in
          done (emit effects (with_neighbor m' r'))
    ]

-- A packet that goes on: its headers are checked and requested, the last ones sent are confirmed.
unfoldable pub process : ℕ → ℕ → ℕ → OspfDd → List ℕ → Neighbor → Router → Outcome Router
unfolding dd_headers check_types push_requests confirm answer
process tos unset packet_length dd bytes n r = elim (dd_headers packet_length bytes) [
  | none ↦ crash out_of_bounds
  | some headers ↦
      let led : Neighbor =
        if n.is_master then record n { dd_seq_num = htonl dd.dd_seq_num } else n in
      let (checked, effects) = check_types headers led in
      let asking : Neighbor = record checked {
        link_state_request_list = push_requests r.lsdb headers checked.link_state_request_list;
      } in
      elim (confirm asking) [
        | none ↦ crash out_of_bounds
        | some m ↦ answer tos unset dd m (emit effects (with_neighbor m r))
      ]
]

-- The handler for a packet from `src`; `bytes` is the buffer behind OSPFDD.
unfoldable pub recv_dd : ℕ → ℕ → ℕ → ℕ → OspfDd → List ℕ → Router → Outcome Router
unfolding is_duplicate note_dd dispatch process
recv_dd tos unset src packet_length dd bytes r = elim (find_neighbor src r.interface) [
  | none ↦ done r
  | some n ↦
      let (m, effects, goes_on) =
        dispatch r.config r.lsdb r.interface dd (is_duplicate dd n) (note_dd dd n) in
      let r' : Router = emit effects (with_neighbor m r) in
      if goes_on then process tos unset packet_length dd bytes m r' else done r'
]
