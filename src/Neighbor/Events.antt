-- ===== src/Neighbor/Events.antt =====
-- neighbor.cpp: the events of the neighbor state machine that act on one neighbor. The events that
-- regenerate LSAs, `event_exchange_done` and `event_loading_done`, are in `Lsa.Adjacency`. A method
-- returns the neighbor and what it did. A `join` is taken to return; the thread that sends empty DD
-- packets clears `is_empty_dd_sender_running` as it ends, so that the flag is clear behind its join.
pub mod Calls
use ospf_lite.Base.{ℕ, Bool, true, false, List, [], ◌∷◌, ◌++◌, map, not, if◌then◌else◌}
use ospf_lite.LinkState.{LsaHeader, Lsdb}
use ospf_lite.Effect.{Effect, create, join, empty_dd_sender, lsr_sender, retrans_sender}
use ospf_lite.Neighbor.{NeighborState, Neighbor, is, at_least}
use ospf_lite.Interface.{Interface, wants_adjacency}

abbrev pub Step : Type 0
Step = Neighbor × List Effect

-- `now` is what the clock gives.
unfoldable pub event_hello_received : ℕ → Neighbor → Step
event_hello_received now n =
    if is n.state NeighborState.down
    then (
      record n { last_recv_hello_time = now; state = NeighborState.init; dr = 0; bdr = 0; pri = 0 },
      create retrans_sender n.ip ∷ [],
    )
    else (record n { last_recv_hello_time = now }, [])

-- The reset of the DD state on the way into ExStart.
unfoldable pub reset_dd : Neighbor → Neighbor
reset_dd n = record n {
  last_recv_dd_i = false;
  last_recv_dd_m = false;
  last_recv_dd_ms = false;
  last_recv_dd_seq_num = 0;
  last_send_dd_data_len = 0;
  dd_seq_num = 0;
  is_master = true;
  state = NeighborState.exstart;
}

unfoldable pub event_2way_received : Interface → Neighbor → Step
unfolding reset_dd
event_2way_received i n =
    if is n.state NeighborState.init
    then if wants_adjacency i n.ip
      then (
        record (reset_dd n) { empty_dd_sender_stop = false; is_empty_dd_sender_running = true },
        create empty_dd_sender n.ip ∷ [],
      )
      else (record n { state = NeighborState.two_way }, [])
    else (n, [])

-- The three lists are cleared and the threads that serve two of them are waited for.
unfoldable pub clear_lists : Neighbor → Step
clear_lists n = (
  record n {
    link_state_retransmission_list = [];
    database_summary_list = [];
    link_state_request_list = [];
  },
  join retrans_sender n.ip ∷ (if n.lsr_sender_created then join lsr_sender n.ip ∷ [] else []),
)

unfoldable pub event_1way_received : Neighbor → Step
unfolding clear_lists
event_1way_received n =
    if at_least n.state NeighborState.two_way
    then (let (m, joins) = clear_lists (record n { state = NeighborState.init }) in
        (
          record m { empty_dd_sender_stop = true; is_empty_dd_sender_running = false },
          joins ++ (join empty_dd_sender n.ip ∷ []),
        ))
    else (n, [])

-- The sender of empty DD packets is started, after the one that runs has been stopped.
unfoldable pub restart_empty_dd_sender : Neighbor → Step
restart_empty_dd_sender n =
    if not n.is_empty_dd_sender_running
    then (record n { empty_dd_sender_stop = false }, create empty_dd_sender n.ip ∷ [])
    else (
      record n { empty_dd_sender_stop = false; is_empty_dd_sender_running = false },
      join empty_dd_sender n.ip ∷ create empty_dd_sender n.ip ∷ [],
    )

unfoldable pub event_adj_ok : Interface → Neighbor → Step
unfolding reset_dd clear_lists restart_empty_dd_sender
event_adj_ok i n =
    if is n.state NeighborState.two_way
    then if wants_adjacency i n.ip
      then restart_empty_dd_sender (reset_dd n)
      else (record n { state = NeighborState.two_way }, [])
    else if at_least n.state NeighborState.exstart
    then if wants_adjacency i n.ip
      then (n, [])
      else (let (m, joins) = clear_lists (record n { state = NeighborState.two_way }) in
          (
            record m { empty_dd_sender_stop = true; is_empty_dd_sender_running = false },
            joins ++ (join empty_dd_sender n.ip ∷ []),
          ))
    else (n, [])

unfoldable pub event_negotiation_done : Lsdb → Neighbor → Step
event_negotiation_done lsdb n =
    if is n.state NeighborState.exstart
    then (
      record n {
        database_summary_list =
            map (λ lsa. lsa.header) lsdb.router_lsas ++ map (λ lsa. lsa.header) lsdb.network_lsas;
        state = NeighborState.exchange;
      },
      [],
    )
    else (n, [])

unfoldable pub event_seq_number_mismatch : Neighbor → Step
unfolding clear_lists restart_empty_dd_sender
event_seq_number_mismatch n =
    if at_least n.state NeighborState.exchange
    then (let (m, joins) = clear_lists (record n { state = NeighborState.exstart }) in
        let (m', started) = restart_empty_dd_sender m in (m', joins ++ started))
    else (n, [])

-- The text of `event_seq_number_mismatch` once more.
unfoldable pub event_bad_ls_req : Neighbor → Step
unfolding clear_lists restart_empty_dd_sender
event_bad_ls_req n =
    if at_least n.state NeighborState.exchange
    then (let (m, joins) = clear_lists (record n { state = NeighborState.exstart }) in
        let (m', started) = restart_empty_dd_sender m in (m', joins ++ started))
    else (n, [])

unfoldable pub event_inactivity_timer : Neighbor → Step
unfolding clear_lists
event_inactivity_timer n =
    let (m, joins) = clear_lists (record n { state = NeighborState.down }) in
    if m.is_empty_dd_sender_running
    then (
      record m { empty_dd_sender_stop = true; is_empty_dd_sender_running = false },
      joins ++ (join empty_dd_sender n.ip ∷ []),
    )
    else (m, joins)
