-- ===== src/Neighbor/Events/Calls.antt =====
-- The neighbor state machine of neighbor.cpp as a whole.
use ospf_lite.Base.{ℕ, ◌<◌, ◌≤◌, ◌≡◌, ◌⊎◌, not, Bool, true, false, [], any, arith}
use ospf_lite.LinkState.{Lsdb}
use ospf_lite.Effect.{Effect, join, retrans_sender}
use ospf_lite.Neighbor.{NeighborState, Neighbor, rank, is}
use ospf_lite.Interface.{Interface, wants_adjacency}
use ospf_lite.Neighbor.Events.{
  Step, event_hello_received, event_2way_received, event_1way_received, event_adj_ok,
  event_negotiation_done, event_seq_number_mismatch, event_bad_ls_req, event_inactivity_timer,
}

-- The events that act on the neighbor alone.
pub data Call : Type 0 where
  hello_received : ℕ → Call
  two_way_received one_way_received adj_ok negotiation_done seq_number_mismatch : Call
  bad_ls_req inactivity_timer : Call

unfoldable pub apply : Interface → Lsdb → Call → Neighbor → Step
unfolding event_hello_received event_2way_received event_1way_received event_adj_ok
    event_negotiation_done event_seq_number_mismatch event_bad_ls_req event_inactivity_timer
apply i lsdb (hello_received now) n = event_hello_received now n
apply i lsdb two_way_received n = event_2way_received i n
apply i lsdb one_way_received n = event_1way_received n
apply i lsdb adj_ok n = event_adj_ok i n
apply i lsdb negotiation_done n = event_negotiation_done lsdb n
apply i lsdb seq_number_mismatch n = event_seq_number_mismatch n
apply i lsdb bad_ls_req n = event_bad_ls_req n
apply i lsdb inactivity_timer n = event_inactivity_timer n

-- Below Exchange nothing is queued, and an adjacency is up exactly with those it is wanted with.
pub record IsOrderly (i : Interface) (n : Neighbor) : Type 0 where
  pub no_retransmission : rank n.state < 5 → n.link_state_retransmission_list ≡ []
  pub no_summary : rank n.state < 5 → n.database_summary_list ≡ []
  pub no_request : rank n.state < 5 → n.link_state_request_list ≡ []
  pub adjacent_wanted : 4 ≤ rank n.state → wants_adjacency i n.ip ≡ true
  pub two_way_unwanted : rank n.state ≡ 3 → wants_adjacency i n.ip ≡ false

-- If below Exchange a neighbor has three empty lists, if from ExStart on an adjacency with it is
-- wanted, and if in 2-Way none is wanted, then the same holds after any of the eight events that
-- act on the neighbor alone.
pub apply-IsOrderly :
    (i : Interface) (lsdb : Lsdb) (c : Call) (n : Neighbor)
    → IsOrderly i n
    → IsOrderly i (apply i lsdb c n).0
unfolding apply
apply-IsOrderly i lsdb (hello_received now) n h = ground arith
apply-IsOrderly i lsdb _ n h = ground arith

-- A call keeps the address of the neighbor.
pub apply-ip :
    (i : Interface) (lsdb : Lsdb) (c : Call) (n : Neighbor) → (apply i lsdb c n).0.ip ≡ n.ip
unfolding apply
apply-ip i lsdb (hello_received now) n = ground arith
apply-ip i lsdb _ n = ground arith

-- The ways up of the state machine, each with the call that takes it.
pub data Climbs (i : Interface) (n : Neighbor) : Call → NeighborState → Type 0 where
  first_hello : (now : ℕ) → rank n.state ≡ 0 → Climbs i n (hello_received now) NeighborState.init
  seen_only :
      rank n.state ≡ 2
      → wants_adjacency i n.ip ≡ false
      → Climbs i n two_way_received NeighborState.two_way
  start_adjacency :
      rank n.state ≡ 2
      → wants_adjacency i n.ip ≡ true
      → Climbs i n two_way_received NeighborState.exstart
  elected_adjacency :
      rank n.state ≡ 3 → wants_adjacency i n.ip ≡ true → Climbs i n adj_ok NeighborState.exstart
  negotiated : rank n.state ≡ 4 → Climbs i n negotiation_done NeighborState.exchange

ruleset ways_up = (first_hello, seen_only, start_adjacency, elected_adjacency, negotiated)

-- If one of the eight events raises the state of a neighbor, it is one of five: the first Hello
-- from Down to Init, 2-Way from Init to 2-Way or ExStart as the adjacency is unwanted or wanted,
-- AdjOK from 2-Way to ExStart when it is wanted, or negotiation from ExStart to Exchange.
pub apply-Climbs :
    (i : Interface) (lsdb : Lsdb) (c : Call) (n : Neighbor)
    → rank n.state < rank (apply i lsdb c n).0.state
    → Climbs i n c (apply i lsdb c n).0.state
unfolding apply
apply-Climbs i lsdb (hello_received now) n h = grind (arith, ways_up)
apply-Climbs i lsdb _ n h = grind (arith, ways_up)

abbrev pub is_retrans_join : Effect → Bool
is_retrans_join (join retrans_sender _) = true
is_retrans_join _ = false

-- The condition at the top of the loop of `retrans_sender_thread`: it goes on unless Down.
unfoldable pub retrans_sender_runs : Neighbor → Bool
retrans_sender_runs n = not (is n.state NeighborState.down)

-- If one of the eight events waits for the end of the retransmission thread, it is the inactivity
-- timer, or it leaves the neighbor in a state in which the loop of that thread goes on.
pub apply-joins :
    (i : Interface) (lsdb : Lsdb) (c : Call) (n : Neighbor)
    → any is_retrans_join (apply i lsdb c n).1 ≡ true
    → (c ≡ inactivity_timer) ⊎ (retrans_sender_runs (apply i lsdb c n).0 ≡ true)
unfolding apply retrans_sender_runs
apply-joins i lsdb (hello_received now) n h = ground arith
apply-joins i lsdb _ n h = ground arith
