-- ===== src/Effect.antt =====
-- What the code does beyond its own state, in order: the threads it starts, waits for and cancels,
-- and the packets that it hands to send_ospf_packet.
use ospf_lite.Base.{ℕ, List}

-- The thread handles of a neighbor, and the waiting timer of an interface.
pub data Thread : Type 0 where
  empty_dd_sender lsr_sender retrans_sender waiting_timer : Thread

-- The number beside a thread is the address of the neighbor or interface that owns it.
pub data Effect : Type 0 where
  create : Thread → ℕ → Effect
  join : Thread → ℕ → Effect
  cancel : Thread → ℕ → Effect
  send : (dst_ip ospf_type : ℕ) (ospf_data : List ℕ) → Effect
