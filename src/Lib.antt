-- ===== src/Lib.antt =====
-- OSPF-LITE: the state machines, the database and the packets of an OSPFv2 router.
--
-- The process of src/main.cpp holds one configuration, one area and its interfaces. Packets that
-- arrive drive the neighbor state machine of src/neighbor.cpp and the interface state machine of
-- src/interface.cpp; the interface elects a Designated Router among its neighbors and tells them to
-- reconsider their adjacencies; a neighbor that becomes fully adjacent makes the router originate its
-- LSAs anew (src/lsa.cpp), install them in the database (src/link_state.cpp) and flood them
-- (src/ospf.cpp).
--
-- A class is a record of its fields and a method a function on it. A method that starts, joins or
-- cancels a thread, or sends, returns a list of `Effect` beside the new state; one that can stop the
-- process returns an `Outcome`. A pointer to a neighbor is its address, a pointer into a packet the
-- list of the bytes from there on, and an integer of w bits a number whose wrap-around is written out.
--
-- Files:
-- - Config: src/include/config.h, src/include/const.h, src/config.cpp, and config_init of src/main.cpp.
--   What socket and ioctl answer is the argument of get_ip_address and get_network_mask.
-- - LinkState: src/include/link_state.h. LinkState.Header is LSAHeader::ntoh, LSAHeader::hton and
--   lsa_header_cmp; LinkState.Wire the loads and stores of LSAs that casts of pointers make;
--   LinkState.Database the class LSDB and the loop of lsdb_aging_thread.
-- - Checksum: ospf_checksum of src/ospf.cpp; fletcher16, fletcher16_ru and lsa_checksum of
--   src/link_state.cpp.
-- - Neighbor: src/include/neighbor.h. Neighbor.Events is src/neighbor.cpp, but for the two events
--   that regenerate LSAs, which are in Lsa.Adjacency.
-- - Interface: src/include/interface.h. Interface.Election is election_for_dr_and_ndr and
--   Interface::call_election; Interface.Events the event methods.
-- - Effect: what the code does with threads, and the packets that it sends.
-- - Area: src/include/area.h, and the loop of main that assigns interfaces to the area.
-- - Lsa: src/lsa.cpp. The argument tos is what the uninitialised tos_num of its local link holds.
-- - Packet: send_ospf_packet and one round of send_ospf_hello_packet_thread of src/ospf.cpp, up to
--   the bytes that are handed to the socket.
-- - Flooding: flooding_lsa of src/ospf.cpp.
-- - Receive: recv_ospf_packet_thread of src/ospf.cpp, its timers, its tests on a packet and its Hello
--   handler. Exchange is its DD handler, Request its LSR handler, Intake its LSU handler, Acknowledge
--   its LSAck handler; Frame takes a packet apart into the structures of src/include/ospf.h.
-- - Senders: a round of send_empty_dd_packet_thread, of send_lsr_packet_thread and of
--   retrans_sender_thread of src/ospf.cpp.
-- - System: the loop of recv_ospf_packet_thread around its handlers, and main of src/main.cpp up to the
--   start of the threads. System.Reachable has the steps of the whole process: a round of that loop
--   with any packet, the end of waiting_timer_thread of src/interface.cpp, and the end of
--   send_empty_dd_packet_thread. The threads that only send write to no state of the router.
--   lsdb_aging_thread, which is given a pointer to a database as one to an area, is no step of these
--   runs: LinkState.Database.Aging has its rounds, on the database that it is meant to age.
--   System.History and System.Progress follow the router LSAs through such runs.
-- - Base: names of the libraries, Boolean tests, lists, byte order and outcomes.
-- - Examples: runs on a LAN with one neighbor.
--
-- Fuel: the carry loop of ospf_checksum and the loop of call_election are run for two rounds. For the
-- first, two are enough for any 32-bit sum; for the second, two are enough where no neighbor has the
-- router's own address, that address is not 0 and the router's priority is not 0.
--
-- Not modelled: sockets, timers, printing, and the debug output of the handlers, with the flag lsa_self
-- that only chooses it. A round of the receiving thread is one step: what another thread does in the
-- middle of a round is not modelled, and a join of a thread is taken to return. Storage is not
-- modelled: the source deletes LSAs in update_lsas that it has put into the database, and takes the
-- addresses of locals as candidates of the election; the model keeps the values.
mod Base
pub mod Config
pub mod LinkState
pub mod Checksum
pub mod Effect
pub mod Neighbor
pub mod Interface
pub mod Area
pub mod Lsa
pub mod Packet
pub mod Flooding
pub mod Receive
pub mod Exchange
pub mod Acknowledge
pub mod Request
pub mod Intake
pub mod Senders
pub mod Frame
pub mod System
mod Examples
