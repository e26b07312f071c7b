-- ===== src/System.antt =====
-- The router as a whole: main of main.cpp, and the loop of recv_ospf_packet_thread in ospf.cpp around
-- its handlers. Numbers of a packet are as the host loads them.
pub mod Progress
pub mod History
pub mod Neighbors
pub mod Sound
pub mod Updates
pub mod Exchanges
pub mod Handlers
pub mod Intakes
pub mod Rounds
pub mod Reachable
pub mod Boot
use ospf_lite.Base.{
  ℕ, ◌+◌, ◌*◌, ◌/◌, ◌%◌, Bool, true, false, ◌&&◌, List, [], ◌∷◌, ◌++◌, Option, none, some, ◌==◌,
  htons, htonl, if◌then◌else◌, drop,
}
use ospf_lite.Base.Outcome.{Outcome, done, crash, out_of_bounds, null_pointer, ◌>>=◌, demand}
use ospf_lite.Config.{GlobalConfig, config_init}
use ospf_lite.LinkState.{empty_lsdb}
use ospf_lite.LinkState.Wire.{◌>>=◌ as ◌>>◌, load8, load16, load32}
use ospf_lite.Interface.{Interface, InterfaceState, new_interface}
use ospf_lite.Interface.Events.{event_interface_up}
use ospf_lite.Area.{Router, OspfNetwork, belongs, complement32, emit}
use ospf_lite.Receive.{Result, IpHeader, OspfHeader, OspfHello, accepts, run_timers, recv_hello}
use ospf_lite.Exchange.{OspfDd, recv_dd}
use ospf_lite.Acknowledge.{recv_lsack}
use ospf_lite.Request.{recv_lsr}
use ospf_lite.Intake.{recv_lsu}
use ospf_lite.Frame.{Packet, parse_packet, parse_hello, parse_dd}

-- A handler that works on the interface alone, in its router.
abbrev pub on_interface : Result → Router → Outcome Router
on_interface result r = result >>= λ step. done (emit step.1 (record r { interface = step.0 }))

-- What the environment of one round gives: the clock, and the values of memory that the code reads
-- before it writes them, `tos` in the LSAs of the router, `unset` in received network LSAs and DD replies.
pub record Surroundings : Type 0 where
  pub now : ℕ
  pub tos : ℕ
  pub unset : ℕ

unfoldable pub handle_hello : ℕ → Packet → Router → Outcome Router
unfolding parse_hello
handle_hello now p r = demand (parse_hello p.body) λ hello.
    on_interface (recv_hello r.config now p.ip_header p.ospf_header hello.0 hello.1 r.interface) r

unfoldable pub handle_dd : Surroundings → Packet → Router → Outcome Router
unfolding parse_dd
handle_dd s p r = demand (parse_dd p.body) λ dd.
    recv_dd s.tos s.unset (htonl p.ip_header.saddr) (htons p.ospf_header.packet_length) dd.0 dd.1 r

unfoldable pub handle_lsr : Packet → Router → Outcome Router
handle_lsr p r =
    on_interface
      (recv_lsr (htonl p.ip_header.saddr) (htons p.ospf_header.packet_length) p.body r.lsdb
        r.interface)
      r

unfoldable pub handle_lsu : ℕ → Packet → Router → Outcome Router
unfolding load32
handle_lsu unset p r =
    demand (load32 p.body) λ num. recv_lsu unset (htonl p.ip_header.saddr) num.0 num.1 r

unfoldable pub handle_lsack : Packet → Router → Outcome Router
handle_lsack p r =
    recv_lsack (htonl p.ip_header.saddr) (htons p.ospf_header.packet_length) p.body r.interface
    >>= λ i. done (record r { interface = i })

-- The handlers by the type of the packet; other types are left alone.
unfoldable pub handle : Surroundings → Packet → Router → Outcome Router
unfolding handle_hello handle_dd handle_lsr handle_lsu handle_lsack
handle s p r =
    if p.ospf_header.type == 1
    then handle_hello s.now p r
    else if p.ospf_header.type == 2
    then handle_dd s p r
    else if p.ospf_header.type == 3
    then handle_lsr p r
    else if p.ospf_header.type == 4
    then handle_lsu s.unset p r
    else if p.ospf_header.type == 5
    then handle_lsack p r
    else done r

-- A received packet: the tests, and the handler if it passes them.
unfoldable pub receive : ℕ → Surroundings → List ℕ → Router → Outcome Router
unfolding parse_packet handle
receive p_proto s packet r = demand (parse_packet packet) λ p.
    if accepts p_proto r.area_id r.interface p.ip_header p.ospf_header then handle s p r else done r

-- One round of the loop of `recv_ospf_packet_thread`: the timers, and then the packet.
unfoldable pub round : ℕ → Surroundings → List ℕ → Router → Outcome Router
unfolding receive
round p_proto s packet r =
    on_interface (run_timers r.config s.now r.interface) r >>= receive p_proto s packet

-- The loopback interface of `main`, 192.168.246.200 with the mask 255.255.255.0.
unfoldable pub loopback_interface : Interface
unfolding new_interface
loopback_interface = record new_interface {
  state = InterfaceState.loopback;
  ip_interface_address = 0xc0a8f6c8;
  ip_interface_mask = 0xffffff00;
}

unfoldable pub interface_init : GlobalConfig → Interface
unfolding new_interface
interface_init config = record new_interface {
  ip_interface_address = config.ip;
  ip_interface_mask = config.ip_interface_mask;
}

-- `main` up to the start of its threads, on the address and mask of the network card: both
-- interfaces print their area, which is a null pointer if they are on no network of it.
unfoldable pub boot : ℕ → ℕ → Outcome Router
unfolding config_init belongs event_interface_up loopback_interface interface_init
boot ip mask =
    let config = config_init ip mask in
    let interface : Interface = interface_init config in
    let network : OspfNetwork = record { ip = ip; wildcard_mask = complement32 mask } in
    if belongs network loopback_interface && belongs network interface
    then (let (up, effects) = event_interface_up interface in
        done (record {
          config = config;
          area_id = 0;
          lsdb = empty_lsdb;
          before = loopback_interface ∷ [];
          interface = up;
          after = [];
          trace = effects;
        }))
    else crash null_pointer
