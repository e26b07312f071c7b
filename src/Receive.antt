-- ===== src/Receive.antt =====
-- ospf.cpp: recv_ospf_packet_thread up to its Hello handler: the timers at the top of its loop, the
-- tests on a packet, and what a Hello does. Numbers of a packet are as the host loads them.
pub mod Heard
pub mod Keeps
pub mod Hello
pub mod Returns
use ospf_lite.Base.{
  ℕ, zero, suc, ◌+◌, ◌-◌, ◌*◌, Bool, true, false, not, ◌&&◌, ◌||◌, List, [], ◌∷◌, ◌++◌, map, Option,
  none, some, ◌==◌, ◌!=◌, ltb, u16, htons, htonl, if◌then◌else◌,
}
use ospf_lite.Base.Outcome.{Outcome, done, crash, out_of_bounds, ◌>>=◌}
use ospf_lite.Config.{GlobalConfig}
use ospf_lite.Effect.{Effect}
use ospf_lite.Neighbor.{NeighborState, Neighbor, new_neighbor, is}
use ospf_lite.Neighbor.Events.{
  event_hello_received, event_2way_received, event_1way_received, event_inactivity_timer,
}
use ospf_lite.Interface.{Interface, InterfaceState, find_neighbor, add_neighbor, store_neighbor}
use ospf_lite.Interface
use ospf_lite.Interface.Events.{event_wait_timer, event_neighbor_change}
use ospf_lite.Interface.Events.Consistent.{Event, backup_seen, neighbor_change, run}

abbrev pub Result : Type 0
Result = Outcome (Interface × List Effect)

-- One step after another, with the effects of both.
abbrev pub and_then : Result → (Interface → Result) → Result
and_then result next =
    result >>= λ first. next first.0 >>= λ second. done (second.0, first.1 ++ second.1)

abbrev pub with_neighbor : Neighbor → Interface → Interface
with_neighbor n i = record i { neighbors = store_neighbor n i.neighbors }

-- The body of the timer loop for the neighbor at `ip`.
unfoldable pub expire : GlobalConfig → ℕ → ℕ → Interface → Result
expire config now ip i = elim (find_neighbor ip i) [
  | none ↦ done (i, [])
  | some n ↦
      if not (is n.state NeighborState.down)
        && ltb (n.last_recv_hello_time + i.router_dead_interval) now
      then (let (m, effects) = event_inactivity_timer n in
          and_then (done (with_neighbor m i, effects)) (event_neighbor_change config))
      else done (i, [])
]

-- The loop over the neighbors: the events on the way change them, but not their addresses.
unfoldable pub expire_all : GlobalConfig → ℕ → List ℕ → Interface → Result
unfolding expire
expire_all config now [] i = done (i, [])
expire_all config now (ip ∷ ips) i = and_then (expire config now ip i) (expire_all config now ips)

-- The top of the loop: the waiting timer and the inactivity timers.
unfoldable pub run_timers : GlobalConfig → ℕ → Interface → Result
unfolding expire_all
run_timers config now i =
    and_then
      (if Interface.is i.state InterfaceState.waiting && i.waiting_timeout
        then event_wait_timer config i
        else done (i, []))
      (λ j. expire_all config now (map (λ n. n.ip) j.neighbors) j)

-- OSPFHeader, less the authentication that the code does not read.
pub record OspfHeader : Type 0 where
  pub version : ℕ
  pub type : ℕ
  pub packet_length : ℕ
  pub router_id : ℕ
  pub area_id : ℕ
  pub checksum : ℕ
  pub autype : ℕ

-- The fields of the IP header that the code reads.
pub record IpHeader : Type 0 where
  pub protocol : ℕ
  pub saddr : ℕ
  pub daddr : ℕ

-- The tests on the packet. `p_proto` is the protocol number that the system has for "ospf".
unfoldable pub accepts : ℕ → ℕ → Interface → IpHeader → OspfHeader → Bool
accepts p_proto area_id i ip_header ospf_header =
    (ip_header.daddr == htonl i.ip_interface_address
      || ip_header.daddr == htonl 0xe0000005
      || ip_header.daddr == htonl 0xe0000006)
    && ip_header.protocol == p_proto
    && ip_header.saddr != htonl i.ip_interface_address
    && ospf_header.version == 2
    && ospf_header.area_id == htonl area_id
    && (ip_header.daddr != htonl 0xe0000006
        || Interface.is i.state InterfaceState.dr
        || Interface.is i.state InterfaceState.backup)
    && ospf_header.autype == i.au_type

pub record OspfHello : Type 0 where
  pub ip_interface_mask : ℕ
  pub hello_interval : ℕ
  pub options : ℕ
  pub rtr_pri : ℕ
  pub router_dead_interval : ℕ
  pub designated_router : ℕ
  pub backup_designated_router : ℕ

-- The loop from `ospf_hello_neighbor` to `ospf_end`, with the distance in bytes that is left, as in
-- `read_attached`: whether the router's own identifier is there.
unfoldable pub find_own_id : ℕ → ℕ → List ℕ → Option Bool
find_own_id router_id zero bytes = some false
find_own_id router_id (suc (suc (suc (suc n)))) (a ∷ b ∷ c ∷ d ∷ rest) =
    let later = find_own_id router_id n rest in
    if a + b * 256 + c * 65536 + d * 16777216 == htonl router_id then some true else later
find_own_id router_id _ _ = none

-- `ospf_end` lies `packet_length` bytes behind the start of the OSPF packet, the list 44.
unfoldable pub lists_own_id : ℕ → ℕ → List ℕ → Option Bool
unfolding find_own_id
lists_own_id router_id packet_length rest =
    if ltb packet_length 44 then none else find_own_id router_id (packet_length - 44) rest

-- The event of the interface that a Hello causes; `before` is the neighbor ahead of the update.
unfoldable pub hello_event : Bool → Neighbor → Neighbor → Interface → Option Event
hello_event is_new before n i =
    if before.pri != n.pri && not is_new
    then some neighbor_change
    else if n.dr == n.ip && n.bdr == 0 && Interface.is i.state InterfaceState.waiting
    then some backup_seen
    else if before.dr != n.ip && n.dr == n.ip && not is_new
    then some neighbor_change
    else if before.dr == n.ip && n.dr != n.ip && not is_new
    then some neighbor_change
    else if n.bdr == n.ip && Interface.is i.state InterfaceState.waiting
    then some backup_seen
    else if before.bdr != n.ip && n.bdr == n.ip && not is_new
    then some neighbor_change
    else if before.bdr == n.ip && n.bdr != n.ip && not is_new
    then some neighbor_change
    else none

-- The fields of the neighbor that a Hello sets.
abbrev pub update_neighbor : ℕ → OspfHello → Neighbor → Neighbor
update_neighbor router_id hello n = record n {
  id = htonl router_id;
  dr = htonl hello.designated_router;
  bdr = htonl hello.backup_designated_router;
  pri = hello.rtr_pri;
  options = hello.options;
}

unfoldable pub raise : GlobalConfig → Option Event → Interface → Result
raise config none i = done (i, [])
raise config (some event) i = run config event i

-- The handler from the neighbor on.
unfoldable pub hello_from : GlobalConfig → ℕ → ℕ → OspfHello → Bool → Neighbor → Interface → Result
unfolding hello_event raise
hello_from config now router_id hello b_2way neighbor i =
    let is_new = is neighbor.state NeighborState.down in
    let (before, first) = event_hello_received now neighbor in
    let updated = update_neighbor router_id hello before in
    if b_2way
    then (let (n, second) = event_2way_received i updated in
        let i' : Interface = with_neighbor n i in
        and_then (done (i', first ++ second)) (raise config (hello_event is_new before n i')))
    else (let (n, second) = event_1way_received updated in
        done (with_neighbor n i, first ++ second))

-- The neighbor at `src`, added to the interface if it is not there.
unfoldable pub known : ℕ → Interface → Interface
known src i = elim (find_neighbor src i) [ none ↦ add_neighbor (new_neighbor src) i | some n ↦ i ]

-- The handler on an interface that has the neighbor at `src`. `rest` is the buffer behind the Hello.
unfoldable pub heed_hello :
    GlobalConfig → ℕ → ℕ → OspfHeader → OspfHello → List ℕ → Interface → Result
unfolding hello_from lists_own_id
heed_hello config now src ospf_header hello rest i = elim (find_neighbor src i) [
  | none ↦ done (i, [])
  | some neighbor ↦ elim (lists_own_id config.router_id (htons ospf_header.packet_length) rest) [
    | none ↦ crash out_of_bounds
    | some b_2way ↦ hello_from config now ospf_header.router_id hello b_2way neighbor i
  ]
]

-- The Hello handler.
unfoldable pub recv_hello :
    GlobalConfig → ℕ → IpHeader → OspfHeader → OspfHello → List ℕ → Interface → Result
unfolding known heed_hello
recv_hello config now ip_header ospf_header hello rest i =
    if hello.options != config.ospf_options
    then done (i, [])
    else if hello.hello_interval != htons (u16 i.hello_interval)
        || hello.router_dead_interval != htonl i.router_dead_interval
    then done (i, [])
    else heed_hello config now (htonl ip_header.saddr) ospf_header hello rest
        (known (htonl ip_header.saddr) i)
