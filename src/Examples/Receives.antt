-- ===== src/Examples/Receives.antt =====
-- A Hello that reaches the LAN, and a neighbor that falls silent.
use ospf_lite.Base.{ℕ, ◌+◌, ◌≡◌, refl, List, [], ◌∷◌, ◌++◌, some, any, drop, length, arith}
use ospf_lite.Base.Outcome.{done, crash}
use ospf_lite.Effect.{Effect}
use ospf_lite.Neighbor.Events.{event_inactivity_timer, clear_lists}
use ospf_lite.Interface.{Interface, find_neighbor, store_neighbor}
use ospf_lite.Interface.Events.{event_neighbor_change}
use ospf_lite.Packet.{hello_body}
use ospf_lite.Receive.{
  Result, expire, expire_all, run_timers, IpHeader, OspfHeader, OspfHello, lists_own_id, recv_hello,
}
use ospf_lite.Receive.Heard.{hears, lists_own_id-hello_body}
use ospf_lite.Receive.Returns.{Returns}
use ospf_lite.Examples.Data.{config, waiting_lan}

-- From 10.0.0.3 to all OSPF routers.
abbrev ip_header : IpHeader
ip_header = record { protocol = 89; saddr = 0x0300000a; daddr = 0x050000e0 }

abbrev ospf_header : OspfHeader
ospf_header = record {
  version = 2;
  type = 1;
  packet_length = 12288;
  router_id = 0x09000000;
  area_id = 0;
  checksum = 0;
  autype = 0;
}

abbrev hello : OspfHello
hello = record {
  ip_interface_mask = 0x00ffffff;
  hello_interval = 2560;
  options = 2;
  rtr_pri = 1;
  router_dead_interval = 671088640;
  designated_router = 0;
  backup_designated_router = 0;
}

-- The list of the Hello has the router 8.8.8.8.
abbrev listing : List ℕ
listing = 8 ∷ 8 ∷ 8 ∷ 8 ∷ 0 ∷ []

abbrev value_or : Interface × List Effect → Result → Interface × List Effect
value_or default (done value) = value
value_or default (crash _) = default

abbrev greeted : Interface × List Effect
greeted =
    value_or (waiting_lan, [])
      (recv_hello config 100 ip_header ospf_header hello listing waiting_lan)

abbrev silent : Interface × List Effect
silent = value_or (waiting_lan, []) (run_timers config 100 waiting_lan)

timers_run : run_timers config 100 waiting_lan ≡ done (silent.0, silent.1)
unfolding run_timers expire_all expire find_neighbor store_neighbor event_inactivity_timer
    clear_lists event_neighbor_change
timers_run = refl

lists_own_id-hello_body_example :
    lists_own_id 7
      (length (hello_body config waiting_lan) + 24)
      (drop 20 (hello_body config waiting_lan) ++ 1 ∷ [])
    ≡ some (any (hears 7) waiting_lan.neighbors)
lists_own_id-hello_body_example =
    lists_own_id-hello_body 7 config waiting_lan (1 ∷ []) (omega arith) (ground arith)
