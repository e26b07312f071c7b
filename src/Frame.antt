-- ===== src/Frame.antt =====
-- ospf.cpp and include/ospf.h: the casts by which recv_ospf_packet_thread takes a packet apart. Numbers
-- are as the host loads them.
use ospf_lite.Base.{ℕ, ◌/◌, ◌%◌, List, Option, some, ◌==◌, drop}
use ospf_lite.LinkState.Wire.{◌>>=◌ as ◌>>◌, load8, load16, load32}
use ospf_lite.Receive.{IpHeader, OspfHeader, OspfHello}
use ospf_lite.Exchange.{OspfDd}

-- A packet as the receiving thread takes it apart: its two headers and the bytes behind them.
pub record Packet : Type 0 where
  pub ip_header : IpHeader
  pub ospf_header : OspfHeader
  pub body : List ℕ

-- The fields of `struct iphdr` that are read, at the offsets that the system gives them.
unfoldable pub parse_ip : List ℕ → Option IpHeader
unfolding load8 load32
parse_ip packet = load8 (drop 9 packet) >> λ protocol. load32 (drop 12 packet) >> λ saddr.
    load32 saddr.1 >> λ daddr.
    some (record { protocol = protocol.0; saddr = saddr.0; daddr = daddr.0 })

-- `struct OSPFHeader`, 24 bytes, and what lies behind it.
unfoldable pub parse_ospf : List ℕ → Option (OspfHeader × List ℕ)
unfolding load8 load16 load32
parse_ospf bytes = load8 bytes >> λ version. load8 version.1 >> λ type. load16 type.1 >> λ len.
    load32 len.1 >> λ router_id. load32 router_id.1 >> λ area_id. load16 area_id.1 >> λ checksum.
    load16 checksum.1 >> λ autype. some (
      record {
        version = version.0;
        type = type.0;
        packet_length = len.0;
        router_id = router_id.0;
        area_id = area_id.0;
        checksum = checksum.0;
        autype = autype.0;
      },
      drop 8 autype.1,
    )

-- The OSPF packet is taken to begin 20 bytes behind the start of the IP packet.
unfoldable pub parse_packet : List ℕ → Option Packet
unfolding parse_ip parse_ospf
parse_packet packet = parse_ip packet >> λ ip_header. parse_ospf (drop 20 packet) >> λ ospf.
    some (record { ip_header = ip_header; ospf_header = ospf.0; body = ospf.1 })

-- `struct OSPFHello`, 20 bytes.
unfoldable pub parse_hello : List ℕ → Option (OspfHello × List ℕ)
unfolding load8 load16 load32
parse_hello bytes = load32 bytes >> λ mask. load16 mask.1 >> λ interval.
    load8 interval.1 >> λ options. load8 options.1 >> λ pri. load32 pri.1 >> λ dead.
    load32 dead.1 >> λ dr. load32 dr.1 >> λ bdr. some (
      record {
        ip_interface_mask = mask.0;
        hello_interval = interval.0;
        options = options.0;
        rtr_pri = pri.0;
        router_dead_interval = dead.0;
        designated_router = dr.0;
        backup_designated_router = bdr.0;
      },
      bdr.1,
    )

-- `struct OSPFDD`, 8 bytes, with its bit fields from the low bit.
unfoldable pub parse_dd : List ℕ → Option (OspfDd × List ℕ)
unfolding load8 load16 load32
parse_dd bytes = load16 bytes >> λ mtu. load8 mtu.1 >> λ options. load8 options.1 >> λ flags.
    load32 flags.1 >> λ seq. some (
      record {
        interface_mtu = mtu.0;
        options = options.0;
        b_ms = flags.0 % 2 == 1;
        b_m = flags.0 / 2 % 2 == 1;
        b_i = flags.0 / 4 % 2 == 1;
        dd_seq_num = seq.0;
      },
      seq.1,
    )
