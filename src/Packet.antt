-- ===== src/Packet.antt =====
-- ospf.cpp: send_ospf_packet and the packet of send_ospf_hello_packet_thread, as the bytes that go
-- to the socket.
pub mod Verifies
use ospf_lite.Base.{
  ℕ, ◌+◌, ◌*◌, ◌/◌, ◌%◌, Bool, List, [], ◌∷◌, ◌++◌, ◌==◌, if◌then◌else◌, length, leb, u8, u16,
  htons, htonl, bytes16, bytes32,
}
use ospf_lite.Base.Outcome.{Outcome, done, crash, out_of_bounds}
use ospf_lite.Config.{GlobalConfig}
use ospf_lite.Neighbor.{NeighborState, Neighbor, is}
use ospf_lite.Interface.{Interface}
use ospf_lite.Checksum.{ospf_checksum}

-- The fields of OSPFHeader in front of the checksum, 12 bytes; `len` counts the header.
unfoldable pub header_front : GlobalConfig → ℕ → ℕ → ℕ → List ℕ
header_front config area_id type len =
    (2 ∷ u8 type ∷ [])
    ++ bytes16 (htons (u16 len))
    ++ bytes32 (htonl config.router_id)
    ++ bytes32 (htonl area_id)

-- `autype` and `authentication`. With another type than 0 the code leaves in the eight bytes what
-- the allocator gave it: `unset`.
unfoldable pub header_back : List ℕ → Interface → List ℕ
header_back unset i =
    bytes16 (u16 i.au_type)
    ++ (if i.au_type == 0 then 0 ∷ 0 ∷ 0 ∷ 0 ∷ 0 ∷ 0 ∷ 0 ∷ 0 ∷ [] else unset)

-- The checksum is computed with its field clear and stored in the byte order of the host.
unfoldable pub fill_checksum : List ℕ → List ℕ → List ℕ
fill_checksum front back =
    let c = ospf_checksum (front ++ 0 ∷ 0 ∷ back) in front ++ c % 256 ∷ c / 256 ∷ back

-- The packet of `send_ospf_packet`. Its buffer has 1480 bytes.
unfoldable pub ospf_packet : List ℕ → GlobalConfig → ℕ → Interface → ℕ → List ℕ → Outcome (List ℕ)
unfolding header_front header_back fill_checksum
ospf_packet unset config area_id i ospf_type ospf_data =
    if leb (length ospf_data + 24) 1480
    then done (
        fill_checksum (header_front config area_id ospf_type (length ospf_data + 24))
          (header_back unset i ++ ospf_data))
    else crash out_of_bounds

-- The identifiers that a Hello lists: the neighbors that are not Down.
unfoldable pub heard_ids : List Neighbor → List ℕ
heard_ids [] = []
heard_ids (n ∷ ns) =
    if is n.state NeighborState.down then heard_ids ns else bytes32 (htonl n.id) ++ heard_ids ns

-- OSPFHello and the list behind it. Options and priority are constants of the code.
unfoldable pub hello_body : GlobalConfig → Interface → List ℕ
unfolding heard_ids
hello_body config i =
    bytes32 (htonl i.ip_interface_mask)
    ++ bytes16 (htons (u16 config.hello_interval))
    ++ (2 ∷ 1 ∷ [])
    ++ bytes32 (htonl config.dead_interval)
    ++ bytes32 (htonl i.dr)
    ++ bytes32 (htonl i.bdr)
    ++ heard_ids i.neighbors

-- One round of the loop of `send_ospf_hello_packet_thread`.
unfoldable pub hello_packet : List ℕ → GlobalConfig → ℕ → Interface → Outcome (List ℕ)
unfolding header_front header_back fill_checksum hello_body
hello_packet unset config area_id i =
    if leb (length (hello_body config i) + 24) 1480
    then done (
        fill_checksum (header_front config area_id 1 (length (hello_body config i) + 24))
          (header_back unset i ++ hello_body config i))
    else crash out_of_bounds
