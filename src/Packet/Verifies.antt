-- ===== src/Packet/Verifies.antt =====
-- The packets of ospf.cpp and their checksums.
use ospf_lite.Base.{
  ℕ, ◌+◌, ◌*◌, ◌/◌, ◌%◌, ◌<◌, ◌≤◌, ◌≡◌, refl, true, List, [], ◌∷◌, ◌++◌, All, All-append, length,
  length-append, ◌==◌, leb, Bool-cases, inl, inr, arith,
}
use ospf_lite.Base.Outcome.{done}
use ospf_lite.Config.{GlobalConfig}
use ospf_lite.Neighbor.{NeighborState, Neighbor, is}
use ospf_lite.Interface.{Interface}
use ospf_lite.Checksum.{ospf_checksum}
use ospf_lite.Checksum.Internet.{ospf_checksum-filled}
use ospf_lite.Packet.{
  header_front, header_back, fill_checksum, ospf_packet, heard_ids, hello_body, hello_packet,
}

-- What a receiver asks of the bytes of a packet: they are bytes, and they sum to zero.
abbrev pub Verifies : List ℕ → Type 0
Verifies bytes = (ospf_checksum bytes ≡ 0) × All (λ b. b < 256) bytes

ospf_checksum-lt : (bytes : List ℕ) → ospf_checksum bytes < 65536
unfolding ospf_checksum
ospf_checksum-lt bytes = omega arith

fill_checksum-Verifies :
    (front back : List ℕ)
    → length front ≡ 12
    → All (λ b. b < 256) front
    → All (λ b. b < 256) back
    → length back < 31000
    → Verifies (fill_checksum front back)
unfolding fill_checksum
fill_checksum-Verifies front back l f b small =
    let c : ℕ = ospf_checksum (front ++ 0 ∷ 0 ∷ back) in
    let fits = ospf_checksum-lt (front ++ 0 ∷ 0 ∷ back) in
    (
      ospf_checksum-filled 6 front back (omega arith) f b (omega arith),
      All-append _ front (c % 256 ∷ c / 256 ∷ back) f (omega arith, (omega (arith, fits), b)),
    )

header_front-bytes :
    (config : GlobalConfig) (area_id type len : ℕ)
    → (length (header_front config area_id type len) ≡ 12)
      × All (λ b. b < 256) (header_front config area_id type len)
unfolding header_front
header_front-bytes config area_id type len = (ground arith, ground arith)

header_back-bytes :
    (unset : List ℕ) (i : Interface)
    → length unset ≡ 8
    → All (λ b. b < 256) unset
    → (length (header_back unset i) ≡ 10) × All (λ b. b < 256) (header_back unset i)
unfolding header_back
header_back-bytes unset i l u = elim (Bool-cases (i.au_type == 0)) [
  | inl e ↦ rw (e, header_back) (ground arith, ground arith)
  | inr e ↦ rw (e, header_back) (ground arith, ground arith)
]

-- The frame around any data that fits the buffer.
framed-Verifies :
    (unset : List ℕ) (config : GlobalConfig) (area_id : ℕ) (i : Interface) (type len : ℕ)
    (body : List ℕ)
    → length unset ≡ 8
    → All (λ b. b < 256) unset
    → All (λ b. b < 256) body
    → length body < 1500
    → Verifies (fill_checksum (header_front config area_id type len) (header_back unset i ++ body))
framed-Verifies unset config area_id i type len body l u h small =
    let front = header_front-bytes config area_id type len in
    let back = header_back-bytes unset i l u in
    fill_checksum-Verifies _ (header_back unset i ++ body) front.0 front.1
      (All-append _ (header_back unset i) body back.1 h)
      (omega (arith, length-append (header_back unset i) body, back.0))

-- If send_ospf_packet does not write past its buffer, the data and the eight unset octets are
-- bytes and there are eight of those, then the packet consists of bytes and its Internet
-- checksum, taken over the whole packet, is 0.
pub ospf_packet-Verifies :
    (unset : List ℕ) (config : GlobalConfig) (area_id : ℕ) (i : Interface) (ospf_type : ℕ)
    (ospf_data : List ℕ) {bytes : List ℕ}
    → length unset ≡ 8
    → All (λ b. b < 256) unset
    → All (λ b. b < 256) ospf_data
    → ospf_packet unset config area_id i ospf_type ospf_data ≡ done bytes
    → Verifies bytes
unfolding ospf_packet
ospf_packet-Verifies unset config area_id i ospf_type ospf_data {bytes} l u h e =
    elim (Bool-cases (leb (length ospf_data + 24) 1480)) [
      | inr long ↦ cc (rw (long, ospf_packet) at e)
      | inl fits ↦
          let made : fill_checksum (header_front config area_id ospf_type (length ospf_data + 24))
                (header_back unset i ++ ospf_data)
              ≡ bytes =
            ground arith in
          rw (← made)
            (framed-Verifies unset config area_id i ospf_type _ ospf_data l u h (ground arith))
    ]

heard_ids-bytes : (ns : List Neighbor) → All (λ b. b < 256) (heard_ids ns)
unfolding heard_ids
heard_ids-bytes [] = tt
heard_ids-bytes (n ∷ ns) = elim (Bool-cases (is n.state NeighborState.down)) [
  | inl e ↦ rw (e, heard_ids) (heard_ids-bytes ns)
  | inr e ↦ rw (e, heard_ids) (ground (arith, heard_ids-bytes ns))
]

hello_body-bytes :
    (config : GlobalConfig) (i : Interface) → All (λ b. b < 256) (hello_body config i)
unfolding hello_body
hello_body-bytes config i = ground (arith, heard_ids-bytes i.neighbors)

heard_ids-length : (ns : List Neighbor) → length (heard_ids ns) ≤ 4 * length ns
unfolding heard_ids
heard_ids-length [] = omega arith
heard_ids-length (n ∷ ns) = ground (arith, heard_ids-length ns)

hello_body-length :
    (config : GlobalConfig) (i : Interface)
    → length (hello_body config i) ≤ 20 + 4 * length i.neighbors
unfolding hello_body
hello_body-length config i = ground (arith, heard_ids-length i.neighbors)

-- With at most 359 neighbors and eight bytes for what the code leaves unset, the Hello packet
-- fits its buffer, consists of bytes, and has an Internet checksum of 0 over the whole packet.
hello_packet-Verifies :
    (unset : List ℕ) (config : GlobalConfig) (area_id : ℕ) (i : Interface)
    → length unset ≡ 8
    → All (λ b. b < 256) unset
    → length i.neighbors ≤ 359
    → (bytes : List ℕ) × (hello_packet unset config area_id i ≡ done bytes) × Verifies bytes
unfolding hello_packet
hello_packet-Verifies unset config area_id i l u few =
    let size = hello_body-length config i in
    let fits : leb (length (hello_body config i) + 24) 1480 ≡ true = ground arith in
    (
      fill_checksum (header_front config area_id 1 (length (hello_body config i) + 24))
          (header_back unset i ++ hello_body config i),
      rw (fits, hello_packet) refl,
      framed-Verifies unset config area_id i 1 _ (hello_body config i) l u
          (hello_body-bytes config i) (ground arith),
    )
