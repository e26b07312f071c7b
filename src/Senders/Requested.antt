-- ===== src/Senders/Requested.antt =====
-- The requests of send_lsr_packet_thread of ospf.cpp, as the LSR handler reads them.
use ospf_lite.Base.{
  ℕ, ◌+◌, ◌-◌, ◌*◌, ◌/◌, ◌%◌, ◌≤◌, ◌≡◌, refl, false, ◌||◌, ◌!=◌, List, [], ◌∷◌, ◌++◌, map, All,
  some, ltb, length, htonl, htonl-lt, htonl-htonl, arith,
}
use ospf_lite.LinkState.{LsaHeader, IsHeader}
use ospf_lite.LinkState.Wire.Loads.{join32}
use ospf_lite.Request.{OspfLsr, load_requests, lsr_requests}
use ospf_lite.Senders.{lsr_data}

-- What is asked for.
abbrev pub request_of : LsaHeader → OspfLsr
request_of h = record {
  ls_type = h.ls_type;
  link_state_id = h.link_state_id;
  advertising_router = h.advertising_router;
}

lsr_data-length :
    (len : ℕ) (hs : List LsaHeader)
    → len + 12 * length hs ≤ 1024
    → length (lsr_data len hs) ≡ 12 * length hs
unfolding lsr_data
lsr_data-length len [] fits = omega arith
lsr_data-length len (h ∷ hs) fits =
    let room : ltb 1024 (len + 12) ≡ false = ground arith in
    rw room (omega (arith, lsr_data-length (len + 12) hs (omega arith)))

load_requests-lsr_data :
    (len : ℕ) (hs : List LsaHeader) (rest : List ℕ)
    → len + 12 * length hs ≤ 1024
    → All IsHeader hs
    → load_requests (length hs) (lsr_data len hs ++ rest) ≡ some (map request_of hs)
unfolding lsr_data load_requests
load_requests-lsr_data len [] rest fits v = refl
load_requests-lsr_data len (h ∷ hs) rest fits v =
    let room : ltb 1024 (len + 12) ≡ false = ground arith in
    rw room (
      ground (
        arith,
        v.0,
        join32 (htonl h.ls_type) (htonl-lt h.ls_type),
        join32 (htonl h.link_state_id) (htonl-lt h.link_state_id),
        join32 (htonl h.advertising_router) (htonl-lt h.advertising_router),
        htonl-htonl h.ls_type,
        htonl-htonl h.link_state_id,
        htonl-htonl h.advertising_router,
        load_requests-lsr_data (len + 12) hs rest (omega arith) v.1,
      ))

-- If the request list has at most 85 headers, whose fields fit their widths, then the LSR handler
-- reads from the packet that send_lsr_packet_thread sends, with anything behind it, a request for
-- each of them, in their order.
pub lsr_requests-lsr_data :
    (hs : List LsaHeader) (rest : List ℕ)
    → length hs ≤ 85
    → All IsHeader hs
    → lsr_requests (length (lsr_data 0 hs) + 24) (lsr_data 0 hs ++ rest) ≡ some (map request_of hs)
unfolding lsr_requests
lsr_requests-lsr_data hs rest few v =
    let size = lsr_data-length 0 hs (omega arith) in
    let right : (ltb (length (lsr_data 0 hs) + 24) 24
          || (length (lsr_data 0 hs) + 24 - 24) % 12 != 0)
        ≡ false =
      ground (arith, size) in
    let count : (length (lsr_data 0 hs) + 24 - 24) / 12 ≡ length hs = omega (arith, size) in
    rw (right, lsr_requests, count) (load_requests-lsr_data 0 hs rest (omega arith) v)
