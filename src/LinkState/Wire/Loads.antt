-- ===== src/LinkState/Wire/Loads.antt =====
-- Loads of what was stored before.
use ospf_lite.Base.{ℕ, ◌+◌, ◌*◌, ◌%◌, ◌/◌, ◌<◌, ◌≡◌, List, ◌++◌, some, arith}
use ospf_lite.LinkState.{LsaHeader, IsHeader}
use ospf_lite.LinkState.Wire.{load_header, store_header}

pub join16 : (x : ℕ) → x < 65536 → x % 256 + x / 256 % 256 * 256 ≡ x
join16 x h = omega arith

pub join32 :
    (x : ℕ)
    → x < 4294967296
    → x % 256 + x / 256 % 256 * 256 + x / 65536 % 256 * 65536 + x / 16777216 % 256 * 16777216 ≡ x
join32 x h = omega arith

pub load_header-store_header :
    (h : LsaHeader) (rest : List ℕ)
    → IsHeader h
    → load_header (store_header h ++ rest) ≡ some (h, rest)
unfolding load_header store_header
load_header-store_header h rest v = ground (
  arith,
  join16 h.ls_age,
  join32 h.link_state_id,
  join32 h.advertising_router,
  join32 h.ls_seq_num,
  join16 h.ls_checksum,
  join16 h.length,
)
