-- ===== src/LinkState/Header/Swap.antt =====
-- LSAHeader::hton and LSAHeader::ntoh of link_state.cpp, one after the other.
use ospf_lite.Base.{◌≡◌, htonl-lt, htons-lt, htons-htons, htonl-htonl, htonl_twice_low, arith}
use ospf_lite.LinkState.{LsaHeader, IsHeader}
use ospf_lite.LinkState.Header.{ntoh, hton}

-- If the fields of a header fit their widths, ntoh after hton gives the header back with its age
-- cleared.
pub ntoh-hton : (h : LsaHeader) → IsHeader h → ntoh (hton h) ≡ record h { ls_age = 0 }
unfolding ntoh hton
ntoh-hton h v = ground (
  arith,
  htonl_twice_low h.ls_age,
  htonl-htonl h.link_state_id,
  htonl-htonl h.advertising_router,
  htonl-htonl h.ls_seq_num,
  htons-htons h.ls_checksum,
  htons-htons h.length,
)

pub hton-IsHeader : (h : LsaHeader) → IsHeader h → IsHeader (hton h)
unfolding hton
hton-IsHeader h v = ground (
  arith,
  htonl-lt h.link_state_id,
  htonl-lt h.advertising_router,
  htonl-lt h.ls_seq_num,
  htons-lt h.ls_checksum,
  htons-lt h.length,
)
