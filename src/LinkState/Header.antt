-- ===== src/LinkState/Header.antt =====
-- link_state.cpp: LSAHeader::ntoh, LSAHeader::hton and lsa_header_cmp.
pub mod Order
pub mod Swap
use ospf_lite.Base.{
  ℕ, Bool, ◌&&◌, ℤ, pos, negsuc, htons, htonl, u16, ltb, leb, ◌==◌, ◌!=◌, abs_diff, if◌then◌else◌,
}
use ospf_lite.Config.{max_age, max_age_diff}
use ospf_lite.LinkState.{LsaHeader}

-- `ls_age` is a uint16_t and goes through the 32-bit swap, as in the source.
unfoldable pub ntoh : LsaHeader → LsaHeader
ntoh net_header = record {
  ls_age = u16 (htonl net_header.ls_age);
  options = net_header.options;
  ls_type = net_header.ls_type;
  link_state_id = htonl net_header.link_state_id;
  advertising_router = htonl net_header.advertising_router;
  ls_seq_num = htonl net_header.ls_seq_num;
  ls_checksum = htons net_header.ls_checksum;
  length = htons net_header.length;
}

unfoldable pub hton : LsaHeader → LsaHeader
hton header_host = record {
  ls_age = u16 (htonl header_host.ls_age);
  options = header_host.options;
  ls_type = header_host.ls_type;
  link_state_id = htonl header_host.link_state_id;
  advertising_router = htonl header_host.advertising_router;
  ls_seq_num = htonl header_host.ls_seq_num;
  ls_checksum = htons header_host.ls_checksum;
  length = htons header_host.length;
}

-- Negative if `a` is the more recent instance, positive if `b` is.
unfoldable pub lsa_header_cmp : LsaHeader → LsaHeader → ℤ
lsa_header_cmp a b =
    if a.ls_seq_num != b.ls_seq_num
    then if ltb a.ls_seq_num b.ls_seq_num then pos 1 else negsuc 0
    else if a.ls_checksum != b.ls_checksum
    then if ltb a.ls_checksum b.ls_checksum then pos 1 else negsuc 0
    else if a.ls_age == max_age && b.ls_age == max_age
    then pos 0
    else if a.ls_age == max_age
    then negsuc 0
    else if b.ls_age == max_age
    then pos 1
    else if leb max_age_diff (abs_diff a.ls_age b.ls_age)
    then if ltb b.ls_age a.ls_age then pos 1 else negsuc 0
    else pos 0

-- The test of every search and removal: an LSA is named by its two identifiers.
abbrev pub names : ℕ → ℕ → LsaHeader → Bool
names link_state_id advertising_router h =
    h.link_state_id == link_state_id && h.advertising_router == advertising_router
