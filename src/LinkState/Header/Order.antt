-- ===== src/LinkState/Header/Order.antt =====
-- lsa_header_cmp of link_state.cpp as an order on the instances of an LSA.
use ospf_lite.Base.{◌+◌, ◌<◌, ◌≤◌, ◌≡◌, ◌≢◌, negsuc, neg, is_neg, true, arith}
use ospf_lite.Config.{max_age, max_age_diff}
use ospf_lite.LinkState.{LsaHeader}
use ospf_lite.LinkState.Header.{lsa_header_cmp}

-- For any two headers, lsa_header_cmp of the second and the first is the negative of that of the
-- first and the second.
lsa_header_cmp-swap : (a b : LsaHeader) → lsa_header_cmp b a ≡ neg (lsa_header_cmp a b)
unfolding lsa_header_cmp
lsa_header_cmp-swap a b = ground arith

-- If lsa_header_cmp finds a first header more recent than a second, and the second more recent
-- than a third, it finds the first more recent than the third.
pub lsa_header_cmp_trans :
    (a b c : LsaHeader)
    → is_neg (lsa_header_cmp a b) ≡ true
    → is_neg (lsa_header_cmp b c) ≡ true
    → is_neg (lsa_header_cmp a c) ≡ true
unfolding lsa_header_cmp
lsa_header_cmp_trans a b c h k = ground arith

-- The recency rule of RFC 2328 13.1, with sequence numbers taken as unsigned.
pub data MoreRecent (a b : LsaHeader) : Type 0 where
  by_sequence : b.ls_seq_num < a.ls_seq_num → MoreRecent a b
  by_checksum : a.ls_seq_num ≡ b.ls_seq_num → b.ls_checksum < a.ls_checksum → MoreRecent a b
  by_max_age :
      a.ls_seq_num ≡ b.ls_seq_num
      → a.ls_checksum ≡ b.ls_checksum
      → a.ls_age ≡ max_age
      → b.ls_age ≢ max_age
      → MoreRecent a b
  by_age :
      a.ls_seq_num ≡ b.ls_seq_num
      → a.ls_checksum ≡ b.ls_checksum
      → a.ls_age ≢ max_age
      → b.ls_age ≢ max_age
      → a.ls_age + max_age_diff ≤ b.ls_age
      → MoreRecent a b

pub MoreRecent-lsa_header_cmp : (a b : LsaHeader) → MoreRecent a b → lsa_header_cmp a b ≡ negsuc 0
unfolding lsa_header_cmp
MoreRecent-lsa_header_cmp a b (by_sequence h) = ground arith
MoreRecent-lsa_header_cmp a b (by_checksum e h) = ground arith
MoreRecent-lsa_header_cmp a b (by_max_age e c h k) = ground arith
MoreRecent-lsa_header_cmp a b (by_age e c h k d) = ground arith
