-- ===== src/Exchange/Invalid.antt =====
-- The DD handler of ospf.cpp on a header of an invalid type.
use ospf_lite.Base.{Bool, ◌||◌, ltb, htonl, if◌then◌else◌}
use ospf_lite.Base.Outcome.{Outcome}
use ospf_lite.LinkState.{LsaHeader}
use ospf_lite.Neighbor.{Neighbor}
use ospf_lite.Exchange.{OspfDd}

-- The test of the loop that checks the types.
abbrev pub is_invalid : LsaHeader → Bool
is_invalid h = ltb h.ls_type 1 || ltb 5 h.ls_type

abbrev led : OspfDd → Neighbor → Neighbor
led dd n = if n.is_master then record n { dd_seq_num = htonl dd.dd_seq_num } else n
