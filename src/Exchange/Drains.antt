-- ===== src/Exchange/Drains.antt =====
-- The DD handler of ospf.cpp: the summary list over many packets.
use ospf_lite.Base.{ℕ, ◌≤◌, ◌≡◌, refl, List, [], ◌∷◌, Option, none, some, length, arith}
use ospf_lite.Config.{GlobalConfig}
use ospf_lite.LinkState.{LsaHeader}
use ospf_lite.Neighbor.{Neighbor}
use ospf_lite.Exchange.Reply.{confirm, send_reply}
use ospf_lite.Exchange.Pace.{unsent, send_reply-confirm, send_reply-kept}

-- What the packets that go on do with the summary list: each confirms the last reply and sends the
-- next. For each of them the list has what its reply leaves in the bits that are not written.
unfoldable pub replies : GlobalConfig → ℕ → List ℕ → Neighbor → Option Neighbor
replies config mtu [] n = some n
replies config mtu (unset ∷ later) n = elim (confirm n) [
  | none ↦ none
  | some m ↦ replies config mtu later (send_reply config unset mtu m).0
]

none_left : (hs : List LsaHeader) → length hs ≤ 0 → hs ≡ []
none_left [] h = refl
none_left (x ∷ hs) h = ground arith

-- After a first DD reply, as many further packets as the summary list has headers are each
-- confirmed and answered without running past the end of the list, and then none of its headers
-- is left.
pub replies-drains :
    (config : GlobalConfig) (unset mtu : ℕ) (later : List ℕ) (n : Neighbor)
    → length n.database_summary_list ≤ length later
    → (m : Neighbor) × (replies config mtu later (send_reply config unset mtu n).0 ≡ some m)
      × (m.database_summary_list ≡ [])
unfolding replies
replies-drains config unset mtu [] n h = (
  (send_reply config unset mtu n).0,
  refl,
  rw (send_reply-kept config unset mtu n) (none_left _ h),
)
replies-drains config unset mtu (next ∷ later) n h =
    let (_, confirmed, fewer, _) = send_reply-confirm config unset mtu n in
    rw (replies, confirmed)
      (replies-drains config next mtu later
        (record ((send_reply config unset mtu n).0) {
          database_summary_list = unsent 8 n.database_summary_list;
        })
        (omega arith))
