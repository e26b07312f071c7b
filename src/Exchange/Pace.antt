-- ===== src/Exchange/Pace.antt =====
-- The DD handler of ospf.cpp: the summary list from one reply to the next.
use ospf_lite.Base.{
  ℕ, ◌+◌, ◌-◌, ◌*◌, ◌/◌, ◌≤◌, ◌≡◌, refl, true, false, List, [], ◌∷◌, some, ◌!=◌, ltb, u32, length,
  if◌then◌else◌, Bool-cases, inl, inr, arith,
}
use ospf_lite.Config.{GlobalConfig}
use ospf_lite.LinkState.{LsaHeader}
use ospf_lite.LinkState.Wire.{store_header}
use ospf_lite.Neighbor.{Neighbor}
use ospf_lite.Exchange.Reply.{pop_front, confirm, fill, store_headers, reply_data, send_reply}

-- The headers that a reply leaves for later.
abbrev pub unsent : ℕ → List LsaHeader → List LsaHeader
unsent len [] = []
unsent len (h ∷ hs) = if ltb 1024 (len + 20) then h ∷ hs else unsent (len + 20) hs

fill-unsent :
    (len : ℕ) (hs : List LsaHeader) → pop_front (length (fill len hs).0) hs ≡ some (unsent len hs)
unfolding fill pop_front
fill-unsent len [] = refl
fill-unsent len (h ∷ hs) = ground (arith, fill-unsent (len + 20) hs)

fill-bound : (len : ℕ) (hs : List LsaHeader) → len ≤ 1024 → len + 20 * length (fill len hs).0 ≤ 1024
unfolding fill
fill-bound len [] h = omega arith
fill-bound len (x ∷ hs) h = ground (arith, fill-bound (len + 20) hs)

fill-more : (len : ℕ) (hs : List LsaHeader) → ((fill len hs).1 ≡ false) → unsent len hs ≡ []
unfolding fill
fill-more len [] e = refl
fill-more len (h ∷ hs) e = ground (arith, fill-more (len + 20) hs)

store_headers-length : (hs : List LsaHeader) → length (store_headers hs) ≡ 20 * length hs
unfolding store_headers store_header
store_headers-length [] = refl
store_headers-length (h ∷ hs) = ground (arith, store_headers-length hs)

reply_data-length :
    (config : GlobalConfig) (unset mtu : ℕ) (n : Neighbor)
    → length (reply_data config unset mtu n) ≡ 8 + 20 * length (fill 8 n.database_summary_list).0
unfolding reply_data
reply_data-length config unset mtu n =
    ground (arith, store_headers-length (fill 8 n.database_summary_list).0)

unsent-shorter :
    (len : ℕ) (h : LsaHeader) (hs : List LsaHeader)
    → len + 20 ≤ 1024
    → length (unsent len (h ∷ hs)) ≤ length hs
unsent-shorter len h [] fits = ground arith
unsent-shorter len h (x ∷ hs) fits = ground (arith, unsent-shorter (len + 20) x hs)

confirm-counted :
    (m : Neighbor) (k : ℕ) {left : List LsaHeader}
    → m.last_send_dd_data_len ≡ 8 + 20 * k
    → pop_front k m.database_summary_list ≡ some left
    → confirm m ≡ some (record m { database_summary_list = left })
unfolding confirm
confirm-counted m k e popped =
    let count : (m.last_send_dd_data_len - 8) / 20 ≡ k = omega arith in
    let test : (m.last_send_dd_data_len != 0) ≡ true = ground arith in rw (test, count, popped)

send_reply-facts :
    (config : GlobalConfig) (unset mtu : ℕ) (n : Neighbor)
    → let m = (send_reply config unset mtu n).0 in
      (m.database_summary_list ≡ n.database_summary_list)
      × (m.last_send_dd_data_len ≡ 8 + 20 * length (fill 8 n.database_summary_list).0)
      × (length m.last_send_dd_data ≡ m.last_send_dd_data_len)
unfolding send_reply
send_reply-facts config unset mtu n = elim (Bool-cases n.is_master) [
  | inl e ↦ rw e (refl, reply_data-length config unset mtu n, refl)
  | inr e ↦ rw e (
    refl,
    reply_data-length config unset mtu (record n { dd_seq_num = u32 (n.dd_seq_num + 1) }),
    refl,
  )
]

unsent-progress : (hs : List LsaHeader) → length (unsent 8 hs) ≤ length hs - 1
unsent-progress [] = omega arith
unsent-progress (h ∷ hs) = omega (arith, unsent-shorter 8 h hs (omega arith))

pub send_reply-confirm :
    (config : GlobalConfig) (unset mtu : ℕ) (n : Neighbor)
    → let m = (send_reply config unset mtu n).0 in
      let left = unsent 8 n.database_summary_list in
      (length m.last_send_dd_data ≤ 1024)
      × (confirm m ≡ some (record m { database_summary_list = left }))
      × (length left ≤ length n.database_summary_list - 1)
      × ((fill 8 n.database_summary_list).1 ≡ false → left ≡ [])
send_reply-confirm config unset mtu n =
    let (kept, len, written) = send_reply-facts config unset mtu n in
    let listed = fill-unsent 8 n.database_summary_list in
    (
      omega (arith, fill-bound 8 n.database_summary_list (omega arith)),
      confirm-counted (send_reply config unset mtu n).0 _ len (rw kept listed),
      unsent-progress n.database_summary_list,
      fill-more 8 n.database_summary_list,
    )

pub send_reply-kept :
    (config : GlobalConfig) (unset mtu : ℕ) (n : Neighbor)
    → (send_reply config unset mtu n).0.database_summary_list ≡ n.database_summary_list
send_reply-kept config unset mtu n = (send_reply-facts config unset mtu n).0
