-- ===== src/Exchange/Reply.antt =====
-- The DD handler of ospf.cpp: the reply, and the confirmation of the one before.

use ospf_lite.Base.{
  ℕ, zero, suc, ◌+◌, ◌-◌, ◌*◌, ◌/◌, ◌%◌, Bool, true, false, List, [], ◌∷◌, ◌++◌, Option, none, some,
  ◌!=◌, ltb, u8, u16, u32, htons, htonl, bytes16, bytes32, if◌then◌else◌, length,
}
use ospf_lite.Config.{GlobalConfig}
use ospf_lite.Effect.{send}
use ospf_lite.LinkState.{LsaHeader}
use ospf_lite.LinkState.Header.{hton}
use ospf_lite.LinkState.Wire.{store_header}
use ospf_lite.Neighbor.{Neighbor}
use ospf_lite.Neighbor.Events.{Step}

-- `pop_front` so many times; on an empty list it has no meaning.
unfoldable pub pop_front : ℕ → List LsaHeader → Option (List LsaHeader)
pop_front zero hs = some hs
pop_front (suc n) [] = none
pop_front (suc n) (h ∷ hs) = pop_front n hs

-- The headers of the last packet leave the summary list.
unfoldable pub confirm : Neighbor → Option Neighbor
unfolding pop_front
confirm n =
    if n.last_send_dd_data_len != 0
    then elim (pop_front ((n.last_send_dd_data_len - 8) / 20) n.database_summary_list) [
      | none ↦ none
      | some hs ↦ some (record n { database_summary_list = hs })
    ]
    else some n

-- The loop that fills the reply: the headers that fit in 1024 bytes, and whether more are left.
unfoldable pub fill : ℕ → List LsaHeader → List LsaHeader × Bool
fill len [] = ([], false)
fill len (h ∷ hs) =
    let (sent, more) = fill (len + 20) hs in
    if ltb 1024 (len + 20) then ([], true) else (h ∷ sent, more)

unfoldable pub store_headers : List LsaHeader → List ℕ
store_headers [] = []
store_headers (h ∷ hs) = store_header (hton h) ++ store_headers hs

-- The flag byte: MS and M from the low bit, I clear. `unset` is what the five bits hold that the code does not write.
abbrev pub dd_flags : ℕ → Bool → Bool → ℕ
dd_flags unset is_master more =
    (if is_master then 0 else 1) + (if more then 2 else 0) + unset % 32 * 8

unfoldable pub reply_data : GlobalConfig → ℕ → ℕ → Neighbor → List ℕ
unfolding fill store_headers
reply_data config unset mtu n =
    let (sent, more) = fill 8 n.database_summary_list in
    bytes16 (htons (u16 mtu))
    ++ (u8 config.ospf_options ∷ dd_flags unset n.is_master more ∷ [])
    ++ bytes32 (htonl n.dd_seq_num)
    ++ store_headers sent

-- A slave of ours is led on to the next number, a master is echoed.
unfoldable pub send_reply : GlobalConfig → ℕ → ℕ → Neighbor → Step
unfolding reply_data
send_reply config unset mtu n =
    let m : Neighbor =
      if n.is_master then n else record n { dd_seq_num = u32 (n.dd_seq_num + 1) } in
    let send_dd_data = reply_data config unset mtu m in
    (
      record m { last_send_dd_data = send_dd_data; last_send_dd_data_len = length send_dd_data },
      send n.ip 2 send_dd_data ∷ [],
    )
