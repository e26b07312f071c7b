-- ===== src/Receive/Heard.antt =====
-- The Hello of the sending thread of ospf.cpp, as the receiving thread reads it.
use ospf_lite.Base.{
  ℕ, ◌+◌, ◌-◌, ◌<◌, ◌≡◌, refl, ap, Bool, false, not, ◌&&◌, List, [], ◌∷◌, ◌++◌, some, ◌==◌, any,
  All, length, drop, htonl, htonl-lt, htonl-htonl, ltb, Bool-cases, inl, inr, arith,
}
use ospf_lite.Config.{GlobalConfig}
use ospf_lite.LinkState.Wire.Loads.{join32}
use ospf_lite.Neighbor.{NeighborState, Neighbor, is}
use ospf_lite.Interface.{Interface}
use ospf_lite.Packet.{heard_ids, hello_body}
use ospf_lite.Receive.{find_own_id, lists_own_id}

-- The neighbor that has the identifier and is not Down.
abbrev pub hears : ℕ → Neighbor → Bool
hears id n = not (is n.state NeighborState.down) && n.id == id

same_id : (a b : ℕ) → a < 4294967296 → b < 4294967296 → (htonl a == htonl b) ≡ (a == b)
same_id a b h k = ground (arith, htonl-htonl a h, htonl-htonl b k, ap htonl)

find_own_id-heard_ids :
    (id : ℕ) (ns : List Neighbor) (rest : List ℕ)
    → id < 4294967296
    → All (λ n. n.id < 4294967296) ns
    → find_own_id id (length (heard_ids ns)) (heard_ids ns ++ rest) ≡ some (any (hears id) ns)
unfolding find_own_id heard_ids
find_own_id-heard_ids id [] rest h k = refl
find_own_id-heard_ids id (n ∷ ns) rest h k = elim (Bool-cases (is n.state NeighborState.down)) [
  | inl gone ↦ rw (gone, heard_ids) (find_own_id-heard_ids id ns rest h k.1)
  | inr there ↦
      rw (there, heard_ids)
        (rw
          (
            join32 (htonl n.id) (htonl-lt n.id),
            same_id n.id id k.0 h,
            find_own_id-heard_ids id ns rest h k.1,
          )
          (ground arith))
]

hello_body-list :
    (config : GlobalConfig) (i : Interface)
    → (drop 20 (hello_body config i) ≡ heard_ids i.neighbors)
      × (length (hello_body config i) ≡ 20 + length (heard_ids i.neighbors))
unfolding hello_body
hello_body-list config i = (refl, ground arith)

-- If an identifier and those of the neighbors of a sender fit 32 bits, then a receiver with that
-- identifier finds itself in the Hello of the sender, read from the packet length that the sender
-- gives, with anything behind it, exactly if a neighbor of the sender that is not Down has that
-- identifier.
pub lists_own_id-hello_body :
    (id : ℕ) (config : GlobalConfig) (i : Interface) (rest : List ℕ)
    → id < 4294967296
    → All (λ n. n.id < 4294967296) i.neighbors
    → lists_own_id id (length (hello_body config i) + 24) (drop 20 (hello_body config i) ++ rest)
      ≡ some (any (hears id) i.neighbors)
unfolding lists_own_id
lists_own_id-hello_body id config i rest h k =
    let list = hello_body-list config i in
    let enough : ltb (length (hello_body config i) + 24) 44 ≡ false = ground arith in
    let size : length (hello_body config i) + 24 - 44 ≡ length (heard_ids i.neighbors) =
      omega (arith, list.1) in
    rw (enough, size, list.0) (find_own_id-heard_ids id i.neighbors rest h k)
