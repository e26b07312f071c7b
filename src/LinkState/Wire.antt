-- ===== src/LinkState/Wire.antt =====
-- Structures in memory: the loads and stores that the casts of link_state.cpp, lsa.cpp and ospf.cpp
-- make on a little-endian host. A load past the end of the buffer is `none`.
pub mod Loads
use ospf_lite.Base.{
  ℕ, ◌+◌, ◌*◌, ◌%◌, ◌/◌, List, [], ◌∷◌, ◌++◌, Option, none, some, bytes16, bytes32, htons, htonl,
  u8,
}
use ospf_lite.LinkState.{LsaHeader, LsaRouterLink, LsaRouter, LsaNetwork}
use ospf_lite.LinkState.Header.{hton}

infixl 5 ◌>>=◌
abbrev pub ◌>>=◌ {ℓ κ} : {A : Type ℓ} {B : Type κ} → Option A → (A → Option B) → Option B
none >>= f = none
some a >>= f = f a

unfoldable pub load8 : List ℕ → Option (ℕ × List ℕ)
load8 [] = none
load8 (a ∷ r) = some (a, r)

unfoldable pub load16 : List ℕ → Option (ℕ × List ℕ)
load16 (a ∷ b ∷ r) = some (a + b * 256, r)
load16 _ = none

unfoldable pub load32 : List ℕ → Option (ℕ × List ℕ)
load32 (a ∷ b ∷ c ∷ d ∷ r) = some (a + b * 256 + c * 65536 + d * 16777216, r)
load32 _ = none

-- `*(LSAHeader*)ptr`, 20 bytes.
unfoldable pub load_header : List ℕ → Option (LsaHeader × List ℕ)
unfolding load8 load16 load32
load_header bytes = do
  (age, r1) ← load16 bytes
  (options, r2) ← load8 r1
  (type, r3) ← load8 r2
  (id, r4) ← load32 r3
  (router, r5) ← load32 r4
  (seq, r6) ← load32 r5
  (checksum, r7) ← load16 r6
  (len, r8) ← load16 r7
  some (
    record {
      ls_age = age;
      options = options;
      ls_type = type;
      link_state_id = id;
      advertising_router = router;
      ls_seq_num = seq;
      ls_checksum = checksum;
      length = len;
    },
    r8,
  )

-- `*(LSARouterLink*)ptr`, 12 bytes.
unfoldable pub load_link : List ℕ → Option (LsaRouterLink × List ℕ)
unfolding load8 load16 load32
load_link bytes = do
  (id, r1) ← load32 bytes
  (link_data, r2) ← load32 r1
  (type, r3) ← load8 r2
  (tos, r4) ← load8 r3
  (metric, r5) ← load16 r4
  some (
    record { link_id = id; link_data = link_data; type = type; tos_num = tos; metric = metric },
    r5,
  )

-- The 20 bytes of a header as they lie in memory.
unfoldable pub store_header : LsaHeader → List ℕ
store_header h =
    bytes16 h.ls_age
    ++ (u8 h.options ∷ u8 h.ls_type ∷ [])
    ++ bytes32 h.link_state_id
    ++ bytes32 h.advertising_router
    ++ bytes32 h.ls_seq_num
    ++ bytes16 h.ls_checksum
    ++ bytes16 h.length

-- The link that the sending loops write: the swaps, then the 12 bytes.
unfoldable pub store_link : LsaRouterLink → List ℕ
store_link link =
    bytes32 (htonl link.link_id)
    ++ bytes32 (htonl link.link_data)
    ++ (u8 link.type ∷ u8 link.tos_num ∷ [])
    ++ bytes16 (htons link.metric)

unfoldable pub store_links : List LsaRouterLink → List ℕ
unfolding store_link
store_links [] = []
store_links (link ∷ links) = store_link link ++ store_links links

-- The flag byte: the bit-fields fill it from the low bit, zero0 in the low five.
unfoldable pub router_flags : LsaRouter → ℕ
router_flags lsa = lsa.zero0 % 32 + lsa.b_v % 2 * 32 + lsa.b_e % 2 * 64 + lsa.b_b % 2 * 128

-- A router LSA behind the header `header`, which is in network order already.
unfoldable pub store_router : LsaHeader → LsaRouter → List ℕ
unfolding store_header store_links router_flags
store_router header lsa =
    store_header header
    ++ (router_flags lsa ∷ u8 lsa.zero1 ∷ [])
    ++ bytes16 (htons lsa.links_num)
    ++ store_links lsa.links

unfoldable pub store_ids : List ℕ → List ℕ
store_ids [] = []
store_ids (id ∷ ids) = bytes32 (htonl id) ++ store_ids ids

-- A network LSA behind the header `header`, which is in network order already.
unfoldable pub store_network : LsaHeader → LsaNetwork → List ℕ
unfolding store_header store_ids
store_network header lsa =
    store_header header ++ bytes32 (htonl lsa.network_mask) ++ store_ids lsa.attached_routers
