-- ===== src/LinkState/Database.antt =====
-- link_state.cpp: the methods of LSDB, and the loop body of lsdb_aging_thread.
pub mod Lookup
pub mod RoundTrip
pub mod Aging
use ospf_lite.Base.{
  ℕ, zero, suc, ◌+◌, ◌-◌, ◌*◌, List, [], ◌∷◌, ◌++◌, map, Option, none, some, Bool, htons, htonl,
  ltb, if◌then◌else◌, find_if, remove_if, drop, ◌%◌, ◌/◌,
}
use ospf_lite.LinkState.{LsaHeader, LsaRouterLink, LsaRouter, LsaNetwork, Lsdb}
use ospf_lite.LinkState.Header.{ntoh, names}
use ospf_lite.LinkState.Wire.{◌>>=◌, load8, load16, load32, load_header, load_link}

unfoldable pub find_router_lsa : ℕ → ℕ → Lsdb → Option LsaRouter
find_router_lsa link_state_id advertising_router db =
    find_if (λ lsa. names link_state_id advertising_router lsa.header) db.router_lsas

unfoldable pub find_network_lsa : ℕ → ℕ → Lsdb → Option LsaNetwork
find_network_lsa link_state_id advertising_router db =
    find_if (λ lsa. names link_state_id advertising_router lsa.header) db.network_lsas

unfoldable pub remove_router_lsa : ℕ → ℕ → Lsdb → Lsdb
remove_router_lsa link_state_id advertising_router db = record db {
  router_lsas = remove_if (λ lsa. names link_state_id advertising_router lsa.header) db.router_lsas;
}

unfoldable pub remove_network_lsa : ℕ → ℕ → Lsdb → Lsdb
remove_network_lsa link_state_id advertising_router db = record db {
  network_lsas =
      remove_if (λ lsa. names link_state_id advertising_router lsa.header) db.network_lsas;
}

-- The loop over `links_num` links of `install_router_lsa`.
unfoldable pub read_links : ℕ → List ℕ → Option (List LsaRouterLink)
unfolding load_link
read_links zero bytes = some []
read_links (suc i) bytes = do
  (link_net, rest) ← load_link bytes
  links ← read_links i rest
  some (
      record link_net {
        link_id = htonl link_net.link_id;
        link_data = htonl link_net.link_data;
        metric = htons link_net.metric;
      }
      ∷ links)

-- The router LSA that `install_router_lsa` builds from the bytes at `data`.
unfoldable pub read_router_lsa : List ℕ → Option LsaRouter
unfolding load8 load16 read_links
read_router_lsa bytes = do
  (header_net, r1) ← load_header bytes
  (flags, r2) ← load8 r1
  (zero1, r3) ← load8 r2
  (links_num, r4) ← load16 r3
  links ← read_links (htons links_num) r4
  some (record {
    header = ntoh header_net;
    zero0 = 0;
    b_v = flags / 32 % 2;
    b_e = flags / 64 % 2;
    b_b = flags / 128 % 2;
    zero1 = 0;
    links_num = htons links_num;
    links = links;
  })

unfoldable pub put_router_lsa : LsaRouter → Lsdb → Lsdb
unfolding remove_router_lsa
put_router_lsa lsa db =
    let cleared = remove_router_lsa lsa.header.link_state_id lsa.header.advertising_router db in
    record cleared { router_lsas = cleared.router_lsas ++ lsa ∷ [] }

-- `none` stands for a read past the end of the buffer.
unfoldable pub install_router_lsa : List ℕ → Lsdb → Option Lsdb
unfolding read_router_lsa put_router_lsa
install_router_lsa bytes db = do lsa ← read_router_lsa bytes; some (put_router_lsa lsa db)

-- The loop from `network_router` to `network_router_end`, with the distance in bytes that is left:
-- the two pointers are compared by `!=`, so a distance that is no multiple of 4 runs off the buffer.
unfoldable pub read_attached : ℕ → List ℕ → Option (List ℕ)
read_attached zero bytes = some []
read_attached (suc (suc (suc (suc n)))) (a ∷ b ∷ c ∷ d ∷ rest) = do
  routers ← read_attached n rest
  some (htonl (a + b * 256 + c * 65536 + d * 16777216) ∷ routers)
read_attached _ _ = none

-- The network LSA that `install_network_lsa` builds. The function never writes `network_mask`:
-- `unset` is what the new object holds there.
unfoldable pub read_network_lsa : ℕ → List ℕ → Option LsaNetwork
unfolding load32 read_attached
read_network_lsa unset bytes = do
  (header_net, r1) ← load_header bytes
  (_, r2) ← load32 r1
  routers ←
      if ltb (htons header_net.length) 24
      then none
      else read_attached (htons header_net.length - 24) r2
  some (record { header = ntoh header_net; network_mask = unset; attached_routers = routers })

unfoldable pub put_network_lsa : LsaNetwork → Lsdb → Lsdb
unfolding remove_network_lsa
put_network_lsa lsa db =
    let cleared = remove_network_lsa lsa.header.link_state_id lsa.header.advertising_router db in
    record cleared { network_lsas = cleared.network_lsas ++ lsa ∷ [] }

unfoldable pub install_network_lsa : ℕ → List ℕ → Lsdb → Option Lsdb
unfolding read_network_lsa put_network_lsa
install_network_lsa unset bytes db = do
  lsa ← read_network_lsa unset bytes
  some (put_network_lsa lsa db)

abbrev pub age_header : LsaHeader → LsaHeader
age_header h = if ltb h.ls_age 0xff then record h { ls_age = h.ls_age + 1 } else h

abbrev pub age_router : LsaRouter → LsaRouter
age_router lsa = record lsa { header = age_header lsa.header }

abbrev pub age_network : LsaNetwork → LsaNetwork
age_network lsa = record lsa { header = age_header lsa.header }

-- One round of the aging loop, on the database that the thread is meant to age.
unfoldable pub aging_round : Lsdb → Lsdb
aging_round db = record {
  router_lsas = map age_router db.router_lsas;
  network_lsas = map age_network db.network_lsas;
}
