-- ===== src/LinkState/Database/RoundTrip.antt =====
-- The install methods of link_state.cpp on the bytes that the sending code writes.
use ospf_lite.Base.{
  ℕ, suc, ◌+◌, ◌*◌, ◌-◌, ◌≤◌, ◌/◌, ◌%◌, ◌∙◌, ◌<◌, ◌≡◌, refl, List, [], ◌∷◌, ◌++◌, some, length, All,
  htons-htons, htonl-htonl, htons-lt, htonl-lt, append_assoc, bytes32, u8, htons, htonl, arith,
}
use ospf_lite.LinkState.{LsaHeader, IsHeader, LsaRouterLink, LsaRouter, LsaNetwork}
use ospf_lite.LinkState.Header.{ntoh, hton}
use ospf_lite.LinkState.Header.Swap.{ntoh-hton, hton-IsHeader}
use ospf_lite.LinkState.Wire.{
  load_header, store_header, store_link, store_links, router_flags, store_router, store_ids,
  store_network,
}
use ospf_lite.LinkState.Wire.Loads.{join16, join32, load_header-store_header}
use ospf_lite.LinkState.Database.{read_links, read_router_lsa, read_attached, read_network_lsa}

pub record IsLink (l : LsaRouterLink) : Type 0 where
  pub id_fits : l.link_id < 4294967296
  pub data_fits : l.link_data < 4294967296
  pub type_fits : l.type < 256
  pub tos_fits : l.tos_num < 256
  pub metric_fits : l.metric < 65536

read_links-store_link :
    (i : ℕ) (l : LsaRouterLink) (rest : List ℕ) {links : List LsaRouterLink}
    → IsLink l
    → read_links i rest ≡ some links
    → read_links (suc i) (store_link l ++ rest) ≡ some (l ∷ links)
unfolding read_links store_link
read_links-store_link i l rest v e = ground (
  arith,
  join32 (htonl l.link_id),
  join32 (htonl l.link_data),
  join16 (htons l.metric),
  htonl-lt l.link_id,
  htonl-lt l.link_data,
  htons-lt l.metric,
  htonl-htonl l.link_id,
  htonl-htonl l.link_data,
  htons-htons l.metric,
)

read_links-store_links :
    (ls : List LsaRouterLink) (rest : List ℕ)
    → All IsLink ls
    → read_links (length ls) (store_links ls ++ rest) ≡ some ls
unfolding store_links
read_links-store_links [] rest h = unfold read_links in refl
read_links-store_links (l ∷ ls) rest h =
    rw append_assoc (read_links-store_link (length ls) l _ h.0 (read_links-store_links ls rest h.1))

-- A router LSA whose fields fit and whose link count is that of its links.
pub record IsRouterLsa (lsa : LsaRouter) : Type 0 where
  pub header_fits : IsHeader lsa.header
  pub v_bit : lsa.b_v < 2
  pub e_bit : lsa.b_e < 2
  pub b_bit : lsa.b_b < 2
  pub counted : lsa.links_num ≡ length lsa.links
  pub num_fits : lsa.links_num < 65536
  pub links_fit : All IsLink lsa.links

router_flags-bits :
    (lsa : LsaRouter)
    → lsa.b_v < 2
    → lsa.b_e < 2
    → lsa.b_b < 2
    → (router_flags lsa / 32 % 2 ≡ lsa.b_v)
      × (router_flags lsa / 64 % 2 ≡ lsa.b_e)
      × (router_flags lsa / 128 % 2 ≡ lsa.b_b)
unfolding router_flags
router_flags-bits lsa v e b = (omega arith, omega arith, omega arith)

read_router_lsa-parts :
    (bytes : List ℕ) (header_net : LsaHeader) (flags unused a b : ℕ) (tail : List ℕ)
    (links : List LsaRouterLink)
    → load_header bytes ≡ some (header_net, flags ∷ unused ∷ a ∷ b ∷ tail)
    → read_links (htons (a + b * 256)) tail ≡ some links
    → read_router_lsa bytes
      ≡ some (record {
        header = ntoh header_net;
        zero0 = 0;
        b_v = flags / 32 % 2;
        b_e = flags / 64 % 2;
        b_b = flags / 128 % 2;
        zero1 = 0;
        links_num = htons (a + b * 256);
        links = links;
      })
unfolding read_router_lsa
read_router_lsa-parts bytes header_net flags unused a b tail links h k = ground arith

store_router-append :
    (header : LsaHeader) (lsa : LsaRouter) (rest : List ℕ)
    → store_router header lsa ++ rest
      ≡ store_header header
        ++ (router_flags lsa
            ∷ u8 lsa.zero1
            ∷ htons lsa.links_num % 256
            ∷ htons lsa.links_num / 256 % 256
            ∷ (store_links lsa.links ++ rest))
unfolding store_router
store_router-append header lsa rest = refl

swapped_count : (n : ℕ) → n < 65536 → htons (htons n % 256 + htons n / 256 % 256 * 256) ≡ n
swapped_count n h = rw (join16 (htons n) (htons-lt n)) (htons-htons n h)

-- Behind any header.
pub read_router_lsa-store :
    (net : LsaHeader) (lsa : LsaRouter) (rest : List ℕ)
    → IsHeader net
    → IsRouterLsa lsa
    → read_router_lsa (store_router net lsa ++ rest)
      ≡ some (record lsa { header = ntoh net; zero0 = 0; zero1 = 0 })
read_router_lsa-store net lsa rest fits v = rw (store_router-append net lsa rest) (
    read_router_lsa-parts _ net (router_flags lsa) (u8 lsa.zero1) _ _
      (store_links lsa.links ++ rest) lsa.links (load_header-store_header net _ fits)
      (rw (swapped_count _ v.num_fits, v.counted)
        (read_links-store_links lsa.links rest v.links_fit))
    ∙ ground (
      arith,
      router_flags-bits lsa v.v_bit v.e_bit v.b_bit,
      swapped_count lsa.links_num v.num_fits,
    ))

-- If the fields of a router LSA fit their widths and its link count is the number of its links,
-- then install_router_lsa reads from the bytes that the sending code writes for it, with anything
-- behind them, the same LSA with the age and the two unused fields cleared.
pub read_router_lsa-store_router :
    (lsa : LsaRouter) (rest : List ℕ)
    → IsRouterLsa lsa
    → read_router_lsa (store_router (hton lsa.header) lsa ++ rest)
      ≡ some (record lsa { header = record lsa.header { ls_age = 0 }; zero0 = 0; zero1 = 0 })
read_router_lsa-store_router lsa rest v =
    read_router_lsa-store (hton lsa.header) lsa rest (hton-IsHeader lsa.header v.header_fits) v
    ∙ ground (arith, ntoh-hton lsa.header v.header_fits)

read_attached-store_ids :
    (n : ℕ) (ids : List ℕ) (rest : List ℕ)
    → n ≡ 4 * length ids
    → All (λ id. id < 4294967296) ids
    → read_attached n (store_ids ids ++ rest) ≡ some ids
unfolding read_attached store_ids
read_attached-store_ids n [] rest e h = let e' : n ≡ 0 = omega arith in rw e'
read_attached-store_ids n (id ∷ ids) rest e h =
    let e' : n ≡ suc (suc (suc (suc (4 * length ids)))) = omega arith in
    rw e' (
      ground (
        arith,
        join32 (htonl id) (htonl-lt id),
        htonl-htonl id h.0,
        read_attached-store_ids (4 * length ids) ids rest refl h.1,
      ))

pub record IsNetworkLsa (lsa : LsaNetwork) : Type 0 where
  pub header_fits : IsHeader lsa.header
  pub mask_fits : lsa.network_mask < 4294967296
  pub routers_fit : All (λ id. id < 4294967296) lsa.attached_routers
  pub measured : lsa.header.length ≡ 24 + 4 * length lsa.attached_routers

read_network_lsa-parts :
    (unset : ℕ) (bytes : List ℕ) (header_net : LsaHeader) (a b c d : ℕ) (tail routers : List ℕ)
    → load_header bytes ≡ some (header_net, a ∷ b ∷ c ∷ d ∷ tail)
    → 24 ≤ htons header_net.length
    → read_attached (htons header_net.length - 24) tail ≡ some routers
    → read_network_lsa unset bytes
      ≡ some (record { header = ntoh header_net; network_mask = unset; attached_routers = routers })
unfolding read_network_lsa
read_network_lsa-parts unset bytes header_net a b c d tail routers h l k = ground arith

store_network-append :
    (header : LsaHeader) (lsa : LsaNetwork) (rest : List ℕ)
    → store_network header lsa ++ rest
      ≡ store_header header
        ++ (bytes32 (htonl lsa.network_mask) ++ (store_ids lsa.attached_routers ++ rest))
unfolding store_network
store_network-append header lsa rest = refl

-- If the fields of a network LSA fit their widths and its length is 24 plus four for each
-- attached router, then install_network_lsa reads from the bytes that the sending code writes for
-- it, with anything behind them, the same LSA with the age cleared and the mask left at what the
-- new object held.
pub read_network_lsa-store_network :
    (unset : ℕ) (lsa : LsaNetwork) (rest : List ℕ)
    → IsNetworkLsa lsa
    → read_network_lsa unset (store_network (hton lsa.header) lsa ++ rest)
      ≡ some (record lsa { header = record lsa.header { ls_age = 0 }; network_mask = unset })
read_network_lsa-store_network unset lsa rest v =
    rw (store_network-append (hton lsa.header) lsa rest) (
      read_network_lsa-parts unset _ (hton lsa.header) _ _ _ _
        (store_ids lsa.attached_routers ++ rest) lsa.attached_routers
        (load_header-store_header (hton lsa.header) _ (hton-IsHeader lsa.header v.header_fits))
        (omega (arith, len))
        (read_attached-store_ids _ lsa.attached_routers rest (omega (arith, len)) v.routers_fit)
      ∙ ground (arith, ntoh-hton lsa.header v.header_fits))
  where
    len : htons (hton lsa.header).length ≡ lsa.header.length
    len = unfold hton in htons-htons lsa.header.length v.header_fits.length_fits
