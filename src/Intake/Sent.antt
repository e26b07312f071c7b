-- ===== src/Intake/Sent.antt =====
-- The bytes of update_lsas in lsa.cpp, as the LSU handler of ospf.cpp checks them.
use ospf_lite.Base.{
  ℕ, ◌+◌, ◌<◌, ◌≡◌, ◌∙◌, true, ◌&&◌, List, ◌++◌, some, leb, u16, htons, Option-cases, inl, inr,
  arith,
}
use ospf_lite.Base.Outcome.{done}
use ospf_lite.LinkState.{LsaHeader, LsaRouter, IsHeader}
use ospf_lite.LinkState.Wire.{store_router}
use ospf_lite.Checksum.{lsa_checksum}
use ospf_lite.Checksum.Fields.{lsa_checksum-fields, lsa_checksum-append}
use ospf_lite.Lsa.{finish_lsa}
use ospf_lite.Intake.{is_intact}

-- The header of a finished LSA, with its age and checksum.
abbrev pub finished : LsaHeader → ℕ → ℕ → LsaHeader
finished net age checksum = record net { ls_age = age; ls_checksum = checksum }

-- What the sender writes.
pub finish_lsa-eq-done :
    (lsa : LsaRouter) (net : LsaHeader) (delay : ℕ) {bytes : List ℕ}
    → finish_lsa (λ h. store_router h lsa) net delay ≡ done bytes
    → (c : ℕ) × (lsa_checksum (store_router net lsa) (htons net.length) ≡ some c)
      × (bytes ≡ store_router (finished net (htons (u16 (htons net.ls_age + delay))) (htons c)) lsa)
unfolding finish_lsa
finish_lsa-eq-done lsa net delay e =
    elim (Option-cases (lsa_checksum (store_router net lsa) (htons net.length))) [
      | inl f ↦ cc (rw (f, finish_lsa) at e)
      | inr (c, f) ↦ (c, f, ground (arith, rw (f, finish_lsa) at e))
    ]

pub finished-IsHeader :
    (net : LsaHeader) (age checksum : ℕ)
    → IsHeader net
    → age < 65536
    → checksum < 65536
    → IsHeader (finished net age checksum)
finished-IsHeader net age checksum v h k = record {
  age_fits = h;
  options_fits = v.options_fits;
  type_fits = v.type_fits;
  id_fits = v.id_fits;
  router_fits = v.router_fits;
  seq_fits = v.seq_fits;
  checksum_fits = k;
  length_fits = v.length_fits;
}

checksum-finished :
    (lsa : LsaRouter) (net : LsaHeader) (age checksum len : ℕ) (rest : List ℕ) {c : ℕ}
    → lsa_checksum (store_router net lsa) len ≡ some c
    → lsa_checksum (store_router (finished net age checksum) lsa ++ rest) len ≡ some c
unfolding store_router
checksum-finished lsa net age checksum len rest e =
    lsa_checksum-append (store_router (finished net age checksum) lsa) rest len
      (lsa_checksum-fields net age checksum _ len ∙ e)

-- The receiver finds the checksum right.
pub is_intact-finished :
    (lsa : LsaRouter) (net : LsaHeader) (age c : ℕ) (rest : List ℕ)
    → lsa_checksum (store_router net lsa) (htons net.length) ≡ some c
    → (leb 1 net.ls_type && leb net.ls_type 5) ≡ true
    → is_intact (finished net age (htons c)) (store_router (finished net age (htons c)) lsa ++ rest)
      ≡ done true
unfolding is_intact
is_intact-finished lsa net age c rest e type =
    rw (checksum-finished lsa net age (htons c) (htons net.length) rest e, is_intact) (ground arith)
