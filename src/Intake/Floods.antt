-- ===== src/Intake/Floods.antt =====
-- The flooding of the LSU handler of ospf.cpp: where it returns.
use ospf_lite.Base.{
  ℕ, ◌+◌, ◌≤◌, ◌≡◌, refl, Bool, true, false, not, ◌||◌, ◌&&◌, List, [], ◌∷◌, ◌++◌, some, ◌==◌, leb,
  length, arith, ℤ, negsuc, if◌then◌else◌,
}
use ospf_lite.Base.Outcome.{Outcome, done}
use ospf_lite.Effect.{Effect}
use ospf_lite.LinkState.{LsaHeader}
use ospf_lite.LinkState.Header.{ntoh}
use ospf_lite.LinkState.Wire.{load_header}
use ospf_lite.Interface.{Interface, InterfaceState}
use ospf_lite.Interface
use ospf_lite.Area.{Router}
use ospf_lite.Flooding.{flood_lsa, flooding_lsa, flood_neighbors}
use ospf_lite.Intake.{flood_all, flood_area}

if-done :
    {A : Type 0} (b : Bool) (x : A) (o : Outcome A)
    → ((a : A) × (o ≡ done a))
    → (a : A) × ((if b then done x else o) ≡ done a)
if-done true x o h = (x, refl)
if-done false x o h = h

flood_lsa-done :
    (h : LsaHeader) (bytes : List ℕ) (src : ℕ) (i : Interface)
    → 4 + h.length ≤ 1024
    → h.length ≤ length bytes
    → (out : Interface × ℤ × List Effect) × (flood_lsa h bytes src i ≡ done out)
unfolding flood_lsa
flood_lsa-done h bytes src i fits held =
    let test : (leb (4 + h.length) 1024 && leb h.length (length bytes)) ≡ true = ground arith in
    if-done (h.ls_type == 5) (i, negsuc 0, []) _
      (if-done
        (not (flood_neighbors h src i.neighbors).1
          || src == i.dr
          || src == i.bdr
          || Interface.is i.state InterfaceState.backup)
        _ _ (rw test (_, refl)))

flooding_lsa-done :
    (bytes : List ℕ) (src : ℕ) (i : Interface) {net : LsaHeader} {rest : List ℕ}
    → load_header bytes ≡ some (net, rest)
    → 4 + (ntoh net).length ≤ 1024
    → (ntoh net).length ≤ length bytes
    → (out : Interface × ℤ × List Effect) × (flooding_lsa bytes src i ≡ done out)
unfolding flooding_lsa
flooding_lsa-done bytes src i {net} e fits held =
    rw (e, flooding_lsa) (flood_lsa-done (ntoh net) bytes src i fits held)

flood_all-done :
    (bytes : List ℕ) (src : ℕ) (is : List Interface) {net : LsaHeader} {rest : List ℕ}
    → load_header bytes ≡ some (net, rest)
    → 4 + (ntoh net).length ≤ 1024
    → (ntoh net).length ≤ length bytes
    → (out : List Interface × List Effect) × (flood_all bytes src is ≡ done out)
unfolding flood_all
flood_all-done bytes src [] e fits held = (_, refl)
flood_all-done bytes src (i ∷ is) e fits held =
    let (one, f) = flooding_lsa-done bytes src i e fits held in
    let (later, g) = flood_all-done bytes src is e fits held in
    ((one.0 ∷ later.0, one.2 ++ later.1), rw (f, g, flood_all))

-- An LSA that fits the buffers is flooded, and the database is not touched.
pub flood_area-done :
    (bytes : List ℕ) (src : ℕ) (r : Router) {net : LsaHeader} {rest : List ℕ}
    → load_header bytes ≡ some (net, rest)
    → 4 + (ntoh net).length ≤ 1024
    → (ntoh net).length ≤ length bytes
    → (out : Router × Bool) × (flood_area bytes src r ≡ done out) × (out.0.lsdb ≡ r.lsdb)
unfolding flood_area
flood_area-done bytes src r e fits held =
    let (before, f) = flood_all-done bytes src r.before e fits held in
    let (own, g) = flooding_lsa-done bytes src r.interface e fits held in
    let (after, k) = flood_all-done bytes src r.after e fits held in
    rw (f, g, k, flood_area) (_, refl, refl)
