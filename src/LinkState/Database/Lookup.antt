-- ===== src/LinkState/Database/Lookup.antt =====
-- The class LSDB of link_state.cpp as a map from the names of LSAs.
use ospf_lite.Base.{
  ℕ, ◌≤◌, ◌≡◌, Bool, true, ◌&&◌, ◌==◌, List, [], ◌∷◌, ◌++◌, none, some, if◌then◌else◌, find_if,
  remove_if, count_if, count_if-append, inl, inr, Option-cases, arith,
}
use ospf_lite.LinkState.{LsaHeader, LsaRouter, LsaNetwork, Lsdb}
use ospf_lite.LinkState.Header.{names}
use ospf_lite.LinkState.Database.{
  find_router_lsa, find_network_lsa, remove_router_lsa, remove_network_lsa, put_router_lsa,
  put_network_lsa, install_router_lsa, install_network_lsa, read_router_lsa, read_network_lsa,
}

-- Over router and network LSAs alike: `header` is how an element shows its header.
module _ {A : Type 0} (header : A → LsaHeader) where
  abbrev pub test : ℕ → ℕ → A → Bool
  test id router x = names id router (header x)

  pub find_if-put :
      (j r : ℕ) (x : A) (xs : List A)
      → find_if
          (test j r)
          (remove_if (test (header x).link_state_id (header x).advertising_router) xs ++ x ∷ [])
        ≡ (if names j r (header x) then some x else find_if (test j r) xs)
  find_if-put j r x [] = ground arith
  find_if-put j r x (y ∷ ys) = ground (arith, find_if-put j r x ys)

  pub count_if-put :
      (j r : ℕ) (x : A) (xs : List A)
      → count_if
          (test j r)
          (remove_if (test (header x).link_state_id (header x).advertising_router) xs ++ x ∷ [])
        ≡ (if names j r (header x) then 1 else count_if (test j r) xs)
  count_if-put j r x [] = ground arith
  count_if-put j r x (y ∷ ys) = ground (arith, count_if-put j r x ys)

  pub find_if-remove :
      (j r id router : ℕ) (xs : List A)
      → find_if (test j r) (remove_if (test id router) xs)
        ≡ (if id == j && router == r then none else find_if (test j r) xs)
  find_if-remove j r id router [] = ground arith
  find_if-remove j r id router (y ∷ ys) = ground (arith, find_if-remove j r id router ys)

  pub count_if-remove-le :
      (j r id router : ℕ) (xs : List A)
      → count_if (test j r) (remove_if (test id router) xs) ≤ count_if (test j r) xs
  count_if-remove-le j r id router [] = ground arith
  count_if-remove-le j r id router (y ∷ ys) = ground (arith, count_if-remove-le j r id router ys)

  count_if-absent :
      (j r : ℕ) (x : A) (xs : List A)
      → find_if (test (header x).link_state_id (header x).advertising_router) xs ≡ none
      → names j r (header x) ≡ true
      → count_if (test j r) xs ≡ 0
  count_if-absent j r x [] e h = ground arith
  count_if-absent j r x (y ∷ ys) e h = ground (arith, count_if-absent j r x ys)

  -- A name that is not found can be added.
  pub count_if-add-le :
      (j r : ℕ) (x : A) (xs : List A)
      → find_if (test (header x).link_state_id (header x).advertising_router) xs ≡ none
      → count_if (test j r) xs ≤ 1
      → count_if (test j r) (xs ++ x ∷ []) ≤ 1
  count_if-add-le j r x xs e h =
      ground (arith, count_if-append (test j r) xs (x ∷ []), count_if-absent j r x xs e)

abbrev pub router_header : LsaRouter → LsaHeader
router_header lsa = lsa.header

abbrev pub network_header : LsaNetwork → LsaHeader
network_header lsa = lsa.header

pub find_router_lsa-put_router_lsa :
    (j r : ℕ) (lsa : LsaRouter) (db : Lsdb)
    → find_router_lsa j r (put_router_lsa lsa db)
      ≡ (if names j r lsa.header then some lsa else find_router_lsa j r db)
unfolding find_router_lsa put_router_lsa
find_router_lsa-put_router_lsa j r lsa db = find_if-put router_header j r lsa db.router_lsas

pub find_network_lsa-put_network_lsa :
    (j r : ℕ) (lsa : LsaNetwork) (db : Lsdb)
    → find_network_lsa j r (put_network_lsa lsa db)
      ≡ (if names j r lsa.header then some lsa else find_network_lsa j r db)
unfolding find_network_lsa put_network_lsa
find_network_lsa-put_network_lsa j r lsa db = find_if-put network_header j r lsa db.network_lsas

-- Removing is exact: the named LSA is not found afterwards, and any other search is as before.
find_router_lsa-remove_router_lsa :
    (j r id router : ℕ) (db : Lsdb)
    → find_router_lsa j r (remove_router_lsa id router db)
      ≡ (if id == j && router == r then none else find_router_lsa j r db)
unfolding find_router_lsa remove_router_lsa
find_router_lsa-remove_router_lsa j r id router db =
    find_if-remove router_header j r id router db.router_lsas

pub find_network_lsa-remove_network_lsa :
    (j r id router : ℕ) (db : Lsdb)
    → find_network_lsa j r (remove_network_lsa id router db)
      ≡ (if id == j && router == r then none else find_network_lsa j r db)
unfolding find_network_lsa remove_network_lsa
find_network_lsa-remove_network_lsa j r id router db =
    find_if-remove network_header j r id router db.network_lsas

-- No name is held twice.
pub record IsUnique (db : Lsdb) : Type 0 where
  pub routers : (j r : ℕ) → count_if (test router_header j r) db.router_lsas ≤ 1
  pub networks : (j r : ℕ) → count_if (test network_header j r) db.network_lsas ≤ 1

pub put_router_lsa-IsUnique :
    (lsa : LsaRouter) (db : Lsdb) → IsUnique db → IsUnique (put_router_lsa lsa db)
unfolding put_router_lsa remove_router_lsa
put_router_lsa-IsUnique lsa db u = record {
  routers = λ j r. ground (arith, count_if-put router_header j r lsa db.router_lsas, u.routers j r);
  networks = u.networks;
}

put_network_lsa-IsUnique :
    (lsa : LsaNetwork) (db : Lsdb) → IsUnique db → IsUnique (put_network_lsa lsa db)
unfolding put_network_lsa remove_network_lsa
put_network_lsa-IsUnique lsa db u = record {
  routers = u.routers;
  networks =
      λ j r. ground (arith, count_if-put network_header j r lsa db.network_lsas, u.networks j r);
}

pub remove_network_lsa-IsUnique :
    (id router : ℕ) (db : Lsdb) → IsUnique db → IsUnique (remove_network_lsa id router db)
unfolding remove_network_lsa
remove_network_lsa-IsUnique id router db u = record {
  routers = u.routers;
  networks = λ j r.
      ground
        (arith, count_if-remove-le network_header j r id router db.network_lsas, u.networks j r);
}

pub add_router-IsUnique :
    (lsa : LsaRouter) (db : Lsdb)
    → find_router_lsa lsa.header.link_state_id lsa.header.advertising_router db ≡ none
    → IsUnique db
    → IsUnique (record db { router_lsas = db.router_lsas ++ lsa ∷ [] })
unfolding find_router_lsa
add_router-IsUnique lsa db e u = record {
  routers = λ j r. count_if-add-le router_header j r lsa db.router_lsas e (u.routers j r);
  networks = u.networks;
}

pub add_network-IsUnique :
    (lsa : LsaNetwork) (db : Lsdb)
    → find_network_lsa lsa.header.link_state_id lsa.header.advertising_router db ≡ none
    → IsUnique db
    → IsUnique (record db { network_lsas = db.network_lsas ++ lsa ∷ [] })
unfolding find_network_lsa
add_network-IsUnique lsa db e u = record {
  routers = u.routers;
  networks = λ j r. count_if-add-le network_header j r lsa db.network_lsas e (u.networks j r);
}

-- If no name of an LSA is held twice and install_router_lsa reads its LSA within the buffer, then
-- still no name is held twice, the search for the name of that LSA gives it, and every other
-- search for a router LSA gives what it gave before.
pub install_router_lsa-find :
    (bytes : List ℕ) (db : Lsdb) {new : Lsdb}
    → IsUnique db
    → install_router_lsa bytes db ≡ some new
    → IsUnique new
      × ((lsa : LsaRouter) × (read_router_lsa bytes ≡ some lsa)
          × ((j r : ℕ)
              → find_router_lsa j r new
                ≡ (if names j r lsa.header then some lsa else find_router_lsa j r db)))
unfolding install_router_lsa
install_router_lsa-find bytes db {new} u e = elim (Option-cases (read_router_lsa bytes)) [
  | inl failed ↦ cc failed
  | inr (lsa, got) ↦
      let made : put_router_lsa lsa db ≡ new = ground arith in
      rw (← made) (
        put_router_lsa-IsUnique lsa db u,
        (lsa, got, λ j r. find_router_lsa-put_router_lsa j r lsa db),
      )
]

-- If no name of an LSA is held twice and install_network_lsa reads its LSA within the buffer,
-- then still no name is held twice, the search for the name of that LSA gives it, and every other
-- search for a network LSA gives what it gave before.
pub install_network_lsa-find :
    (unset : ℕ) (bytes : List ℕ) (db : Lsdb) {new : Lsdb}
    → IsUnique db
    → install_network_lsa unset bytes db ≡ some new
    → IsUnique new
      × ((lsa : LsaNetwork) × (read_network_lsa unset bytes ≡ some lsa)
          × ((j r : ℕ)
              → find_network_lsa j r new
                ≡ (if names j r lsa.header then some lsa else find_network_lsa j r db)))
unfolding install_network_lsa
install_network_lsa-find unset bytes db {new} u e =
    elim (Option-cases (read_network_lsa unset bytes)) [
      | inl failed ↦ cc failed
      | inr (lsa, got) ↦
          let made : put_network_lsa lsa db ≡ new = ground arith in
          rw (← made) (
            put_network_lsa-IsUnique lsa db u,
            (lsa, got, λ j r. find_network_lsa-put_network_lsa j r lsa db),
          )
    ]
