-- ===== src/System/Sound.antt =====
-- The state of the router as a whole: its interfaces and its database.
use ospf_lite.Base.{ℕ, ◌≡◌, List, some, All}
use ospf_lite.Effect.{Effect}
use ospf_lite.LinkState.{Lsdb}
use ospf_lite.LinkState.Database.Lookup.{IsUnique}
use ospf_lite.Neighbor.{Neighbor}
use ospf_lite.Interface.{Interface, find_neighbor}
use ospf_lite.Interface.Events.Consistent.{IsConsistent}
use ospf_lite.Receive.Keeps.{found-facts, with_neighbor-IsConsistent}
use ospf_lite.Area.{Router, emit}
use ospf_lite.Lsa.Adjacency.{with_neighbor}
use ospf_lite.System.Neighbors.{IsFit}

-- Every interface of the area is consistent, and no name of an LSA is held twice.
pub record IsSound (r : Router) : Type 0 where
  pub before : All IsConsistent r.before
  pub own : IsConsistent r.interface
  pub after : All IsConsistent r.after
  pub unique : IsUnique r.lsdb

pub emit-IsSound : (effects : List Effect) (r : Router) → IsSound r → IsSound (emit effects r)
emit-IsSound effects r s = record {
  before = s.before;
  own = s.own;
  after = s.after;
  unique = s.unique;
}

pub interface-IsSound :
    (r : Router) (i : Interface) → IsSound r → IsConsistent i → IsSound (record r { interface = i })
interface-IsSound r i s c = record {
  before = s.before;
  own = c;
  after = s.after;
  unique = s.unique;
}

pub lsdb-IsSound :
    (r : Router) (db : Lsdb) → IsSound r → IsUnique db → IsSound (record r { lsdb = db })
lsdb-IsSound r db s u = record { before = s.before; own = s.own; after = s.after; unique = u }

pub with_neighbor-IsSound :
    (r : Router) (n : Neighbor) → IsSound r → IsFit r.interface n → IsSound (with_neighbor n r)
with_neighbor-IsSound r n s fit =
    interface-IsSound r _ s (with_neighbor-IsConsistent r.interface n s.own fit.0 fit.1)

pub found-IsFit :
    (r : Router) (ip : ℕ) {n : Neighbor}
    → IsSound r
    → find_neighbor ip r.interface ≡ some n
    → IsFit r.interface n
found-IsFit r ip s e =
    let (orderly, apart, _) = found-facts r.interface ip s.own e in (orderly, apart)
