-- ===== src/Area.antt =====
-- include/area.h and main.cpp: the area and the process around it. The interfaces of the area are
-- `before`, the one that the threads work on, and `after`, in the order of the source's vector.
use Prim.Native.Nat.{bit_and}
use ospf_lite.Base.{ℕ, ◌-◌, Bool, List, [], ◌∷◌, ◌++◌, ◌==◌, if◌then◌else◌}
use ospf_lite.Config.{GlobalConfig}
use ospf_lite.Effect.{Effect}
use ospf_lite.LinkState.{Lsdb}
use ospf_lite.Interface.{Interface}

pub record OspfNetwork : Type 0 where
  pub ip : ℕ
  pub wildcard_mask : ℕ

pub record Router : Type 0 where
  pub config : GlobalConfig
  pub area_id : ℕ
  pub lsdb : Lsdb
  pub before : List Interface
  pub interface : Interface
  pub after : List Interface
  pub trace : List Effect

-- `area->interfaces`.
abbrev pub area_interfaces : Router → List Interface
area_interfaces r = r.before ++ r.interface ∷ r.after

abbrev pub emit : List Effect → Router → Router
emit effects r = record r { trace = r.trace ++ effects }

-- `~x` of a uint32_t.
abbrev pub complement32 : ℕ → ℕ
complement32 x = 4294967295 - x

-- The test of `main` that puts an interface into the area of a network.
unfoldable pub belongs : OspfNetwork → Interface → Bool
belongs network i =
    bit_and i.ip_interface_address i.ip_interface_mask
    == bit_and network.ip (complement32 network.wildcard_mask)

-- The loop of `main`: the interfaces that become members of the area. The `area` pointer of the
-- others stays null.
unfoldable members : OspfNetwork → List Interface → List Interface
unfolding belongs
members network [] = []
members network (i ∷ is) = if belongs network i then i ∷ members network is else members network is
