-- ===== src/System/Boot.antt =====
-- main of main.cpp: the interfaces that print their area.
use Prim.Native.Nat.{bit_and}
use ospf_lite.Base.{ℕ, Bool, ◌≡◌, ◌≢◌, ◌<◌, refl, true, false, ◌&&◌, ◌==◌, arith, if◌then◌else◌}
use ospf_lite.Base.Outcome.{done, crash, null_pointer}
use ospf_lite.Config.{config_init}
use ospf_lite.Area.{OspfNetwork, Router, belongs, complement32}
use ospf_lite.System.{boot, loopback_interface, interface_init}

complement32-twice : (mask : ℕ) → mask < 4294967296 → complement32 (complement32 mask) ≡ mask
complement32-twice mask h = omega arith

abbrev network : ℕ → ℕ → OspfNetwork
network ip mask = record { ip = ip; wildcard_mask = complement32 mask }

own-belongs :
    (ip mask : ℕ)
    → mask < 4294967296
    → belongs (network ip mask) (interface_init (config_init ip mask)) ≡ true
unfolding belongs interface_init config_init
own-belongs ip mask h = rw (complement32-twice mask h) (ground arith)

loopback-belongs :
    (ip mask : ℕ)
    → mask < 4294967296
    → belongs (network ip mask) loopback_interface ≡ (bit_and ip mask == 0xc0a8f600)
unfolding belongs loopback_interface
loopback-belongs ip mask h = rw (complement32-twice mask h) (ground arith)

branch :
    (test : Bool) (x : Router)
    → (test ≡ true → (r : Router) × ((if test then done x else crash null_pointer) ≡ done r))
      × (test ≡ false → (if test then done x else crash null_pointer) ≡ crash null_pointer)
branch true x = (λ on. (x, refl), λ off. cc off)
branch false x = (λ on. cc on, λ off. refl)

-- If the mask of the interface fits 32 bits, main starts its threads if the network of the
-- interface is that of the loopback interface, 192.168.246.0; otherwise it follows the null
-- pointer of an interface that has no area.
pub boot-network :
    (ip mask : ℕ)
    → mask < 4294967296
    → ((bit_and ip mask ≡ 0xc0a8f600) → (r : Router) × (boot ip mask ≡ done r))
      × ((bit_and ip mask ≢ 0xc0a8f600) → boot ip mask ≡ crash null_pointer)
unfolding boot
boot-network ip mask h =
    let test : Bool =
      belongs (network ip mask) loopback_interface
      && belongs (network ip mask) (interface_init (config_init ip mask)) in
    let same : test ≡ (bit_and ip mask == 0xc0a8f600) =
      rw (own-belongs ip mask h, loopback-belongs ip mask h) (ground arith) in
    (λ on. (branch test _).0 (ground arith), λ off. (branch test _).1 (ground arith))
