-- ===== src/Examples/Systems.antt =====
-- The process from its start to a Hello from its neighbor.
use Prim.Native.Nat.{bit_and}
use ospf_lite.Base.{ℕ, ◌≡◌, ◌≢◌, List, [], ◌∷◌, arith}
use ospf_lite.Base.Outcome.{Outcome, done, crash, null_pointer}
use ospf_lite.Area.{Router}
use ospf_lite.System.{Surroundings, boot, round}
use ospf_lite.System.Boot.{boot-network}
use ospf_lite.Examples.Data.{waiting_lan, router_at}

abbrev ip : ℕ
ip = 0xc0a8f601

abbrev mask : ℕ
mask = 0xffffff00

-- What an outcome has become, for a run whose result is too large to write out.
abbrev pub router_or : Router → Outcome Router → Router
router_or r (done r') = r'
router_or r (crash _) = r

abbrev booted : Router
booted = router_or (router_at waiting_lan) (boot ip mask)

-- A Hello from 192.168.246.9, the router 9.9.9.9, which lists 8.8.8.8.
abbrev greeting : List ℕ
greeting =
    69 ∷ 0 ∷ 0 ∷ 68 ∷ 0 ∷ 0 ∷ 0 ∷ 0 ∷ 1 ∷ 89 ∷ 0 ∷ 0 ∷ 192 ∷ 168 ∷ 246 ∷ 9 ∷ 224 ∷ 0 ∷ 0 ∷ 5 ∷ 2 ∷ 1
    ∷ 0 ∷ 48 ∷ 9 ∷ 9 ∷ 9 ∷ 9 ∷ 0 ∷ 0 ∷ 0 ∷ 0 ∷ 0 ∷ 0 ∷ 0 ∷ 0 ∷ 0 ∷ 0 ∷ 0 ∷ 0 ∷ 0 ∷ 0 ∷ 0 ∷ 0 ∷ 255
    ∷ 255 ∷ 255 ∷ 0 ∷ 0 ∷ 10 ∷ 2 ∷ 1 ∷ 0 ∷ 0 ∷ 0 ∷ 40 ∷ 0 ∷ 0 ∷ 0 ∷ 0 ∷ 0 ∷ 0 ∷ 0 ∷ 0 ∷ 8 ∷ 8 ∷ 8
    ∷ 8 ∷ []

abbrev pub surroundings : Surroundings
surroundings = record { now = 100; tos = 0; unset = 0 }

abbrev pub greeted : Router
greeted = router_or booted (round 89 surroundings greeting booted)

boot-network_example :
    ((bit_and 0x0a000001 mask ≡ 0xc0a8f600) → (r : Router) × (boot 0x0a000001 mask ≡ done r))
    × ((bit_and 0x0a000001 mask ≢ 0xc0a8f600) → boot 0x0a000001 mask ≡ crash null_pointer)
boot-network_example = boot-network 0x0a000001 mask (omega arith)
