-- ===== src/Examples/Histories.antt =====
-- The process after a Hello from its neighbor, and an update with a newer instance of a router LSA.
use ospf_lite.Base.{ℕ, List, [], ◌∷◌}
use ospf_lite.Area.{Router}
use ospf_lite.System.{round}
use ospf_lite.Examples.Data.{router_lsa}
use ospf_lite.Examples.Systems.{router_or, surroundings, greeted}

abbrev holding : Router
holding = record greeted { lsdb = record { router_lsas = router_lsa ∷ []; network_lsas = [] } }

-- An update from 192.168.246.9 with a newer instance.
abbrev update : List ℕ
update =
    69 ∷ 0 ∷ 0 ∷ 84 ∷ 0 ∷ 0 ∷ 0 ∷ 0 ∷ 1 ∷ 89 ∷ 0 ∷ 0 ∷ 192 ∷ 168 ∷ 246 ∷ 9 ∷ 224 ∷ 0 ∷ 0 ∷ 5 ∷ 2 ∷ 4
    ∷ 0 ∷ 64 ∷ 9 ∷ 9 ∷ 9 ∷ 9 ∷ 0 ∷ 0 ∷ 0 ∷ 0 ∷ 0 ∷ 0 ∷ 0 ∷ 0 ∷ 0 ∷ 0 ∷ 0 ∷ 0 ∷ 0 ∷ 0 ∷ 0 ∷ 0 ∷ 0 ∷ 0
    ∷ 0 ∷ 1 ∷ 0 ∷ 1 ∷ 2 ∷ 1 ∷ 10 ∷ 0 ∷ 0 ∷ 1 ∷ 8 ∷ 8 ∷ 8 ∷ 8 ∷ 128 ∷ 0 ∷ 0 ∷ 2 ∷ 145 ∷ 62 ∷ 0 ∷ 36
    ∷ 67 ∷ 9 ∷ 0 ∷ 1 ∷ 10 ∷ 0 ∷ 0 ∷ 0 ∷ 255 ∷ 255 ∷ 255 ∷ 0 ∷ 3 ∷ 0 ∷ 0 ∷ 1 ∷ []

abbrev updated : Router
updated = router_or holding (round 89 surroundings update holding)
