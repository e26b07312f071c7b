-- ===== src/Receive/Returns.antt =====
-- The Hello handler of ospf.cpp: where it returns.
use ospf_lite.Base.{◌≡◌, List}
use ospf_lite.Base.Outcome.{done}
use ospf_lite.Effect.{Effect}
use ospf_lite.Neighbor.{Neighbor}
use ospf_lite.Interface.{Interface}
use ospf_lite.Receive.{Result}

abbrev pub Returns : Result → Type 0
Returns result = (value : Interface × List Effect) × (result ≡ done value)
