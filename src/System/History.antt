-- ===== src/System/History.antt =====
-- Runs of the process, steps of the loop of recv_ospf_packet_thread in ospf.cpp and of the two other
-- threads among them, and the router LSAs of the database.
use ospf_lite.Base.{ℕ}
use ospf_lite.Area.{Router}
use ospf_lite.System.Reachable.{Step}

-- From a router to what it is after some steps.
pub data Run (p_proto : ℕ) (r : Router) : Router → Type 0 where
  here : Run p_proto r r
  then_on : {r' r'' : Router} → Run p_proto r r' → Step p_proto r' r'' → Run p_proto r r''
