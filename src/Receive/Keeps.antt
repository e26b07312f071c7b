-- ===== src/Receive/Keeps.antt =====
-- The timers of the receiving thread of ospf.cpp and the consistency of the interface.
use ospf_lite.Base.{
  ℕ, ◌+◌, ◌≡◌, ◌≢◌, refl, Bool, true, false, not, ◌&&◌, List, [], ◌∷◌, map, All, some, ◌==◌, ltb,
  find_if, if◌then◌else◌, inl, inr, Option-cases, Bool-cases, arith,
}
use ospf_lite.Base.Outcome.{done, crash, Outcome-cases}
use ospf_lite.Config.{GlobalConfig}
use ospf_lite.Effect.{Effect}
use ospf_lite.LinkState.{empty_lsdb}
use ospf_lite.Neighbor.{NeighborState, Neighbor, is}
use ospf_lite.Neighbor.Events.{event_inactivity_timer}
use ospf_lite.Neighbor.Events.Calls.{IsOrderly, apply, apply-IsOrderly, apply-ip, inactivity_timer}
use ospf_lite.Interface.{Interface, find_neighbor, store_neighbor}
use ospf_lite.Interface.Events.{event_wait_timer, event_neighbor_change}
use ospf_lite.Interface.Events.Adjacencies.{All-IsOrderly-same}
use ospf_lite.Interface.Events.Consistent.{
  Event, wait_timer, neighbor_change, run, IsConsistent, run-IsConsistent,
}
use ospf_lite.Receive.{Result, and_then, with_neighbor, expire, expire_all, run_timers}

-- Whenever the step completes, the interface is consistent.
abbrev pub Keeps : Result → Type 0
Keeps result = (j : Interface) (effects : List Effect) → result ≡ done (j, effects) → IsConsistent j

pub Keeps-done :
    (i : Interface) (effects : List Effect) → IsConsistent i → Keeps (done (i, effects))
Keeps-done i effects c j out e = let same : i ≡ j = ground arith in rw (← same) c

pub Keeps-and_then :
    (result : Result) (next : Interface → Result)
    → Keeps result
    → ((i : Interface) → IsConsistent i → Keeps (next i))
    → Keeps (and_then result next)
Keeps-and_then (crash fault) next k l j out e = cc e
Keeps-and_then (done (i, first)) next k l j out e = elim (Outcome-cases (next i)) [
  | inr (fault, f) ↦ cc (rw f at e)
  | inl ((m, second), f) ↦
      let same : m ≡ j = ground arith in rw (← same) (l i (k i first refl) m second f)
]

pub run-Keeps :
    (config : GlobalConfig) (event : Event) (i : Interface)
    → IsConsistent i
    → Keeps (run config event i)
run-Keeps config event i c j out e = run-IsConsistent config event i c e

find-holds :
    (P : Neighbor → Type 0) (ip : ℕ) (ns : List Neighbor) {n : Neighbor}
    → All P ns
    → find_if (λ (m : Neighbor). m.ip == ip) ns ≡ some n
    → P n × (n.ip ≡ ip)
find-holds P ip [] h e = cc e
find-holds P ip (m ∷ ms) {n} h e = elim (Bool-cases (m.ip == ip)) [
  | inl same ↦ let found : m ≡ n = ground arith in rw (← found) (h.0, ground arith)
  | inr other ↦ find-holds P ip ms h.1 (ground arith)
]

store-holds :
    (P : Neighbor → Type 0) (n : Neighbor) (ns : List Neighbor)
    → P n
    → All P ns
    → All P (store_neighbor n ns)
unfolding store_neighbor
store-holds P n [] p h = tt
store-holds P n (m ∷ ms) p h = elim (Bool-cases (m.ip == n.ip)) [
  | inl same ↦ rw same (p, store-holds P n ms p h.1)
  | inr other ↦ rw other (h.0, store-holds P n ms p h.1)
]

-- A change of the neighbors that keeps each orderly and apart keeps the interface consistent.
pub set_neighbors-IsConsistent :
    (i : Interface) (ns : List Neighbor)
    → IsConsistent i
    → All (IsOrderly i) ns
    → All (λ n. n.ip ≢ i.ip_interface_address) ns
    → IsConsistent (record i { neighbors = ns })
set_neighbors-IsConsistent i ns c settled apart = record {
  addressed = c.addressed;
  apart = apart;
  settled = All-IsOrderly-same i (record i { neighbors = ns }) ns (refl, refl, refl, refl) settled;
  fits = c.fits;
}

pub with_neighbor-IsConsistent :
    (i : Interface) (n : Neighbor)
    → IsConsistent i
    → IsOrderly i n
    → n.ip ≢ i.ip_interface_address
    → IsConsistent (with_neighbor n i)
with_neighbor-IsConsistent i n c orderly apart =
    set_neighbors-IsConsistent i (store_neighbor n i.neighbors) c
      (store-holds (IsOrderly i) n i.neighbors orderly c.settled)
      (store-holds (λ m. m.ip ≢ i.ip_interface_address) n i.neighbors apart c.apart)

-- What a search for a neighbor finds.
pub found-facts :
    (i : Interface) (ip : ℕ) {n : Neighbor}
    → IsConsistent i
    → find_neighbor ip i ≡ some n
    → IsOrderly i n × (n.ip ≢ i.ip_interface_address) × (n.ip ≡ ip)
unfolding find_neighbor
found-facts i ip c e =
    let orderly = find-holds (IsOrderly i) ip i.neighbors c.settled e in
    let apart = find-holds (λ m. m.ip ≢ i.ip_interface_address) ip i.neighbors c.apart e in
    (orderly.0, apart.0, orderly.1)

inactive-IsConsistent :
    (i : Interface) (n : Neighbor)
    → IsConsistent i
    → IsOrderly i n
    → n.ip ≢ i.ip_interface_address
    → IsConsistent (with_neighbor (event_inactivity_timer n).0 i)
unfolding apply
inactive-IsConsistent i n c orderly apart =
    with_neighbor-IsConsistent i (event_inactivity_timer n).0 c
      (apply-IsOrderly i empty_lsdb inactivity_timer n orderly)
      (rw (apply-ip i empty_lsdb inactivity_timer n) apart)

expire-Keeps :
    (config : GlobalConfig) (now ip : ℕ) (i : Interface)
    → IsConsistent i
    → Keeps (expire config now ip i)
unfolding expire run
expire-Keeps config now ip i c = elim (Option-cases (find_neighbor ip i)) [
  | inl e ↦ rw (e, expire) (Keeps-done i [] c)
  | inr (n, e) ↦
      let (orderly, apart, _) = found-facts i ip c e in
      elim (Bool-cases (
        not (is n.state NeighborState.down)
        && ltb (n.last_recv_hello_time + i.router_dead_interval) now)) [
          | inr fresh ↦ rw (e, fresh, expire) (Keeps-done i [] c)
          | inl late ↦
              rw (e, late, expire)
                (Keeps-and_then _ (event_neighbor_change config)
                  (Keeps-done _ (event_inactivity_timer n).1
                    (inactive-IsConsistent i n c orderly apart))
                  (run-Keeps config neighbor_change))
        ]
]

expire_all-Keeps :
    (config : GlobalConfig) (now : ℕ) (ips : List ℕ) (i : Interface)
    → IsConsistent i
    → Keeps (expire_all config now ips i)
unfolding expire_all
expire_all-Keeps config now [] i c = Keeps-done i [] c
expire_all-Keeps config now (ip ∷ ips) i c =
    Keeps-and_then (expire config now ip i) (expire_all config now ips)
      (expire-Keeps config now ip i c) (expire_all-Keeps config now ips)

pub if-Keeps :
    (test : Bool) (then_do else_do : Result)
    → Keeps then_do
    → Keeps else_do
    → Keeps (if test then then_do else else_do)
if-Keeps true then_do else_do k l = k
if-Keeps false then_do else_do k l = l

-- If the interface is consistent and the timers at the top of the receiving loop complete, the
-- waiting timer and the inactivity timer of every neighbor, then the interface that they leave is
-- consistent.
pub run_timers-IsConsistent :
    (config : GlobalConfig) (now : ℕ) (i : Interface) {j : Interface} {effects : List Effect}
    → IsConsistent i
    → run_timers config now i ≡ done (j, effects)
    → IsConsistent j
unfolding run_timers run
run_timers-IsConsistent config now i {j} {effects} c e =
    Keeps-and_then _ (λ k. expire_all config now (map (λ n. n.ip) k.neighbors) k)
      (if-Keeps _ (event_wait_timer config i) (done (i, [])) (run-Keeps config wait_timer i c)
        (Keeps-done i [] c))
      (λ k d. expire_all-Keeps config now _ k d) j effects e
