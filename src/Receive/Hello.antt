-- ===== src/Receive/Hello.antt =====
-- The Hello handler of ospf.cpp and the consistency of the interface.
use ospf_lite.Base.{
  ℕ, ◌≡◌, ◌≢◌, ◌<◌, refl, ap, Bool, true, false, List, [], ◌∷◌, ◌++◌, All-append, Option, none,
  some, htons, htonl, htonl-htonl, inl, inr, Option-cases, arith,
}
use ospf_lite.Base.Outcome.{done}
use ospf_lite.Config.{GlobalConfig}
use ospf_lite.Effect.{Effect}
use ospf_lite.LinkState.{empty_lsdb}
use ospf_lite.Neighbor.{NeighborState, Neighbor, new_neighbor, is}
use ospf_lite.Neighbor.Events.{event_hello_received, event_2way_received, event_1way_received}
use ospf_lite.Neighbor.Events.Calls.{
  IsOrderly, apply, apply-IsOrderly, apply-ip, hello_received, two_way_received, one_way_received,
}
use ospf_lite.Interface.{Interface, find_neighbor, add_neighbor}
use ospf_lite.Interface.Events.Consistent.{Event, IsConsistent}
use ospf_lite.Receive.{
  with_neighbor, IpHeader, OspfHeader, OspfHello, accepts, lists_own_id, hello_event,
  update_neighbor, hello_from, known, raise, heed_hello, recv_hello,
}
use ospf_lite.Receive.Keeps.{
  Keeps, Keeps-done, Keeps-and_then, run-Keeps, set_neighbors-IsConsistent,
  with_neighbor-IsConsistent, found-facts, if-Keeps,
}

update-IsOrderly :
    (i : Interface) (router_id : ℕ) (hello : OspfHello) (n : Neighbor)
    → IsOrderly i n
    → IsOrderly i (update_neighbor router_id hello n)
update-IsOrderly i router_id hello n h = record {
  no_retransmission = h.no_retransmission;
  no_summary = h.no_summary;
  no_request = h.no_request;
  adjacent_wanted = h.adjacent_wanted;
  two_way_unwanted = h.two_way_unwanted;
}

-- The neighbor as the Hello leaves it before the event about its list.
abbrev pub refreshed : ℕ → ℕ → OspfHello → Neighbor → Neighbor
refreshed now router_id hello n = update_neighbor router_id hello (event_hello_received now n).0

pub refreshed-facts :
    (i : Interface) (now router_id : ℕ) (hello : OspfHello) (n : Neighbor)
    → IsOrderly i n
    → IsOrderly i (refreshed now router_id hello n) × ((refreshed now router_id hello n).ip ≡ n.ip)
unfolding apply
refreshed-facts i now router_id hello n h = (
  update-IsOrderly i router_id hello _ (apply-IsOrderly i empty_lsdb (hello_received now) n h),
  apply-ip i empty_lsdb (hello_received now) n,
)

pub seen-IsConsistent :
    (i : Interface) (n : Neighbor)
    → IsConsistent i
    → IsOrderly i n
    → n.ip ≢ i.ip_interface_address
    → IsConsistent (with_neighbor (event_2way_received i n).0 i)
unfolding apply
seen-IsConsistent i n c orderly apart =
    with_neighbor-IsConsistent i (event_2way_received i n).0 c
      (apply-IsOrderly i empty_lsdb two_way_received n orderly)
      (rw (apply-ip i empty_lsdb two_way_received n) apart)

unseen-IsConsistent :
    (i : Interface) (n : Neighbor)
    → IsConsistent i
    → IsOrderly i n
    → n.ip ≢ i.ip_interface_address
    → IsConsistent (with_neighbor (event_1way_received n).0 i)
unfolding apply
unseen-IsConsistent i n c orderly apart =
    with_neighbor-IsConsistent i (event_1way_received n).0 c
      (apply-IsOrderly i empty_lsdb one_way_received n orderly)
      (rw (apply-ip i empty_lsdb one_way_received n) apart)

raise-Keeps :
    (config : GlobalConfig) (event : Option Event) (i : Interface)
    → IsConsistent i
    → Keeps (raise config event i)
unfolding raise
raise-Keeps config none i c = Keeps-done i [] c
raise-Keeps config (some event) i c = run-Keeps config event i c

hello_from-Keeps :
    (config : GlobalConfig) (now router_id : ℕ) (hello : OspfHello) (b_2way : Bool) (n : Neighbor)
    (i : Interface)
    → IsConsistent i
    → IsOrderly i n
    → n.ip ≢ i.ip_interface_address
    → Keeps (hello_from config now router_id hello b_2way n i)
unfolding hello_from
hello_from-Keeps config now router_id hello true n i c orderly apart =
    let facts = refreshed-facts i now router_id hello n orderly in
    let apart' : (refreshed now router_id hello n).ip ≢ i.ip_interface_address = rw facts.1 apart in
    let before : Neighbor = (event_hello_received now n).0 in
    let seen : Neighbor = (event_2way_received i (refreshed now router_id hello n)).0 in
    Keeps-and_then (done (with_neighbor seen i, _))
      (raise config
        (hello_event (is n.state NeighborState.down) before seen (with_neighbor seen i)))
      (Keeps-done _ _ (seen-IsConsistent i _ c facts.0 apart')) (raise-Keeps config _)
hello_from-Keeps config now router_id hello false n i c orderly apart =
    let facts = refreshed-facts i now router_id hello n orderly in
    let apart' : (refreshed now router_id hello n).ip ≢ i.ip_interface_address = rw facts.1 apart in
    Keeps-done _ _ (unseen-IsConsistent i _ c facts.0 apart')

new-IsOrderly : (i : Interface) (ip : ℕ) → IsOrderly i (new_neighbor ip)
unfolding new_neighbor
new-IsOrderly i ip = record {
  no_retransmission = λ h. refl;
  no_summary = λ h. refl;
  no_request = λ h. refl;
  adjacent_wanted = ground arith;
  two_way_unwanted = ground arith;
}

new-ip : (ip : ℕ) → (new_neighbor ip).ip ≡ ip
unfolding new_neighbor
new-ip ip = refl

pub known-IsConsistent :
    (src : ℕ) (i : Interface)
    → IsConsistent i
    → src ≢ i.ip_interface_address
    → IsConsistent (known src i) × ((known src i).ip_interface_address ≡ i.ip_interface_address)
unfolding known add_neighbor
known-IsConsistent src i c apart = elim (Option-cases (find_neighbor src i)) [
  | inr (n, e) ↦ rw (e, known) (c, refl)
  | inl e ↦
      rw (e, known)
        (
          set_neighbors-IsConsistent i (i.neighbors ++ new_neighbor src ∷ []) c
              (All-append _ i.neighbors (new_neighbor src ∷ []) c.settled (new-IsOrderly i src, tt))
              (All-append _ i.neighbors (new_neighbor src ∷ []) c.apart
                (rw (new-ip src) apart, tt)),
          refl,
        )
]

-- A packet that is accepted comes from another address.
pub accepted-apart :
    (p_proto area_id : ℕ) (i : Interface) (ip_header : IpHeader) (ospf_header : OspfHeader)
    → accepts p_proto area_id i ip_header ospf_header ≡ true
    → ip_header.saddr < 4294967296
    → htonl ip_header.saddr ≢ i.ip_interface_address
unfolding accepts
accepted-apart p_proto area_id i ip_header ospf_header e small own =
    ground (arith, ap htonl own, htonl-htonl ip_header.saddr small)

heed_hello-Keeps :
    (config : GlobalConfig) (now src : ℕ) (ospf_header : OspfHeader) (hello : OspfHello)
    (rest : List ℕ) (i : Interface)
    → IsConsistent i
    → Keeps (heed_hello config now src ospf_header hello rest i)
unfolding heed_hello
heed_hello-Keeps config now src ospf_header hello rest i c =
    elim (Option-cases (find_neighbor src i)) [
      | inl e ↦ rw (e, heed_hello) (Keeps-done i [] c)
      | inr (n, e) ↦
          let (orderly, apart, _) = found-facts i src c e in
          elim (Option-cases
            (lists_own_id config.router_id (htons ospf_header.packet_length) rest)) [
              | inl beyond ↦ rw (e, beyond, heed_hello) (λ j effects never. cc never)
              | inr (b_2way, listed) ↦
                  rw (e, listed, heed_hello)
                    (hello_from-Keeps config now ospf_header.router_id hello b_2way n i c orderly
                      apart)
            ]
    ]

pub recv_hello-IsConsistent :
    (p_proto area_id : ℕ) (config : GlobalConfig) (now : ℕ) (ip_header : IpHeader)
    (ospf_header : OspfHeader) (hello : OspfHello) (rest : List ℕ) (i : Interface) {j : Interface}
    {effects : List Effect}
    → accepts p_proto area_id i ip_header ospf_header ≡ true
    → ip_header.saddr < 4294967296
    → IsConsistent i
    → recv_hello config now ip_header ospf_header hello rest i ≡ done (j, effects)
    → IsConsistent j
unfolding recv_hello
recv_hello-IsConsistent p_proto area_id config now ip_header ospf_header hello rest i {j} {effects}
      a small c e =
    let src : ℕ = htonl ip_header.saddr in
    let apart = accepted-apart p_proto area_id i ip_header ospf_header a small in
    if-Keeps _ (done (i, [])) _ (Keeps-done i [] c)
      (if-Keeps _ (done (i, [])) _ (Keeps-done i [] c) (
        heed_hello-Keeps config now src ospf_header hello rest (known src i)
          (known-IsConsistent src i c apart).0))
      j effects e
