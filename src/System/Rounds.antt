-- ===== src/System/Rounds.antt =====
-- The loop of recv_ospf_packet_thread in ospf.cpp around its handlers, and the state of the router.
use ospf_lite.Base.{
  ℕ, zero, suc, ◌≡◌, ◌<◌, true, List, [], ◌∷◌, All, some, htonl, htons, drop, ◌==◌, Option-cases,
  inl, inr, arith,
}
use ospf_lite.Base.Outcome.{Ensures, Ensures-bind, Ensures-if, Ensures-demand, Ensures-eq-done}
use ospf_lite.LinkState.Wire.{load8, load32}
use ospf_lite.Interface.Events.Consistent.{IsConsistent}
use ospf_lite.Area.{Router}
use ospf_lite.Receive.{IpHeader, accepts, run_timers}
use ospf_lite.Receive.Keeps.{run_timers-IsConsistent}
use ospf_lite.Receive.Hello.{recv_hello-IsConsistent}
use ospf_lite.Frame.{Packet, parse_ip, parse_ospf, parse_packet, parse_hello, parse_dd}
use ospf_lite.System.{
  Surroundings, handle_hello, handle_dd, handle_lsr, handle_lsu, handle_lsack, handle, receive,
  round,
}
use ospf_lite.System.Sound.{IsSound, interface-IsSound}
use ospf_lite.System.Exchanges.{IsTyped, recv_dd-IsSound}
use ospf_lite.System.Handlers.{on_interface-IsSound, recv_lsack-IsConsistent, recv_lsr-Keeps}
use ospf_lite.System.Intakes.{recv_lsu-IsSound}

-- A DD packet lists headers of valid types.
abbrev pub IsListed : Packet → Type 0
IsListed p =
    p.ospf_header.type ≡ 2
    → (dd : _ × _) → parse_dd p.body ≡ some dd
    → IsTyped (htons p.ospf_header.packet_length) dd.1

handle_hello-IsSound :
    (p_proto now : ℕ) (p : Packet) (r : Router)
    → accepts p_proto r.area_id r.interface p.ip_header p.ospf_header ≡ true
    → p.ip_header.saddr < 4294967296
    → IsSound r
    → Ensures IsSound (handle_hello now p r)
unfolding handle_hello
handle_hello-IsSound p_proto now p r a small s =
    Ensures-demand IsSound (parse_hello p.body) _ λ hello e.
      on_interface-IsSound _ r s λ j effects f.
        recv_hello-IsConsistent p_proto r.area_id r.config now p.ip_header p.ospf_header hello.0
          hello.1 r.interface a small s.own f

handle_dd-IsSound :
    (s : Surroundings) (p : Packet) (r : Router)
    → p.ospf_header.type ≡ 2
    → IsListed p
    → IsSound r
    → Ensures IsSound (handle_dd s p r)
unfolding handle_dd
handle_dd-IsSound s p r type listed sound = Ensures-demand IsSound (parse_dd p.body) _ λ dd e.
    recv_dd-IsSound s.tos s.unset (htonl p.ip_header.saddr) (htons p.ospf_header.packet_length) dd.0
      dd.1 r (listed type dd e) sound

handle_lsr-IsSound : (p : Packet) (r : Router) → IsSound r → Ensures IsSound (handle_lsr p r)
unfolding handle_lsr
handle_lsr-IsSound p r s = on_interface-IsSound _ r s λ j effects e.
    Ensures-eq-done (λ step. IsConsistent step.0) _
      (recv_lsr-Keeps _ _ p.body r.lsdb r.interface s.own) e

handle_lsu-IsSound :
    (unset : ℕ) (p : Packet) (r : Router) → IsSound r → Ensures IsSound (handle_lsu unset p r)
unfolding handle_lsu
handle_lsu-IsSound unset p r s =
    Ensures-demand IsSound (load32 p.body) _
      λ num e. recv_lsu-IsSound unset (htonl p.ip_header.saddr) num.0 num.1 r s

handle_lsack-IsSound : (p : Packet) (r : Router) → IsSound r → Ensures IsSound (handle_lsack p r)
unfolding handle_lsack
handle_lsack-IsSound p r s =
    Ensures-bind IsConsistent IsSound _ _
      (recv_lsack-IsConsistent (htonl p.ip_header.saddr) (htons p.ospf_header.packet_length) p.body
        r.interface s.own)
      λ i c. interface-IsSound r i s c

handle-IsSound :
    (p_proto : ℕ) (s : Surroundings) (p : Packet) (r : Router)
    → accepts p_proto r.area_id r.interface p.ip_header p.ospf_header ≡ true
    → p.ip_header.saddr < 4294967296
    → IsListed p
    → IsSound r
    → Ensures IsSound (handle s p r)
unfolding handle
handle-IsSound p_proto s p r a small listed sound =
    Ensures-if IsSound (p.ospf_header.type == 1) _ _
      (λ hello. handle_hello-IsSound p_proto s.now p r a small sound)
      λ _.
        Ensures-if IsSound (p.ospf_header.type == 2) _ _
          (λ dd. handle_dd-IsSound s p r (ground arith) listed sound)
          λ _.
            Ensures-if IsSound (p.ospf_header.type == 3) _ _ (λ lsr. handle_lsr-IsSound p r sound)
              λ _.
                Ensures-if IsSound (p.ospf_header.type == 4) _ _
                  (λ lsu. handle_lsu-IsSound s.unset p r sound)
                  λ _.
                    Ensures-if IsSound (p.ospf_header.type == 5) _ _
                      (λ lsack. handle_lsack-IsSound p r sound) (λ other. sound)

-- The bytes of a packet are bytes, and if it is a DD packet, its headers have valid types.
pub record IsFrame (packet : List ℕ) : Type 0 where
  pub bytes : All (λ b. b < 256) packet
  pub listed : (p : Packet) → parse_packet packet ≡ some p → IsListed p

drop-All : (P : ℕ → Type 0) (n : ℕ) (xs : List ℕ) → All P xs → All P (drop n xs)
drop-All P zero xs h = h
drop-All P (suc n) [] h = tt
drop-All P (suc n) (x ∷ xs) h = drop-All P n xs h.1

load32-lt :
    (bytes : List ℕ) {x : ℕ} {rest : List ℕ}
    → All (λ b. b < 256) bytes
    → load32 bytes ≡ some (x, rest)
    → x < 4294967296
unfolding load32
load32-lt (a ∷ b ∷ c ∷ d ∷ rest) h e = ground (arith, h.0, h.1.0, h.1.1.0, h.1.1.1.0)
load32-lt (a ∷ b ∷ c ∷ []) h e = cc e
load32-lt (a ∷ b ∷ []) h e = cc e
load32-lt (a ∷ []) h e = cc e
load32-lt [] h e = cc e

parse_ip-saddr :
    (packet : List ℕ) {ip_header : IpHeader}
    → All (λ b. b < 256) packet
    → parse_ip packet ≡ some ip_header
    → ip_header.saddr < 4294967296
unfolding parse_ip
parse_ip-saddr packet h e = elim (Option-cases (load8 (drop 9 packet))) [
  | inl f ↦ cc (rw (f, parse_ip) at e)
  | inr (protocol, f) ↦ elim (Option-cases (load32 (drop 12 packet))) [
    | inl g ↦ cc (rw (f, g, parse_ip) at e)
    | inr (saddr, g) ↦ elim (Option-cases (load32 saddr.1)) [
      | inl k ↦ cc (rw (f, g, k, parse_ip) at e)
      | inr (daddr, k) ↦
          let fits = load32-lt (drop 12 packet) (drop-All _ 12 packet h) g in
          ground (arith, rw (f, g, k, parse_ip) at e, fits)
    ]
  ]
]

parse_packet-ip :
    (packet : List ℕ) {p : Packet}
    → parse_packet packet ≡ some p
    → parse_ip packet ≡ some p.ip_header
unfolding parse_packet
parse_packet-ip packet e = elim (Option-cases (parse_ip packet)) [
  | inl f ↦ cc (rw (f, parse_packet) at e)
  | inr (ip_header, f) ↦ elim (Option-cases (parse_ospf (drop 20 packet))) [
    | inl g ↦ cc (rw (f, g, parse_packet) at e)
    | inr (ospf, g) ↦ ground (arith, rw (f, g, parse_packet) at e)
  ]
]

receive-IsSound :
    (p_proto : ℕ) (s : Surroundings) (packet : List ℕ) (r : Router)
    → IsFrame packet
    → IsSound r
    → Ensures IsSound (receive p_proto s packet r)
unfolding receive
receive-IsSound p_proto s packet r frame sound =
    Ensures-demand IsSound (parse_packet packet) _ λ p e.
      Ensures-if IsSound (accepts p_proto r.area_id r.interface p.ip_header p.ospf_header) _ _
        (λ accepted.
          handle-IsSound p_proto s p r accepted
            (parse_ip-saddr packet frame.bytes (parse_packet-ip packet e)) (frame.listed p e) sound)
        (λ refused. sound)

-- If the packet holds bytes and, should it be a DD packet, headers of valid types, every interface of
-- the area is consistent and no name of an LSA is held twice, then the same holds after a round of
-- the receiving thread that completes: its timers, the tests on the packet and the handler of
-- whatever type it has.
pub round-IsSound :
    (p_proto : ℕ) (s : Surroundings) (packet : List ℕ) (r : Router)
    → IsFrame packet
    → IsSound r
    → Ensures IsSound (round p_proto s packet r)
unfolding round
round-IsSound p_proto s packet r frame sound =
    Ensures-bind IsSound IsSound _ _
      (on_interface-IsSound (run_timers r.config s.now r.interface) r sound
        λ j effects e. run_timers-IsConsistent r.config s.now r.interface sound.own e)
      λ r' sound'. receive-IsSound p_proto s packet r' frame sound'
