-- ===== src/Peers/Responders.antt =====
-- tools/exe-harness/net-builders.js, lines 926-1018: the responders of a scenario with their counters,
-- and how each answers a frame that it has claimed.
use sprinter_rtl8019a.Base.{
  ℕ, suc, Bool, true, false, ◌||◌, Option, none, some, List, leb, ◌==◌, if◌then◌else◌, or_default,
  slice, Result, ok, err,
}
use sprinter_rtl8019a.Nic.Types.{Card, Fault, peer_fault}
use sprinter_rtl8019a.Frames.Udp.{Datagram, UdpOptions}
use sprinter_rtl8019a.Frames.Arp.{ArpOptions, build_arp_request}
use sprinter_rtl8019a.Frames.Icmp.{Echo, IcmpOptions, build_icmp_reply, build_icmp_unreachable}
use sprinter_rtl8019a.Frames.Dhcp.{DhcpOptions, build_dhcp_reply}
use sprinter_rtl8019a.Frames.Dns.{DnsOptions}
use sprinter_rtl8019a.Frames.Ntp.{NtpOptions}
use sprinter_rtl8019a.Frames.Tftp.{Tftp}
use sprinter_rtl8019a.Peers.Session.{Rto, post}
use sprinter_rtl8019a.Peers.Tcp.{TcpPeer}
use sprinter_rtl8019a.Peers.Ftp.{FtpPeer}

-- The settings that the datagram responders share, and their `_count`. `drops` is `mode === 'drop'`.
pub record Counter : Type 0 where
  pub drop : ℕ
  pub drops : Bool
  pub after_ms : Option ℕ
  pub count : ℕ

-- `icmp.mode === 'unreachable'` and `probeAfterMs`.
pub record IcmpPeer : Type 0 where
  pub counter : Counter
  pub options : IcmpOptions
  pub unreachable : Bool
  pub probe_after_ms : Option ℕ

-- `dhcp.mode`
pub data DhcpMode : Type 0 where
  serving dropping refusing : DhcpMode

pub record DhcpPeer : Type 0 where
  pub drop_discover : ℕ
  pub drop_request : ℕ
  pub discover_count : ℕ
  pub request_count : ℕ
  pub mode : DhcpMode
  pub after_ms : Option ℕ
  pub options : DhcpOptions

-- No `port` stands for 0 as well.
pub record UdpPeer : Type 0 where
  pub counter : Counter
  pub options : UdpOptions
  pub port : Option ℕ
  pub payload : Option (List ℕ)

-- `scenario.responders`
pub record Responders : Type 0 where
  pub arp : Option (Counter × ArpOptions)
  pub ftp : Option FtpPeer
  pub tcp : Option TcpPeer
  pub icmp : Option IcmpPeer
  pub dhcp : Option DhcpPeer
  pub dns : Option (Counter × DnsOptions)
  pub ntp : Option (Counter × NtpOptions)
  pub tftp : Option Tftp
  pub udp : Option UdpPeer

-- What a timer of a peer has captured: the responder, and the rest.
pub data PeerTimer : Type 0 where
  tcp_timer ftp_timer : Rto → PeerTimer

-- The card behind which the responders stand.
abbrev pub PeerCard : Type 0
PeerCard = Card Responders PeerTimer

abbrev pub counted : Counter → Counter
counted k = record k { count = suc k.count }

-- `(o.drop || 0) >= o._count || o.mode === 'drop'`
abbrev pub is_dropped : Counter → Bool
is_dropped k = leb k.count k.drop || k.drops

abbrev pub with_peers : PeerCard → Responders → PeerCard
with_peers c r = record c { peers = r }

-- The reply of a responder whose counter has been raised to `k`.
unfoldable pub answer : Counter → List ℕ → PeerCard → PeerCard
answer k reply c = if is_dropped k then c else post (or_default k.after_ms 1) reply c

-- A responder that claims the frame gives a card; the search goes on after one that does not.
abbrev pub Claim : Type 0
Claim = Option (Result Fault PeerCard)

abbrev pub or_else : Claim → Claim → Claim
or_else none next = next
or_else (some r) next = some r

abbrev pub is_listening : Option ℕ → ℕ → Bool
is_listening none dest_port = true
is_listening (some port) dest_port = dest_port == port

-- A query without an end makes `parseDnsQuery` loop for ever: a fault.
unfoldable pub answer_dns : Counter → Option (List ℕ) → PeerCard → Result Fault PeerCard
answer_dns k none c = if is_dropped k then ok c else err peer_fault
answer_dns k (some reply) c = ok (answer k reply c)

-- DISCOVER is message 1 and answered by 2 (OFFER), REQUEST is 3 and answered by 5 (ACK) or 6 (NAK).
-- Each has its own counter, and no other message is answered.
unfoldable pub answer_dhcp : DhcpPeer → ℕ → Datagram → PeerCard → PeerCard
answer_dhcp h type d c =
    let drops : Bool = elim (h.mode) [ dropping ↦ true | serving ↦ false | refusing ↦ false ] in
    let granted : ℕ = elim (h.mode) [ dropping ↦ 5 | serving ↦ 5 | refusing ↦ 6 ] in
    let asked = record h { discover_count = suc h.discover_count } in
    let requested = record h { request_count = suc h.request_count } in
    let discover : Counter = record {
      drop = h.drop_discover;
      drops = drops;
      after_ms = h.after_ms;
      count = asked.discover_count;
    } in
    let request : Counter = record {
      drop = h.drop_request;
      drops = drops;
      after_ms = h.after_ms;
      count = requested.request_count;
    } in
    if type == 1
    then answer discover (build_dhcp_reply d 2 h.options)
        (with_peers c (record c.peers { dhcp = some asked }))
    else if type == 3
    then answer request (build_dhcp_reply d granted h.options)
        (with_peers c (record c.peers { dhcp = some requested }))
    else c

-- The router's question for the sender of the first echo request, some time after the reply.
unfoldable pub probe : IcmpPeer → List ℕ → PeerCard → PeerCard
probe i frame c = elim (i.probe_after_ms) [
  | none ↦ c
  | some ms ↦
      if i.counter.count == 1
      then post ms
          (build_arp_request (slice 26 30 frame) (record {
            mac = some (slice 0 6 frame);
            ip = none;
            bad_opcode = false;
            foreign_destination = false;
          }))
          c
      else c
]

unfoldable pub answer_echo : IcmpPeer → List ℕ → Echo → PeerCard → PeerCard
answer_echo i frame echo c =
    let reply =
      if i.unreachable
      then build_icmp_unreachable frame echo i.options
      else build_icmp_reply echo i.options in
    if is_dropped i.counter then c else probe i frame (answer i.counter reply c)
