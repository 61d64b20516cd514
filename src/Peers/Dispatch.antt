-- ===== src/Peers/Dispatch.antt =====
-- tools/exe-harness/net-builders.js, lines 920-1018: `respond`, which hands a transmitted frame to the
-- responder that it is meant for.
pub mod Drops
use sprinter_rtl8019a.Base.{
  ℕ, ◌&&◌, Option, none, some, List, ◌==◌, if◌then◌else◌, or_default, is_some, Result, ok,
}
use sprinter_rtl8019a.Nic.Types.{Env, Fault}
use sprinter_rtl8019a.Frames.Udp.{Datagram, udp_datagram, build_udp_reply}
use sprinter_rtl8019a.Frames.Arp.{is_arp_request, build_arp_reply}
use sprinter_rtl8019a.Frames.Icmp.{icmp_echo_request}
use sprinter_rtl8019a.Frames.Dhcp.{is_dhcp_message, dhcp_msg_type}
use sprinter_rtl8019a.Frames.Dns.{build_dns_response}
use sprinter_rtl8019a.Frames.Ntp.{build_ntp_response}
use sprinter_rtl8019a.Frames.Tftp.{respond_tftp}
use sprinter_rtl8019a.Frames.Tcp.{parse_tcp_segment}
use sprinter_rtl8019a.Peers.Tcp.Respond.{respond_tcp, fire_tcp}
use sprinter_rtl8019a.Peers.Ftp.Respond.{respond_ftp, fire_ftp}
use sprinter_rtl8019a.Peers.Responders.{
  Responders, PeerTimer, tcp_timer, ftp_timer, PeerCard, counted, with_peers, answer, Claim,
  or_else, is_listening, answer_dns, answer_dhcp, answer_echo,
}

unfoldable pub try_arp : List ℕ → PeerCard → Claim
try_arp frame c = elim (c.peers.arp) [
  | none ↦ none
  | some (k, o) ↦
      if is_arp_request frame
      then some (
          ok (
            answer (counted k) (build_arp_reply frame o)
              (with_peers c (record c.peers { arp = some (counted k, o) }))))
      else none
]

unfoldable pub try_ftp : List ℕ → PeerCard → Claim
try_ftp frame c = elim (c.peers.ftp) [
  | none ↦ none
  | some f ↦
      (let (c', f') = respond_ftp ftp_timer frame c f in
        if is_some (parse_tcp_segment frame)
        then some (ok (with_peers c' (record c.peers { ftp = some f' })))
        else none)
]

unfoldable pub try_tcp : List ℕ → PeerCard → Claim
try_tcp frame c = elim (c.peers.tcp) [
  | none ↦ none
  | some t ↦
      (let (c', t') = respond_tcp tcp_timer frame c t in
        if is_some (parse_tcp_segment frame)
        then some (ok (with_peers c' (record c.peers { tcp = some t' })))
        else none)
]

unfoldable pub try_icmp : List ℕ → PeerCard → Claim
try_icmp frame c = elim (c.peers.icmp) [
  | none ↦ none
  | some i ↦ elim (icmp_echo_request frame) [
    | none ↦ none
    | some echo ↦
        (let i' = record i { counter = counted i.counter } in
          some (ok (answer_echo i' frame echo (with_peers c (record c.peers { icmp = some i' })))))
  ]
]

unfoldable pub try_dhcp : Datagram → PeerCard → Claim
try_dhcp d c = elim (c.peers.dhcp) [
  | none ↦ none
  | some h ↦
      if (d.dest_port == 67) && is_dhcp_message d.payload
      then some (ok (answer_dhcp h (dhcp_msg_type d.payload) d c))
      else none
]

unfoldable pub try_dns : Datagram → PeerCard → Claim
try_dns d c = elim (c.peers.dns) [
  | none ↦ none
  | some (k, o) ↦
      if d.dest_port == 53
      then some (
          answer_dns (counted k) (build_dns_response d o)
            (with_peers c (record c.peers { dns = some (counted k, o) })))
      else none
]

unfoldable pub try_ntp : Datagram → PeerCard → Claim
try_ntp d c = elim (c.peers.ntp) [
  | none ↦ none
  | some (k, o) ↦
      if d.dest_port == 123
      then some (
          ok (
            answer (counted k) (build_ntp_response d o)
              (with_peers c (record c.peers { ntp = some (counted k, o) }))))
      else none
]

unfoldable pub try_tftp : Datagram → PeerCard → Claim
try_tftp d c = elim (c.peers.tftp) [
  | none ↦ none
  | some t ↦
      (let (c', t') = respond_tftp d c t in
        some (ok (with_peers c' (record c.peers { tftp = some t' }))))
]

unfoldable pub try_udp : Datagram → PeerCard → Claim
try_udp d c = elim (c.peers.udp) [
  | none ↦ none
  | some u ↦
      (let k = counted u.counter in
        if is_listening u.port d.dest_port
        then some (
            ok (
              answer k (build_udp_reply d (or_default u.payload d.payload) u.options)
                (with_peers c (record c.peers { udp = some (record u { counter = k }) }))))
        else none)
]

unfoldable pub try_datagram : Option Datagram → PeerCard → Claim
try_datagram none c = none
try_datagram (some d) c =
    or_else (try_dhcp d c)
      (or_else (try_dns d c) (or_else (try_ntp d c) (or_else (try_tftp d c) (try_udp d c))))

unfoldable pub claim : List ℕ → PeerCard → Claim
claim frame c = or_else (try_arp frame c) (
    or_else (try_ftp frame c) (
      or_else (try_tcp frame c) (or_else (try_icmp frame c) (try_datagram (udp_datagram frame) c))))

-- `respond(frame, card, scenario)`; a frame that no responder claims changes nothing.
unfoldable pub respond : List ℕ → PeerCard → Result Fault PeerCard
respond frame c = or_default (claim frame c) (ok c)

-- What a timer of a peer does.
unfoldable pub fire_peer : PeerTimer → PeerCard → PeerCard
fire_peer (tcp_timer r) c = elim (c.peers.tcp) [
  | none ↦ c
  | some t ↦
      (let (c', t') = fire_tcp tcp_timer r c t in with_peers c' (record c.peers { tcp = some t' }))
]
fire_peer (ftp_timer r) c = elim (c.peers.ftp) [
  | none ↦ c
  | some f ↦
      (let (c', f') = fire_ftp ftp_timer r c f in with_peers c' (record c.peers { ftp = some f' }))
]

-- The card of a scenario with responders (tools/exe-harness/harness.js, line 64).
unfoldable pub with_responders : Env Responders PeerTimer → Env Responders PeerTimer
with_responders env = record env { on_transmit = some respond; fire = fire_peer }
