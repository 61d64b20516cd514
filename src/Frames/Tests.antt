-- ===== src/Frames/Tests.antt =====
-- The builders of tools/exe-harness/net-builders.js on concrete input.
use sprinter_rtl8019a.Base.{
  ℕ, ◌+◌, ◌-◌, ◌≡◌, refl, false, true, none, some, List, [], ◌∷◌, arith, length, get_or, slice,
  drop, inl, all_bytes-IsBytes, word_of,
}
use sprinter_rtl8019a.Frames.Checksum.{checksum, put_checksum, broadcast_mac, default_server_mac}
use sprinter_rtl8019a.Frames.Checksum.Sum.{total, ones_sum, checksum-total}
use sprinter_rtl8019a.Frames.Checksum.Valid.{put_checksum-valid}
use sprinter_rtl8019a.Frames.Udp.{Datagram, UdpOptions, udp_datagram, build_udp_reply}
use sprinter_rtl8019a.Frames.Udp.RoundTrip.{IsAddressed, reply_of, udp_datagram-build_udp_reply}
use sprinter_rtl8019a.Frames.Udp.Valid.{IsSendable, with_pseudo, build_udp_reply-valid}
use sprinter_rtl8019a.Frames.Arp.{ArpOptions, is_arp_request, build_arp_request, build_arp_reply}
use sprinter_rtl8019a.Frames.Arp.Recognised.{build_arp_reply-build_arp_request}
use sprinter_rtl8019a.Frames.Icmp.{Echo, IcmpOptions, build_icmp_reply}
use sprinter_rtl8019a.Frames.Icmp.Reply.{IsAnswerable, build_icmp_reply-valid}
use sprinter_rtl8019a.Frames.Dns.{
  Query, DnsOptions, parse_dns_query, qname_end, query_up_to, build_dns_response,
}
use sprinter_rtl8019a.Frames.Dns.Echo.{build_dns_response-echo}
use sprinter_rtl8019a.Frames.Ntp.{NtpOptions, build_ntp_response}
use sprinter_rtl8019a.Frames.Ntp.Clock.{seconds_at, build_ntp_response-seconds}
use sprinter_rtl8019a.Frames.Dhcp.{DhcpOptions, build_dhcp_reply, dhcp_rounds}
use sprinter_rtl8019a.Frames.Dhcp.Served.{
  IsConfigured, IsServed, build_dhcp_reply-IsServed, dhcp_rounds-enough,
}

-- An odd number of bytes, and a carry: 0x0102 and 0xff00.
checksum-total_example : checksum (1 ∷ 2 ∷ 255 ∷ []) ≡ 0xffff - ones_sum (total (1 ∷ 2 ∷ 255 ∷ []))
checksum-total_example =
    checksum-total (1 ∷ 2 ∷ 255 ∷ []) (all_bytes-IsBytes (1 ∷ 2 ∷ 255 ∷ []) refl)

put_checksum-valid_example :
    (checksum (put_checksum (8 ∷ 0 ∷ 0 ∷ 0 ∷ 1 ∷ []) 0 5 2) ≡ 0)
    × (length (put_checksum (8 ∷ 0 ∷ 0 ∷ 0 ∷ 1 ∷ []) 0 5 2) ≡ 5)
put_checksum-valid_example =
    put_checksum-valid (8 ∷ 0 ∷ 0 ∷ 0 ∷ 1 ∷ []) 2 (all_bytes-IsBytes (8 ∷ 0 ∷ 0 ∷ 0 ∷ 1 ∷ []) refl)
      refl (omega arith)

abbrev client_mac : List ℕ
client_mac = 2 ∷ 128 ∷ 25 ∷ 17 ∷ 34 ∷ 51 ∷ []

abbrev client_ip : List ℕ
client_ip = 192 ∷ 168 ∷ 7 ∷ 2 ∷ []

abbrev server_ip : List ℕ
server_ip = 192 ∷ 168 ∷ 7 ∷ 1 ∷ []

-- A question for the address of `a`.
abbrev question : List ℕ
question = 7 ∷ 9 ∷ 1 ∷ 0 ∷ 0 ∷ 1 ∷ 0 ∷ 0 ∷ 0 ∷ 0 ∷ 0 ∷ 0 ∷ 1 ∷ 97 ∷ 0 ∷ 0 ∷ 1 ∷ 0 ∷ 1 ∷ []

abbrev asked : Datagram
asked = record {
  source_mac = client_mac;
  dest_mac = 2 ∷ 0 ∷ 0 ∷ 0 ∷ 0 ∷ 1 ∷ [];
  source_ip = client_ip;
  dest_ip = server_ip;
  source_port = 49152;
  dest_port = 53;
  payload = question;
}

abbrev plain : UdpOptions
plain = record {
  mac = none;
  ip = none;
  destination_ip = none;
  destination_mac = none;
  source_port = none;
  destination_port = none;
  ttl = none;
  bad_udp_checksum = false;
  bad_ip_checksum = false;
}

plain-IsAddressed : IsAddressed (reply_of asked (1 ∷ 2 ∷ 3 ∷ []) plain)
unfolding default_server_mac
plain-IsAddressed = record { source_mac = refl; dest_mac = refl; source_ip = refl; dest_ip = refl }

udp_datagram-build_udp_reply_example :
    udp_datagram (build_udp_reply asked (1 ∷ 2 ∷ 3 ∷ []) plain)
    ≡ some (reply_of asked (1 ∷ 2 ∷ 3 ∷ []) plain)
udp_datagram-build_udp_reply_example =
    udp_datagram-build_udp_reply asked (1 ∷ 2 ∷ 3 ∷ []) plain plain-IsAddressed

plain-IsSendable : IsSendable (reply_of asked (1 ∷ 2 ∷ 3 ∷ []) plain)
plain-IsSendable = record {
  source_ip = all_bytes-IsBytes server_ip refl;
  dest_ip = all_bytes-IsBytes client_ip refl;
  source_port = omega arith;
  dest_port = omega arith;
  payload = all_bytes-IsBytes (1 ∷ 2 ∷ 3 ∷ []) refl;
  size = omega arith;
}

build_udp_reply-valid_example :
    (checksum (slice 14 34 (build_udp_reply asked (1 ∷ 2 ∷ 3 ∷ []) plain)) ≡ 0)
    × (checksum (
          with_pseudo server_ip client_ip 11
            (slice 34 45 (build_udp_reply asked (1 ∷ 2 ∷ 3 ∷ []) plain)))
        ≡ 0)
build_udp_reply-valid_example =
    build_udp_reply-valid asked (1 ∷ 2 ∷ 3 ∷ []) plain plain-IsAddressed plain-IsSendable
      (omega arith) refl refl

abbrev plain_arp : ArpOptions
plain_arp = record { mac = none; ip = none; bad_opcode = true; foreign_destination = false }

build_arp_reply-build_arp_request_example :
    let request = build_arp_request client_ip plain_arp in
    let reply = build_arp_reply request plain_arp in
    (is_arp_request request ≡ true)
    × (slice 0 6 request ≡ broadcast_mac)
    × (is_arp_request reply ≡ true)
    × (slice 0 6 reply ≡ default_server_mac)
    × (slice 22 28 reply ≡ default_server_mac)
    × (slice 28 32 reply ≡ client_ip)
    × (slice 32 38 reply ≡ default_server_mac)
    × (slice 38 42 reply ≡ server_ip)
unfolding default_server_mac
build_arp_reply-build_arp_request_example =
    build_arp_reply-build_arp_request client_ip plain_arp plain_arp refl refl refl refl refl

abbrev ping : Echo
ping = record {
  ihl = 20;
  source_ip = client_ip;
  dest_ip = server_ip;
  source_mac = client_mac;
  dest_mac = 2 ∷ 0 ∷ 0 ∷ 0 ∷ 0 ∷ 1 ∷ [];
  icmp = 8 ∷ 0 ∷ 1 ∷ 2 ∷ 3 ∷ 4 ∷ 5 ∷ 6 ∷ 7 ∷ [];
}

abbrev plain_icmp : IcmpOptions
plain_icmp = record {
  mac = none;
  ip = none;
  router_ip = none;
  code = none;
  ttl = none;
  bad_checksum = false;
}

ping-IsAnswerable : IsAnswerable ping plain_icmp
ping-IsAnswerable = record {
  requester_mac = refl;
  responder_mac = refl;
  requester_ip = refl;
  responder_ip = refl;
  requester_bytes = all_bytes-IsBytes client_ip refl;
  responder_bytes = all_bytes-IsBytes server_ip refl;
  ttl = omega arith;
  icmp = all_bytes-IsBytes ping.icmp refl;
  header = omega arith;
  size = omega arith;
}

build_icmp_reply-valid_example :
    let reply = build_icmp_reply ping plain_icmp in
    let message = slice 34 (34 + 9) reply in
    (checksum (slice 14 34 reply) ≡ 0)
    × (checksum message ≡ 0)
    × (get_or message 0 0 ≡ 0)
    × (get_or message 1 0 ≡ 0)
    × (drop 4 message ≡ 3 ∷ 4 ∷ 5 ∷ 6 ∷ 7 ∷ [])
build_icmp_reply-valid_example = build_icmp_reply-valid ping plain_icmp ping-IsAnswerable refl

abbrev the_query : Query
the_query = record { id = word_of 7 9; qname = 1 ∷ 97 ∷ 0 ∷ [] }

abbrev plain_dns : DnsOptions
plain_dns = record {
  rcode = none;
  nxdomain = false;
  no_answer = false;
  answers = none;
  ip = none;
  bad_xid = false;
  mac = none;
  ttl = none;
  bad_ip_checksum = false;
  bad_udp_checksum = false;
}

build_dns_response-echo_example :
    (frame : List ℕ) × (r : Datagram) × (build_dns_response asked plain_dns ≡ some frame)
    × (udp_datagram frame ≡ some r)
    × (parse_dns_query r.payload ≡ some the_query)
    × (r.source_port ≡ 53)
    × (r.dest_port ≡ 49152)
unfolding default_server_mac parse_dns_query qname_end query_up_to
build_dns_response-echo_example =
    build_dns_response-echo asked the_query plain_dns (all_bytes-IsBytes question refl) refl
      (record { source_mac = refl; dest_mac = refl; source_ip = refl; dest_ip = refl }) refl

abbrev plain_ntp : NtpOptions
plain_ntp = record {
  unix_seconds = 1700000000;
  li_vn_mode = none;
  stratum = none;
  mac = none;
  ttl = none;
  bad_ip_checksum = false;
  bad_udp_checksum = false;
}

build_ntp_response-seconds_example :
    (r : Datagram) × (udp_datagram (build_ntp_response asked plain_ntp) ≡ some r)
    × (r.source_port ≡ 123)
    × (r.dest_port ≡ 49152)
    × (length r.payload ≡ 48)
    × (get_or r.payload 1 0 ≡ 1)
    × (seconds_at r.payload 40 ≡ 3908988800)
unfolding default_server_mac
build_ntp_response-seconds_example =
    build_ntp_response-seconds asked plain_ntp
      (record { source_mac = refl; dest_mac = refl; source_ip = refl; dest_ip = refl })

abbrev plain_dhcp : DhcpOptions
plain_dhcp = record {
  mac = none;
  server_ip = none;
  offered_ip = none;
  mask = none;
  router = none;
  dns1 = none;
  dns2 = none;
  lease = none;
}

plain_dhcp-IsConfigured : IsConfigured plain_dhcp
unfolding default_server_mac
plain_dhcp-IsConfigured = record {
  mac = refl;
  server_ip = refl;
  offered_ip = refl;
  mask = refl;
  router = refl;
  dns1 = refl;
  dns2 = inl refl;
}

build_dhcp_reply-IsServed_example :
    (r : Datagram) × (udp_datagram (build_dhcp_reply asked 5 plain_dhcp) ≡ some r)
    × (r.source_port ≡ 67)
    × (r.dest_port ≡ 68)
    × (r.dest_ip ≡ 255 ∷ 255 ∷ 255 ∷ 255 ∷ [])
    × (r.dest_mac ≡ client_mac)
    × IsServed r.payload question 5 server_ip
        (192 ∷ 168 ∷ 7 ∷ 100 ∷ [])
        (255 ∷ 255 ∷ 255 ∷ 0 ∷ [])
        server_ip
        (8 ∷ 8 ∷ 8 ∷ 8 ∷ [])
        3600
build_dhcp_reply-IsServed_example =
    build_dhcp_reply-IsServed asked 5 plain_dhcp plain_dhcp-IsConfigured refl

dhcp_rounds-enough_example :
    dhcp_rounds 9 (0 ∷ 53 ∷ 1 ∷ 5 ∷ 255 ∷ []) 0 [] ≡ dhcp_rounds 5 (0 ∷ 53 ∷ 1 ∷ 5 ∷ 255 ∷ []) 0 []
dhcp_rounds-enough_example =
    dhcp_rounds-enough 9 5 (0 ∷ 53 ∷ 1 ∷ 5 ∷ 255 ∷ []) 0 [] (omega arith) (omega arith)
