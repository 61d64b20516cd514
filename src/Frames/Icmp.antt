-- ===== src/Frames/Icmp.antt =====
-- tools/exe-harness/net-builders.js, lines 64-115: ICMP echo requests, their replies, and the message
-- that a router sends for an unreachable host.
pub mod Reply
use sprinter_rtl8019a.Base.{
  ℕ, ◌+◌, ◌*◌, ◌/◌, ◌%◌, Bool, not, ◌||◌, Option, none, some, List, [], ◌∷◌, ◌++◌, ltb, ◌==◌,
  if◌then◌else◌, or_default, or_nonzero, length, put, slice, drop,
}
use sprinter_rtl8019a.Frames.Checksum.{put_checksum, pad_to_60}
use sprinter_rtl8019a.Frames.Udp.{byte_at, is_ipv4, damage, ip_header}

-- What `icmpEchoRequest` returns.
pub record Echo : Type 0 where
  pub ihl : ℕ
  pub source_ip : List ℕ
  pub dest_ip : List ℕ
  pub source_mac : List ℕ
  pub dest_mac : List ℕ
  pub icmp : List ℕ

-- The options of `buildIcmpReply` and `buildIcmpUnreachable`.
pub record IcmpOptions : Type 0 where
  pub mac : Option (List ℕ)
  pub ip : Option (List ℕ)
  pub router_ip : Option (List ℕ)
  pub code : Option ℕ
  pub ttl : Option ℕ
  pub bad_checksum : Bool

unfoldable pub icmp_echo_request : List ℕ → Option Echo
icmp_echo_request frame =
    let ihl = byte_at frame 14 % 16 * 4 in
    if ltb (length frame) 42 || not (is_ipv4 frame)
    then none
    else if not (byte_at frame 14 / 16 == 4) || not (byte_at frame 23 == 1)
    then none
    else if not (byte_at frame (14 + ihl) == 8)
    then none
    else some (record {
      ihl = ihl;
      source_ip = slice 26 30 frame;
      dest_ip = slice 30 34 frame;
      source_mac = slice 6 12 frame;
      dest_mac = slice 0 6 frame;
      icmp = drop (14 + ihl) frame;
    })

unfoldable pub build_icmp_reply : Echo → IcmpOptions → List ℕ
build_icmp_reply echo o =
    let responder_mac = or_default o.mac echo.dest_mac in
    let responder_ip = or_default o.ip echo.dest_ip in
    let answer = put 0 echo.icmp 0 0 in
    let icmp = damage o.bad_checksum 2 (put_checksum answer 0 (length answer) 2) in
    let ip =
      ip_header (20 + length icmp) 0x43 0x21 (or_nonzero o.ttl 63) 1 responder_ip echo.source_ip in
    pad_to_60 (echo.source_mac ++ responder_mac ++ (8 ∷ 0 ∷ []) ++ ip ++ icmp)

pub build_icmp_unreachable : List ℕ → Echo → IcmpOptions → List ℕ
build_icmp_unreachable request echo o =
    let router_mac = or_default o.mac echo.dest_mac in
    let router_ip = or_default o.router_ip (192 ∷ 168 ∷ 7 ∷ 1 ∷ []) in
    let quote = slice 14 (14 + echo.ihl + 8) request in
    let message = 3 ∷ or_default o.code 1 ∷ 0 ∷ 0 ∷ 0 ∷ 0 ∷ 0 ∷ 0 ∷ quote in
    let icmp = put_checksum message 0 (length message) 2 in
    let ip = ip_header (20 + length icmp) 0x22 0x22 64 1 router_ip echo.source_ip in
    pad_to_60 (echo.source_mac ++ router_mac ++ (8 ∷ 0 ∷ []) ++ ip ++ icmp)
