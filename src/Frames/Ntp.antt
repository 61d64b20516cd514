-- ===== src/Frames/Ntp.antt =====
-- tools/exe-harness/net-builders.js, lines 197-219: the answer of a time server.
pub mod Clock
use sprinter_rtl8019a.Base.{
  ℕ, ◌+◌, ◌/◌, ◌^◌, Bool, Option, none, some, List, [], ◌∷◌, or_default, replicate, put, u8, u32,
}
use sprinter_rtl8019a.Frames.Udp.{Datagram, build_udp_reply}
use sprinter_rtl8019a.Frames.Dns.{served_from}

-- From 1900-01-01 to 1970-01-01, in seconds.
abbrev pub ntp_epoch_offset : ℕ
ntp_epoch_offset = 2208988800

-- The options of `buildNtpResponse`; `unix_seconds` is resolved, since the default is the host's clock.
pub record NtpOptions : Type 0 where
  pub unix_seconds : ℕ
  pub li_vn_mode : Option ℕ
  pub stratum : Option ℕ
  pub mac : Option (List ℕ)
  pub ttl : Option ℕ
  pub bad_ip_checksum : Bool
  pub bad_udp_checksum : Bool

unfoldable pub ntp_body : NtpOptions → List ℕ
ntp_body o =
    let ntp_seconds = u32 (o.unix_seconds + ntp_epoch_offset) in
    let b0 = put 0 (replicate 48 0) 0 (or_default o.li_vn_mode 0x1c) in
    let b1 = put 0 b0 1 (or_default o.stratum 1) in
    let b40 = put 0 b1 40 (u8 (ntp_seconds / 2 ^ 24)) in
    let b41 = put 0 b40 41 (u8 (ntp_seconds / 2 ^ 16)) in
    let b42 = put 0 b41 42 (u8 (ntp_seconds / 2 ^ 8)) in put 0 b42 43 (u8 ntp_seconds)

unfoldable pub build_ntp_response : Datagram → NtpOptions → List ℕ
build_ntp_response datagram o =
    build_udp_reply datagram (ntp_body o)
      (served_from 123 o.mac o.ttl o.bad_ip_checksum o.bad_udp_checksum)
