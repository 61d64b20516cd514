-- ===== src/Frames/Arp.antt =====
-- tools/exe-harness/net-builders.js, lines 31-62: ARP.
pub mod Recognised
use sprinter_rtl8019a.Base.{
  ℕ, Bool, true, false, ◌&&◌, Option, List, [], ◌∷◌, ◌++◌, leb, ◌==◌, if◌then◌else◌, or_default,
  length, put, slice, drop, replicate,
}
use sprinter_rtl8019a.Frames.Checksum.{default_server_mac, broadcast_mac, pad_to_60}
use sprinter_rtl8019a.Frames.Udp.{byte_at}

-- The options of `buildArpReply` and `buildArpRequest`; the latter reads the addresses only.
pub record ArpOptions : Type 0 where
  pub mac : Option (List ℕ)
  pub ip : Option (List ℕ)
  pub bad_opcode : Bool
  pub foreign_destination : Bool

unfoldable pub is_arp_request : List ℕ → Bool
is_arp_request frame =
    leb 42 (length frame)
    && (byte_at frame 12 == 0x08)
    && (byte_at frame 13 == 0x06)
    && (byte_at frame 14 == 0)
    && (byte_at frame 15 == 1)
    && (byte_at frame 16 == 0x08)
    && (byte_at frame 17 == 0)
    && (byte_at frame 18 == 6)
    && (byte_at frame 19 == 4)
    && (byte_at frame 20 == 0)
    && (byte_at frame 21 == 1)

-- `frame.splice(0, 6, ...[2, 9, 9, 9, 9, 9])`
abbrev pub redirect : Bool → List ℕ → List ℕ
redirect foreign frame = if foreign then (2 ∷ 9 ∷ 9 ∷ 9 ∷ 9 ∷ 9 ∷ []) ++ drop 6 frame else frame

unfoldable pub build_arp_reply : List ℕ → ArpOptions → List ℕ
build_arp_reply request o =
    let sender_mac = or_default o.mac default_server_mac in
    let sender_ip = or_default o.ip (slice 38 42 request) in
    let requester_mac = slice 22 28 request in
    let requester_ip = slice 28 32 request in
    let frame =
      requester_mac
      ++ sender_mac
      ++ (0x08 ∷ 0x06 ∷ 0 ∷ 1 ∷ 0x08 ∷ 0 ∷ 6 ∷ 4 ∷ 0 ∷ 2 ∷ [])
      ++ sender_mac
      ++ sender_ip
      ++ requester_mac
      ++ requester_ip in
    pad_to_60 (redirect o.foreign_destination (if o.bad_opcode then put 0 frame 21 1 else frame))

unfoldable pub build_arp_request : List ℕ → ArpOptions → List ℕ
build_arp_request target_ip o =
    let sender_mac = or_default o.mac default_server_mac in
    let sender_ip = or_default o.ip (192 ∷ 168 ∷ 7 ∷ 1 ∷ []) in
    pad_to_60 (
      broadcast_mac
      ++ sender_mac
      ++ (0x08 ∷ 0x06 ∷ 0 ∷ 1 ∷ 0x08 ∷ 0 ∷ 6 ∷ 4 ∷ 0 ∷ 1 ∷ [])
      ++ sender_mac
      ++ sender_ip
      ++ replicate 6 0
      ++ target_ip)
