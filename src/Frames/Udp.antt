-- ===== src/Frames/Udp.antt =====
-- tools/exe-harness/net-builders.js, lines 117-158: UDP datagrams in IPv4 in Ethernet frames.
pub mod Layout
pub mod RoundTrip
pub mod Valid
use sprinter_rtl8019a.Base.{
  ℕ, ◌+◌, ◌/◌, Bool, true, false, not, ◌&&◌, ◌||◌, Option, none, some, List, [], ◌∷◌, ◌++◌, ltb,
  ◌==◌, if◌then◌else◌, or_default, or_nonzero, length, get_or, put, slice, drop, bit_xor, u8,
  word_of,
}
use sprinter_rtl8019a.Frames.Checksum.{default_server_mac, checksum, put_checksum, pad_to_60}

-- What `udpDatagram` returns.
pub record Datagram : Type 0 where
  pub source_mac : List ℕ
  pub dest_mac : List ℕ
  pub source_ip : List ℕ
  pub dest_ip : List ℕ
  pub source_port : ℕ
  pub dest_port : ℕ
  pub payload : List ℕ

-- The options of `buildUdpReply`.
pub record UdpOptions : Type 0 where
  pub mac : Option (List ℕ)
  pub ip : Option (List ℕ)
  pub destination_ip : Option (List ℕ)
  pub destination_mac : Option (List ℕ)
  pub source_port : Option ℕ
  pub destination_port : Option ℕ
  pub ttl : Option ℕ
  pub bad_udp_checksum : Bool
  pub bad_ip_checksum : Bool

-- A byte past the end reads as `undefined`, which is 0 in a shift and equals no number it is tested for.
abbrev pub byte_at : List ℕ → ℕ → ℕ
byte_at bytes i = get_or bytes i 0

-- `(bytes[i] << 8) | bytes[i + 1]`
abbrev pub word_at : List ℕ → ℕ → ℕ
word_at bytes i = word_of (byte_at bytes i) (byte_at bytes (i + 1))

-- `frame[12] === 8 && frame[13] === 0`
abbrev pub is_ipv4 : List ℕ → Bool
is_ipv4 frame = (byte_at frame 12 == 8) && (byte_at frame 13 == 0)

-- From the UDP header on.
pub udp_segment : List ℕ → List ℕ → List ℕ → Option Datagram
udp_segment frame ip udp =
    let udp_length = word_at udp 4 in
    if not (udp_length == length udp) || ltb udp_length 8
    then none
    else some (record {
      source_mac = slice 6 12 frame;
      dest_mac = slice 0 6 frame;
      source_ip = slice 12 16 ip;
      dest_ip = slice 16 20 ip;
      source_port = word_at udp 0;
      dest_port = word_at udp 2;
      payload = drop 8 udp;
    })

-- From the IPv4 header on.
pub udp_packet : List ℕ → List ℕ → Option Datagram
udp_packet frame ip =
    let total = word_at ip 2 in
    if not (byte_at ip 0 == 0x45) || not (byte_at ip 9 == 17)
    then none
    else if ltb total 28 || ltb (length ip) total
    then none
    else udp_segment frame ip (slice 20 total ip)

unfoldable pub udp_datagram : List ℕ → Option Datagram
udp_datagram frame =
    if ltb (length frame) 42 || not (is_ipv4 frame) then none else udp_packet frame (drop 14 frame)

-- `udpSum`: the checksum with the pseudo header; 0 is sent as 0xffff.
unfoldable pub udp_sum : List ℕ → List ℕ → ℕ → List ℕ → ℕ
udp_sum source_ip destination_ip udp_length udp =
    let sum =
      checksum
        (source_ip ++ destination_ip ++ (0 ∷ 17 ∷ udp_length / 256 ∷ u8 udp_length ∷ []) ++ udp) in
    if sum == 0 then 0xffff else sum

unfoldable pub udp_bytes : List ℕ → List ℕ → ℕ → ℕ → List ℕ → List ℕ
udp_bytes source_ip destination_ip source_port destination_port body =
    let udp_length = 8 + length body in
    let udp =
      source_port / 256
      ∷ u8 source_port
      ∷ destination_port / 256
      ∷ u8 destination_port
      ∷ udp_length / 256
      ∷ u8 udp_length
      ∷ 0
      ∷ 0
      ∷ body in
    let sum = udp_sum source_ip destination_ip udp_length udp in
    put 0 (put 0 udp 6 (sum / 256)) 7 (u8 sum)

-- The header that all builders make, with the fields that differ between them.
unfoldable pub ip_header : ℕ → ℕ → ℕ → ℕ → ℕ → List ℕ → List ℕ → List ℕ
ip_header total id_high id_low ttl protocol source_ip destination_ip =
    put_checksum
      ((0x45
          ∷ 0
          ∷ total / 256
          ∷ u8 total
          ∷ id_high
          ∷ id_low
          ∷ 0x40
          ∷ 0
          ∷ ttl
          ∷ protocol
          ∷ 0
          ∷ 0
          ∷ [])
        ++ source_ip
        ++ destination_ip)
      0 20 10

-- `frame[i] ^= 1`
abbrev pub damage : Bool → ℕ → List ℕ → List ℕ
damage bad i frame = if bad then put 0 frame i (bit_xor (byte_at frame i) 1) else frame

unfoldable pub build_udp_reply : Datagram → List ℕ → UdpOptions → List ℕ
build_udp_reply datagram body o =
    let source_mac = or_default o.mac default_server_mac in
    let source_ip = or_default o.ip datagram.dest_ip in
    let destination_ip = or_default o.destination_ip datagram.source_ip in
    let destination_mac = or_default o.destination_mac datagram.source_mac in
    let source_port = or_default o.source_port datagram.dest_port in
    let destination_port = or_default o.destination_port datagram.source_port in
    let udp = udp_bytes source_ip destination_ip source_port destination_port body in
    let ip =
      ip_header (20 + (8 + length body)) 0x63 0x21 (or_nonzero o.ttl 61) 17 source_ip
        destination_ip in
    let frame = destination_mac ++ source_mac ++ (8 ∷ 0 ∷ []) ++ ip ++ udp in
    pad_to_60 (damage o.bad_ip_checksum 24 (damage o.bad_udp_checksum 40 frame))
