-- ===== src/Frames/Tcp.antt =====
-- tools/exe-harness/net-builders.js, lines 384-440: TCP segments in IPv4 in Ethernet frames.
pub mod RoundTrip
mod Tests
use sprinter_rtl8019a.Base.{
  ℕ, ◌+◌, ◌*◌, ◌/◌, ◌%◌, ◌^◌, Bool, not, ◌&&◌, ◌||◌, Option, none, some, List, [], ◌∷◌, ◌++◌, max,
  ltb, leb, ◌==◌, if◌then◌else◌, length, put, slice, bit_or, u8, high_byte,
}
use sprinter_rtl8019a.Frames.Checksum.{checksum, put_checksum}
use sprinter_rtl8019a.Frames.Udp.{byte_at, word_at, is_ipv4}

-- What `parseTcpSegment` returns.
pub record Segment : Type 0 where
  pub source_mac : List ℕ
  pub dest_mac : List ℕ
  pub source_ip : List ℕ
  pub dest_ip : List ℕ
  pub src_port : ℕ
  pub dst_port : ℕ
  pub seq : ℕ
  pub ack : ℕ
  pub flags : ℕ
  pub window : ℕ
  pub mss : Option ℕ
  pub payload : List ℕ

-- The addresses of a session, and the options of `buildTcpSegment`, with the default window filled in.
pub record Ends : Type 0 where
  pub server_mac : List ℕ
  pub client_mac : List ℕ
  pub server_ip : List ℕ
  pub client_ip : List ℕ
  pub server_port : ℕ
  pub client_port : ℕ

pub record TcpOptions : Type 0 where
  pub flags : ℕ
  pub seq : ℕ
  pub ack : ℕ
  pub payload : List ℕ
  pub window : ℕ
  pub mss : Option ℕ

-- `readU32BE(bytes, offset)`
abbrev pub read_u32_be : List ℕ → ℕ → ℕ
read_u32_be bytes offset =
    bit_or
      (bit_or (bit_or (byte_at bytes offset * 2 ^ 24) (byte_at bytes (offset + 1) * 2 ^ 16))
        (byte_at bytes (offset + 2) * 2 ^ 8))
      (byte_at bytes (offset + 3))

-- The maximum segment size, if it is the first option.
pub mss_of : List ℕ → ℕ → ℕ → Option ℕ
mss_of frame tcp_start data_offset =
    if leb 24 data_offset
      && (byte_at frame (tcp_start + 20) == 2)
      && (byte_at frame (tcp_start + 21) == 4)
    then some (word_at frame (tcp_start + 22))
    else none

unfoldable pub parse_tcp_segment : List ℕ → Option Segment
parse_tcp_segment frame =
    let tcp_start = 14 + byte_at frame 14 % 16 * 4 in
    let data_offset = byte_at frame (tcp_start + 12) / 16 * 4 in
    let seg_end = 14 + word_at frame 16 in
    if ltb (length frame) 34 || not (is_ipv4 frame) || not (byte_at frame 23 == 6)
    then none
    else some (record {
      source_mac = slice 6 12 frame;
      dest_mac = slice 0 6 frame;
      source_ip = slice 26 30 frame;
      dest_ip = slice 30 34 frame;
      src_port = word_at frame tcp_start;
      dst_port = word_at frame (tcp_start + 2);
      seq = read_u32_be frame (tcp_start + 4);
      ack = read_u32_be frame (tcp_start + 8);
      flags = byte_at frame (tcp_start + 13);
      window = word_at frame (tcp_start + 14);
      mss = mss_of frame tcp_start data_offset;
      payload = slice (tcp_start + data_offset) (max seg_end (tcp_start + data_offset)) frame;
    })

abbrev pub mss_option : Option ℕ → List ℕ
mss_option none = []
mss_option (some mss) = 2 ∷ 4 ∷ high_byte mss ∷ u8 mss ∷ []

abbrev pub u32_bytes : ℕ → List ℕ
u32_bytes n = u8 (n / 2 ^ 24) ∷ u8 (n / 2 ^ 16) ∷ u8 (n / 2 ^ 8) ∷ u8 n ∷ []

-- The segment before its checksum is filled in.
unfoldable pub tcp_segment : Ends → TcpOptions → List ℕ
tcp_segment ends o =
    (high_byte ends.server_port
      ∷ u8 ends.server_port
      ∷ high_byte ends.client_port
      ∷ u8 ends.client_port
      ∷ [])
    ++ (u32_bytes o.seq
        ++ (u32_bytes o.ack
            ++ ((u8 ((20 + length (mss_option o.mss)) / 4 * 16)
                  ∷ u8 o.flags
                  ∷ high_byte o.window
                  ∷ u8 o.window
                  ∷ 0
                  ∷ 0
                  ∷ 0
                  ∷ 0
                  ∷ [])
                ++ (mss_option o.mss ++ o.payload))))

unfoldable pub tcp_bytes : Ends → TcpOptions → List ℕ
tcp_bytes ends o =
    let tcp = tcp_segment ends o in
    let csum = checksum (
      ends.server_ip
      ++ ends.client_ip
      ++ (0 ∷ 6 ∷ high_byte (length tcp) ∷ u8 (length tcp) ∷ [])
      ++ tcp) in
    put 0 (put 0 tcp 16 (csum / 256)) 17 (u8 csum)

unfoldable pub tcp_ip_header : ℕ → List ℕ → List ℕ → List ℕ
tcp_ip_header total server_ip client_ip =
    put_checksum
      ((0x45 ∷ 0 ∷ high_byte total ∷ u8 total ∷ 0 ∷ 0 ∷ 0 ∷ 0 ∷ 64 ∷ 6 ∷ 0 ∷ 0 ∷ [])
        ++ server_ip
        ++ client_ip)
      0 20 10

unfoldable pub build_tcp_segment : Ends → TcpOptions → List ℕ
build_tcp_segment ends o =
    let tcp = tcp_bytes ends o in
    ends.client_mac
    ++ ends.server_mac
    ++ (8 ∷ 0 ∷ [])
    ++ tcp_ip_header (20 + length tcp) ends.server_ip ends.client_ip
    ++ tcp
