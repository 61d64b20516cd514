-- ===== src/Frames/Tcp/RoundTrip.antt =====
-- What `parseTcpSegment` reads in a frame of `buildTcpSegment`.
use sprinter_rtl8019a.Base.{
  ℕ, ◌+◌, ◌-◌, ◌*◌, ◌/◌, ◌^◌, ◌≡◌, ◌<◌, refl, ap, ◌∙◌, false, Option, none, some, List, [], ◌∷◌,
  arith, max, ltb, length, take, take_of_le, u8, high_byte, bit_or, bit_or_fields, word_of,
  word_of_lem,
}
use sprinter_rtl8019a.Frames.Checksum.{put_checksum}
use sprinter_rtl8019a.Frames.Udp.Layout.{four, six}
use sprinter_rtl8019a.Frames.Tcp.{
  Segment, Ends, TcpOptions, mss_of, parse_tcp_segment, tcp_segment, tcp_bytes, tcp_ip_header,
  build_tcp_segment,
}

word_of-u16 : (n : ℕ) → n < 65536 → word_of (high_byte n) (u8 n) ≡ n
word_of-u16 n h = omega (arith, word_of_lem (high_byte n) (u8 n) (omega arith))

u32_of-bytes :
    (n : ℕ)
    → n < 2 ^ 32
    → bit_or
        (bit_or
          (bit_or (u8 (n / 2 ^ 24) * 2 ^ 24) (u8 (n / 2 ^ 16) * 2 ^ 16))
          (u8 (n / 2 ^ 8) * 2 ^ 8))
        (u8 n)
      ≡ n
u32_of-bytes n h =
    let a = u8 (n / 2 ^ 24) in
    let b = u8 (n / 2 ^ 16) in
    let c = u8 (n / 2 ^ 8) in
    let ab : bit_or (a * 2 ^ 24) (b * 2 ^ 16) ≡ (a * 2 ^ 8 + b) * 2 ^ 16 =
      bit_or_fields 24 a (b * 2 ^ 16) (omega arith) ∙ omega arith in
    let abc : bit_or ((a * 2 ^ 8 + b) * 2 ^ 16) (c * 2 ^ 8)
        ≡ ((a * 2 ^ 8 + b) * 2 ^ 8 + c) * 2 ^ 8 =
      bit_or_fields 16 (a * 2 ^ 8 + b) (c * 2 ^ 8) (omega arith) ∙ omega arith in
    ap (λ x. bit_or (bit_or x (c * 2 ^ 8)) (u8 n)) ab
    ∙ ap (λ x. bit_or x (u8 n)) abc
    ∙ bit_or_fields 8 ((a * 2 ^ 8 + b) * 2 ^ 8 + c) (u8 n) (omega arith)
    ∙ omega arith

-- A frame, byte by byte up to the payload.
module _
    (m0 m1 m2 m3 m4 m5 n0 n1 n2 n3 n4 n5 s0 s1 s2 s3 d0 d1 d2 d3 sp dp seq ack flags window : ℕ)
    (payload : List ℕ) (hsp : sp < 65536) (hdp : dp < 65536) (hseq : seq < 2 ^ 32)
    (hack : ack < 2 ^ 32) (hflags : flags < 256) (hwindow : window < 65536) where
  frame_bytes : ℕ → ℕ → ℕ → ℕ → ℕ → ℕ → List ℕ → List ℕ
  frame_bytes total offset c0 c1 u0 u1 rest =
      m0
      ∷ m1
      ∷ m2
      ∷ m3
      ∷ m4
      ∷ m5
      ∷ n0
      ∷ n1
      ∷ n2
      ∷ n3
      ∷ n4
      ∷ n5
      ∷ 8
      ∷ 0
      ∷ 0x45
      ∷ 0
      ∷ high_byte total
      ∷ u8 total
      ∷ 0
      ∷ 0
      ∷ 0
      ∷ 0
      ∷ 64
      ∷ 6
      ∷ c0
      ∷ c1
      ∷ s0
      ∷ s1
      ∷ s2
      ∷ s3
      ∷ d0
      ∷ d1
      ∷ d2
      ∷ d3
      ∷ high_byte sp
      ∷ u8 sp
      ∷ high_byte dp
      ∷ u8 dp
      ∷ u8 (seq / 2 ^ 24)
      ∷ u8 (seq / 2 ^ 16)
      ∷ u8 (seq / 2 ^ 8)
      ∷ u8 seq
      ∷ u8 (ack / 2 ^ 24)
      ∷ u8 (ack / 2 ^ 16)
      ∷ u8 (ack / 2 ^ 8)
      ∷ u8 ack
      ∷ offset
      ∷ u8 flags
      ∷ high_byte window
      ∷ u8 window
      ∷ u0
      ∷ u1
      ∷ 0
      ∷ 0
      ∷ rest

  sent : Option ℕ → Segment
  sent mss = record {
    source_mac = n0 ∷ n1 ∷ n2 ∷ n3 ∷ n4 ∷ n5 ∷ [];
    dest_mac = m0 ∷ m1 ∷ m2 ∷ m3 ∷ m4 ∷ m5 ∷ [];
    source_ip = s0 ∷ s1 ∷ s2 ∷ s3 ∷ [];
    dest_ip = d0 ∷ d1 ∷ d2 ∷ d3 ∷ [];
    src_port = sp;
    dst_port = dp;
    seq = seq;
    ack = ack;
    flags = flags;
    window = window;
    mss = mss;
    payload = payload;
  }

  long :
      (total offset c0 c1 u0 u1 : ℕ) (rest : List ℕ)
      → ltb (length (frame_bytes total offset c0 c1 u0 u1 rest)) 34 ≡ false
  unfolding frame_bytes
  long total offset c0 c1 u0 u1 rest = ground arith

  plain_eq :
      (c0 c1 u0 u1 total : ℕ)
      → total ≡ 40 + length payload
      → total < 65536
      → parse_tcp_segment (frame_bytes total 80 c0 c1 u0 u1 payload) ≡ some (sent none)
  unfolding parse_tcp_segment frame_bytes sent mss_of
  plain_eq c0 c1 u0 u1 total e h =
      let low : u8 flags ≡ flags = omega arith in
      let whole : take (max (14 + total) 54 - 54) payload ≡ payload =
        take_of_le (max (14 + total) 54 - 54) payload (omega arith) in
      rw
        (
          long total 80 c0 c1 u0 u1 payload,
          word_of-u16 total h,
          word_of-u16 sp hsp,
          word_of-u16 dp hdp,
          word_of-u16 window hwindow,
          u32_of-bytes seq hseq,
          u32_of-bytes ack hack,
          low,
          whole,
        )
        refl

  mss_eq :
      (c0 c1 u0 u1 total mss : ℕ)
      → total ≡ 44 + length payload
      → total < 65536
      → mss < 65536
      → parse_tcp_segment
          (frame_bytes total 96 c0 c1 u0 u1 (2 ∷ 4 ∷ high_byte mss ∷ u8 mss ∷ payload))
        ≡ some (sent (some mss))
  unfolding parse_tcp_segment frame_bytes sent mss_of
  mss_eq c0 c1 u0 u1 total mss e h hmss =
      let low : u8 flags ≡ flags = omega arith in
      let whole : take (max (14 + total) 58 - 58) payload ≡ payload =
        take_of_le (max (14 + total) 58 - 58) payload (omega arith) in
      rw
        (
          long total 96 c0 c1 u0 u1 (2 ∷ 4 ∷ high_byte mss ∷ u8 mss ∷ payload),
          word_of-u16 total h,
          word_of-u16 sp hsp,
          word_of-u16 dp hdp,
          word_of-u16 window hwindow,
          word_of-u16 mss hmss,
          u32_of-bytes seq hseq,
          u32_of-bytes ack hack,
          low,
          whole,
        )
        refl

-- What the addresses and options of a segment have to be for the frame to hold them.
pub record IsSegment (ends : Ends) (o : TcpOptions) : Type 0 where
  pub server_mac : length ends.server_mac ≡ 6
  pub client_mac : length ends.client_mac ≡ 6
  pub server_ip : length ends.server_ip ≡ 4
  pub client_ip : length ends.client_ip ≡ 4
  pub server_port : ends.server_port < 65536
  pub client_port : ends.client_port < 65536
  pub seq : o.seq < 2 ^ 32
  pub ack : o.ack < 2 ^ 32
  pub flags : o.flags < 256
  pub window : o.window < 65536
  pub size : length o.payload < 65492

abbrev pub segment_of : Ends → TcpOptions → Segment
segment_of ends o = record {
  source_mac = ends.server_mac;
  dest_mac = ends.client_mac;
  source_ip = ends.server_ip;
  dest_ip = ends.client_ip;
  src_port = ends.server_port;
  dst_port = ends.client_port;
  seq = o.seq;
  ack = o.ack;
  flags = o.flags;
  window = o.window;
  mss = o.mss;
  payload = o.payload;
}

built_eq :
    (dm sm si di : List ℕ) (sp dp seq ack flags window : ℕ) (payload : List ℕ) (mss : Option ℕ)
    → let ends : Ends = record {
      server_mac = sm;
      client_mac = dm;
      server_ip = si;
      client_ip = di;
      server_port = sp;
      client_port = dp;
    } in
      let o : TcpOptions = record {
        flags = flags;
        seq = seq;
        ack = ack;
        payload = payload;
        window = window;
        mss = mss;
      } in
      IsSegment ends o
      → ((size : ℕ) → mss ≡ some size → size < 65536)
      → parse_tcp_segment (build_tcp_segment ends o) ≡ some (segment_of ends o)
unfolding build_tcp_segment tcp_bytes tcp_segment tcp_ip_header put_checksum frame_bytes sent
built_eq dm sm si di sp dp seq ack flags window payload none v hm =
    let (m0, m1, m2, m3, m4, m5, em) = six dm v.client_mac in
    let (n0, n1, n2, n3, n4, n5, en) = six sm v.server_mac in
    let (s0, s1, s2, s3, es) = four si v.server_ip in
    let (d0, d1, d2, d3, ed) = four di v.client_ip in
    rw (em, en, es, ed)
      (plain_eq m0 m1 m2 m3 m4 m5 n0 n1 n2 n3 n4 n5 s0 s1 s2 s3 d0 d1 d2 d3 sp dp seq ack flags
        window payload v.server_port v.client_port v.seq v.ack v.flags v.window _ _ _ _ _
        (omega arith) (omega (arith, v.size)))
built_eq dm sm si di sp dp seq ack flags window payload (some mss) v hm =
    let (m0, m1, m2, m3, m4, m5, em) = six dm v.client_mac in
    let (n0, n1, n2, n3, n4, n5, en) = six sm v.server_mac in
    let (s0, s1, s2, s3, es) = four si v.server_ip in
    let (d0, d1, d2, d3, ed) = four di v.client_ip in
    rw (em, en, es, ed)
      (mss_eq m0 m1 m2 m3 m4 m5 n0 n1 n2 n3 n4 n5 s0 s1 s2 s3 d0 d1 d2 d3 sp dp seq ack flags window
        payload v.server_port v.client_port v.seq v.ack v.flags v.window _ _ _ _ _ mss (omega arith)
        (omega (arith, v.size)) (hm mss refl))

-- `parseTcpSegment` reads back from a built segment with whole addresses, 16-bit ports, window and
-- maximum segment size, 32-bit numbers and a payload that fits, exactly what went into it.
pub parse_tcp_segment-build_tcp_segment :
    (ends : Ends) (o : TcpOptions)
    → IsSegment ends o
    → ((size : ℕ) → o.mss ≡ some size → size < 65536)
    → parse_tcp_segment (build_tcp_segment ends o) ≡ some (segment_of ends o)
parse_tcp_segment-build_tcp_segment ends o v hm =
    built_eq ends.client_mac ends.server_mac ends.server_ip ends.client_ip ends.server_port
      ends.client_port o.seq o.ack o.flags o.window o.payload o.mss v hm
