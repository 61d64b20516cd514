-- ===== src/Frames/Udp/RoundTrip.antt =====
-- What `udpDatagram` reads in a frame of `buildUdpReply`.
use sprinter_rtl8019a.Base.{
  ℕ, ◌+◌, ◌-◌, ◌/◌, ◌≡◌, ◌≤◌, ap, ◌∙◌, Bool, true, false, List, [], ◌∷◌, ◌++◌, some, arith, ltb,
  length, take, slice, replicate, take-append, length-append, word_of, word_of_lem, u8, or_default,
  or_nonzero, bit_xor,
}
use sprinter_rtl8019a.Frames.Checksum.{default_server_mac, pad_to_60, put_checksum}
use sprinter_rtl8019a.Frames.Udp.{
  Datagram, UdpOptions, udp_datagram, udp_packet, udp_segment, udp_bytes, ip_header,
  build_udp_reply, damage,
}
use sprinter_rtl8019a.Frames.Udp.Layout.{four, six}

word_of-split : (n : ℕ) → word_of (n / 256) (u8 n) ≡ n
word_of-split n = omega (arith, word_of_lem (n / 256) (u8 n) (omega arith))

-- The bytes of an IPv4 header from 20 on are those of a datagram with `body`, and more behind it.
segment-eq :
    (frame ip : List ℕ) (sp dp c0 c1 : ℕ) (body : List ℕ)
    → let n = 8 + length body in
      udp_segment frame ip (sp / 256 ∷ u8 sp ∷ dp / 256 ∷ u8 dp ∷ n / 256 ∷ u8 n ∷ c0 ∷ c1 ∷ body)
      ≡ some (record {
        source_mac = slice 6 12 frame;
        dest_mac = slice 0 6 frame;
        source_ip = slice 12 16 ip;
        dest_ip = slice 16 20 ip;
        source_port = sp;
        dest_port = dp;
        payload = body;
      })
unfolding udp_segment
segment-eq frame ip sp dp c0 c1 body =
    rw (word_of-split (8 + length body), word_of-split sp, word_of-split dp) (ground arith)

-- The first bytes of an IPv4 header fix the datagram; what follows its total length is left out.
packet-eq :
    (frame : List ℕ) (id0 id1 f0 f1 ttl c0 c1 s0 s1 s2 s3 d0 d1 d2 d3 : ℕ) (udp rest : List ℕ)
    (size : ℕ)
    → let total = 20 + size in
      let ip =
        0x45
        ∷ 0
        ∷ total / 256
        ∷ u8 total
        ∷ id0
        ∷ id1
        ∷ f0
        ∷ f1
        ∷ ttl
        ∷ 17
        ∷ c0
        ∷ c1
        ∷ s0
        ∷ s1
        ∷ s2
        ∷ s3
        ∷ d0
        ∷ d1
        ∷ d2
        ∷ d3
        ∷ (udp ++ rest) in
      8 ≤ size → length udp ≡ size → udp_packet frame ip ≡ udp_segment frame ip udp
unfolding udp_packet
packet-eq frame id0 id1 f0 f1 ttl c0 c1 s0 s1 s2 s3 d0 d1 d2 d3 udp rest size h e =
    let cut : take (20 + size - 20) (udp ++ rest) ≡ udp =
      take-append (20 + size - 20) udp rest (omega arith) in
    let long : ltb (20 + size) 28 ≡ false = ground arith in
    let ip : List ℕ =
      0x45
      ∷ 0
      ∷ (20 + size) / 256
      ∷ u8 (20 + size)
      ∷ id0
      ∷ id1
      ∷ f0
      ∷ f1
      ∷ ttl
      ∷ 17
      ∷ c0
      ∷ c1
      ∷ s0
      ∷ s1
      ∷ s2
      ∷ s3
      ∷ d0
      ∷ d1
      ∷ d2
      ∷ d3
      ∷ (udp ++ rest) in
    let room : ltb (length ip) (20 + size) ≡ false = ground (arith, length-append udp rest) in
    rw (word_of-split (20 + size), long, room) (ap (udp_segment frame ip) cut)

ethernet-eq :
    (m0 m1 m2 m3 m4 m5 n0 n1 n2 n3 n4 n5 : ℕ) (ip : List ℕ)
    → 28 ≤ length ip
    → let frame = m0 ∷ m1 ∷ m2 ∷ m3 ∷ m4 ∷ m5 ∷ n0 ∷ n1 ∷ n2 ∷ n3 ∷ n4 ∷ n5 ∷ 8 ∷ 0 ∷ ip in
      udp_datagram frame ≡ udp_packet frame ip
unfolding udp_datagram
ethernet-eq m0 m1 m2 m3 m4 m5 n0 n1 n2 n3 n4 n5 ip h = ground arith

-- A frame, byte by byte up to the body, whatever its checksum fields hold.
module _ (m0 m1 m2 m3 m4 m5 n0 n1 n2 n3 n4 n5 s0 s1 s2 s3 d0 d1 d2 d3 sp dp ttl : ℕ)
    (body : List ℕ) where
  frame_bytes : ℕ → ℕ → ℕ → ℕ → List ℕ
  frame_bytes c0 c1 u0 u1 =
      let n = 8 + length body in
      m0
      ∷ m1
      ∷ m2
      ∷ m3
      ∷ m4
      ∷ m5
      ∷ n0
      ∷ n1
      ∷ n2
      ∷ n3
      ∷ n4
      ∷ n5
      ∷ 8
      ∷ 0
      ∷ 0x45
      ∷ 0
      ∷ (20 + n) / 256
      ∷ u8 (20 + n)
      ∷ 0x63
      ∷ 0x21
      ∷ 0x40
      ∷ 0
      ∷ ttl
      ∷ 17
      ∷ c0
      ∷ c1
      ∷ s0
      ∷ s1
      ∷ s2
      ∷ s3
      ∷ d0
      ∷ d1
      ∷ d2
      ∷ d3
      ∷ sp / 256
      ∷ u8 sp
      ∷ dp / 256
      ∷ u8 dp
      ∷ n / 256
      ∷ u8 n
      ∷ u0
      ∷ u1
      ∷ body

  sent : Datagram
  sent = record {
    source_mac = n0 ∷ n1 ∷ n2 ∷ n3 ∷ n4 ∷ n5 ∷ [];
    dest_mac = m0 ∷ m1 ∷ m2 ∷ m3 ∷ m4 ∷ m5 ∷ [];
    source_ip = s0 ∷ s1 ∷ s2 ∷ s3 ∷ [];
    dest_ip = d0 ∷ d1 ∷ d2 ∷ d3 ∷ [];
    source_port = sp;
    dest_port = dp;
    payload = body;
  }

  padded-eq : (c0 c1 u0 u1 : ℕ) → udp_datagram (pad_to_60 (frame_bytes c0 c1 u0 u1)) ≡ some sent
  unfolding frame_bytes sent pad_to_60
  padded-eq c0 c1 u0 u1 =
      let n = 8 + length body in
      let zeros : List ℕ = replicate (60 - length (frame_bytes c0 c1 u0 u1)) 0 in
      let udp : List ℕ = sp / 256 ∷ u8 sp ∷ dp / 256 ∷ u8 dp ∷ n / 256 ∷ u8 n ∷ u0 ∷ u1 ∷ body in
      ethernet-eq m0 m1 m2 m3 m4 m5 n0 n1 n2 n3 n4 n5 _ (omega (arith, length-append udp zeros))
      ∙ packet-eq _ 0x63 0x21 0x40 0 ttl c0 c1 s0 s1 s2 s3 d0 d1 d2 d3 udp zeros (8 + length body)
          (omega arith) (omega arith)
      ∙ segment-eq _ _ sp dp u0 u1 body

  damaged-eq :
      (bad_ip bad_udp : Bool) (c0 c1 u0 u1 : ℕ)
      → udp_datagram (pad_to_60 (damage bad_ip 24 (damage bad_udp 40 (frame_bytes c0 c1 u0 u1))))
        ≡ some sent
  unfolding frame_bytes
  damaged-eq false false c0 c1 u0 u1 = padded-eq c0 c1 u0 u1
  damaged-eq false true c0 c1 u0 u1 = padded-eq c0 c1 (bit_xor u0 1) u1
  damaged-eq true false c0 c1 u0 u1 = padded-eq (bit_xor c0 1) c1 u0 u1
  damaged-eq true true c0 c1 u0 u1 = padded-eq (bit_xor c0 1) c1 (bit_xor u0 1) u1

built-eq :
    (dm sm si di : List ℕ) (sp dp ttl : ℕ) (body : List ℕ) (bad_ip bad_udp : Bool)
    → length dm ≡ 6
    → length sm ≡ 6
    → length si ≡ 4
    → length di ≡ 4
    → udp_datagram (
        pad_to_60 (
          damage bad_ip 24 (
            damage bad_udp 40 (
              dm
              ++ sm
              ++ (8 ∷ 0 ∷ [])
              ++ ip_header (20 + (8 + length body)) 0x63 0x21 ttl 17 si di
              ++ udp_bytes si di sp dp body))))
      ≡ some (record {
        source_mac = sm;
        dest_mac = dm;
        source_ip = si;
        dest_ip = di;
        source_port = sp;
        dest_port = dp;
        payload = body;
      })
unfolding ip_header udp_bytes put_checksum frame_bytes sent
built-eq dm sm si di sp dp ttl body bad_ip bad_udp hdm hsm hsi hdi =
    let (m0, m1, m2, m3, m4, m5, em) = six dm hdm in
    let (n0, n1, n2, n3, n4, n5, en) = six sm hsm in
    let (s0, s1, s2, s3, es) = four si hsi in
    let (d0, d1, d2, d3, ed) = four di hdi in
    rw (em, en, es, ed)
      (damaged-eq m0 m1 m2 m3 m4 m5 n0 n1 n2 n3 n4 n5 s0 s1 s2 s3 d0 d1 d2 d3 sp dp ttl body bad_ip
        bad_udp _ _ _ _)

-- The datagram that a reply to `d` stands for.
abbrev pub reply_of : Datagram → List ℕ → UdpOptions → Datagram
reply_of d body o = record {
  source_mac = or_default o.mac default_server_mac;
  dest_mac = or_default o.destination_mac d.source_mac;
  source_ip = or_default o.ip d.dest_ip;
  dest_ip = or_default o.destination_ip d.source_ip;
  source_port = or_default o.source_port d.dest_port;
  dest_port = or_default o.destination_port d.source_port;
  payload = body;
}

-- The addresses of a datagram have six and four bytes.
pub record IsAddressed (d : Datagram) : Type 0 where
  pub source_mac : length d.source_mac ≡ 6
  pub dest_mac : length d.dest_mac ≡ 6
  pub source_ip : length d.source_ip ≡ 4
  pub dest_ip : length d.dest_ip ≡ 4

-- `udpDatagram` reads back from a reply, padded or not and with damaged checksums or not, the
-- addresses and ports that the options or else the request ask for, and exactly the payload.
pub udp_datagram-build_udp_reply :
    (d : Datagram) (body : List ℕ) (o : UdpOptions)
    → IsAddressed (reply_of d body o)
    → udp_datagram (build_udp_reply d body o) ≡ some (reply_of d body o)
unfolding build_udp_reply
udp_datagram-build_udp_reply d body o a =
    built-eq _ _ _ _ _ _ (or_nonzero o.ttl 61) body o.bad_ip_checksum o.bad_udp_checksum a.dest_mac
      a.source_mac a.source_ip a.dest_ip
