-- ===== src/Frames/Udp/Valid.antt =====
-- The checksums of a frame of `buildUdpReply`.
use sprinter_rtl8019a.Base.{
  ℕ, ◌+◌, ◌-◌, ◌*◌, ◌/◌, ◌≡◌, ◌<◌, refl, ap, ◌∙◌, false, List, [], ◌∷◌, ◌++◌, arith, ◌==◌,
  if◌then◌else◌, length, take, drop, slice, take-append, drop-append, u8, or_nonzero, IsBytes,
}
use mathlib.Core.List.{append_assoc}
use sprinter_rtl8019a.Frames.Checksum.{checksum, pad_to_60}
use sprinter_rtl8019a.Frames.Checksum.Sum.{total, checksum-total}
use sprinter_rtl8019a.Frames.Checksum.Valid.{put_checksum-valid}
use sprinter_rtl8019a.Frames.Udp.{
  Datagram, UdpOptions, udp_bytes, udp_sum, ip_header, build_udp_reply,
}
use sprinter_rtl8019a.Frames.Udp.RoundTrip.{reply_of, IsAddressed}
use sprinter_rtl8019a.Frames.Udp.Layout.{four, six}

-- The pseudo header of the UDP checksum, and the datagram behind it.
abbrev pub with_pseudo : List ℕ → List ℕ → ℕ → List ℕ → List ℕ
with_pseudo source_ip destination_ip size udp =
    source_ip ++ destination_ip ++ (0 ∷ 17 ∷ size / 256 ∷ u8 size ∷ []) ++ udp

module _ (s0 s1 s2 s3 d0 d1 d2 d3 sp dp : ℕ) (body : List ℕ)
    (bsi : IsBytes (s0 ∷ s1 ∷ s2 ∷ s3 ∷ [])) (bdi : IsBytes (d0 ∷ d1 ∷ d2 ∷ d3 ∷ []))
    (hsp : sp < 65536) (hdp : dp < 65536) (bbody : IsBytes body) (hlen : length body < 65508) where
  -- All that is summed, with the two bytes of the sum.
  summed : ℕ → ℕ → List ℕ
  summed u0 u1 =
      let n = 8 + length body in
      s0
      ∷ s1
      ∷ s2
      ∷ s3
      ∷ d0
      ∷ d1
      ∷ d2
      ∷ d3
      ∷ 0
      ∷ 17
      ∷ n / 256
      ∷ u8 n
      ∷ sp / 256
      ∷ u8 sp
      ∷ dp / 256
      ∷ u8 dp
      ∷ n / 256
      ∷ u8 n
      ∷ u0
      ∷ u1
      ∷ body

  total-summed : (u0 u1 : ℕ) → total (summed u0 u1) ≡ total (summed 0 0) + (u0 * 256 + u1)
  unfolding summed total
  total-summed u0 u1 = omega arith

  summed-IsBytes : (u0 u1 : ℕ) → u0 < 256 → u1 < 256 → IsBytes (summed u0 u1)
  unfolding summed
  summed-IsBytes u0 u1 h0 h1 = (
    bsi.0,
    (
      bsi.1.0,
      (
        bsi.1.1.0,
        (
          bsi.1.1.1.0,
          (
            bdi.0,
            (
              bdi.1.0,
              (
                bdi.1.1.0,
                (
                  bdi.1.1.1.0,
                  (
                    omega arith,
                    (
                      omega arith,
                      (
                        omega arith,
                        (
                          omega arith,
                          (
                            omega arith,
                            (
                              omega arith,
                              (
                                omega arith,
                                (omega arith, (omega arith, (omega arith, (h0, (h1, bbody))))),
                              ),
                            ),
                          ),
                        ),
                      ),
                    ),
                  ),
                ),
              ),
            ),
          ),
        ),
      ),
    ),
  )

  -- The sum as it is sent.
  sent_sum : ℕ
  sent_sum = if checksum (summed 0 0) == 0 then 0xffff else checksum (summed 0 0)

  summed-valid : checksum (summed (sent_sum / 256) (u8 sent_sum)) ≡ 0
  unfolding sent_sum
  summed-valid =
      let zeroed = checksum-total (summed 0 0) (summed-IsBytes 0 0 (omega arith) (omega arith)) in
      checksum-total (summed (sent_sum / 256) (u8 sent_sum))
        (summed-IsBytes (sent_sum / 256) (u8 sent_sum) (ground arith) (omega arith))
      ∙ ground (arith, zeroed, total-summed (sent_sum / 256) (u8 sent_sum))

udp_bytes-valid :
    (si di : List ℕ) (sp dp : ℕ) (body : List ℕ)
    → length si ≡ 4
    → length di ≡ 4
    → IsBytes si
    → IsBytes di
    → sp < 65536
    → dp < 65536
    → IsBytes body
    → length body < 65508
    → checksum (with_pseudo si di (8 + length body) (udp_bytes si di sp dp body)) ≡ 0
unfolding udp_bytes udp_sum summed sent_sum
udp_bytes-valid si di sp dp body hsi hdi bsi bdi hsp hdp bbody hlen =
    let (s0, s1, s2, s3, es) = four si hsi in
    let (d0, d1, d2, d3, ed) = four di hdi in
    rw (es, ed)
      (summed-valid s0 s1 s2 s3 d0 d1 d2 d3 sp dp body (rw es at bsi) (rw ed at bdi) hsp hdp bbody
        hlen)

pub ip_header-valid :
    (total_len id0 id1 ttl protocol : ℕ) (si di : List ℕ)
    → length si ≡ 4
    → length di ≡ 4
    → IsBytes si
    → IsBytes di
    → total_len < 65536
    → (id0 < 256) × (id1 < 256) × (ttl < 256) × (protocol < 256)
    → (checksum (ip_header total_len id0 id1 ttl protocol si di) ≡ 0)
      × (length (ip_header total_len id0 id1 ttl protocol si di) ≡ 20)
unfolding ip_header
ip_header-valid total_len id0 id1 ttl protocol si di hsi hdi bsi bdi htotal (h0, h1, ht, hp) =
    let (s0, s1, s2, s3, es) = four si hsi in
    let (d0, d1, d2, d3, ed) = four di hdi in
    let a : IsBytes (s0 ∷ s1 ∷ s2 ∷ s3 ∷ []) = rw es at bsi in
    let b : IsBytes (d0 ∷ d1 ∷ d2 ∷ d3 ∷ []) = rw ed at bdi in
    rw (es, ed)
      (put_checksum-valid
        (0x45
          ∷ 0
          ∷ total_len / 256
          ∷ u8 total_len
          ∷ id0
          ∷ id1
          ∷ 0x40
          ∷ 0
          ∷ ttl
          ∷ protocol
          ∷ 0
          ∷ 0
          ∷ s0
          ∷ s1
          ∷ s2
          ∷ s3
          ∷ d0
          ∷ d1
          ∷ d2
          ∷ d3
          ∷ [])
        10
        (
          omega arith,
          (
            omega arith,
            (
              omega arith,
              (
                omega arith,
                (
                  h0,
                  (
                    h1,
                    (
                      omega arith,
                      (
                        omega arith,
                        (
                          ht,
                          (
                            hp,
                            (omega arith, (omega arith, (a.0, (a.1.0, (a.1.1.0, (a.1.1.1.0, b)))))),
                          ),
                        ),
                      ),
                    ),
                  ),
                ),
              ),
            ),
          ),
        )
        refl (omega arith))

-- Where the IPv4 header and the UDP datagram stand in a frame.
pub slices-eq :
    (dm sm ip udp : List ℕ) (size : ℕ)
    → length dm ≡ 6
    → length sm ≡ 6
    → length ip ≡ 20
    → length udp ≡ 8 + size
    → let frame = pad_to_60 (dm ++ sm ++ (8 ∷ 0 ∷ []) ++ ip ++ udp) in
      (slice 14 34 frame ≡ ip) × (slice 34 (42 + size) frame ≡ udp)
unfolding pad_to_60
slices-eq dm sm ip udp size hdm hsm hip hudp =
    let (m0, m1, m2, m3, m4, m5, em) = six dm hdm in
    let (n0, n1, n2, n3, n4, n5, en) = six sm hsm in
    rw (em, en)
      (
        ap (λ r. take 20 r) (append_assoc ip udp _) ∙ take-append 20 ip _ hip,
        ap (λ r. take (42 + size - 34) (drop 20 r)) (append_assoc ip udp _)
            ∙ ap (λ r. take (42 + size - 34) r) (drop-append 20 ip _ hip)
            ∙ take-append (42 + size - 34) udp _ (omega arith),
      )

-- What goes into a reply consists of bytes, and its payload fits an IPv4 datagram.
pub record IsSendable (d : Datagram) : Type 0 where
  pub source_ip : IsBytes d.source_ip
  pub dest_ip : IsBytes d.dest_ip
  pub source_port : d.source_port < 65536
  pub dest_port : d.dest_port < 65536
  pub payload : IsBytes d.payload
  pub size : length d.payload < 65508

length-udp_bytes :
    (si di : List ℕ) (sp dp : ℕ) (body : List ℕ)
    → length (udp_bytes si di sp dp body) ≡ 8 + length body
unfolding udp_bytes
length-udp_bytes si di sp dp body = omega arith

-- In an undamaged reply of bytes that fits an IPv4 datagram, a receiver that sums the IPv4 header
-- gets 0, and so does one that sums the pseudo header and the UDP datagram.
pub build_udp_reply-valid :
    (d : Datagram) (body : List ℕ) (o : UdpOptions)
    → IsAddressed (reply_of d body o)
    → IsSendable (reply_of d body o)
    → or_nonzero o.ttl 61 < 256
    → o.bad_ip_checksum ≡ false
    → o.bad_udp_checksum ≡ false
    → let frame = build_udp_reply d body o in
      let r = reply_of d body o in
      (checksum (slice 14 34 frame) ≡ 0)
      × (checksum (
            with_pseudo r.source_ip r.dest_ip (8 + length body) (slice 34 (42 + length body) frame))
          ≡ 0)
unfolding build_udp_reply
build_udp_reply-valid d body o a b httl hip hudp =
    let r = reply_of d body o in
    let udp = udp_bytes r.source_ip r.dest_ip r.source_port r.dest_port body in
    let ip =
      ip_header (20 + (8 + length body)) 0x63 0x21 (or_nonzero o.ttl 61) 17 r.source_ip r.dest_ip in
    let v =
      ip_header-valid (20 + (8 + length body)) 0x63 0x21 (or_nonzero o.ttl 61) 17 r.source_ip
        r.dest_ip a.source_ip a.dest_ip b.source_ip b.dest_ip (omega (arith, b.size))
        (omega arith, omega arith, httl, omega arith) in
    let s =
      slices-eq r.dest_mac r.source_mac ip udp (length body) a.dest_mac a.source_mac v.1
        (length-udp_bytes r.source_ip r.dest_ip r.source_port r.dest_port body) in
    rw (hip, hudp)
      (
        ap checksum s.0 ∙ v.0,
        ap (λ u. checksum (with_pseudo r.source_ip r.dest_ip (8 + length body) u)) s.1
            ∙ udp_bytes-valid r.source_ip r.dest_ip r.source_port r.dest_port body a.source_ip
                a.dest_ip b.source_ip b.dest_ip b.source_port b.dest_port b.payload b.size,
      )
