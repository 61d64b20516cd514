-- ===== src/Frames/Icmp/Reply.antt =====
-- What an echo reply carries.
use sprinter_rtl8019a.Base.{
  ℕ, ◌+◌, ◌-◌, ◌≡◌, ◌<◌, ◌≤◌, refl, ap, sym, ◌∙◌, false, List, [], ◌∷◌, ◌++◌, arith, length, put,
  get_or, slice, drop, or_default, or_nonzero, IsBytes,
}
use sprinter_rtl8019a.Frames.Checksum.{checksum, put_checksum, pad_to_60}
use sprinter_rtl8019a.Frames.Checksum.Valid.{put_checksum-valid}
use sprinter_rtl8019a.Frames.Udp.{ip_header}
use sprinter_rtl8019a.Frames.Udp.Valid.{slices-eq, ip_header-valid}
use sprinter_rtl8019a.Frames.Icmp.{Echo, IcmpOptions, build_icmp_reply}

-- The requester's addresses and those of the reply are whole, all is bytes, and the message has a
-- header and fits a packet.
pub record IsAnswerable (e : Echo) (o : IcmpOptions) : Type 0 where
  pub requester_mac : length e.source_mac ≡ 6
  pub responder_mac : length (or_default o.mac e.dest_mac) ≡ 6
  pub requester_ip : length e.source_ip ≡ 4
  pub responder_ip : length (or_default o.ip e.dest_ip) ≡ 4
  pub requester_bytes : IsBytes e.source_ip
  pub responder_bytes : IsBytes (or_default o.ip e.dest_ip)
  pub ttl : or_nonzero o.ttl 63 < 256
  pub icmp : IsBytes e.icmp
  pub header : 8 ≤ length e.icmp
  pub size : length e.icmp < 65516

-- The message with type 0 and its checksum.
answered : List ℕ → List ℕ
answered icmp = put_checksum (put 0 icmp 0 0) 0 (length (put 0 icmp 0 0)) 2

answered-eq :
    (icmp : List ℕ)
    → IsBytes icmp
    → 8 ≤ length icmp
    → (checksum (answered icmp) ≡ 0)
      × (length (answered icmp) ≡ length icmp)
      × (get_or (answered icmp) 0 0 ≡ 0)
      × (get_or (answered icmp) 1 0 ≡ get_or icmp 1 0)
      × (drop 4 (answered icmp) ≡ drop 4 icmp)
unfolding answered put_checksum
answered-eq [] b h = absurd (omega arith)
answered-eq (t ∷ []) b h = absurd (omega arith)
answered-eq (t ∷ c ∷ []) b h = absurd (omega arith)
answered-eq (t ∷ c ∷ s0 ∷ []) b h = absurd (omega arith)
answered-eq (t ∷ c ∷ s0 ∷ s1 ∷ rest) b h =
    let v = put_checksum-valid (0 ∷ c ∷ s0 ∷ s1 ∷ rest) 2 (omega arith, b.1) refl (omega arith) in
    (v.0, v.1, refl, refl, refl)

-- The reply to an echo request that can be answered: a receiver that sums its IPv4 header gets 0, and
-- so does one that sums its ICMP message, which is the request's with type 0 and a new checksum.
pub build_icmp_reply-valid :
    (e : Echo) (o : IcmpOptions)
    → IsAnswerable e o
    → o.bad_checksum ≡ false
    → let reply = build_icmp_reply e o in
      let message = slice 34 (34 + length e.icmp) reply in
      (checksum (slice 14 34 reply) ≡ 0)
      × (checksum message ≡ 0)
      × (get_or message 0 0 ≡ 0)
      × (get_or message 1 0 ≡ get_or e.icmp 1 0)
      × (drop 4 message ≡ drop 4 e.icmp)
unfolding build_icmp_reply answered
build_icmp_reply-valid e o a good =
    let (sum, len, zero_type, code, rest) = answered-eq e.icmp a.icmp a.header in
    let icmp = answered e.icmp in
    let ip =
      ip_header (20 + length icmp) 0x43 0x21 (or_nonzero o.ttl 63) 1 (or_default o.ip e.dest_ip)
        e.source_ip in
    let v =
      ip_header-valid (20 + length icmp) 0x43 0x21 (or_nonzero o.ttl 63) 1
        (or_default o.ip e.dest_ip) e.source_ip a.responder_ip a.requester_ip a.responder_bytes
        a.requester_bytes (omega (arith, len, a.size))
        (omega arith, omega arith, a.ttl, omega arith) in
    let s =
      slices-eq e.source_mac (or_default o.mac e.dest_mac) ip icmp (length e.icmp - 8)
        a.requester_mac a.responder_mac v.1 (omega (arith, len, a.header)) in
    let last : 42 + (length e.icmp - 8) ≡ 34 + length e.icmp = omega (arith, a.header) in
    let m =
      ap
        (λ n.
          slice 34 n
            (pad_to_60 (e.source_mac ++ or_default o.mac e.dest_mac ++ (8 ∷ 0 ∷ []) ++ ip ++ icmp)))
        (sym last)
      ∙ s.1 in
    simp good (
      ap checksum s.0 ∙ v.0,
      ap checksum m ∙ sum,
      ap (λ l. get_or l 0 0) m ∙ zero_type,
      ap (λ l. get_or l 1 0) m ∙ code,
      ap (λ l. drop 4 l) m ∙ rest,
    )
