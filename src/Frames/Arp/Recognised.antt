-- ===== src/Frames/Arp/Recognised.antt =====
-- ARP frames of the builders, as the recogniser and the requester read them.
use sprinter_rtl8019a.Base.{
  ℕ, ◌≡◌, refl, Bool, true, false, List, [], ◌∷◌, ◌++◌, or_default, length, slice, put, replicate,
  if◌then◌else◌,
}
use sprinter_rtl8019a.Frames.Checksum.{default_server_mac, broadcast_mac, pad_to_60}
use sprinter_rtl8019a.Frames.Udp.Layout.{four, six}
use sprinter_rtl8019a.Frames.Arp.{
  ArpOptions, is_arp_request, build_arp_request, build_arp_reply, redirect,
}

-- The body of a frame of `buildArpReply`.
reply_frame : List ℕ → List ℕ → List ℕ → List ℕ → Bool → Bool → List ℕ
reply_frame requester_mac requester_ip mac ip bad foreign =
    let frame =
      requester_mac
      ++ mac
      ++ (0x08 ∷ 0x06 ∷ 0 ∷ 1 ∷ 0x08 ∷ 0 ∷ 6 ∷ 4 ∷ 0 ∷ 2 ∷ [])
      ++ mac
      ++ ip
      ++ requester_mac
      ++ requester_ip in
    pad_to_60 (redirect foreign (if bad then put 0 frame 21 1 else frame))

reply_frame-eq :
    (rm ri mac ip : List ℕ) (bad foreign : Bool)
    → length rm ≡ 6
    → length ri ≡ 4
    → length mac ≡ 6
    → length ip ≡ 4
    → let reply = reply_frame rm ri mac ip bad foreign in
      (is_arp_request reply ≡ bad)
      × (slice 0 6 reply ≡ (if foreign then 2 ∷ 9 ∷ 9 ∷ 9 ∷ 9 ∷ 9 ∷ [] else rm))
      × (slice 22 28 reply ≡ mac)
      × (slice 28 32 reply ≡ ip)
      × (slice 32 38 reply ≡ rm)
      × (slice 38 42 reply ≡ ri)
unfolding reply_frame pad_to_60 is_arp_request
reply_frame-eq rm ri mac ip bad foreign hrm hri hmac hip =
    let (r0, r1, r2, r3, r4, r5, er) = six rm hrm in
    let (m0, m1, m2, m3, m4, m5, em) = six mac hmac in
    let (i0, i1, i2, i3, ei) = four ip hip in
    let (q0, q1, q2, q3, eq) = four ri hri in
    rw (er, em, ei, eq)
      (shaped bad foreign r0 r1 r2 r3 r4 r5 m0 m1 m2 m3 m4 m5 i0 i1 i2 i3 q0 q1 q2 q3)
  where
    shaped :
        (bad foreign : Bool) (r0 r1 r2 r3 r4 r5 m0 m1 m2 m3 m4 m5 i0 i1 i2 i3 q0 q1 q2 q3 : ℕ)
        → let rm : List ℕ = r0 ∷ r1 ∷ r2 ∷ r3 ∷ r4 ∷ r5 ∷ [] in
          let mac : List ℕ = m0 ∷ m1 ∷ m2 ∷ m3 ∷ m4 ∷ m5 ∷ [] in
          let ip : List ℕ = i0 ∷ i1 ∷ i2 ∷ i3 ∷ [] in
          let ri : List ℕ = q0 ∷ q1 ∷ q2 ∷ q3 ∷ [] in
          let reply = reply_frame rm ri mac ip bad foreign in
          (is_arp_request reply ≡ bad)
          × (slice 0 6 reply ≡ (if foreign then 2 ∷ 9 ∷ 9 ∷ 9 ∷ 9 ∷ 9 ∷ [] else rm))
          × (slice 22 28 reply ≡ mac)
          × (slice 28 32 reply ≡ ip)
          × (slice 32 38 reply ≡ rm)
          × (slice 38 42 reply ≡ ri)
    shaped false false r0 r1 r2 r3 r4 r5 m0 m1 m2 m3 m4 m5 i0 i1 i2 i3 q0 q1 q2 q3 =
        (refl, refl, refl, refl, refl, refl)
    shaped false true r0 r1 r2 r3 r4 r5 m0 m1 m2 m3 m4 m5 i0 i1 i2 i3 q0 q1 q2 q3 =
        (refl, refl, refl, refl, refl, refl)
    shaped true false r0 r1 r2 r3 r4 r5 m0 m1 m2 m3 m4 m5 i0 i1 i2 i3 q0 q1 q2 q3 =
        (refl, refl, refl, refl, refl, refl)
    shaped true true r0 r1 r2 r3 r4 r5 m0 m1 m2 m3 m4 m5 i0 i1 i2 i3 q0 q1 q2 q3 =
        (refl, refl, refl, refl, refl, refl)

request_frame-eq :
    (target mac ip : List ℕ)
    → length target ≡ 4
    → length mac ≡ 6
    → length ip ≡ 4
    → let request = pad_to_60 (
        broadcast_mac
        ++ mac
        ++ (0x08 ∷ 0x06 ∷ 0 ∷ 1 ∷ 0x08 ∷ 0 ∷ 6 ∷ 4 ∷ 0 ∷ 1 ∷ [])
        ++ mac
        ++ ip
        ++ replicate 6 0
        ++ target) in
      (is_arp_request request ≡ true)
      × (slice 0 6 request ≡ broadcast_mac)
      × (slice 22 28 request ≡ mac)
      × (slice 28 32 request ≡ ip)
      × (slice 38 42 request ≡ target)
unfolding pad_to_60 is_arp_request broadcast_mac
request_frame-eq target mac ip htarget hmac hip =
    let (t0, t1, t2, t3, et) = four target htarget in
    let (m0, m1, m2, m3, m4, m5, em) = six mac hmac in
    let (i0, i1, i2, i3, ei) = four ip hip in rw (et, em, ei) (refl, refl, refl, refl, refl)

-- A built request is a broadcast that is recognised as an ARP request. The reply to it goes to the
-- requester, or to a stranger if the options say so, is a request only if the opcode is to be bad, and
-- says which MAC has the address: the responder's own, and the options' address or else the target.
pub build_arp_reply-build_arp_request :
    (target : List ℕ) (q o : ArpOptions)
    → length target ≡ 4
    → length (or_default q.mac default_server_mac) ≡ 6
    → length (or_default q.ip (192 ∷ 168 ∷ 7 ∷ 1 ∷ [])) ≡ 4
    → length (or_default o.mac default_server_mac) ≡ 6
    → length (or_default o.ip target) ≡ 4
    → let request = build_arp_request target q in
      let reply = build_arp_reply request o in
      let requester = or_default q.mac default_server_mac in
      (is_arp_request request ≡ true)
      × (slice 0 6 request ≡ broadcast_mac)
      × (is_arp_request reply ≡ o.bad_opcode)
      × (slice 0 6 reply
          ≡ (if o.foreign_destination then 2 ∷ 9 ∷ 9 ∷ 9 ∷ 9 ∷ 9 ∷ [] else requester))
      × (slice 22 28 reply ≡ or_default o.mac default_server_mac)
      × (slice 28 32 reply ≡ or_default o.ip target)
      × (slice 32 38 reply ≡ requester)
      × (slice 38 42 reply ≡ or_default q.ip (192 ∷ 168 ∷ 7 ∷ 1 ∷ []))
unfolding build_arp_request build_arp_reply reply_frame
build_arp_reply-build_arp_request target q o ht hqm hqi hom hoi =
    let (known, all, mac, ip, asked) =
      request_frame-eq target (or_default q.mac default_server_mac)
        (or_default q.ip (192 ∷ 168 ∷ 7 ∷ 1 ∷ [])) ht hqm hqi in
    let (opcode, to, responder, answer, back, asker) =
      reply_frame-eq (or_default q.mac default_server_mac)
        (or_default q.ip (192 ∷ 168 ∷ 7 ∷ 1 ∷ [])) (or_default o.mac default_server_mac)
        (or_default o.ip target) o.bad_opcode o.foreign_destination hqm hqi hom hoi in
    rw (asked, mac, ip) (known, all, opcode, to, responder, answer, back, asker)
