-- ===== src/Frames/Ntp/Clock.antt =====
-- The time that a client reads in the answer.
use sprinter_rtl8019a.Base.{
  ℕ, ◌+◌, ◌*◌, ◌%◌, ◌^◌, ◌≡◌, refl, some, List, arith, get_or, length, or_default,
}
use sprinter_rtl8019a.Frames.Udp.{Datagram, udp_datagram}
use sprinter_rtl8019a.Frames.Udp.RoundTrip.{reply_of, IsAddressed, udp_datagram-build_udp_reply}
use sprinter_rtl8019a.Frames.Dns.{served_from}
use sprinter_rtl8019a.Frames.Ntp.{NtpOptions, ntp_body, build_ntp_response, ntp_epoch_offset}

-- The big-endian number in four bytes of a message.
abbrev pub seconds_at : List ℕ → ℕ → ℕ
seconds_at bytes i =
    get_or bytes i 0 * 2 ^ 24
    + get_or bytes (i + 1) 0 * 2 ^ 16
    + get_or bytes (i + 2) 0 * 2 ^ 8
    + get_or bytes (i + 3) 0

ntp_body-seconds :
    (o : NtpOptions)
    → (seconds_at (ntp_body o) 40 ≡ (o.unix_seconds + ntp_epoch_offset) % 2 ^ 32)
      × (get_or (ntp_body o) 1 0 ≡ or_default o.stratum 1)
      × (length (ntp_body o) ≡ 48)
unfolding ntp_body
ntp_body-seconds o = (omega arith, refl, refl)

-- The answer to a datagram with whole addresses goes back to the asking port from port 123, as a
-- message of 48 bytes whose transmit timestamp is the server's time since 1900, modulo 2^32, and whose
-- second byte is the stratum.
pub build_ntp_response-seconds :
    (d : Datagram) (o : NtpOptions)
    → IsAddressed
        (reply_of d (ntp_body o) (served_from 123 o.mac o.ttl o.bad_ip_checksum o.bad_udp_checksum))
    → (r : Datagram) × (udp_datagram (build_ntp_response d o) ≡ some r)
      × (r.source_port ≡ 123)
      × (r.dest_port ≡ d.source_port)
      × (length r.payload ≡ 48)
      × (get_or r.payload 1 0 ≡ or_default o.stratum 1)
      × (seconds_at r.payload 40 ≡ (o.unix_seconds + ntp_epoch_offset) % 2 ^ 32)
unfolding build_ntp_response
build_ntp_response-seconds d o a =
    let s = ntp_body-seconds o in
    (
      _,
      udp_datagram-build_udp_reply d (ntp_body o)
          (served_from 123 o.mac o.ttl o.bad_ip_checksum o.bad_udp_checksum) a,
      refl,
      refl,
      s.2,
      s.1,
      s.0,
    )
