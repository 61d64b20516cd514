-- ===== src/Frames/Tcp/Tests.antt =====
-- Segments of tools/exe-harness/net-builders.js on concrete input.
use sprinter_rtl8019a.Base.{ℕ, ◌≡◌, ◌<◌, refl, some, [], ◌∷◌, arith}
use sprinter_rtl8019a.Frames.Tcp.{Ends, TcpOptions, parse_tcp_segment, build_tcp_segment}
use sprinter_rtl8019a.Frames.Tcp.RoundTrip.{
  IsSegment, segment_of, parse_tcp_segment-build_tcp_segment,
}

abbrev ends : Ends
ends = record {
  server_mac = 2 ∷ 0 ∷ 0 ∷ 0 ∷ 0 ∷ 1 ∷ [];
  client_mac = 2 ∷ 128 ∷ 25 ∷ 17 ∷ 34 ∷ 51 ∷ [];
  server_ip = 192 ∷ 168 ∷ 7 ∷ 1 ∷ [];
  client_ip = 192 ∷ 168 ∷ 7 ∷ 2 ∷ [];
  server_port = 80;
  client_port = 49152;
}

-- A SYN and ACK that offers a maximum segment size.
abbrev offer : TcpOptions
offer = record {
  flags = 0x12;
  seq = 4000000000;
  ack = 7;
  payload = [];
  window = 2680;
  mss = some 1460;
}

offer-IsSegment : IsSegment ends offer
offer-IsSegment = record {
  server_mac = refl;
  client_mac = refl;
  server_ip = refl;
  client_ip = refl;
  server_port = omega arith;
  client_port = omega arith;
  seq = omega arith;
  ack = omega arith;
  flags = omega arith;
  window = omega arith;
  size = omega arith;
}

offered_mss : (size : ℕ) → some 1460 ≡ some size → size < 65536
offered_mss size e = ground arith

parse_tcp_segment-build_tcp_segment_example :
    parse_tcp_segment (build_tcp_segment ends offer) ≡ some (segment_of ends offer)
parse_tcp_segment-build_tcp_segment_example =
    parse_tcp_segment-build_tcp_segment ends offer offer-IsSegment offered_mss
