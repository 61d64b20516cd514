-- ===== src/Peers/Chunks/Receiver.antt =====
-- A receiver for the segments of tools/exe-harness/net-builders.js, lines 455-476.
use sprinter_rtl8019a.Base.{
  ℕ, ◌+◌, ◌^◌, ◌<◌, ◌≡◌, ap, ◌∙◌, Bool, true, false, Option, none, some, List, [], ◌∷◌, ◌++◌, arith,
  ◌==◌, if◌then◌else◌, length, u32, has,
}
use sprinter_rtl8019a.Frames.Tcp.{Segment, parse_tcp_segment}
use sprinter_rtl8019a.Frames.Tcp.RoundTrip.{IsSegment, parse_tcp_segment-build_tcp_segment}
use sprinter_rtl8019a.Peers.Session.{
  TcpSession, StreamOptions, segment_options, server_segment, peer_mss,
}

-- A receiver that takes segments in order, up to the FIN: the bytes, and whether it came.
pub take_segment : ℕ → Segment → (ℕ → List ℕ × Bool) → List ℕ × Bool
take_segment next seg later =
    let (bytes, ended) = later (u32 (next + length seg.payload)) in
    if seg.seq == next
    then if has seg.flags 0 then (seg.payload, true) else (seg.payload ++ bytes, ended)
    else later next

pub received : ℕ → List (List ℕ) → List ℕ × Bool
received next [] = ([], false)
received next (frame ∷ frames) = elim (parse_tcp_segment frame) [
  | none ↦ received next frames
  | some seg ↦ take_segment next seg (λ n. received n frames)
]

-- The session of a client with whole addresses, and segments that fit a datagram.
pub record IsSendable (o : StreamOptions) (s : TcpSession) : Type 0 where
  pub server_mac : length s.ends.server_mac ≡ 6
  pub client_mac : length s.ends.client_mac ≡ 6
  pub server_ip : length s.ends.server_ip ≡ 4
  pub client_ip : length s.ends.client_ip ≡ 4
  pub server_port : s.ends.server_port < 65536
  pub client_port : s.ends.client_port < 65536
  pub server_seq : s.server_seq < 2 ^ 32
  pub client_next : s.client_next < 2 ^ 32
  pub positive : 0 < peer_mss o s
  pub fits : peer_mss o s < 65492

options-IsSegment :
    (o : StreamOptions) (s : TcpSession) (flags : ℕ) (payload : List ℕ)
    → IsSendable o s
    → flags < 256
    → length payload < 65492
    → IsSegment s.ends (segment_options flags s.server_seq s.client_next payload)
options-IsSegment o s flags payload v hf hl = record {
  server_mac = v.server_mac;
  client_mac = v.client_mac;
  server_ip = v.server_ip;
  client_ip = v.client_ip;
  server_port = v.server_port;
  client_port = v.client_port;
  seq = v.server_seq;
  ack = v.client_next;
  flags = hf;
  window = omega arith;
  size = hl;
}

received-parsed :
    (next : ℕ) (frame : List ℕ) (frames : List (List ℕ)) (seg : Segment)
    → parse_tcp_segment frame ≡ some seg
    → received next (frame ∷ frames) ≡ take_segment next seg (λ n. received n frames)
unfolding received
received-parsed next frame frames seg e =
    ap
      (λ (p : Option Segment). elim p as (λ x. List ℕ × Bool) [
        | none ↦ received next frames
        | some g ↦ take_segment next g (λ n. received n frames)
      ])
      e

-- What the receiver does with a segment that is next in line.
pub received-in_order :
    (o : StreamOptions) (s : TcpSession) (flags : ℕ) (payload : List ℕ) (frames : List (List ℕ))
    → IsSendable o s
    → flags < 256
    → length payload < 65492
    → received s.server_seq
        (server_segment s.ends flags s.server_seq s.client_next payload ∷ frames)
      ≡ (let (bytes, ended) = received (u32 (s.server_seq + length payload)) frames in
          if has flags 0 then (payload, true) else (payload ++ bytes, ended))
unfolding take_segment
received-in_order o s flags payload frames v hf hl =
    let e =
      parse_tcp_segment-build_tcp_segment s.ends
        (segment_options flags s.server_seq s.client_next payload)
        (options-IsSegment o s flags payload v hf hl) (λ size h. ground arith) in
    let same : (s.server_seq == s.server_seq) ≡ true = ground arith in
    received-parsed s.server_seq _ frames _ e ∙ simp same
