-- ===== src/Peers/Reliable.antt =====
-- tools/exe-harness/net-builders.js, lines 478-527: `tcpReliableNext`, one flight at a time.
pub mod Bounds
use sprinter_rtl8019a.Base.{
  ℕ, ◌+◌, ◌-◌, Bool, true, not, ◌&&◌, ◌||◌, Option, [], min, ltb, leb, ◌==◌, if◌then◌else◌,
  or_default, length, slice, u32,
}
use sprinter_rtl8019a.Nic.Types.{Card}
use sprinter_rtl8019a.Frames.Tcp.{Segment}
use sprinter_rtl8019a.Peers.Session.{
  TcpSession, StreamOptions, tf_fin, tf_psh, tf_ack, seq_minus, server_segment, peer_mss,
  response_bytes, post,
}

-- The options of `responders.tcp` that only this sender reads.
pub record ReliableOptions : Type 0 where
  pub oversize_first : Bool
  pub overlap : Bool
  pub fin_with_data : Bool
  pub early_payload : Bool
  pub response_delay_ms : Option ℕ

-- A cumulative ACK that is neither stale nor beyond the end moves `ackedOffset`.
unfoldable pub take_ack : TcpSession → ℕ → TcpSession
take_ack s ack =
    let acked = seq_minus ack s.response_seq in
    if leb acked (length (response_bytes s)) && ltb s.acked_offset acked
    then record s { acked_offset = acked }
    else s

-- `start` and `size` of the next flight.
unfoldable pub flight : StreamOptions → ReliableOptions → TcpSession → ℕ → ℕ × ℕ
flight o r s window =
    let total = length (response_bytes s) in
    let start = s.acked_offset in
    let mss = peer_mss o s in
    let size =
      if not s.response_started && r.oversize_first
      then min total mss
      else min mss (min window (total - start)) in
    if r.overlap && ltb s.flight_start start && ltb start s.flight_end
    then (s.flight_start, min (size + (start - s.flight_start)) mss)
    else (start, size)

module _ {P T : Type 0} where
  -- The early payload is acknowledged apart.
  unfoldable pub late_ack : StreamOptions → ReliableOptions → TcpSession → Card P T → Card P T
  late_ack o r s c =
      if not s.response_started && r.early_payload
      then post (or_default o.data_ack_delay_ms 80)
          (server_segment s.ends tf_ack s.response_seq s.client_next []) c
      else c

  unfoldable pub send_flight :
      StreamOptions → ReliableOptions → TcpSession → ℕ → ℕ → Card P T → Card P T × TcpSession
  send_flight o r s start size c =
      let total = length (response_bytes s) in
      let fin = (start + size == total) && (r.fin_with_data || (size == 0)) in
      let flags = tf_ack + (if size == 0 then 0 else tf_psh) + (if fin then tf_fin else 0) in
      let ack =
        if r.early_payload && not s.response_started then s.request_start else s.client_next in
      let delay =
        if s.response_started then or_default o.after_ms 1 else or_default r.response_delay_ms 1 in
      let payload = slice start (start + size) (response_bytes s) in
      (
        late_ack o r s
            (post delay (server_segment s.ends flags (u32 (s.response_seq + start)) ack payload) c),
        record s {
          fin_sent = s.fin_sent || fin;
          flight_start = start;
          flight_end = start + size;
          response_started = true;
        },
      )

  unfoldable pub tcp_reliable_next :
      StreamOptions → ReliableOptions → TcpSession → Segment → Card P T → Card P T × TcpSession
  tcp_reliable_next o r session seg c =
      let s = take_ack session seg.ack in
      let total = length (response_bytes s) in
      let (start, size) = flight o r s seg.window in
      if s.fin_acked
      then (c, s)
      else if s.fin_sent && (seg.ack == u32 (s.response_seq + total + 1))
      then (c, record s { fin_acked = true })
      else if seg.window == 0
      then (c, s)
      else send_flight o r s start size c
