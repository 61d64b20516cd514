-- ===== src/Peers/Stream.antt =====
-- tools/exe-harness/net-builders.js, lines 529-642: the sender that keeps the window full
-- (`tcpStreamAhead`, `streamEmit`) and its retransmission timer (`armRto`).
pub mod Offsets
pub mod Bounds
pub mod Timers
pub mod Silence
use sprinter_rtl8019a.Base.{
  ℕ, zero, suc, ◌+◌, ◌-◌, ◌*◌, ◌%◌, ◌^◌, Bool, true, false, not, ◌&&◌, ◌||◌, Option, none, some,
  List, [], ◌∷◌, min, max, ltb, leb, ◌==◌, if◌then◌else◌, or_default, length, slice, u32,
}
use sprinter_rtl8019a.Nic.Types.{Card}
use sprinter_rtl8019a.Nic.Clock.{schedule_callback}
use sprinter_rtl8019a.Frames.Tcp.{Segment}
use sprinter_rtl8019a.Peers.Session.{
  TcpSession, StreamOptions, Rto, tf_fin, tf_psh, tf_ack, seq_minus, server_segment, peer_mss,
  response_bytes, post,
}

abbrev pub sent : TcpSession → ℕ
sent s = or_default s.sent_offset 0

-- `(sentOffset - ackedOffset) + mss <= window`; `sentOffset` may lie below `ackedOffset`.
abbrev pub admits : Option ℕ → ℕ → ℕ → ℕ → Bool
admits none sent_offset acked_offset mss = true
admits (some window) sent_offset acked_offset mss = leb (sent_offset + mss) (window + acked_offset)

-- `order.indexOf(n)`, given the position of the first element.
abbrev pub index_from : ℕ → List ℕ → ℕ → Option ℕ
index_from i [] n = none
index_from i (x ∷ xs) n = if x == n then some i else index_from (suc i) xs n

-- `reorderThisFlight`, as the order to use.
unfoldable pub flight_order : StreamOptions → TcpSession → Option (List ℕ)
flight_order o s =
    if (o.ooo_repeat || not s.ooo_first_flight_done)
      && leb (or_default o.ooo_after_offset 0) s.acked_offset
    then o.ooo_order
    else none

abbrev pub rank_of : Option (List ℕ) → ℕ → Option ℕ
rank_of none emitted = none
rank_of (some order) emitted =
    if ltb emitted (length order) then index_from 0 order emitted else none

unfoldable pub end_flight : Option (List ℕ) → ℕ → TcpSession → TcpSession
end_flight none emitted s = s
end_flight (some order) emitted s =
    if leb (length order) emitted
    then record s { ooo_first_flight_done = true; ooo_emitted = some emitted }
    else s

-- The timeout after `backoff` retransmissions in a row. `1 << backoff` looks at five bits of `backoff`;
-- the 31st power is negative there, which makes the timer due at once.
unfoldable pub timeout : StreamOptions → ℕ → ℕ
timeout o backoff =
    if backoff % 32 == 31
    then 0
    else min (or_default o.rto_ms 200 * 2 ^ (backoff % 32)) (or_default o.rto_max_ms 60000)

-- Progress, as in `tcpReliableNext`, with the time of it.
unfoldable pub take_progress : TcpSession → ℕ → ℕ → TcpSession
take_progress s ack now =
    let acked = seq_minus ack s.response_seq in
    if leb acked (length (response_bytes s)) && ltb s.acked_offset acked
    then record s { acked_offset = acked; last_progress_ms = some now }
    else s

-- Duplicate ACKs: after enough of them the sender goes back to the acknowledged byte.
unfoldable pub count_dup_ack : StreamOptions → TcpSession → ℕ → TcpSession
count_dup_ack o s ack =
    let repeated : Bool = elim (s.last_ack) [ none ↦ false | some last ↦ ack == last ] in
    if ltb s.acked_offset (sent s) && repeated
    then if leb (or_default o.dup_ack_retransmit 2) (suc s.dup_acks)
      then record s { sent_offset = some s.acked_offset; dup_acks = 0; last_ack = some ack }
      else record s { dup_acks = suc s.dup_acks; last_ack = some ack }
    else record s { dup_acks = 0; last_ack = some ack }

abbrev pub start_stream : TcpSession → TcpSession
start_stream s = elim (s.sent_offset) [
  | none ↦ record s { sent_offset = some 0; acked_offset = 0 }
  | some offset ↦ s
]

module _ {P T : Type 0} (start_timer : Rto → T) where
  unfoldable pub arm_rto :
      StreamOptions → ℕ → Option ℕ → ℕ → TcpSession → Card P T → Card P T × TcpSession
  arm_rto o mss window total s c = if s.rto_armed || leb (sent s) s.acked_offset then (c, s) else (
    schedule_callback c (timeout o s.backoff) (
        start_timer (record {
          serial = s.serial;
          at_offset = s.acked_offset;
          backoff = s.backoff;
          mss = mss;
          window = window;
          total = total;
        })),
    record s { rto_armed = true },
  )

  -- One round of the loop of `streamEmit`.
  unfoldable pub emit_one :
      StreamOptions → Option (List ℕ) → ℕ → ℕ → ℕ → TcpSession → Card P T → Card P T × TcpSession
  emit_one o order mss total emitted s c =
      let size = min mss (total - sent s) in
      let payload = slice (sent s) (sent s + size) (response_bytes s) in
      let gap = or_default o.segment_gap_ms 1 in
      let after = or_default o.after_ms 1 in
      let next = max s.next_ms (c.current_ms + after) + (if emitted == 0 then 0 else gap) in
      let due : ℕ = elim (rank_of order emitted) [
        | none ↦ next - c.current_ms
        | some rank ↦ after + rank * gap
      ] in
      (
        post due
            (server_segment s.ends (tf_psh + tf_ack) (u32 (s.response_seq + sent s)) s.client_next
              payload)
            c,
        record s { sent_offset = some (sent s + size); next_ms = next },
      )

  -- The loop, with the rounds that `maxBurst` still allows; the last component is `emitted`.
  unfoldable pub emit_rounds :
      ℕ
      → StreamOptions
      → Option (List ℕ)
      → ℕ
      → Option ℕ
      → ℕ
      → ℕ
      → TcpSession
      → Card P T
      → Card P T × TcpSession × ℕ
  emit_rounds zero o order mss window total emitted s c = (c, s, emitted)
  emit_rounds (suc burst) o order mss window total emitted s c =
      let (c', s') = emit_one o order mss total emitted s c in
      let rest = emit_rounds burst o order mss window total (suc emitted) s' c' in
      if ltb (sent s) total && admits window (sent s) s.acked_offset mss
      then rest
      else (c, s, emitted)

  unfoldable pub stream_emit :
      StreamOptions → ℕ → Option ℕ → ℕ → TcpSession → Card P T → Card P T × TcpSession
  stream_emit o mss window total s c =
      let order = flight_order o s in
      let (c', s', emitted) =
        emit_rounds (or_default o.max_burst 8) o order mss window total 0 s c in
      arm_rto o mss window total (end_flight order emitted s') c'

  -- The callback that `armRto` schedules, on the session that it has captured.
  unfoldable pub rto_expired : StreamOptions → Rto → TcpSession → Card P T → Card P T × TcpSession
  rto_expired o r session c =
      let s = record session { rto_armed = false } in
      let resent = record s {
        retransmits = suc s.retransmits;
        backoff = suc r.backoff;
        sent_offset = some s.acked_offset;
        next_ms = c.current_ms;
      } in
      if ltb r.at_offset s.acked_offset
      then arm_rto o r.mss r.window r.total (record s { backoff = 0 }) c
      else if leb r.total s.acked_offset
      then (c, s)
      else if ltb (or_default o.max_retransmits 15) (suc r.backoff)
      then (c, record s { retransmits = suc s.retransmits; backoff = suc r.backoff })
      else stream_emit (record o { max_burst = some 1 }) r.mss r.window r.total resent c

  -- The whole response is acknowledged.
  unfoldable pub end_stream : StreamOptions → TcpSession → Card P T → Card P T × TcpSession
  end_stream o s c = if s.fin_sent then (c, s) else (
    post (or_default o.after_ms 1)
        (server_segment s.ends (tf_fin + tf_ack) (u32 (s.response_seq + length (response_bytes s)))
          s.client_next [])
        c,
    record s { fin_sent = true },
  )

  unfoldable pub tcp_stream_ahead :
      StreamOptions → TcpSession → Segment → Card P T → Card P T × TcpSession
  tcp_stream_ahead o session seg c =
      let s = take_progress (start_stream session) seg.ack c.current_ms in
      let total = length (response_bytes s) in
      let window = if o.ignore_window then none else some seg.window in
      if leb total s.acked_offset
      then end_stream o s c
      else stream_emit o (peer_mss o s) window total (count_dup_ack o s seg.ack) c
