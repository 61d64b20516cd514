-- ===== src/Peers/Tests.antt =====
-- The responders of tools/exe-harness/net-builders.js on concrete input.
mod Whole
use sprinter_rtl8019a.Base.{
  ℕ, ◌+◌, ◌-◌, ◌≤◌, ◌≡◌, refl, Bool, true, false, Option, none, some, List, [], ◌∷◌, ◌++◌, arith,
  length, map, drop, replicate, All, Result, ok, err, codes, crlf,
}
use sprinter_rtl8019a.Nic.Types.{Card, Env, Fault, Pending, never}
use sprinter_rtl8019a.Nic.Clock.Sent.{IsSent}
use sprinter_rtl8019a.Nic.Build.{Scenario, rtl8019as, default_quirks, new_card, new_env}
use sprinter_rtl8019a.Nic.Prom.{Layout}
use sprinter_rtl8019a.Nic.Run.{Cycle, run}
use sprinter_rtl8019a.Nic.Run.Settled.{IsSettled}
use sprinter_rtl8019a.Frames.Checksum.{default_server_mac}
use sprinter_rtl8019a.Frames.Arp.{ArpOptions, build_arp_request, build_arp_reply, is_arp_request}
use sprinter_rtl8019a.Frames.Tcp.{Segment}
use sprinter_rtl8019a.Peers.Session.{TcpSession, StreamOptions, Rto, peer_mss}
use sprinter_rtl8019a.Peers.Store.{new_session}
use sprinter_rtl8019a.Peers.Chunks.Receiver.{received, IsSendable}
use sprinter_rtl8019a.Peers.Chunks.Delivered.{send_chunks, send_chunks-received}
use sprinter_rtl8019a.Peers.Reliable.{ReliableOptions, tcp_reliable_next}
use sprinter_rtl8019a.Peers.Reliable.Bounds.{IsReliable, KeepsOrFlies, tcp_reliable_next-bounded}
use sprinter_rtl8019a.Peers.Stream.{timeout, rto_expired}
use sprinter_rtl8019a.Peers.Stream.Timers.{oldest_segment, IsResent, rto_expired-IsResent}
use sprinter_rtl8019a.Peers.Stream.Silence.{rto_with, IsLog, silence, silence-gives_up}
use sprinter_rtl8019a.Peers.Ftp.{FtpPeer}
use sprinter_rtl8019a.Peers.Ftp.Respond.{run_commands}
use sprinter_rtl8019a.Peers.Ftp.Commands.{run_commands-append}
use sprinter_rtl8019a.Peers.Responders.{Counter, Responders, PeerTimer, PeerCard}
use sprinter_rtl8019a.Peers.Dispatch.{respond, with_responders}
use sprinter_rtl8019a.Peers.Dispatch.Drops.{respond_all, respond_all-arp}
use sprinter_rtl8019a.Peers.Posted.Answers.{IsAnswered}
use sprinter_rtl8019a.Peers.Posted.Whole.{respond-IsAnswered, run-with_responders-IsSettled}

abbrev pub bare : Scenario
bare = record {
  card_present = true;
  slot = 0;
  base = none;
  mac = none;
  variant = rtl8019as;
  quirks = default_quirks;
  prom_layout = Layout.direct;
  prom_signature = none;
  cfg0 = none;
  cfg1 = none;
  cfg2 = none;
  cfg3 = none;
  cfg4 = none;
  poison = false;
  corrupt_dma_read_at = none;
  tx_error = never;
  rx_frames = [];
}

abbrev card : Card Unit Rto
card = new_card bare tt

abbrev timer_of : Rto → Rto
timer_of r = r

abbrev usual : StreamOptions
usual = record {
  mss = none;
  after_ms = none;
  data_ack_delay_ms = none;
  ignore_window = false;
  dup_ack_retransmit = none;
  segment_gap_ms = none;
  ooo_order = none;
  ooo_repeat = false;
  ooo_after_offset = none;
  max_burst = none;
  rto_ms = none;
  rto_max_ms = none;
  max_retransmits = some 2;
}

-- A segment of the client that acknowledges up to a number.
abbrev ack_segment : ℕ → Segment
ack_segment ack = record {
  source_mac = 2 ∷ 128 ∷ 25 ∷ 17 ∷ 34 ∷ 51 ∷ [];
  dest_mac = 2 ∷ 0 ∷ 0 ∷ 0 ∷ 0 ∷ 1 ∷ [];
  source_ip = 192 ∷ 168 ∷ 7 ∷ 2 ∷ [];
  dest_ip = 192 ∷ 168 ∷ 7 ∷ 1 ∷ [];
  src_port = 49152;
  dst_port = 80;
  seq = 77;
  ack = ack;
  flags = 16;
  window = 8;
  mss = some 4;
  payload = [];
}

-- A session with a response of seven bytes, whose numbers wrap around within it.
abbrev open_session : TcpSession
open_session = record (new_session 0 false none 4294967293 (ack_segment 0)) {
  response = some (10 ∷ 20 ∷ 30 ∷ 40 ∷ 50 ∷ 60 ∷ 70 ∷ []);
  response_seq = 4294967293;
}

open_session-IsSendable : IsSendable usual open_session
unfolding default_server_mac
open_session-IsSendable = record {
  server_mac = refl;
  client_mac = refl;
  server_ip = refl;
  client_ip = refl;
  server_port = omega arith;
  client_port = omega arith;
  server_seq = omega arith;
  client_next = omega arith;
  positive = omega arith;
  fits = omega arith;
}

send_chunks-received_example :
    let r = send_chunks 3 usual open_session card in
    (frames : List (List ℕ)) × IsSent 1 frames card (r.0)
    × (received 4294967293 frames ≡ (10 ∷ 20 ∷ 30 ∷ 40 ∷ 50 ∷ 60 ∷ 70 ∷ [], true))
    × ((more : ℕ) → send_chunks more usual (r.1) (r.0) ≡ (r.0, r.1))
send_chunks-received_example =
    send_chunks-received 2 usual open_session card open_session-IsSendable refl (omega arith)

-- Half of the response is on its way, and the timer of its first byte has expired.
abbrev waiting_session : TcpSession
waiting_session = record open_session { sent_offset = some 4 }

abbrev expired : Rto
expired = record { serial = 0; at_offset = 0; backoff = 0; mss = 4; window = some 8; total = 7 }

rto_expired-IsResent_example :
    let e = rto_expired timer_of usual expired waiting_session card in
    IsResent timer_of usual expired waiting_session (e.1) card (e.0)
rto_expired-IsResent_example =
    rto_expired-IsResent timer_of usual expired 8 waiting_session card (omega arith) (omega arith)
      (omega arith) refl (omega arith) (omega arith)

silence-gives_up_example :
    let e = silence timer_of 3 usual expired waiting_session card in
    ((e.1).rto_armed ≡ false)
    × ((e.0).generated ≡ card.generated ++ replicate 2 (oldest_segment 4 7 waiting_session))
    × (log : List (Pending Rto)) × ((e.0).pending ≡ card.pending ++ log)
    × IsLog timer_of usual
        (oldest_segment 4 7 waiting_session)
        (rto_with expired waiting_session)
        2
        (card.current_ms + timeout usual 0)
        0
        log
silence-gives_up_example =
    silence-gives_up timer_of 3 usual expired 8 waiting_session card (omega arith) (omega arith)
      (omega arith) (omega arith) refl (omega arith) (omega arith)

abbrev overlapping : ReliableOptions
overlapping = record {
  oversize_first = false;
  overlap = true;
  fin_with_data = false;
  early_payload = false;
  response_delay_ms = none;
}

abbrev flying_session : TcpSession
flying_session = record open_session { flight_start = 0; flight_end = 4 }

tcp_reliable_next-bounded_example :
    let e = tcp_reliable_next usual overlapping flying_session (ack_segment 0) card in
    IsReliable (e.1)
    × (0 ≤ (e.1).acked_offset)
    × KeepsOrFlies usual 8 flying_session (e.1) card (e.0)
tcp_reliable_next-bounded_example =
    tcp_reliable_next-bounded usual overlapping flying_session (ack_segment 0) card
      (record { acked = omega arith; flown = omega arith }) refl

abbrev ftp : FtpPeer
ftp = record {
  port = none;
  mac = none;
  isn = none;
  greeting = none;
  listing = none;
  pasv_port = none;
  stream = usual;
  file_bytes = 1 ∷ 2 ∷ 3 ∷ [];
  sessions = [];
  data_session = none;
  retr_issued = false;
  sent_226 = false;
  commands = [];
}

-- The line end itself is cut.
abbrev head_text : List ℕ
head_text = codes "USER a" ++ (13 ∷ [])

abbrev tail_text : List ℕ
tail_text = 10 ∷ codes "SI"

run_commands-append_example :
    let whole =
      run_commands timer_of
        (length (head_text ++ tail_text))
        ftp
        (head_text ++ tail_text)
        open_session
        card in
    let first = run_commands timer_of (length head_text) ftp head_text open_session card in
    let text = (first.2).request ++ tail_text in
    let second = run_commands timer_of (length text) (first.1) text (first.2) (first.0) in
    ((second.1).commands ≡ (whole.1).commands) × ((second.2).request ≡ (whole.2).request)
run_commands-append_example = run_commands-append timer_of ftp head_text tail_text open_session card
