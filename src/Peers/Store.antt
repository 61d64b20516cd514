-- ===== src/Peers/Store.antt =====
-- The `_sessions` of `respondTcp` and `respondFtp` (tools/exe-harness/net-builders.js, lines 680-771
-- and 773-918): every session object that was made, the newest first. The property for a port holds
-- the newest object with that client port; a timer or `_dataSession` may still hold an older one.
use sprinter_rtl8019a.Base.{
  ℕ, ◌+◌, Bool, false, Option, none, some, List, [], ◌∷◌, ◌==◌, if◌then◌else◌, or_default, u32,
  starts_with, ◌||◌,
}
use sprinter_rtl8019a.Frames.Checksum.{default_server_mac}
use sprinter_rtl8019a.Frames.Tcp.{Ends, Segment}
use sprinter_rtl8019a.Peers.Session.{TcpSession, syn_rcvd}

unfoldable pub find_session : ℕ → List TcpSession → Option TcpSession
find_session port [] = none
find_session port (s ∷ ss) = if s.ends.client_port == port then some s else find_session port ss

unfoldable pub session_of : ℕ → List TcpSession → Option TcpSession
session_of serial [] = none
session_of serial (s ∷ ss) = if s.serial == serial then some s else session_of serial ss

-- Changes to the object, seen by all that hold it.
unfoldable pub update_session : TcpSession → List TcpSession → List TcpSession
update_session s [] = []
update_session s (t ∷ ts) = if t.serial == s.serial then s ∷ ts else t ∷ update_session s ts

abbrev pub ends_of : Option (List ℕ) → Segment → Ends
ends_of mac seg = record {
  server_mac = or_default mac default_server_mac;
  client_mac = seg.source_mac;
  server_ip = seg.dest_ip;
  client_ip = seg.source_ip;
  server_port = seg.dst_port;
  client_port = seg.src_port;
}

-- The object that a SYN makes.
abbrev pub new_session : ℕ → Bool → Option (List ℕ) → ℕ → Segment → TcpSession
new_session serial is_control mac isn seg = record {
  serial = serial;
  ends = ends_of mac seg;
  is_control = is_control;
  state = syn_rcvd;
  server_seq = isn;
  client_next = u32 (seg.seq + 1);
  client_mss = seg.mss;
  send_offset = 0;
  fin_sent = false;
  fin_acked = false;
  request = [];
  request_start = 0;
  response = none;
  response_seq = 0;
  response_started = false;
  acked_offset = 0;
  sent_offset = none;
  flight_start = 0;
  flight_end = 0;
  last_progress_ms = none;
  last_ack = none;
  dup_acks = 0;
  next_ms = 0;
  ooo_first_flight_done = false;
  ooo_emitted = none;
  rto_armed = false;
  backoff = 0;
  retransmits = 0;
  resets = [];
  aborted = false;
  fins_seen = 0;
  eof = false;
  last_window = none;
  streaming = false;
}

-- `text.includes(part)`
abbrev pub includes_text : List ℕ → List ℕ → Bool
includes_text part [] = starts_with part []
includes_text part (c ∷ cs) = starts_with part (c ∷ cs) || includes_text part cs
