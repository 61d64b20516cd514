-- ===== src/Peers/Session.antt =====
-- tools/exe-harness/net-builders.js, lines 384-392 and the state that lines 453-918 keep of a TCP
-- session. The options that the senders share are a record of their own.
use sprinter_rtl8019a.Base.{
  ℕ, refl, ◌+◌, ◌-◌, ◌^◌, Bool, Option, none, List, [], ◌∷◌, ◌++◌, or_default, u32,
}
use sprinter_rtl8019a.Nic.Types.{Card}
use sprinter_rtl8019a.Nic.Clock.{schedule, push_pending}
use sprinter_rtl8019a.Nic.Clock.Sent.{IsSent}
use sprinter_rtl8019a.Frames.Tcp.{Ends, TcpOptions, build_tcp_segment}

abbrev pub tf_fin : ℕ
tf_fin = 1

abbrev pub tf_syn : ℕ
tf_syn = 2

abbrev pub tf_rst : ℕ
tf_rst = 4

abbrev pub tf_psh : ℕ
tf_psh = 8

abbrev pub tf_ack : ℕ
tf_ack = 16

pub data State : Type 0 where
  syn_rcvd established closed : State

-- An object of `_sessions`. `serial` is its identity: a later SYN from the same port makes another
-- object, while a timer still has the old one. A number that starts out undefined is 0 where the code
-- reads it with `|| 0` or `?? 0`, or not before it is set. `flight_start` and `flight_end` are 0
-- at first, which, like undefined, have nothing between them; no `request` is the empty one.
-- `rtoPending`, which nothing reads, is left out.
pub record TcpSession : Type 0 where
  pub serial : ℕ
  pub ends : Ends
  pub is_control : Bool
  pub state : State
  pub server_seq : ℕ
  pub client_next : ℕ
  pub client_mss : Option ℕ
  pub send_offset : ℕ
  pub fin_sent : Bool
  pub fin_acked : Bool
  pub request : List ℕ
  pub request_start : ℕ
  pub response : Option (List ℕ)
  pub response_seq : ℕ
  pub response_started : Bool
  pub acked_offset : ℕ
  pub sent_offset : Option ℕ
  pub flight_start : ℕ
  pub flight_end : ℕ
  pub last_progress_ms : Option ℕ
  pub last_ack : Option ℕ
  pub dup_acks : ℕ
  pub next_ms : ℕ
  pub ooo_first_flight_done : Bool
  pub ooo_emitted : Option ℕ
  pub rto_armed : Bool
  pub backoff : ℕ
  pub retransmits : ℕ
  pub resets : List ℕ
  pub aborted : Bool
  pub fins_seen : ℕ
  pub eof : Bool
  pub last_window : Option ℕ
  pub streaming : Bool

-- What `tcpSendNextChunk`, `tcpStreamAhead`, `streamEmit` and `armRto` read of their third argument.
pub record StreamOptions : Type 0 where
  pub mss : Option ℕ
  pub after_ms : Option ℕ
  pub data_ack_delay_ms : Option ℕ
  pub ignore_window : Bool
  pub dup_ack_retransmit : Option ℕ
  pub segment_gap_ms : Option ℕ
  pub ooo_order : Option (List ℕ)
  pub ooo_repeat : Bool
  pub ooo_after_offset : Option ℕ
  pub max_burst : Option ℕ
  pub rto_ms : Option ℕ
  pub rto_max_ms : Option ℕ
  pub max_retransmits : Option ℕ

-- What the callback of `armRto` has captured. `window` is absent where it is Infinity.
pub record Rto : Type 0 where
  pub serial : ℕ
  pub at_offset : ℕ
  pub backoff : ℕ
  pub mss : ℕ
  pub window : Option ℕ
  pub total : ℕ

-- `(a - b) >>> 0`
abbrev pub seq_minus : ℕ → ℕ → ℕ
seq_minus a b = u32 (a + (2 ^ 32 - u32 b))

-- A segment from the server with the window that `buildTcpSegment` fills in.
abbrev pub segment_options : ℕ → ℕ → ℕ → List ℕ → TcpOptions
segment_options flags seq ack payload = record {
  flags = flags;
  seq = seq;
  ack = ack;
  payload = payload;
  window = 2680;
  mss = none;
}

abbrev pub server_segment : Ends → ℕ → ℕ → ℕ → List ℕ → List ℕ
server_segment ends flags seq ack payload =
    build_tcp_segment ends (segment_options flags seq ack payload)

-- `tcp.mss ?? session.clientMss ?? 536`
abbrev pub peer_mss : StreamOptions → TcpSession → ℕ
peer_mss o s = or_default o.mss (or_default s.client_mss 536)

abbrev pub response_bytes : TcpSession → List ℕ
response_bytes s = or_default s.response []

module _ {P T : Type 0} where
  -- `card.generated.push(frame); card.schedule(delay, frame);`
  unfoldable pub post : ℕ → List ℕ → Card P T → Card P T
  post delay frame c = schedule (record c { generated = c.generated ++ (frame ∷ []) }) delay frame

  pub post-IsSent :
      (delay : ℕ) (frame : List ℕ) (c : Card P T) → IsSent delay (frame ∷ []) c (post delay frame c)
  unfolding post schedule push_pending
  post-IsSent delay frame c = record { clock = refl; generated = refl; pending = refl }
