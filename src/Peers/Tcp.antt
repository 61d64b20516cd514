-- ===== src/Peers/Tcp.antt =====
-- tools/exe-harness/net-builders.js, lines 773-918: `respondTcp`, the simulated TCP and HTTP server.
pub mod Respond
use sprinter_rtl8019a.Base.{
  ℕ, suc, ◌+◌, ◌*◌, Bool, true, false, not, ◌&&◌, ◌||◌, Option, none, some, List, [], ◌∷◌, ◌++◌,
  ltb, ◌==◌, if◌then◌else◌, or_default, is_some, length, u32, has,
}
use sprinter_rtl8019a.Nic.Types.{Card}
use sprinter_rtl8019a.Frames.Tcp.{Segment, build_tcp_segment, parse_tcp_segment}
use sprinter_rtl8019a.Peers.Session.{
  TcpSession, StreamOptions, State, syn_rcvd, established, closed, Rto, tf_syn, tf_rst, tf_psh,
  tf_ack, segment_options, server_segment, post,
}
use sprinter_rtl8019a.Peers.Http.{HttpOptions, build_http_response}
use sprinter_rtl8019a.Peers.Chunks.{tcp_send_next_chunk}
use sprinter_rtl8019a.Peers.Reliable.{ReliableOptions, tcp_reliable_next}
use sprinter_rtl8019a.Peers.Stream.{tcp_stream_ahead}
use sprinter_rtl8019a.Peers.Store.{
  find_session, update_session, ends_of, new_session, includes_text,
}

-- `tcp.mode`
pub data TcpMode : Type 0 where
  accepting dropping refusing : TcpMode

-- `responders.tcp` and its `_sessions`. `greeting` is the list of the lines, empty without a greeting.
pub record TcpPeer : Type 0 where
  pub mode : TcpMode
  pub mac : Option (List ℕ)
  pub isn : Option ℕ
  pub drop_fin_acks : Option ℕ
  pub greeting : List (List ℕ)
  pub greeting_ms : Option ℕ
  pub stream_ahead : Bool
  pub reliable_response : Bool
  pub combined_ack : Bool
  pub drop_data_ack : Bool
  pub stream : StreamOptions
  pub reliable : ReliableOptions
  pub http : HttpOptions
  pub sessions : List TcpSession

abbrev pub is_syn_rcvd : State → Bool
is_syn_rcvd syn_rcvd = true
is_syn_rcvd _ = false

abbrev pub is_empty : List ℕ → Bool
is_empty [] = true
is_empty (b ∷ bs) = false

abbrev pub with_session : TcpPeer → TcpSession → TcpPeer
with_session t s = record t { sessions = update_session s t.sessions }

-- A RST counts exactly at RCV.NXT.
unfoldable pub take_rst : TcpSession → Segment → TcpSession
take_rst s seg =
    let s' = record s { resets = s.resets ++ (seg.seq ∷ []) } in
    if seg.seq == s.client_next then record s' { state = closed; aborted = true } else s'

unfoldable pub take_fin : TcpSession → Segment → TcpSession
take_fin s seg =
    let s' = record s { fins_seen = suc s.fins_seen } in
    if seg.seq == s.client_next
    then record s' { eof = true; client_next = u32 (seg.seq + length seg.payload + 1) }
    else s'

-- The payload of a segment that is next in line.
unfoldable pub take_request : TcpSession → Segment → TcpSession
take_request s seg =
    if seg.seq == s.client_next
    then record s {
      client_next = u32 (seg.seq + length seg.payload);
      request = s.request ++ seg.payload;
    }
    else s

-- Once the request is complete the response is built; `at_seq` is whether `responseSeq` is set.
unfoldable pub answer_request : TcpPeer → Bool → TcpSession → TcpSession
answer_request t at_seq s =
    if not (is_some s.response) && includes_text (13 ∷ 10 ∷ 13 ∷ 10 ∷ []) s.request
    then if at_seq
      then record s { response = some (build_http_response t.http); response_seq = s.server_seq }
      else record s { response = some (build_http_response t.http) }
    else s

module _ {P T : Type 0} where
  unfoldable pub send_ack : ℕ → TcpSession → Card P T → Card P T
  send_ack delay s c = post delay (server_segment s.ends tf_ack s.server_seq s.client_next []) c

  unfoldable pub respond_syn : TcpPeer → Segment → Card P T → Card P T × TcpPeer
  respond_syn t seg c =
      let delay = or_default t.stream.after_ms 1 in
      let isn : ℕ = elim (t.isn) [ none ↦ 0x12345678 | some n ↦ u32 n ] in
      let s = new_session (length t.sessions) false t.mac isn seg in
      let ack = u32 (seg.seq + 1) in
      elim (t.mode) [
        | dropping ↦ (c, t)
        | refusing ↦
            (post delay (server_segment (ends_of t.mac seg) (tf_rst + tf_ack) 0 ack []) c, t)
        | accepting ↦ (
          post delay
              (build_tcp_segment s.ends (record (segment_options (tf_syn + tf_ack) isn ack []) {
                mss = some (or_default t.stream.mss 536);
              }))
              c,
          record t { sessions = s ∷ t.sessions },
        )
      ]

  unfoldable pub respond_fin : TcpPeer → TcpSession → Segment → Card P T → Card P T × TcpSession
  respond_fin t s seg c =
      let s' = take_fin s seg in
      (
        if ltb (or_default t.drop_fin_acks 0) s'.fins_seen
            then send_ack (or_default t.stream.after_ms 1) s' c
            else c,
        s',
      )

  -- The lines of the greeting, each after `greetingMs` more.
  unfoldable pub greet : ℕ → ℕ → List (List ℕ) → TcpSession → Card P T → Card P T × TcpSession
  greet ms index [] s c = (c, s)
  greet ms index (line ∷ lines) s c =
      greet ms (suc index) lines (record s { server_seq = u32 (s.server_seq + length line) })
        (post (ms * (index + 1))
          (server_segment s.ends (tf_psh + tf_ack) s.server_seq s.client_next line) c)

  unfoldable pub establish : TcpPeer → TcpSession → Card P T → Card P T × TcpSession
  establish t s c =
      greet (or_default t.greeting_ms 1) 0 t.greeting
        (record s { state = established; server_seq = u32 (s.server_seq + 1) }) c
