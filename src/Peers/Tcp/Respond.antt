-- ===== src/Peers/Tcp/Respond.antt =====
-- tools/exe-harness/net-builders.js, lines 855-918: the three ways to answer the segments of an
-- established session, and `respondTcp` as a whole.
use sprinter_rtl8019a.Base.{
  ℕ, ◌+◌, true, false, not, ◌&&◌, ◌||◌, none, some, List, ◌++◌, ◌==◌, if◌then◌else◌, or_default,
  is_some, length, u32, has,
}
use sprinter_rtl8019a.Nic.Types.{Card}
use sprinter_rtl8019a.Frames.Tcp.{Segment, parse_tcp_segment}
use sprinter_rtl8019a.Peers.Session.{TcpSession, Rto, tf_syn}
use sprinter_rtl8019a.Peers.Chunks.{tcp_send_next_chunk}
use sprinter_rtl8019a.Peers.Reliable.{tcp_reliable_next}
use sprinter_rtl8019a.Peers.Stream.{tcp_stream_ahead, rto_expired}
use sprinter_rtl8019a.Peers.Store.{find_session, session_of}
use sprinter_rtl8019a.Peers.Tcp.{
  TcpPeer, is_syn_rcvd, is_empty, with_session, take_rst, take_request, answer_request, send_ack,
  respond_syn, respond_fin, establish,
}

-- A request segment of `reliableResponse`: where the request starts, and no offset is acknowledged
-- when the response is made.
unfoldable pub start_reliable : TcpPeer → TcpSession → Segment → TcpSession
start_reliable t s seg =
    let taken = take_request s seg in
    let s' = if seg.seq == s.client_next then record taken { request_start = seg.seq } else taken in
    let answered = answer_request t true s' in
    if not (is_some s'.response) && is_some answered.response
    then record answered { acked_offset = 0 }
    else answered

-- Without either option every payload counts as the next one.
unfoldable pub take_any : TcpPeer → TcpSession → Segment → TcpSession
take_any t s seg = answer_request t false (record s {
  client_next = u32 (seg.seq + length seg.payload);
  request = s.request ++ seg.payload;
})

module _ {P T : Type 0} (start_timer : Rto → T) where
  -- `tcp.streamAhead`
  unfoldable pub respond_stream : TcpPeer → TcpSession → Segment → Card P T → Card P T × TcpSession
  respond_stream t s seg c =
      let asked = answer_request t true (take_request s seg) in
      let acked = send_ack (or_default t.stream.data_ack_delay_ms 1) asked c in
      let (s', c') : TcpSession × Card P T =
        if is_empty seg.payload then (s, c) else (asked, acked) in
      if is_some s'.response then tcp_stream_ahead start_timer t.stream s' seg c' else (c', s')

  -- `tcp.reliableResponse`
  unfoldable pub respond_reliable :
      TcpPeer → TcpSession → Segment → Card P T → Card P T × TcpSession
  respond_reliable t s seg c =
      let asked = start_reliable t s seg in
      let acked =
        if not t.combined_ack || not (is_some asked.response)
        then send_ack (or_default t.stream.data_ack_delay_ms 1) asked c
        else c in
      let (s', c') : TcpSession × Card P T =
        if is_empty seg.payload then (s, c) else (asked, acked) in
      if is_some s'.response then tcp_reliable_next t.stream t.reliable s' seg c' else (c', s')

  -- Neither: each request segment and each ACK is answered by the next chunk.
  unfoldable pub respond_plain : TcpPeer → TcpSession → Segment → Card P T → Card P T × TcpSession
  respond_plain t s seg c =
      let asked = take_any t s seg in
      let acked =
        if t.drop_data_ack then c else send_ack (or_default t.stream.after_ms 1) asked c in
      if is_empty seg.payload
      then if has seg.flags 4 && is_some s.response
        then tcp_send_next_chunk t.stream s c
        else (c, s)
      else if is_some asked.response
      then tcp_send_next_chunk t.stream asked acked
      else (acked, asked)

  -- A segment of a session that exists; the FIN was tested for before.
  unfoldable pub respond_session : TcpPeer → TcpSession → Segment → Card P T → Card P T × TcpSession
  respond_session t s seg c =
      if has seg.flags 2
      then (c, take_rst s seg)
      else if has seg.flags 0
      then respond_fin t s seg c
      else if is_syn_rcvd s.state && has seg.flags 4 && is_empty seg.payload
      then establish t s c
      else if t.stream_ahead
      then respond_stream t s seg c
      else if t.reliable_response
      then respond_reliable t s seg c
      else respond_plain t s seg c

  unfoldable pub respond_segment : TcpPeer → Segment → Card P T → Card P T × TcpPeer
  respond_segment t seg c =
      if seg.flags == tf_syn
      then respond_syn t seg c
      else elim (find_session seg.src_port t.sessions) [
        | none ↦ (c, t)
        | some s ↦
            (let answered = respond_session t s seg c in (answered.0, with_session t (answered.1)))
      ]

  -- `respondTcp(frame, card, tcp)`
  unfoldable pub respond_tcp : List ℕ → Card P T → TcpPeer → Card P T × TcpPeer
  respond_tcp frame c t = elim (parse_tcp_segment frame) [
    | none ↦ (c, t)
    | some seg ↦ respond_segment t seg c
  ]

  -- The callback of `armRto` for a session of `respondTcp`.
  unfoldable pub fire_tcp : Rto → Card P T → TcpPeer → Card P T × TcpPeer
  fire_tcp r c t = elim (session_of r.serial t.sessions) [
    | none ↦ (c, t)
    | some s ↦
        (let expired = rto_expired start_timer t.stream r s c in
          (expired.0, with_session t (expired.1)))
  ]
