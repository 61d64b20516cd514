-- ===== src/Peers/Posted/Servers.antt =====
-- `respondTcp` (tools/exe-harness/net-builders.js, lines 773-918) only adds to the card's schedule.
use sprinter_rtl8019a.Base.{ℕ, suc, true, List, [], ◌∷◌, arith, or_default}
use sprinter_rtl8019a.Nic.Types.{Card}
use sprinter_rtl8019a.Frames.Tcp.{Segment}
use sprinter_rtl8019a.Frames.Tftp.{}
use sprinter_rtl8019a.Peers.Session.{TcpSession, Rto}
use sprinter_rtl8019a.Peers.Tcp.{
  TcpPeer, send_ack, take_request, answer_request, respond_syn, respond_fin, greet, establish,
}
use sprinter_rtl8019a.Peers.Tcp.Respond.{
  take_any, start_reliable, respond_stream, respond_reliable, respond_plain, respond_session,
  respond_segment, respond_tcp, fire_tcp,
}
use sprinter_rtl8019a.Peers.Ftp.{}
use sprinter_rtl8019a.Peers.Ftp.Respond.{}
use sprinter_rtl8019a.Peers.Posted.{IsPosted, refl-IsPosted, trans-IsPosted, post-IsPosted}
use sprinter_rtl8019a.Peers.Posted.Senders.{
  tcp_send_next_chunk-IsPosted, tcp_reliable_next-IsPosted, rto_expired-IsPosted,
  tcp_stream_ahead-IsPosted,
}

module _ {P T : Type 0} where
  send_ack-IsPosted : (delay : ℕ) (s : TcpSession) (c : Card P T) → IsPosted c (send_ack delay s c)
  unfolding send_ack
  send_ack-IsPosted delay s c = post-IsPosted _ _ c

  respond_syn-IsPosted :
      (t : TcpPeer) (seg : Segment) (c : Card P T) → IsPosted c ((respond_syn t seg c).0)
  unfolding respond_syn
  respond_syn-IsPosted t seg c = grind (arith, refl-IsPosted, post-IsPosted)

  respond_fin-IsPosted :
      (t : TcpPeer) (s : TcpSession) (seg : Segment) (c : Card P T)
      → IsPosted c ((respond_fin t s seg c).0)
  unfolding respond_fin
  respond_fin-IsPosted t s seg c = grind (arith, refl-IsPosted, send_ack-IsPosted)

  greet-IsPosted :
      (ms index : ℕ) (lines : List (List ℕ)) (s : TcpSession) (c : Card P T)
      → IsPosted c ((greet ms index lines s c).0)
  unfolding greet
  greet-IsPosted ms index [] s c = refl-IsPosted c
  greet-IsPosted ms index (line ∷ lines) s c =
      trans-IsPosted c _ _ (post-IsPosted _ _ c) (greet-IsPosted ms (suc index) lines _ _)

  establish-IsPosted :
      (t : TcpPeer) (s : TcpSession) (c : Card P T) → IsPosted c ((establish t s c).0)
  unfolding establish
  establish-IsPosted t s c = greet-IsPosted _ 0 t.greeting _ c

module _ {P T : Type 0} (start_timer : Rto → T) where
  respond_stream-IsPosted :
      (t : TcpPeer) (s : TcpSession) (seg : Segment) (c : Card P T)
      → IsPosted c ((respond_stream start_timer t s seg c).0)
  unfolding respond_stream
  respond_stream-IsPosted t s seg c =
      let asked = answer_request t true (take_request s seg) in
      let acked = send_ack-IsPosted (or_default t.stream.data_ack_delay_ms 1) asked c in
      ground (
        arith,
        refl-IsPosted c,
        acked,
        tcp_stream_ahead-IsPosted start_timer t.stream s seg c,
        trans-IsPosted c _ _ acked (tcp_stream_ahead-IsPosted start_timer t.stream asked seg _),
      )

  respond_reliable-IsPosted :
      (t : TcpPeer) (s : TcpSession) (seg : Segment) (c : Card P T)
      → IsPosted c ((respond_reliable start_timer t s seg c).0)
  unfolding respond_reliable
  respond_reliable-IsPosted t s seg c =
      let asked = start_reliable t s seg in
      let acked = send_ack-IsPosted (or_default t.stream.data_ack_delay_ms 1) asked c in
      ground (
        arith,
        refl-IsPosted c,
        acked,
        tcp_reliable_next-IsPosted t.stream t.reliable s seg c,
        tcp_reliable_next-IsPosted t.stream t.reliable asked seg c,
        trans-IsPosted c _ _ acked (tcp_reliable_next-IsPosted t.stream t.reliable asked seg _),
      )

  respond_plain-IsPosted :
      (t : TcpPeer) (s : TcpSession) (seg : Segment) (c : Card P T)
      → IsPosted c ((respond_plain start_timer t s seg c).0)
  unfolding respond_plain
  respond_plain-IsPosted t s seg c =
      let asked = take_any t s seg in
      let acked = send_ack-IsPosted (or_default t.stream.after_ms 1) asked c in
      ground (
        arith,
        refl-IsPosted c,
        acked,
        tcp_send_next_chunk-IsPosted t.stream s c,
        tcp_send_next_chunk-IsPosted t.stream asked c,
        trans-IsPosted c _ _ acked (tcp_send_next_chunk-IsPosted t.stream asked _),
      )

  respond_session-IsPosted :
      (t : TcpPeer) (s : TcpSession) (seg : Segment) (c : Card P T)
      → IsPosted c ((respond_session start_timer t s seg c).0)
  unfolding respond_session
  respond_session-IsPosted t s seg c = ground (
    arith,
    refl-IsPosted c,
    respond_fin-IsPosted t s seg c,
    establish-IsPosted t s c,
    respond_stream-IsPosted t s seg c,
    respond_reliable-IsPosted t s seg c,
    respond_plain-IsPosted t s seg c,
  )

  respond_segment-IsPosted :
      (t : TcpPeer) (seg : Segment) (c : Card P T)
      → IsPosted c ((respond_segment start_timer t seg c).0)
  unfolding respond_segment
  respond_segment-IsPosted t seg c =
      grind (arith, refl-IsPosted, respond_syn-IsPosted, respond_session-IsPosted)

  pub respond_tcp-IsPosted :
      (frame : List ℕ) (c : Card P T) (t : TcpPeer)
      → IsPosted c ((respond_tcp start_timer frame c t).0)
  unfolding respond_tcp
  respond_tcp-IsPosted frame c t = grind (arith, refl-IsPosted, respond_segment-IsPosted)

  pub fire_tcp-IsPosted :
      (r : Rto) (c : Card P T) (t : TcpPeer) → IsPosted c ((fire_tcp start_timer r c t).0)
  unfolding fire_tcp
  fire_tcp-IsPosted r c t = grind (arith, refl-IsPosted, rto_expired-IsPosted)
