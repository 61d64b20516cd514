-- ===== src/Peers/Posted/Senders.antt =====
-- The senders of tools/exe-harness/net-builders.js, lines 455-642, only add to the card's schedule.
use sprinter_rtl8019a.Base.{ℕ, zero, suc, Option, List, arith, Bool-cases, inl, inr, ltb, ◌&&◌}
use sprinter_rtl8019a.Nic.Types.{Card}
use sprinter_rtl8019a.Frames.Tcp.{Segment}
use sprinter_rtl8019a.Peers.Session.{TcpSession, StreamOptions, Rto}
use sprinter_rtl8019a.Peers.Chunks.{send_fin, send_chunk, tcp_send_next_chunk}
use sprinter_rtl8019a.Peers.Reliable.{ReliableOptions, late_ack, send_flight, tcp_reliable_next}
use sprinter_rtl8019a.Peers.Stream.{
  arm_rto, emit_one, emit_rounds, stream_emit, rto_expired, end_stream, tcp_stream_ahead, admits,
  sent,
}
use sprinter_rtl8019a.Peers.Posted.{
  IsPosted, refl-IsPosted, trans-IsPosted, post-IsPosted, schedule_callback-IsPosted,
}

module _ {P T : Type 0} where
  send_fin-IsPosted :
      (o : StreamOptions) (s : TcpSession) (c : Card P T) → IsPosted c ((send_fin o s c).0)
  unfolding send_fin
  send_fin-IsPosted o s c = grind (arith, refl-IsPosted, post-IsPosted)

  pub tcp_send_next_chunk-IsPosted :
      (o : StreamOptions) (s : TcpSession) (c : Card P T)
      → IsPosted c ((tcp_send_next_chunk o s c).0)
  unfolding tcp_send_next_chunk send_chunk
  tcp_send_next_chunk-IsPosted o s c = grind (arith, send_fin-IsPosted, post-IsPosted)

  late_ack-IsPosted :
      (o : StreamOptions) (r : ReliableOptions) (s : TcpSession) (c : Card P T)
      → IsPosted c (late_ack o r s c)
  unfolding late_ack
  late_ack-IsPosted o r s c = grind (arith, refl-IsPosted, post-IsPosted)

  send_flight-IsPosted :
      (o : StreamOptions) (r : ReliableOptions) (s : TcpSession) (start size : ℕ) (c : Card P T)
      → IsPosted c ((send_flight o r s start size c).0)
  unfolding send_flight
  send_flight-IsPosted o r s start size c =
      trans-IsPosted c _ _ (post-IsPosted _ _ c) (late_ack-IsPosted o r s _)

  pub tcp_reliable_next-IsPosted :
      (o : StreamOptions) (r : ReliableOptions) (s : TcpSession) (seg : Segment) (c : Card P T)
      → IsPosted c ((tcp_reliable_next o r s seg c).0)
  unfolding tcp_reliable_next
  tcp_reliable_next-IsPosted o r s seg c = grind (arith, refl-IsPosted, send_flight-IsPosted)

module _ {P T : Type 0} (start_timer : Rto → T) where
  arm_rto-IsPosted :
      (o : StreamOptions) (mss : ℕ) (window : Option ℕ) (total : ℕ) (s : TcpSession) (c : Card P T)
      → IsPosted c ((arm_rto start_timer o mss window total s c).0)
  unfolding arm_rto
  arm_rto-IsPosted o mss window total s c = grind (arith, refl-IsPosted, schedule_callback-IsPosted)

  emit_rounds-IsPosted :
      (burst : ℕ) (o : StreamOptions) (order : Option (List ℕ)) (mss : ℕ) (window : Option ℕ)
      (total emitted : ℕ) (s : TcpSession) (c : Card P T)
      → IsPosted c ((emit_rounds start_timer burst o order mss window total emitted s c).0)
  unfolding emit_rounds emit_one
  emit_rounds-IsPosted zero o order mss window total emitted s c = refl-IsPosted c
  emit_rounds-IsPosted (suc burst) o order mss window total emitted s c =
      elim (Bool-cases (ltb (sent s) total && admits window (sent s) s.acked_offset mss)) [
        | inl e ↦ rw e (
            trans-IsPosted c _ _ (post-IsPosted _ _ c)
              (emit_rounds-IsPosted burst o order mss window total (suc emitted) _ _))
        | inr e ↦ rw e (refl-IsPosted c)
      ]

  pub stream_emit-IsPosted :
      (o : StreamOptions) (mss : ℕ) (window : Option ℕ) (total : ℕ) (s : TcpSession) (c : Card P T)
      → IsPosted c ((stream_emit start_timer o mss window total s c).0)
  unfolding stream_emit
  stream_emit-IsPosted o mss window total s c =
      trans-IsPosted c _ _ (emit_rounds-IsPosted _ o _ mss window total 0 s c)
        (arm_rto-IsPosted o mss window total _ _)

  pub rto_expired-IsPosted :
      (o : StreamOptions) (r : Rto) (s : TcpSession) (c : Card P T)
      → IsPosted c ((rto_expired start_timer o r s c).0)
  unfolding rto_expired
  rto_expired-IsPosted o r s c =
      grind (arith, refl-IsPosted, arm_rto-IsPosted, stream_emit-IsPosted)

  end_stream-IsPosted :
      (o : StreamOptions) (s : TcpSession) (c : Card P T)
      → IsPosted c ((end_stream start_timer o s c).0)
  unfolding end_stream
  end_stream-IsPosted o s c = grind (arith, refl-IsPosted, post-IsPosted)

  pub tcp_stream_ahead-IsPosted :
      (o : StreamOptions) (s : TcpSession) (seg : Segment) (c : Card P T)
      → IsPosted c ((tcp_stream_ahead start_timer o s seg c).0)
  unfolding tcp_stream_ahead
  tcp_stream_ahead-IsPosted o s seg c = grind (arith, end_stream-IsPosted, stream_emit-IsPosted)
