-- ===== src/Peers/Stream/Timers.antt =====
-- The retransmission timer of tools/exe-harness/net-builders.js, lines 619-642.
use sprinter_rtl8019a.Base.{
  ℕ, suc, ◌+◌, ◌-◌, ◌≤◌, ◌<◌, ◌≡◌, refl, Bool, true, false, ◌&&◌, ◌||◌, Option, none, some, List,
  [], ◌∷◌, ◌++◌, arith, min, ltb, leb, or_default, length, slice, u32, Bool-cases, inl, inr,
}
use mathlib.Core.List.{append_assoc}
use sprinter_rtl8019a.Nic.Types.{Card, deliver, timer}
use sprinter_rtl8019a.Nic.Clock.{schedule, push_pending, schedule_callback}
use sprinter_rtl8019a.Peers.Session.{
  TcpSession, StreamOptions, Rto, tf_psh, tf_ack, server_segment, response_bytes, post,
}
use sprinter_rtl8019a.Peers.Stream.{
  sent, admits, flight_order, end_flight, timeout, arm_rto, emit_one, emit_rounds, stream_emit,
  rto_expired,
}

-- The oldest segment that is not acknowledged.
unfoldable pub oldest_segment : ℕ → ℕ → TcpSession → List ℕ
oldest_segment mss total s =
    server_segment s.ends (tf_psh + tf_ack) (u32 (s.response_seq + s.acked_offset)) s.client_next
      (slice s.acked_offset (s.acked_offset + min mss (total - s.acked_offset)) (response_bytes s))

-- The timer that runs after the one with `r` has expired without progress.
abbrev pub next_rto : Rto → TcpSession → Rto
next_rto r s = record {
  serial = s.serial;
  at_offset = s.acked_offset;
  backoff = suc r.backoff;
  mss = r.mss;
  window = r.window;
  total = r.total;
}

-- `end_flight` only notes that a flight was reordered.
end_flight-cases {ℓ} :
    (Q : TcpSession → Type ℓ) (order : Option (List ℕ)) (emitted : ℕ) (s : TcpSession)
    → ((done : Bool) (count : Option ℕ)
        → Q (record s { ooo_first_flight_done = done; ooo_emitted = count }))
    → Q (end_flight order emitted s)
unfolding end_flight
end_flight-cases Q none emitted s h = h s.ooo_first_flight_done s.ooo_emitted
end_flight-cases Q (some order) emitted s h = elim (Bool-cases (leb (length order) emitted)) [
  | inl e ↦ rw e (h true (some emitted))
  | inr e ↦ rw e (h s.ooo_first_flight_done s.ooo_emitted)
]

module _ {P T : Type 0} (start_timer : Rto → T) where
  -- `rto_expired` has sent the oldest segment again and started the next timer.
  pub record IsResent (o : StreamOptions) (r : Rto) (s s' : TcpSession) (c c' : Card P T)
      : Type 0 where
    pub due : ℕ
    pub cleared : Bool
    pub emitted : Option ℕ
    pub next_ms : ℕ
    pub clock : c'.current_ms ≡ c.current_ms
    pub frames : c'.generated ≡ c.generated ++ (oldest_segment r.mss r.total s ∷ [])
    pub entries :
        c'.pending
        ≡ c.pending
          ++ (record {
            at_ms = c.current_ms + due;
            action = deliver (oldest_segment r.mss r.total s);
          }
              ∷ record {
                at_ms = c.current_ms + timeout o (suc r.backoff);
                action = timer (start_timer (next_rto r s));
              }
              ∷ [])
    pub session : s' ≡ record s {
      sent_offset = some (s.acked_offset + min r.mss (r.total - s.acked_offset));
      next_ms = next_ms;
      ooo_first_flight_done = cleared;
      ooo_emitted = emitted;
      rto_armed = true;
      backoff = suc r.backoff;
      retransmits = suc s.retransmits;
    }

  stream_emit_once :
      (o : StreamOptions) (mss : ℕ) (window : Option ℕ) (w total : ℕ) (s : TcpSession)
      (c : Card P T)
      → o.max_burst ≡ some 1
      → window ≡ some w
      → sent s < total
      → sent s + mss ≤ w + s.acked_offset
      → let order = flight_order o s in
        let one = emit_one start_timer o order mss total 0 s c in
        stream_emit start_timer o mss window total s c
        ≡ arm_rto start_timer o mss window total (end_flight order 1 (one.1)) (one.0)
  unfolding stream_emit emit_rounds
  stream_emit_once o mss window w total s c h1 hw h2 h3 =
      let e : ltb (sent s) total && admits window (sent s) s.acked_offset mss ≡ true =
        rw hw (ground arith) in
      simp (h1, e)

  arm_rto_once :
      (o : StreamOptions) (mss : ℕ) (window : Option ℕ) (total : ℕ) (s : TcpSession) (c : Card P T)
      → s.rto_armed ≡ false
      → s.acked_offset < sent s
      → arm_rto start_timer o mss window total s c ≡ (
        schedule_callback c (timeout o s.backoff) (
            start_timer (record {
              serial = s.serial;
              at_offset = s.acked_offset;
              backoff = s.backoff;
              mss = mss;
              window = window;
              total = total;
            })),
        record s { rto_armed = true },
      )
  unfolding arm_rto
  arm_rto_once o mss window total s c h1 h2 =
      let e : s.rto_armed || leb (sent s) s.acked_offset ≡ false = ground arith in simp e

  -- When the timer expires without progress, retransmissions are left and the window admits a
  -- segment, the peer sends the oldest segment that is not acknowledged once more, nothing else, and
  -- starts the timer for the next time, with one more in a row.
  pub rto_expired-IsResent :
      (o : StreamOptions) (r : Rto) (w : ℕ) (s : TcpSession) (c : Card P T)
      → s.acked_offset ≤ r.at_offset
      → s.acked_offset < r.total
      → r.backoff < or_default o.max_retransmits 15
      → r.window ≡ some w
      → 0 < r.mss
      → r.mss ≤ w
      → let e = rto_expired start_timer o r s c in IsResent o r s (e.1) c (e.0)
  unfolding rto_expired stream_emit emit_rounds emit_one arm_rto oldest_segment post schedule
      push_pending schedule_callback timeout
  rto_expired-IsResent o r w s c h1 h2 h3 hw h4 h5 =
      let e1 : ltb r.at_offset s.acked_offset ≡ false = ground arith in
      let e2 : leb r.total s.acked_offset ≡ false = ground arith in
      let e3 : ltb (or_default o.max_retransmits 15) (suc r.backoff) ≡ false = ground arith in
      let o1 : StreamOptions = record o { max_burst = some 1 } in
      let t : TcpSession = record s {
        rto_armed = false;
        retransmits = suc s.retransmits;
        backoff = suc r.backoff;
        sent_offset = some s.acked_offset;
        next_ms = c.current_ms;
      } in
      let order = flight_order o1 t in
      let one = emit_one start_timer o1 order r.mss r.total 0 t c in
      let once = stream_emit_once o1 r.mss r.window w r.total t c refl hw h2 (omega arith) in
      simp (e1, e2, e3, once)
        (end_flight-cases
          (λ u.
            let a = arm_rto start_timer o1 r.mss r.window r.total u (one.0) in
            IsResent o r s (a.1) c (a.0))
          order 1 (one.1)
          λ done count.
            (let u : TcpSession = record (one.1) {
              ooo_first_flight_done = done;
              ooo_emitted = count;
            } in
              let armed = arm_rto_once o1 r.mss r.window r.total u (one.0) refl (omega arith) in
              simp armed (record {
                due = _;
                cleared = done;
                emitted = count;
                next_ms = _;
                clock = refl;
                frames = refl;
                entries = append_assoc c.pending _ _;
                session = refl;
              })))
