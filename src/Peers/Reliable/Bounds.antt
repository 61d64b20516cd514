-- ===== src/Peers/Reliable/Bounds.antt =====
-- What `tcpReliableNext` of tools/exe-harness/net-builders.js, lines 481-521, may send.
use sprinter_rtl8019a.Base.{
  ℕ, ◌+◌, ◌-◌, ◌≤◌, ◌≡◌, ◌⊎◌, refl, [], ◌∷◌, not, or_default, slice, Bool, true, false, ◌&&◌, arith,
  ltb, leb, ◌==◌, if◌then◌else◌, length, u32, Bool-cases, inl, inr,
}
use sprinter_rtl8019a.Nic.Types.{Card}
use sprinter_rtl8019a.Nic.Clock.Sent.{IsSent}
use sprinter_rtl8019a.Frames.Tcp.{Segment}
use sprinter_rtl8019a.Peers.Session.{
  TcpSession, StreamOptions, peer_mss, response_bytes, seq_minus, server_segment, tf_ack,
  post-IsSent,
}
use sprinter_rtl8019a.Peers.Reliable.{
  ReliableOptions, take_ack, flight, late_ack, send_flight, tcp_reliable_next,
}

-- The acknowledged offset and the last flight lie within the response.
pub record IsReliable (s : TcpSession) : Type 0 where
  pub acked : s.acked_offset ≤ length (response_bytes s)
  pub flown : s.flight_end ≤ length (response_bytes s)

-- `take_ack` moves the offset forward within the response, or leaves it.
take_ack-cases {ℓ} :
    (Q : TcpSession → Type ℓ) (s : TcpSession) (ack : ℕ)
    → s.acked_offset ≤ length (response_bytes s)
    → ((a : ℕ)
        → s.acked_offset ≤ a
        → a ≤ length (response_bytes s)
        → Q (record s { acked_offset = a }))
    → Q (take_ack s ack)
unfolding take_ack
take_ack-cases Q s ack v h =
    let acked = seq_minus ack s.response_seq in
    elim (Bool-cases (leb acked (length (response_bytes s)) && ltb s.acked_offset acked)) [
      | inl e ↦ rw e (h acked (ground arith) (ground arith))
      | inr e ↦ rw e (h s.acked_offset (omega arith) v)
    ]

if_both {ℓ κ} :
    {A : Type ℓ} (Q : A → Type κ) (b : Bool) (x y : A) → Q x → Q y → Q (if b then x else y)
if_both Q true x y hx hy = hx
if_both Q false x y hx hy = hy

flight-bounded :
    (o : StreamOptions) (r : ReliableOptions) (s : TcpSession) (window : ℕ)
    → IsReliable s
    → r.oversize_first ≡ false
    → let (start, size) = flight o r s window in
      (start + size ≤ length (response_bytes s))
      × (start + size ≤ s.acked_offset + window)
      × (size ≤ peer_mss o s)
unfolding flight
flight-bounded o r s window v h = ground (arith, v.acked, v.flown)

module _ {P T : Type 0} where
  -- The rest of the call, once the acknowledgement has been taken.
  abbrev answer_ack :
      StreamOptions → ReliableOptions → TcpSession → Segment → Card P T → Card P T × TcpSession
  answer_ack o r s seg c =
      let (start, size) = flight o r s seg.window in
      if s.fin_acked
      then (c, s)
      else if s.fin_sent && (seg.ack == u32 (s.response_seq + length (response_bytes s) + 1))
      then (c, record s { fin_acked = true })
      else if seg.window == 0
      then (c, s)
      else send_flight o r s start size c

  -- One flight has been sent: it ends within the window, counted from the acknowledged offset, holds
  -- at most one segment size, and exactly its bytes are in one segment; an acknowledgement of the
  -- request may follow it.
  pub record HasFlown (o : StreamOptions) (window : ℕ) (s s' : TcpSession) (c c' : Card P T)
      : Type 0 where
    pub flags : ℕ
    pub ack : ℕ
    pub delay : ℕ
    pub behind_data : Card P T
    pub ordered : s'.flight_start ≤ s'.flight_end
    pub in_window : s'.flight_end ≤ s'.acked_offset + window
    pub one_segment : s'.flight_end - s'.flight_start ≤ peer_mss o s
    pub carried :
        IsSent delay
          (server_segment s.ends flags
              (u32 (s.response_seq + s'.flight_start))
              ack
              (slice s'.flight_start s'.flight_end (response_bytes s))
            ∷ [])
          c
          behind_data
    pub late :
        (c' ≡ behind_data)
        ⊎ (time : ℕ) × IsSent time
            (server_segment s.ends tf_ack s.response_seq s.client_next [] ∷ [])
            behind_data
            c'

  -- Nothing is sent and the last flight stays, or the next one has been sent.
  abbrev pub KeepsOrFlies :
      StreamOptions → ℕ → TcpSession → TcpSession → Card P T → Card P T → Type 0
  KeepsOrFlies o window s s' c c' =
      ((c' ≡ c) × (s'.flight_start ≡ s.flight_start) × (s'.flight_end ≡ s.flight_end))
      ⊎ HasFlown o window s s' c c'

  Bounded : StreamOptions → Segment → TcpSession → Card P T → Card P T × TcpSession → Type 0
  Bounded o seg s c r =
      IsReliable (r.1)
      × (s.acked_offset ≤ (r.1).acked_offset)
      × KeepsOrFlies o seg.window s (r.1) c (r.0)

  late_ack-cases :
      (o : StreamOptions) (r : ReliableOptions) (s : TcpSession) (c : Card P T)
      → let c' = late_ack o r s c in
        (c' ≡ c)
        ⊎ (time : ℕ) × IsSent time
            (server_segment s.ends tf_ack s.response_seq s.client_next [] ∷ [])
            c
            c'
  unfolding late_ack
  late_ack-cases o r s c = elim (Bool-cases (not s.response_started && r.early_payload)) [
    | inl e ↦ simp e (inr (or_default o.data_ack_delay_ms 80, post-IsSent _ _ c))
    | inr e ↦ simp e (inl refl)
  ]

  send_flight-Bounded :
      (o : StreamOptions) (r : ReliableOptions) (s : TcpSession) (seg : Segment) (c : Card P T)
      → IsReliable s
      → r.oversize_first ≡ false
      → let (start, size) = flight o r s seg.window in
        Bounded o seg s c (send_flight o r s start size c)
  unfolding send_flight Bounded
  send_flight-Bounded o r s seg c v h =
      let (whole, inside, single) = flight-bounded o r s seg.window v h in
      (
        record { acked = v.acked; flown = whole },
        omega arith,
        inr (record {
          flags = _;
          ack = _;
          delay = _;
          behind_data = _;
          ordered = omega arith;
          in_window = inside;
          one_segment = omega (arith, single);
          carried = post-IsSent _ _ c;
          late = late_ack-cases o r s _;
        }),
      )

  answer_ack-Bounded :
      (o : StreamOptions) (r : ReliableOptions) (s : TcpSession) (seg : Segment) (c : Card P T)
      → IsReliable s
      → r.oversize_first ≡ false
      → Bounded o seg s c (answer_ack o r s seg c)
  unfolding Bounded
  answer_ack-Bounded o r s seg c v h =
      let flown = send_flight-Bounded o r s seg c v h in
      let kept : Bounded o seg s c (c, s) = (v, omega arith, inl (refl, refl, refl)) in
      let confirmed : Bounded o seg s c (c, record s { fin_acked = true }) =
        (record { acked = v.acked; flown = v.flown }, omega arith, inl (refl, refl, refl)) in
      if_both (Bounded o seg s c) s.fin_acked _ _ kept (
        if_both (Bounded o seg s c)
          (s.fin_sent && (seg.ack == u32 (s.response_seq + length (response_bytes s) + 1))) _ _
          confirmed (if_both (Bounded o seg s c) (seg.window == 0) _ _ kept flown))

  -- Unless a first flight is to be too large: the acknowledged offset only moves forward and, like the
  -- end of the last flight, never past the response. Either nothing is sent and the last flight stays
  -- as it was, or exactly one segment with the bytes of the next flight is sent, with an
  -- acknowledgement behind it at most; that flight ends within the window that the client's segment
  -- advertises, counted from the acknowledged offset, and holds at most one segment size.
  pub tcp_reliable_next-bounded :
      (o : StreamOptions) (r : ReliableOptions) (s : TcpSession) (seg : Segment) (c : Card P T)
      → IsReliable s
      → r.oversize_first ≡ false
      → let e = tcp_reliable_next o r s seg c in
        IsReliable (e.1)
        × (s.acked_offset ≤ (e.1).acked_offset)
        × KeepsOrFlies o seg.window s (e.1) c (e.0)
  unfolding tcp_reliable_next Bounded
  tcp_reliable_next-bounded o r s seg c v h =
      take_ack-cases (λ t. Bounded o seg s c (answer_ack o r t seg c)) s seg.ack v.acked
        λ a h1 h2.
          (let t : TcpSession = record s { acked_offset = a } in
            let (whole, forward, sent) =
              answer_ack-Bounded o r t seg c (record { acked = h2; flown = v.flown }) h in
            (
              whole,
              omega (arith, h1, forward),
              elim sent [
                | inl same ↦ inl same
                | inr flown ↦ inr (record {
                  flags = flown.flags;
                  ack = flown.ack;
                  delay = flown.delay;
                  behind_data = flown.behind_data;
                  ordered = flown.ordered;
                  in_window = flown.in_window;
                  one_segment = flown.one_segment;
                  carried = flown.carried;
                  late = flown.late;
                })
              ],
            ))
