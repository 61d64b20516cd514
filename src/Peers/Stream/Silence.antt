-- ===== src/Peers/Stream/Silence.antt =====
-- The retransmissions of tools/exe-harness/net-builders.js, lines 627-641, towards a client that is
-- silent.
use sprinter_rtl8019a.Base.{
  ℕ, zero, suc, ◌+◌, ◌-◌, ◌≤◌, ◌<◌, ◌≡◌, refl, ap, sym, ◌∙◌, true, false, some, List, [], ◌∷◌, ◌++◌,
  arith, min, ltb, leb, if◌then◌else◌, or_default, replicate, Bool-cases, inl, inr,
}
use mathlib.Core.Path.{subst}
use mathlib.Core.List.{append_assoc, append-nil}
use sprinter_rtl8019a.Nic.Types.{Card, Pending, deliver, timer}
use sprinter_rtl8019a.Peers.Session.{TcpSession, StreamOptions, Rto}
use sprinter_rtl8019a.Peers.Stream.{timeout, rto_expired}
use sprinter_rtl8019a.Peers.Stream.Timers.{oldest_segment, next_rto, rto_expired-IsResent}

-- The timers of a silent client differ only in the number of expiries before.
abbrev pub rto_with : Rto → TcpSession → ℕ → Rto
rto_with r s backoff = record (next_rto r s) { backoff = backoff }

module _ {T : Type 0} (start_timer : Rto → T) where
  -- What `times` expiries put into `pending`, the first one at `time` with `backoff` before it: each one
  -- the segment, for now or later, and the timer whose expiry is the next one, for its time.
  unfoldable pub IsLog : StreamOptions → List ℕ → (ℕ → Rto) → ℕ → ℕ → ℕ → List (Pending T) → Type 0
  IsLog o segment rto_of zero time backoff log = log ≡ []
  IsLog o segment rto_of (suc times) time backoff log =
      let next = time + timeout o (suc backoff) in
      (due : ℕ) × (rest : List (Pending T)) × (log
        ≡ record { at_ms = time + due; action = deliver segment }
          ∷ record { at_ms = next; action = timer (start_timer (rto_of (suc backoff))) }
          ∷ rest)
      × IsLog o segment rto_of times next (suc backoff) rest

module _ {P T : Type 0} (start_timer : Rto → T) where
  -- The timer expires again and again, each time when it is due, and the client is silent.
  unfoldable pub silence : ℕ → StreamOptions → Rto → TcpSession → Card P T → Card P T × TcpSession
  silence zero o r s c = (c, s)
  silence (suc times) o r s c =
      let (c', s') =
        rto_expired start_timer o r s
          (record c { current_ms = c.current_ms + timeout o r.backoff }) in
      let rest = silence times o (next_rto r s) s' c' in if s'.rto_armed then rest else (c', s')

  rto_expired_last :
      (o : StreamOptions) (r : Rto) (s : TcpSession) (c : Card P T)
      → s.acked_offset ≤ r.at_offset
      → s.acked_offset < r.total
      → or_default o.max_retransmits 15 ≤ r.backoff
      → rto_expired start_timer o r s c ≡ (
        c,
        record s { rto_armed = false; retransmits = suc s.retransmits; backoff = suc r.backoff },
      )
  unfolding rto_expired
  rto_expired_last o r s c h1 h2 h3 =
      let e1 : ltb r.at_offset s.acked_offset ≡ false = ground arith in
      let e2 : leb r.total s.acked_offset ≡ false = ground arith in
      let e3 : ltb (or_default o.max_retransmits 15) (suc r.backoff) ≡ true = ground arith in
      simp (e1, e2, e3)

  -- The retransmissions end: while the client is silent and its window admits a segment, the peer sends
  -- the oldest segment as often as `maxRetransmits` still allows, and nothing else, each time when the
  -- timer that it has scheduled the time before is due, and then it stops its timer for good, after at
  -- most that many expiries and one more. All that is scheduled is the segment, each time for then or
  -- later, and with each the timer of the next expiry.
  pub silence-gives_up :
      (times : ℕ) (o : StreamOptions) (r : Rto) (w : ℕ) (s : TcpSession) (c : Card P T)
      → s.acked_offset ≤ r.at_offset
      → s.acked_offset < r.total
      → r.backoff ≤ or_default o.max_retransmits 15
      → or_default o.max_retransmits 15 - r.backoff < times
      → r.window ≡ some w
      → 0 < r.mss
      → r.mss ≤ w
      → let e = silence times o r s c in
        let left = or_default o.max_retransmits 15 - r.backoff in
        let segment = oldest_segment r.mss r.total s in
        ((e.1).rto_armed ≡ false)
        × ((e.0).generated ≡ c.generated ++ replicate left segment)
        × (log : List (Pending T)) × ((e.0).pending ≡ c.pending ++ log)
        × IsLog start_timer o segment
            (rto_with r s)
            left
            (c.current_ms + timeout o r.backoff)
            r.backoff
            log
  unfolding silence oldest_segment IsLog
  silence-gives_up zero o r w s c h1 h2 h3 hn hw h4 h5 = ground arith
  silence-gives_up (suc times) o r w s c h1 h2 h3 hn hw h4 h5 =
      let limit = or_default o.max_retransmits 15 in
      let d : Card P T = record c { current_ms = c.current_ms + timeout o r.backoff } in
      let segment = oldest_segment r.mss r.total s in
      elim (Bool-cases (leb limit r.backoff)) [
        | inl e ↦
            (let last = rto_expired_last o r s d h1 h2 (ground arith) in
              let none_left : limit - r.backoff ≡ 0 = ground arith in
              simp (last, none_left, append-nil) (refl, refl, [], sym (append-nil c.pending), refl))
        | inr e ↦
            (let again = rto_expired-IsResent start_timer o r w s d h1 h2 (ground arith) hw h4 h5 in
              let c' = (rto_expired start_timer o r s d).0 in
              let one_less : limit - r.backoff ≡ suc (limit - suc r.backoff) = ground arith in
              let (stopped, frames, log, entries, timers) =
                silence-gives_up times o (next_rto r s) w
                  (record s {
                    sent_offset = some (s.acked_offset + min r.mss (r.total - s.acked_offset));
                    next_ms = again.next_ms;
                    ooo_first_flight_done = again.cleared;
                    ooo_emitted = again.emitted;
                    rto_armed = true;
                    backoff = suc r.backoff;
                    retransmits = suc s.retransmits;
                  })
                  c' (omega arith) h2 (ground arith) (ground arith) hw h4 h5 in
              let whole : List (Pending T) =
                record { at_ms = d.current_ms + again.due; action = deliver segment }
                ∷ record {
                  at_ms = d.current_ms + timeout o (suc r.backoff);
                  action = timer (start_timer (next_rto r s));
                }
                ∷ log in
              simp again.session (
                stopped,
                frames
                    ∙ ap (λ g. g ++ replicate (limit - suc r.backoff) segment) again.frames
                    ∙ append_assoc c.generated _ _
                    ∙ ap (λ k. c.generated ++ replicate k segment) (sym one_less),
                whole,
                entries ∙ ap (λ ps. ps ++ log) again.entries ∙ append_assoc c.pending _ _,
                subst
                    (λ k.
                      IsLog start_timer o segment (rto_with r s) k
                        (c.current_ms + timeout o r.backoff) r.backoff whole)
                    (sym one_less)
                    (
                      again.due,
                      log,
                      refl,
                      subst
                          (λ now.
                            IsLog start_timer o segment (rto_with r s) (limit - suc r.backoff)
                              (now + timeout o (suc r.backoff)) (suc r.backoff) log)
                          again.clock timers,
                    ),
              ))
      ]
