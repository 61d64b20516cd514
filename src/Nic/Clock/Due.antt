-- ===== src/Nic/Clock/Due.antt =====
-- What `pumpScheduled` delivers, when no peer's timer is involved.
use mathlib.Core.Path.{subst}
use sprinter_rtl8019a.Base.{
  ℕ, zero, suc, ◌<◌, ◌≡◌, refl, ap, ap₂, sym, ◌∙◌, false, List, [], ◌∷◌, arith, leb, All,
  Bool-cases, inl, inr,
}
use sprinter_rtl8019a.Nic.Types.{Card, Env, Pending, Action, deliver, post_status, timer}
use sprinter_rtl8019a.Nic.Receive.Account.{deliver_frame-SameControl}
use sprinter_rtl8019a.Nic.Clock.{
  sort_due, ready, not_yet, perform, perform_all, pump_rounds, pump_scheduled, post_loopback_status,
  insert_due,
}
use sprinter_rtl8019a.Nic.Clock.Sort.{IsOrdered, at_time, sort_due-IsOrdered, at_time-sort_due}

module _ {T : Type 0} where
  abbrev IsFrame : Pending T → Type 0
  IsFrame p = elim (p.action) [ timer t ↦ ⊥ | _ ↦ Unit {0} ]

  not_yet-late : (now : ℕ) (ps : List (Pending T)) → All (λ p. now < p.at_ms) (not_yet now ps)
  unfolding not_yet
  not_yet-late now [] = tt
  not_yet-late now (p ∷ ps) = elim (Bool-cases (leb p.at_ms now)) [
    | inl e ↦ rw e (not_yet-late now ps)
    | inr e ↦ rw e (ground arith, not_yet-late now ps)
  ]

  ready-not_yet : (now : ℕ) (ps : List (Pending T)) → ready now (not_yet now ps) ≡ []
  unfolding ready not_yet
  ready-not_yet now [] = refl
  ready-not_yet now (p ∷ ps) = ground (arith, ready-not_yet now ps)

  not_yet-eq : (now : ℕ) (ps : List (Pending T)) → ready now ps ≡ [] → not_yet now ps ≡ ps
  unfolding ready not_yet
  not_yet-eq now [] h = refl
  not_yet-eq now (p ∷ ps) h = ground (arith, not_yet-eq now ps)

  ready-frames : (now : ℕ) (ps : List (Pending T)) → All IsFrame ps → All IsFrame (ready now ps)
  unfolding ready
  ready-frames now [] h = tt
  ready-frames now (p ∷ ps) h = elim (Bool-cases (leb p.at_ms now)) [
    | inl e ↦ rw e (h.0, ready-frames now ps h.1)
    | inr e ↦ rw e (ready-frames now ps h.1)
  ]

  insert_due-frames :
      (p : Pending T) (ps : List (Pending T))
      → IsFrame p
      → All IsFrame ps
      → All IsFrame (insert_due p ps)
  unfolding insert_due
  insert_due-frames p [] h a = (h, tt)
  insert_due-frames p (q ∷ ps) h a = elim (Bool-cases (leb p.at_ms q.at_ms)) [
    | inl e ↦ rw e (h, a)
    | inr e ↦ rw e (a.0, insert_due-frames p ps h a.1)
  ]

  sort_due-frames : (ps : List (Pending T)) → All IsFrame ps → All IsFrame (sort_due ps)
  unfolding sort_due
  sort_due-frames [] a = tt
  sort_due-frames (p ∷ ps) a = insert_due-frames p (sort_due ps) a.0 (sort_due-frames ps a.1)

module _ {P T : Type 0} (env : Env P T) where
  -- A frame leaves the clock and the other events alone.
  perform-pending :
      (c : Card P T) (a : Action T)
      → IsFrame (record { at_ms = 0; action = a })
      → ((perform env c a).pending ≡ c.pending) × ((perform env c a).current_ms ≡ c.current_ms)
  unfolding perform post_loopback_status
  perform-pending c (deliver bytes) h = ground (arith, deliver_frame-SameControl env c bytes false)
  perform-pending c (post_status frame) h = (refl, refl)
  perform-pending c (timer t) h = elim h [ ]

  perform_all-pending :
      (ps : List (Pending T)) (c : Card P T)
      → All IsFrame ps
      → ((perform_all env c ps).pending ≡ c.pending)
        × ((perform_all env c ps).current_ms ≡ c.current_ms)
  unfolding perform_all
  perform_all-pending [] c h = (refl, refl)
  perform_all-pending (p ∷ ps) c h =
      let one = perform-pending c p.action h.0 in
      let rest = perform_all-pending ps (perform env c p.action) h.1 in
      (rest.0 ∙ one.0, rest.1 ∙ one.1)

  abbrev delivered : Card P T → List (Pending T) → Card P T
  delivered c due =
      perform_all env (record c { pending = not_yet c.current_ms c.pending }) (sort_due due)

  pump_rounds-idle :
      (rounds : ℕ) (c : Card P T) → ready c.current_ms c.pending ≡ [] → pump_rounds rounds env c ≡ c
  unfolding pump_rounds
  pump_rounds-idle zero c e = refl
  pump_rounds-idle (suc rounds) c e = rw (e, pump_rounds)

  delivered-idle :
      (c : Card P T) (due : List (Pending T))
      → All IsFrame due
      → ready (delivered c due).current_ms (delivered c due).pending ≡ []
  delivered-idle c due h =
      let same =
        perform_all-pending (sort_due due) (record c { pending = not_yet c.current_ms c.pending })
          (sort_due-frames due h) in
      ap₂ ready same.1 same.0 ∙ ready-not_yet c.current_ms c.pending

  pump_rounds-frames :
      (rounds : ℕ) (c : Card P T) (due : List (Pending T))
      → ready c.current_ms c.pending ≡ due
      → All IsFrame c.pending
      → pump_rounds (suc rounds) env c ≡ delivered c due
  unfolding pump_rounds sort_due perform_all
  pump_rounds-frames rounds c [] e h =
      rw (e, pump_rounds)
        (ap (λ ps. record c { pending = ps }) (sym (not_yet-eq c.current_ms c.pending e)))
  pump_rounds-frames rounds c (p ∷ ps) e h =
      rw (e, pump_rounds)
        (pump_rounds-idle rounds (delivered c (p ∷ ps)) (
          delivered-idle c (p ∷ ps)
            (subst (λ l. All IsFrame l) e (ready-frames c.current_ms c.pending h))))

  -- While only frames are pending, one call delivers exactly the due ones, by time and, among equal
  -- times, in the order in which they were scheduled; the others stay pending, all of them for later.
  pub pump_scheduled-frames :
      (c : Card P T)
      → All IsFrame c.pending
      → let order = sort_due (ready c.current_ms c.pending) in
        let later = not_yet c.current_ms c.pending in
        (pump_scheduled env c ≡ perform_all env (record c { pending = later }) order)
        × IsOrdered order
        × ((t : ℕ) → at_time t order ≡ at_time t (ready c.current_ms c.pending))
        × ((pump_scheduled env c).pending ≡ later)
        × All (λ p. c.current_ms < p.at_ms) later
  unfolding pump_scheduled
  pump_scheduled-frames c h = (
    all,
    sort_due-IsOrdered (ready c.current_ms c.pending),
    λ t. at_time-sort_due t (ready c.current_ms c.pending),
    ap (λ d. d.pending) all ∙ (perform_all-pending _ _ (sort_due-frames _ (ready-frames _ _ h))).0,
    not_yet-late c.current_ms c.pending,
  )
    where
      all : pump_scheduled env c ≡ delivered c (ready c.current_ms c.pending)
      all = pump_rounds-frames 63 c (ready c.current_ms c.pending) refl h
