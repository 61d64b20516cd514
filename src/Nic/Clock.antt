-- ===== src/Nic/Clock.antt =====
-- tools/exe-harness/rtl8019-model.js, lines 201-230: delivery of frames and timers when they are due.
pub mod Sort
pub mod Due
pub mod Sent
use sprinter_rtl8019a.Base.{
  ℕ, zero, suc, ◌+◌, ◌-◌, false, List, [], ◌∷◌, ◌++◌, leb, if◌then◌else◌, length, get_or, bit_or,
}
use sprinter_rtl8019a.Nic.Types.{Card, Env, Pending, Action, deliver, post_status, timer, isr_rxe}
use sprinter_rtl8019a.Nic.Receive.{deliver_frame}

module _ {T : Type 0} where
  -- `ready.sort((a, b) => a.atMs - b.atMs)`, which is stable: an insertion sort from the right that
  -- puts an entry in front of the later ones with its time.
  pub insert_due : Pending T → List (Pending T) → List (Pending T)
  insert_due p [] = p ∷ []
  insert_due p (q ∷ qs) = if leb p.at_ms q.at_ms then p ∷ q ∷ qs else q ∷ insert_due p qs

  pub sort_due : List (Pending T) → List (Pending T)
  sort_due [] = []
  sort_due (p ∷ ps) = insert_due p (sort_due ps)

  -- `ready` and `notYet` of `pumpScheduled`.
  pub ready : ℕ → List (Pending T) → List (Pending T)
  ready now [] = []
  ready now (p ∷ ps) = if leb p.at_ms now then p ∷ ready now ps else ready now ps

  pub not_yet : ℕ → List (Pending T) → List (Pending T)
  not_yet now [] = []
  not_yet now (p ∷ ps) = if leb p.at_ms now then not_yet now ps else p ∷ not_yet now ps

module _ {P T : Type 0} where
  unfoldable pub push_pending : Card P T → ℕ → Action T → Card P T
  push_pending c delay_ms action = record c {
    pending = c.pending ++ (record { at_ms = c.current_ms + delay_ms; action = action } ∷ []);
  }

  unfoldable pub schedule : Card P T → ℕ → List ℕ → Card P T
  schedule c delay_ms bytes = push_pending c delay_ms (deliver bytes)

  unfoldable pub schedule_callback : Card P T → ℕ → T → Card P T
  schedule_callback c delay_ms t = push_pending c delay_ms (timer t)

  -- `post` of `doTransmit`, lines 513-517. The last byte of an empty frame counts as 0.
  unfoldable pub post_loopback_status : Card P T → List ℕ → Card P T
  post_loopback_status c frame = record c {
    isr = bit_or c.isr isr_rxe;
    rsr = 0x01;
    fifo = get_or frame (length frame - 1) 0;
  }

  pub perform : Env P T → Card P T → Action T → Card P T
  perform env c (deliver bytes) = deliver_frame env c bytes false
  perform env c (post_status frame) = post_loopback_status c frame
  perform env c (timer t) = env.fire t c

  pub perform_all : Env P T → Card P T → List (Pending T) → Card P T
  perform_all env c [] = c
  perform_all env c (p ∷ ps) = perform_all env (perform env c p.action) ps

  -- The rounds of `pumpScheduled` that are left.
  pub pump_rounds : ℕ → Env P T → Card P T → Card P T
  pump_rounds zero env c = c
  pump_rounds (suc rounds) env c = elim (ready c.current_ms c.pending) [
    | [] ↦ c
    | p ∷ ps ↦ pump_rounds rounds env (
        perform_all env (record c { pending = not_yet c.current_ms c.pending }) (sort_due (p ∷ ps)))
  ]

  pub pump_scheduled : Env P T → Card P T → Card P T
  pump_scheduled env c = pump_rounds 64 env c

  -- The clock of the run loop (`advanceWireMs` of tools/exe-harness/harness.js): one millisecond.
  pub tick : Env P T → Card P T → Card P T
  tick env c = pump_scheduled env (record c { current_ms = c.current_ms + 1 })

  pub advance_wire_ms : ℕ → Env P T → Card P T → Card P T
  advance_wire_ms zero env c = c
  advance_wire_ms (suc ms) env c = advance_wire_ms ms env (tick env c)
