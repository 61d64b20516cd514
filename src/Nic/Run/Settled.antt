-- ===== src/Nic/Run/Settled.antt =====
-- The command register and the remote DMA after a write to the command register.
use sprinter_rtl8019a.Base.{
  ℕ, ◌+◌, ◌≡◌, refl, ◌∙◌, Bool, true, false, not, List, [], ◌∷◌, ◌++◌, if◌then◌else◌, bit_or, arith,
  none, some, Result, ok, err, u8, has, has-bit_and, Option, Bool-cases, inl, inr,
}
use sprinter_rtl8019a.Nic.Types.{Card, Env, Fault, Direction, idle, isr_ptx}
use sprinter_rtl8019a.Nic.Receive.Account.{deliver_frame-SameControl}
use sprinter_rtl8019a.Nic.Clock.{push_pending, post_loopback_status}
use sprinter_rtl8019a.Nic.Dma.{}
use sprinter_rtl8019a.Nic.Transmit.{
  clear_txp, do_transmit, finish_transmit, loop_back, put_on_wire, tx_frame, loopback_active,
}
use sprinter_rtl8019a.Nic.Control.{stop_or_start, remote_command, write_cr}
use sprinter_rtl8019a.Nic.Faults.{}
use sprinter_rtl8019a.Nic.Regs.{}

abbrev is_idle : Direction → Bool
is_idle idle = true
is_idle _ = false

-- No transmission is pending in the command register, and the remote DMA has a direction exactly
-- while it is active.
pub record IsSettled {P T : Type 0} (c : Card P T) : Type 0 where
  pub txp_clear : has c.cr 2 ≡ false
  pub directed : is_idle c.dma_direction ≡ not c.dma_active

-- The same of the remote DMA alone, while TXP may be set.
abbrev IsDirected : {P T : Type 0} → Card P T → Type 0
IsDirected c = is_idle c.dma_direction ≡ not c.dma_active

-- The peers behind `onTransmit` leave the remote DMA of the card alone.
abbrev pub HookKeeps : {P T : Type 0} → Env P T → Type 0
HookKeeps {P} {T} env =
    (hook : List ℕ → Card P T → Result Fault (Card P T)) (frame : List ℕ) (c c' : Card P T)
    → env.on_transmit ≡ some hook
    → hook frame c ≡ ok c'
    → (c'.dma_active ≡ c.dma_active) × (c'.dma_direction ≡ c.dma_direction)

has-clear_txp : (cr : ℕ) → has (clear_txp cr) 2 ≡ false
unfolding clear_txp
has-clear_txp cr = has-bit_and cr 0xfb 2 ∙ ground arith

module _ {P T : Type 0} (env : Env P T) (hooked : HookKeeps env) where
  loop_back-IsDirected :
      (c : Card P T) (frame : List ℕ) → IsDirected c → IsDirected (loop_back env c frame)
  unfolding loop_back post_loopback_status push_pending
  loop_back-IsDirected c frame h = ground (arith, deliver_frame-SameControl env c frame true)

  put_on_wire-IsDirected :
      (c : Card P T) (frame : List ℕ) (c' : Card P T)
      → IsDirected c
      → put_on_wire env c frame ≡ ok c'
      → IsDirected c'
  unfolding put_on_wire
  put_on_wire-IsDirected c frame c' h e = answered (env.on_transmit) refl e
    where
      sent : Card P T
      sent = record c { transmitted = c.transmitted ++ (frame ∷ []) }

      answered :
          (hook : Option (List ℕ → Card P T → Result Fault (Card P T)))
          → env.on_transmit ≡ hook
          → (elim hook [ none ↦ ok sent | some f ↦ f frame sent ]) ≡ ok c'
          → IsDirected c'
      answered none o e = ground arith
      answered (some f) o e = ground (arith, hooked f frame sent c' o e)

  finish_transmit-IsSettled :
      (r : Result Fault (Card P T)) (c' : Card P T)
      → ((c : Card P T) → r ≡ ok c → IsDirected c)
      → finish_transmit r ≡ ok c'
      → IsSettled c'
  unfolding finish_transmit
  finish_transmit-IsSettled (ok c) c' h e = ground (arith, h c refl, has-clear_txp c.cr)
  finish_transmit-IsSettled (err f) c' h e = cc

  do_transmit-IsSettled :
      (c c' : Card P T) → IsDirected c → do_transmit env c ≡ ok c' → IsSettled c'
  unfolding do_transmit
  do_transmit-IsSettled c c' h e =
      ground (arith, has-clear_txp c.cr, finish_transmit-IsSettled sent c' directed)
    where
      attempt : Card P T
      attempt = record c { tx_attempts = c.tx_attempts + 1 }

      posted : Card P T
      posted = record attempt { isr = bit_or c.isr isr_ptx; tsr = 0x01 }

      sent : Result Fault (Card P T)
      sent =
          if loopback_active attempt
          then ok (loop_back env posted (tx_frame attempt))
          else put_on_wire env posted (tx_frame attempt)

      directed : (d : Card P T) → sent ≡ ok d → IsDirected d
      directed d e = elim (Bool-cases (loopback_active attempt)) [
        | inl loop ↦ ground (arith, loop_back-IsDirected posted (tx_frame attempt) h)
        | inr wire ↦ put_on_wire-IsDirected posted (tx_frame attempt) d h (rw wire at e)
      ]

  commanded : Card P T → ℕ → Card P T
  commanded c byte = remote_command (stop_or_start env (record c { cr = byte }) byte) byte

  commanded-IsDirected :
      (c : Card P T) (byte : ℕ)
      → IsDirected c
      → IsDirected (commanded c byte) × ((commanded c byte).cr ≡ byte)
  unfolding commanded remote_command stop_or_start
  commanded-IsDirected c byte h = ground arith

  -- A write to the command register leaves the card settled, transmission or not.
  pub write_cr-IsSettled :
      (c c' : Card P T) (value : ℕ) → IsSettled c → write_cr env c value ≡ ok c' → IsSettled c'
  unfolding write_cr commanded
  write_cr-IsSettled c c' value v e = ground (
    arith,
    commanded-IsDirected c (u8 value) v.directed,
    do_transmit-IsSettled (commanded c (u8 value)) c',
  )
