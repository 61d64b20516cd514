-- ===== src/Nic/Run.antt =====
-- Bus cycles of a driver against the card of tools/exe-harness/rtl8019-model.js, in order.
pub mod Quiet
pub mod Transfer
pub mod Setup
pub mod Loops
pub mod Upload
pub mod Settled
pub mod Stages
pub mod Invariant
use sprinter_rtl8019a.Base.{ℕ, List, [], ◌∷◌, Result, ok, err, ◌++◌}
use sprinter_rtl8019a.Nic.Types.{Card, Env, Fault}
use sprinter_rtl8019a.Nic.Regs.{read_reg, write_reg}

pub data Cycle : Type 0 where
  rd : ℕ → Cycle
  wr : ℕ → ℕ → Cycle

module _ {P T : Type 0} where
  -- The value of a read, in front of those of the later cycles.
  abbrev pub with_value : ℕ → Result Fault (List ℕ × Card P T) → Result Fault (List ℕ × Card P T)
  with_value value (err f) = err f
  with_value value (ok (values, c)) = ok (value ∷ values, c)

  -- The values that the reads return, and the card at the end.
  unfoldable pub run : Env P T → Card P T → List Cycle → Result Fault (List ℕ × Card P T)
  run env c [] = ok ([], c)
  run env c (rd offset ∷ cycles) = elim (read_reg env c offset) [
    | err f ↦ err f
    | ok (value, c') ↦ with_value value (run env c' cycles)
  ]
  run env c (wr offset value ∷ cycles) = elim (write_reg env c offset value) [
    | err f ↦ err f
    | ok c' ↦ run env c' cycles
  ]
