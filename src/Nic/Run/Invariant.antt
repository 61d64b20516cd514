-- ===== src/Nic/Run/Invariant.antt =====
-- What holds of the command register and the remote DMA between any two bus cycles, with any of the
-- injected faults.
use sprinter_rtl8019a.Base.{
  ℕ, ◌≡◌, refl, Bool, true, false, List, [], ◌∷◌, arith, Result, ok, err, u8, Bool-cases, inl, inr,
}
use sprinter_rtl8019a.Nic.Types.{Card, Env, Fault}
use sprinter_rtl8019a.Nic.Dma.{}
use sprinter_rtl8019a.Nic.Transmit.{}
use sprinter_rtl8019a.Nic.Control.{}
use sprinter_rtl8019a.Nic.Faults.{bus_missed, write_dropped, flipped}
use sprinter_rtl8019a.Nic.Regs.{
  read_reg, write_reg, read_reg_raw, read_answered, read_faults, write_taken, count_cycle, on_bus,
}
use sprinter_rtl8019a.Nic.Run.{Cycle, rd, wr, run, with_value}
use sprinter_rtl8019a.Nic.Run.Settled.{IsSettled, HookKeeps}
use sprinter_rtl8019a.Nic.Run.Stages.{
  SameDma, bus_missed-SameDma, write_dropped-SameDma, flipped-SameDma, read_faults-SameDma,
  count_cycle-SameDma, write_latched-IsSettled, read_reg_raw-IsSettled, SameDma-IsSettled,
  SameDma-trans,
}

module _ {P T : Type 0} (env : Env P T) (hooked : HookKeeps env) where
  -- One lemma for each stage of a cycle, the stages before it shut.
  on_bus-SameDma : (c : Card P T) (value : ℕ) → SameDma c (on_bus value c)
  on_bus-SameDma c value = (refl, refl, refl)

  write_taken-IsSettled :
      (c c' : Card P T) (offset value : ℕ)
      → IsSettled c
      → write_taken env c offset value ≡ ok c'
      → IsSettled c'
  unfolding write_taken
  write_taken-IsSettled c c' offset value v e = elim (Bool-cases drop.0) [
    | inl lost ↦ ground (arith, lost, SameDma-IsSettled c drop.1 same v)
    | inr kept ↦
        write_latched-IsSettled env hooked flip.1 c' offset flip.0
          (SameDma-IsSettled c flip.1
            (SameDma-trans c drop.1 flip.1 same
              (flipped-SameDma env hooked env.quirks.reg_write_flip drop.1 offset value))
            v)
          (rw kept at e)
  ]
    where
      drop : Bool × Card P T
      drop = write_dropped env.quirks.reg_write_drop offset value c

      flip : ℕ × Card P T
      flip = flipped env.quirks.reg_write_flip offset value drop.1

      same : SameDma c drop.1
      same = write_dropped-SameDma env hooked env.quirks.reg_write_drop c offset value

  write_reg-IsSettled :
      (c c' : Card P T) (offset value : ℕ)
      → IsSettled c
      → write_reg env c offset value ≡ ok c'
      → IsSettled c'
  unfolding write_reg
  write_reg-IsSettled c c' offset value v e = ground (
    arith,
    SameDma-IsSettled c on_wire same v,
    SameDma-IsSettled c hit.1
        (SameDma-trans c on_wire hit.1 same (bus_missed-SameDma env hooked on_wire true)) v,
    write_taken-IsSettled on_wire c' offset (u8 value),
    write_taken-IsSettled hit.1 c' offset (u8 value),
  )
    where
      on_wire : Card P T
      on_wire = on_bus (u8 value) (count_cycle c offset)

      hit : Bool × Card P T
      hit = bus_missed env true on_wire

      same : SameDma c on_wire
      same =
          SameDma-trans c (count_cycle c offset) on_wire (count_cycle-SameDma env hooked c offset)
            (on_bus-SameDma (count_cycle c offset) (u8 value))

  read_answered-IsSettled :
      (c c' : Card P T) (offset value : ℕ)
      → IsSettled c
      → read_answered env c offset ≡ ok (value, c')
      → IsSettled c'
  unfolding read_answered
  read_answered-IsSettled c c' offset value v e = answered (read_reg_raw env c offset) refl e
    where
      answered :
          (r : Result Fault (ℕ × Card P T))
          → read_reg_raw env c offset ≡ r
          → (elim r [
            | err f ↦ err f
            | ok (raw, d) ↦ ok (read_faults env offset c.bus.last_bus raw d)
          ])
            ≡ ok (value, c')
          → IsSettled c'
      answered (err f) q e = cc
      answered (ok (raw, d)) q e = ground (
        arith,
        SameDma-IsSettled d (read_faults env offset c.bus.last_bus raw d).1
            (read_faults-SameDma env hooked d offset c.bus.last_bus raw)
            (read_reg_raw-IsSettled env hooked c d offset raw v q),
      )

  read_reg-IsSettled :
      (c c' : Card P T) (offset value : ℕ)
      → IsSettled c
      → read_reg env c offset ≡ ok (value, c')
      → IsSettled c'
  unfolding read_reg
  read_reg-IsSettled c c' offset value v e = ground (
    arith,
    SameDma-IsSettled c hit.1
        (SameDma-trans c counted hit.1 same (bus_missed-SameDma env hooked counted false)) v,
    read_answered-IsSettled counted c' offset value (SameDma-IsSettled c counted same v),
    read_answered-IsSettled hit.1 c' offset value,
  )
    where
      counted : Card P T
      counted = count_cycle c offset

      hit : Bool × Card P T
      hit = bus_missed env false counted

      same : SameDma c counted
      same = count_cycle-SameDma env hooked c offset

  -- After any bus cycles that do not throw, under any of the injected faults, no transmission is left
  -- pending in the command register and the remote DMA has a direction exactly while it is active,
  -- if that held at first and the peers leave the remote DMA alone.
  pub run-IsSettled :
      (cycles : List Cycle) (c c' : Card P T) (values : List ℕ)
      → IsSettled c
      → run env c cycles ≡ ok (values, c')
      → IsSettled c'
  unfolding run
  run-IsSettled [] c c' values v e = ground arith
  run-IsSettled (rd offset ∷ cycles) c c' values v e =
      answered (read_reg env c offset) refl (λ d vs w q. run-IsSettled cycles d c' vs w q) e
    where
      rest :
          (value : ℕ) (r : Result Fault (List ℕ × Card P T))
          → ((vs : List ℕ) → r ≡ ok (vs, c') → IsSettled c')
          → with_value value r ≡ ok (values, c')
          → IsSettled c'
      rest value (err f) ih q = cc
      rest value (ok (vs, d)) ih q = ih vs (ground arith)

      answered :
          (r : Result Fault (ℕ × Card P T))
          → read_reg env c offset ≡ r
          → ((d : Card P T) (vs : List ℕ)
              → IsSettled d
              → run env d cycles ≡ ok (vs, c')
              → IsSettled c')
          → (elim r [ err f ↦ err f | ok (value, d) ↦ with_value value (run env d cycles) ])
            ≡ ok (values, c')
          → IsSettled c'
      answered (err f) q ih e = cc
      answered (ok (value, d)) q ih e =
          rest value (run env d cycles) (λ vs. ih d vs (read_reg-IsSettled c d offset value v q)) e
  run-IsSettled (wr offset value ∷ cycles) c c' values v e =
      written (write_reg env c offset value) refl (λ d w q. run-IsSettled cycles d c' values w q) e
    where
      written :
          (r : Result Fault (Card P T))
          → write_reg env c offset value ≡ r
          → ((d : Card P T) → IsSettled d → run env d cycles ≡ ok (values, c') → IsSettled c')
          → (elim r [ err f ↦ err f | ok d ↦ run env d cycles ]) ≡ ok (values, c')
          → IsSettled c'
      written (err f) q ih e = cc
      written (ok d) q ih e = ih d (write_reg-IsSettled c d offset value v q) e
