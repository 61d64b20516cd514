-- ===== src/Nic/Run/Setup.antt =====
-- The register writes that start a remote DMA transfer, and what they leave.
use sprinter_rtl8019a.Base.{
  ℕ, ◌<◌, ◌≡◌, ◌≢◌, refl, ap, ◌∙◌, true, false, List, [], ◌∷◌, ◌++◌, ok, arith, u8, high_byte,
  set_low, set_high, set_low-set_high,
}
use sprinter_rtl8019a.Nic.Types.{Card, Env, reading, writing, Direction}
use sprinter_rtl8019a.Nic.Control.{write_cr, stop_or_start, remote_command}
use sprinter_rtl8019a.Nic.Regs.{
  read_reg, write_reg, write_latched, write_page0, count_cycle, on_bus,
}
use sprinter_rtl8019a.Nic.Run.{Cycle, rd, wr, run}
use sprinter_rtl8019a.Nic.Run.Quiet.{IsQuiet, write_reg-quiet}
use sprinter_rtl8019a.Nic.Run.Transfer.{}

-- Select page 0 and abort the remote DMA, program its address and count, and start it by `command`.
abbrev pub start_dma : ℕ → ℕ → ℕ → List Cycle
start_dma command addr count =
    wr 0x00 0x22
    ∷ wr 0x08 (u8 addr)
    ∷ wr 0x09 (high_byte addr)
    ∷ wr 0x0a (u8 count)
    ∷ wr 0x0b (high_byte count)
    ∷ wr 0x00 command
    ∷ []

-- The run as a relation: what each cycle returns, in order.
pub data Runs {P T : Type 0} (env : Env P T)
    : Card P T → List Cycle → List ℕ → Card P T → Type 0 where
  done : {c : Card P T} → Runs env c [] [] c
  reads :
      {c c' d : Card P T} {offset value : ℕ} {cs : List Cycle} {vs : List ℕ}
      → read_reg env c offset ≡ ok (value, c')
      → Runs env c' cs vs d
      → Runs env c (rd offset ∷ cs) (value ∷ vs) d
  writes :
      {c c' d : Card P T} {offset value : ℕ} {cs : List Cycle} {vs : List ℕ}
      → write_reg env c offset value ≡ ok c'
      → Runs env c' cs vs d
      → Runs env c (wr offset value ∷ cs) vs d

module _ {P T : Type 0} {env : Env P T} where
  pub Runs-append :
      {c d e : Card P T} {xs ys : List Cycle} {vs ws : List ℕ}
      → Runs env c xs vs d
      → Runs env d ys ws e
      → Runs env c (xs ++ ys) (vs ++ ws) e
  Runs-append done t = t
  Runs-append (reads e r) t = reads e (Runs-append r t)
  Runs-append (writes e r) t = writes e (Runs-append r t)

  pub run-Runs :
      {c d : Card P T} {xs : List Cycle} {vs : List ℕ}
      → Runs env c xs vs d
      → run env c xs ≡ ok (vs, d)
  unfolding run
  run-Runs done = refl
  run-Runs (reads e r) = ground (arith, e, run-Runs r)
  run-Runs (writes e r) = ground (arith, e, run-Runs r)

word_bytes : (w x : ℕ) → x < 65536 → set_high (set_low w (u8 (u8 x))) (u8 (high_byte x)) ≡ x
word_bytes w x h =
    set_low-set_high w (u8 (u8 x)) (u8 (high_byte x)) (omega arith) (omega arith) ∙ omega arith

module _ {P T : Type 0} {env : Env P T} (q : IsQuiet env) where
  -- Page 0 is selected, and nothing but the register named has changed.
  pub record Programmed (c c' : Card P T) (rsar rbcr : ℕ) : Type 0 where
    page0 : c'.cr ≡ 0x22
    pub same_ram : c'.ram ≡ c.ram
    pub inactive : c'.dma_active ≡ false
    pub address : c'.rsar ≡ rsar
    pub count : c'.rbcr ≡ rbcr

  select_page0 :
      (c : Card P T)
      → (c' : Card P T) × (write_reg env c 0x00 0x22 ≡ ok c') × Programmed c c' c.rsar c.rbcr
  unfolding write_latched write_cr remote_command stop_or_start count_cycle
  select_page0 c = (
    remote_command (stop_or_start env (record arrived { cr = 0x22 }) 0x22) 0x22,
    rw (write_reg-quiet q c 0x00 0x22),
    ground arith,
  )
    where
      arrived : Card P T
      arrived = on_bus 0x22 (count_cycle c 0x00)

  write_rsar_low :
      (c : Card P T) (value : ℕ)
      → c.cr ≡ 0x22
      → c.dma_active ≡ false
      → (c' : Card P T) × (write_reg env c 0x08 value ≡ ok c')
        × Programmed c c' (set_low c.rsar (u8 value)) c.rbcr
  unfolding write_latched write_page0 count_cycle
  write_rsar_low c value page0 inactive = (
    record (on_bus (u8 value) (count_cycle c 0x08)) { rsar = set_low c.rsar (u8 value) },
    rw (write_reg-quiet q c 0x08 value) (ground arith),
    ground arith,
  )

  write_rsar_high :
      (c : Card P T) (value : ℕ)
      → c.cr ≡ 0x22
      → c.dma_active ≡ false
      → (c' : Card P T) × (write_reg env c 0x09 value ≡ ok c')
        × Programmed c c' (set_high c.rsar (u8 value)) c.rbcr
  unfolding write_latched write_page0 count_cycle
  write_rsar_high c value page0 inactive = (
    record (on_bus (u8 value) (count_cycle c 0x09)) { rsar = set_high c.rsar (u8 value) },
    rw (write_reg-quiet q c 0x09 value) (ground arith),
    ground arith,
  )

  write_rbcr_low :
      (c : Card P T) (value : ℕ)
      → c.cr ≡ 0x22
      → c.dma_active ≡ false
      → (c' : Card P T) × (write_reg env c 0x0a value ≡ ok c')
        × Programmed c c' c.rsar (set_low c.rbcr (u8 value))
  unfolding write_latched write_page0 count_cycle
  write_rbcr_low c value page0 inactive = (
    record (on_bus (u8 value) (count_cycle c 0x0a)) { rbcr = set_low c.rbcr (u8 value) },
    rw (write_reg-quiet q c 0x0a value) (ground arith),
    ground arith,
  )

  write_rbcr_high :
      (c : Card P T) (value : ℕ)
      → c.cr ≡ 0x22
      → c.dma_active ≡ false
      → (c' : Card P T) × (write_reg env c 0x0b value ≡ ok c')
        × Programmed c c' c.rsar (set_high c.rbcr (u8 value))
  unfolding write_latched write_page0 count_cycle
  write_rbcr_high c value page0 inactive = (
    record (on_bus (u8 value) (count_cycle c 0x0b)) { rbcr = set_high c.rbcr (u8 value) },
    rw (write_reg-quiet q c 0x0b value) (ground arith),
    ground arith,
  )

  -- A transfer of `count` bytes from `addr` on is under way.
  pub record Started (c c' : Card P T) (addr count : ℕ) (direction : Direction) : Type 0 where
    pub start_ram : c'.ram ≡ c.ram
    pub start_active : c'.dma_active ≡ true
    pub start_direction : c'.dma_direction ≡ direction
    pub start_address : c'.crda ≡ addr
    pub start_count : c'.rbcr ≡ count

  pub command_write :
      (c : Card P T)
      → c.rbcr ≢ 0
      → c.dma_active ≡ false
      → (c' : Card P T) × (write_reg env c 0x00 0x12 ≡ ok c') × Started c c' c.rsar c.rbcr writing
  unfolding write_latched write_cr remote_command stop_or_start count_cycle
  command_write c some_bytes inactive = (
    remote_command
        (stop_or_start env (record (on_bus 0x12 (count_cycle c 0x00)) { cr = 0x12 }) 0x12) 0x12,
    rw (write_reg-quiet q c 0x00 0x12),
    ground arith,
  )

  pub command_read :
      (c : Card P T)
      → c.rbcr ≢ 0
      → c.dma_active ≡ false
      → (c' : Card P T) × (write_reg env c 0x00 0x0a ≡ ok c') × Started c c' c.rsar c.rbcr reading
  unfolding write_latched write_cr remote_command stop_or_start count_cycle
  command_read c some_bytes inactive = (
    remote_command
        (stop_or_start env (record (on_bus 0x0a (count_cycle c 0x00)) { cr = 0x0a }) 0x0a) 0x0a,
    rw (write_reg-quiet q c 0x00 0x0a),
    ground arith,
  )

  -- The setup, up to the command that is yet to come.
  pub programmed :
      (c : Card P T) (addr count : ℕ)
      → addr < 65536
      → count < 65536
      → (c' : Card P T) × Programmed c c' addr count
        × ((command : ℕ) (d : Card P T)
            → write_reg env c' 0x00 command ≡ ok d
            → Runs env c (start_dma command addr count) [] d)
  programmed c addr count ha hc =
      let (c1, e1, p1) = select_page0 c in
      let (c2, e2, p2) = write_rsar_low c1 (u8 addr) p1.page0 p1.inactive in
      let (c3, e3, p3) = write_rsar_high c2 (high_byte addr) p2.page0 p2.inactive in
      let (c4, e4, p4) = write_rbcr_low c3 (u8 count) p3.page0 p3.inactive in
      let (c5, e5, p5) = write_rbcr_high c4 (high_byte count) p4.page0 p4.inactive in
      (
        c5,
        record {
          page0 = p5.page0;
          same_ram = p5.same_ram ∙ p4.same_ram ∙ p3.same_ram ∙ p2.same_ram ∙ p1.same_ram;
          inactive = p5.inactive;
          address =
              p5.address
              ∙ p4.address
              ∙ p3.address
              ∙ ap (λ t. set_high t (u8 (high_byte addr))) p2.address
              ∙ word_bytes c1.rsar addr ha;
          count =
              p5.count
              ∙ ap (λ t. set_high t (u8 (high_byte count))) p4.count
              ∙ word_bytes c3.rbcr count hc;
        },
        λ command d e. writes e1 (writes e2 (writes e3 (writes e4 (writes e5 (writes e done))))),
      )
