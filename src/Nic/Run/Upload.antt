-- ===== src/Nic/Run/Upload.antt =====
-- Whole remote DMA transfers, started by the register writes that a driver makes.
use mathlib.Core.Path.{subst}
use sprinter_rtl8019a.Base.{
  ℕ, ◌+◌, ◌-◌, ◌≤◌, ◌≡◌, ◌≢◌, ap, ap₂, sym, ◌∙◌, true, false, List, [], ◌++◌, map, ok, arith,
  length, replicate, has, IsBytes,
}
use sprinter_rtl8019a.Nic.Types.{Card, Env}
use sprinter_rtl8019a.Nic.Regs.{}
use sprinter_rtl8019a.Nic.Run.{Cycle, rd, wr, run}
use sprinter_rtl8019a.Nic.Run.Quiet.{IsQuiet}
use sprinter_rtl8019a.Nic.Run.Transfer.{put_bytes, get_bytes, get_bytes-put_bytes}
use sprinter_rtl8019a.Nic.Run.Setup.{
  Runs, Runs-append, run-Runs, start_dma, command_write, command_read, programmed,
}
use sprinter_rtl8019a.Nic.Run.Loops.{Finished, write_bytes, read_bytes}

abbrev pub upload : ℕ → List ℕ → List Cycle
upload addr bytes = start_dma 0x12 addr (length bytes) ++ map (wr 0x10) bytes

abbrev pub download : ℕ → ℕ → List Cycle
download addr count = start_dma 0x0a addr count ++ replicate count (rd 0x10)

module _ {P T : Type 0} {env : Env P T} (q : IsQuiet env) where
  upload-Runs :
      (c : Card P T) (addr : ℕ) (bs : List ℕ)
      → length bs ≢ 0
      → 0x4000 ≤ addr
      → addr + length bs ≤ 0x8000
      → (c' : Card P T) × Runs env c (upload addr bs) [] c'
        × (c'.ram ≡ put_bytes c.ram (addr - 0x4000) bs)
        × Finished c'
  upload-Runs c addr bs ne low high =
      let (c1, p, begin) = programmed q c addr (length bs) (omega arith) (omega arith) in
      let (c2, e, s) = command_write q c1 (λ z. ne (sym p.count ∙ z)) p.inactive in
      let at = s.start_address ∙ p.address in
      let (c3, r, ram, _, end) =
        write_bytes q bs c2 (λ _. s.start_active) (λ _. s.start_direction) (s.start_count ∙ p.count)
          (rw at low) (rw at high) in
      (
        c3,
        Runs-append (begin 0x12 c2 e) r,
        ram ∙ ap₂ (λ memory a. put_bytes memory (a - 0x4000) bs) (s.start_ram ∙ p.same_ram) at,
        end ne,
      )

  download-Runs :
      (c : Card P T) (addr n : ℕ)
      → n ≢ 0
      → 0x4000 ≤ addr
      → addr + n ≤ 0x8000
      → (c' : Card P T) × Runs env c (download addr n) (get_bytes c.ram (addr - 0x4000) n) c'
        × (c'.ram ≡ c.ram)
        × Finished c'
  download-Runs c addr n ne low high =
      let (c1, p, begin) = programmed q c addr n (omega arith) (omega arith) in
      let (c2, e, s) = command_read q c1 (λ z. ne (sym p.count ∙ z)) p.inactive in
      let at = s.start_address ∙ p.address in
      let memory = s.start_ram ∙ p.same_ram in
      let (c3, r, ram, _, end) =
        read_bytes q n c2 (λ _. s.start_active) (λ _. s.start_direction) (s.start_count ∙ p.count)
          (rw at low) (rw at high) in
      (
        c3,
        subst (λ vs. Runs env c (download addr n) vs c3)
            (ap₂ (λ m a. get_bytes m (a - 0x4000) n) memory at) (Runs-append (begin 0x0a c2 e) r),
        ram ∙ memory,
        end ne,
      )

  -- On a bus without faults an upload of one or more bytes to packet RAM runs without a throw, puts
  -- exactly these bytes in place, and leaves the remote DMA idle with RDC set.
  pub run-upload :
      (c : Card P T) (addr : ℕ) (bs : List ℕ)
      → length bs ≢ 0
      → 0x4000 ≤ addr
      → addr + length bs ≤ 0x8000
      → (c' : Card P T) × (run env c (upload addr bs) ≡ ok ([], c'))
        × (c'.ram ≡ put_bytes c.ram (addr - 0x4000) bs)
        × (c'.dma_active ≡ false)
        × (has c'.isr 6 ≡ true)
  run-upload c addr bs ne low high =
      let (c', r, ram, (ended, rdc)) = upload-Runs c addr bs ne low high in
      (c', run-Runs r, ram, ended, rdc)

  -- On a bus without faults a download from the same address returns the bytes of an upload, whatever
  -- state the card was in before.
  pub run-upload-download :
      (c : Card P T) (addr : ℕ) (bs : List ℕ)
      → IsBytes bs
      → length bs ≢ 0
      → 0x4000 ≤ addr
      → addr + length bs ≤ 0x8000
      → (c' : Card P T) × (run env c (upload addr bs ++ download addr (length bs)) ≡ ok (bs, c'))
        × (c'.dma_active ≡ false)
        × (has c'.isr 6 ≡ true)
  run-upload-download c addr bs bytes ne low high =
      let (c1, r1, ram1, _) = upload-Runs c addr bs ne low high in
      let (c2, r2, ram2, (ended, rdc)) = download-Runs c1 addr (length bs) ne low high in
      (
        c2,
        run-Runs (
            subst (λ vs. Runs env c (upload addr bs ++ download addr (length bs)) vs c2)
              (ap (λ m. get_bytes m (addr - 0x4000) (length bs)) ram1
                ∙ get_bytes-put_bytes bs c.ram (addr - 0x4000) bytes)
              (Runs-append r1 r2)),
        ended,
        rdc,
      )
