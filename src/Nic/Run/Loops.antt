-- ===== src/Nic/Run/Loops.antt =====
-- The data cycles of a remote DMA transfer, from the first to the last.
use mathlib.Core.Path.{subst}
use sprinter_rtl8019a.Base.{
  ◌⊎◌, inl, inr, ℕ, zero, suc, ◌+◌, ◌-◌, ◌≤◌, ◌≡◌, ◌≢◌, refl, ap₂, sym, ◌∙◌, true, false, List, [],
  ◌∷◌, map, arith, length, replicate, u8, has,
}
use sprinter_rtl8019a.Nic.Types.{Card, Env, reading, writing}
use sprinter_rtl8019a.Nic.Regs.{}
use sprinter_rtl8019a.Nic.Run.{rd, wr}
use sprinter_rtl8019a.Nic.Run.Quiet.{IsQuiet}
use sprinter_rtl8019a.Nic.Run.Transfer.{put_bytes, get_bytes, Moved, write_byte, read_byte}
use sprinter_rtl8019a.Nic.Run.Setup.{Runs, done, reads, writes}

-- The transfer is over, and the interrupt status says so (RDC).
abbrev pub Finished : {P T : Type 0} → Card P T → Type 0
Finished c = (c.dma_active ≡ false) × (has c.isr 6 ≡ true)

module _ {P T : Type 0} {env : Env P T} (q : IsQuiet env) where
  now-Finished :
      {c c1 c2 : Card P T} {n : ℕ} {memory : ℕ → ℕ}
      → Moved q c c1 n memory
      → (c2 ≡ c1) ⊎ Finished c2
      → (n ≢ 0 → Finished c2)
      → Finished c2
  now-Finished m (inr f) end = f
  now-Finished {n = zero} m (inl e) end = subst (λ d. Finished d) (sym e) (m.completes refl)
  now-Finished {n = suc n} m (inl e) end = end (omega arith)

  -- The bytes of an upload, from a transfer that is under way.
  pub write_bytes :
      (bs : List ℕ) (c : Card P T)
      → (length bs ≢ 0 → c.dma_active ≡ true)
      → (length bs ≢ 0 → c.dma_direction ≡ writing)
      → c.rbcr ≡ length bs
      → 0x4000 ≤ c.crda
      → c.crda + length bs ≤ 0x8000
      → (c' : Card P T) × Runs env c (map (wr 0x10) bs) [] c'
        × (c'.ram ≡ put_bytes c.ram (c.crda - 0x4000) bs)
        × ((c' ≡ c) ⊎ Finished c')
        × (length bs ≢ 0 → Finished c')
  write_bytes [] c active direction count low high =
      (c, done, refl, inl refl, λ ne. absurd (ne refl))
  write_bytes (b ∷ bs) c active direction count low high =
      let (c1, e, m) =
        write_byte q c b (length bs) (active (omega arith)) (direction (omega arith)) count low
          (omega arith) in
      let (c2, r, ram, same, end) =
        write_bytes bs c1 m.goes_on (λ ne. m.same_direction ne ∙ direction (omega arith)) m.counted
          (omega (arith, m.stepped)) (omega (arith, m.stepped)) in
      let finished : Finished c2 = now-Finished m same end in
      (
        c2,
        writes e r,
        ram ∙ ap₂ (λ memory i. put_bytes memory i bs) m.ram_is (omega (arith, m.stepped)),
        inr finished,
        λ _. finished,
      )

  -- The bytes of a download, in order.
  pub read_bytes :
      (n : ℕ) (c : Card P T)
      → (n ≢ 0 → c.dma_active ≡ true)
      → (n ≢ 0 → c.dma_direction ≡ reading)
      → c.rbcr ≡ n
      → 0x4000 ≤ c.crda
      → c.crda + n ≤ 0x8000
      → (c' : Card P T) × Runs env c
          (replicate n (rd 0x10))
          (get_bytes c.ram (c.crda - 0x4000) n)
          c'
        × (c'.ram ≡ c.ram)
        × ((c' ≡ c) ⊎ Finished c')
        × (n ≢ 0 → Finished c')
  read_bytes zero c active direction count low high =
      (c, done, refl, inl refl, λ ne. absurd (ne refl))
  read_bytes (suc n) c active direction count low high =
      let (c1, e, m) =
        read_byte q c n (active (omega arith)) (direction (omega arith)) count low (omega arith) in
      let (c2, r, ram, same, end) =
        read_bytes n c1 m.goes_on (λ ne. m.same_direction ne ∙ direction (omega arith)) m.counted
          (omega (arith, m.stepped)) (omega (arith, m.stepped)) in
      let finished : Finished c2 = now-Finished m same end in
      (
        c2,
        subst
            (λ vs. Runs env c (replicate (suc n) (rd 0x10)) (u8 (c.ram (c.crda - 0x4000)) ∷ vs) c2)
            (ap₂ (λ memory i. get_bytes memory i n) m.ram_is (omega (arith, m.stepped)))
            (reads e r),
        ram ∙ m.ram_is,
        inr finished,
        λ _. finished,
      )
