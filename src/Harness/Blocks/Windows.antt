-- ===== src/Harness/Blocks/Windows.antt =====
-- The windows that SETWIN maps, lines 522-537 of tools/exe-harness/harness.js, onto the blocks.
use sprinter_rtl8019a.Base.{
  ℕ, ◌+◌, ◌*◌, ◌/◌, ◌%◌, ◌<◌, ◌≡◌, ◌≢◌, refl, sym, ap, ◌∙◌, ◌⊎◌, inl, inr, Bool, false, arith,
  length, length-set, ◌==◌, get_or, set, get_or-set_self, get_or-set_ne, Result, ok, err, and_then,
}
use sprinter_rtl8019a.Harness.Memory.{MachineFault, Machine, lin, store_byte}
use sprinter_rtl8019a.Harness.Blocks.{Blocks, block_page, set_win}
use sprinter_rtl8019a.Harness.Blocks.Separate.{Calls, Calls-separate}

module _ {P T : Type 0} where
  -- The page that SETWIN has found, and the machine with it.
  mapped_page :
      (m m' : Machine P T) (w : ℕ) (r : Result MachineFault ℕ)
      → and_then r (λ page. ok (record m { win = set m.win w page })) ≡ ok m'
      → (p : ℕ) × (r ≡ ok p) × (record m { win = set m.win w p } ≡ m')
  unfolding and_then
  mapped_page m m' w (ok p) e = (p, refl, cc)
  mapped_page m m' w (err f) e = cc

  set_win-page :
      (m m' : Machine P T) (b : Blocks) (w block index : ℕ)
      → set_win m b w block index ≡ ok m'
      → (p : ℕ) × (block_page b block index ≡ ok p) × (record m { win = set m.win w p } ≡ m')
  unfolding set_win
  set_win-page m m' b w block index e = mapped_page m m' w (block_page b block index) e

  lin-window :
      (m : Machine P T) (a w p : ℕ)
      → a / 0x4000 % 4 ≡ w
      → get_or m.win w 0 ≡ p
      → lin m a ≡ p * 0x4000 + a % 0x4000
  unfolding lin
  lin-window m a w p e f = rw e (rw f refl)

  -- With two windows mapped to two places of the blocks that the program has, a byte that is stored
  -- through the one is not seen through the other.
  pub set_win-separate :
      (d : Bool) (b : Blocks) (m m1 m2 : Machine P T) (w1 w2 x y i j a a' v : ℕ)
      → Calls d b
      → length m.win ≡ 4
      → w1 ≢ w2
      → (x ≢ y) ⊎ (i ≢ j)
      → set_win m b w1 x i ≡ ok m1
      → set_win m1 b w2 y j ≡ ok m2
      → a / 0x4000 % 4 ≡ w1
      → a' / 0x4000 % 4 ≡ w2
      → (store_byte m2 a v).mem (lin m2 a') ≡ m2.mem (lin m2 a')
  unfolding store_byte
  set_win-separate d b m m1 m2 w1 w2 x y i j a a' v c ws n places e1 e2 h1 h2 =
      let (p, found1, is1) = set_win-page m m1 b w1 x i e1 in
      let (q, found2, is2) = set_win-page m1 m2 b w2 y j e2 in
      let win1 : m1.win ≡ set m.win w1 p = sym (ap (λ (r : Machine P T). r.win) is1) in
      let win2 : m2.win ≡ set m1.win w2 q = sym (ap (λ (r : Machine P T). r.win) is2) in
      let room : w1 < 4 = omega arith in
      let room' : w2 < 4 = omega arith in
      let four : length m1.win ≡ 4 = ap length win1 ∙ length-set m.win w1 p ∙ ws in
      let page1 : get_or m2.win w1 0 ≡ p =
        ap (λ l. get_or l w1 0) win2
        ∙ get_or-set_ne m1.win w2 w1 q 0 (λ e. n (sym e))
        ∙ ap (λ l. get_or l w1 0) win1
        ∙ get_or-set_self m.win w1 p 0 (omega arith) in
      let page2 : get_or m2.win w2 0 ≡ q =
        ap (λ l. get_or l w2 0) win2 ∙ get_or-set_self m1.win w2 q 0 (omega arith) in
      let apart : p ≢ q = λ e.
        let same = (Calls-separate d b c).0 x y i j q (found1 ∙ ap ok e) found2 in
        elim places [ inl differ ↦ differ (same.0) | inr differ ↦ differ (same.1) ] in
      let here : lin m2 a ≡ p * 0x4000 + a % 0x4000 = lin-window m2 a w1 p h1 page1 in
      let there : lin m2 a' ≡ q * 0x4000 + a' % 0x4000 = lin-window m2 a' w2 q h2 page2 in
      let far : (lin m2 a' == lin m2 a) ≡ false = ground (arith, here, there, apart) in simp far
