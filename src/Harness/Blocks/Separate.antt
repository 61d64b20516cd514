-- ===== src/Harness/Blocks/Separate.antt =====
-- The blocks of tools/exe-harness/harness.js, lines 322-331 and 538-552, do not overlap.
use mathlib.Core.Path.{subst}
use sprinter_rtl8019a.Base.{
  ℕ, zero, suc, ◌+◌, ◌<◌, ◌≡◌, ◌≢◌, refl, sym, ap, ◌∙◌, ◌⊎◌, inl, inr, Bool, true, false, Option,
  none, some, List, [], ◌∷◌, arith, length, leb, ◌==◌, if◌then◌else◌, get_or, ok, err, Bool-cases,
}
use sprinter_rtl8019a.Harness.Memory.{unknown_block}
use sprinter_rtl8019a.Harness.Blocks.{
  Block, Blocks, no_blocks, find_block, remove_block, pages_from, page_in, block_page, page_count,
  new_id, get_mem, freed, free_mem,
}

-- The calls that change the blocks, one after the other; SETWIN and EMM_FN4 only look at them.
pub data Calls (distinct : Bool) : Blocks → Type 0 where
  at_start : Calls distinct no_blocks
  then_got : {b : Blocks} → (n : ℕ) → Calls distinct b → Calls distinct (get_mem distinct b n)
  then_freed :
      {b b' : Blocks}
      → (block : ℕ) → free_mem b block ≡ ok b'
      → Calls distinct b
      → Calls distinct b'

find-remove_self : (bs : List Block) (x : ℕ) → find_block (remove_block bs x) x ≡ none
unfolding find_block remove_block
find-remove_self [] x = refl
find-remove_self (b ∷ bs) x = elim (Bool-cases (b.id == x)) [
  | inl e ↦ simp e (find-remove_self bs x)
  | inr e ↦ simp e (find-remove_self bs x)
]

find-remove_other :
    (bs : List Block) (x y : ℕ) → x ≢ y → find_block (remove_block bs x) y ≡ find_block bs y
unfolding find_block remove_block
find-remove_other [] x y n = refl
find-remove_other (b ∷ bs) x y n = elim (Bool-cases (b.id == x)) [
  | inl e ↦ let d : (b.id == y) ≡ false = ground arith in simp (e, d) (find-remove_other bs x y n)
  | inr e ↦ simp e (ap (λ r. if b.id == y then some b.pages else r) (find-remove_other bs x y n))
]

length-pages_from : (base n : ℕ) → length (pages_from base n) ≡ n
unfolding pages_from
length-pages_from base zero = refl
length-pages_from base (suc n) = ap suc (length-pages_from (base + 1) n)

get_or-pages_from : (base n i : ℕ) → i < n → get_or (pages_from base n) i 0 ≡ base + i
unfolding pages_from
get_or-pages_from base zero i h = absurd (omega arith)
get_or-pages_from base (suc n) zero h = omega arith
get_or-pages_from base (suc n) (suc i) h =
    omega (arith, get_or-pages_from (base + 1) n i (omega arith))

-- The pages of the block that GETMEM makes.
page_in-new :
    (block base n i : ℕ) → i < n → page_in block i (some (pages_from base n)) ≡ ok (base + i)
page_in-new block base n i h =
    let e : leb (length (pages_from base n)) i ≡ false = ground (arith, length-pages_from base n) in
    simp e (ap ok (get_or-pages_from base n i h))

page_in-past : (block base n i p : ℕ) → page_in block i (some (pages_from base n)) ≡ ok p → i < n
page_in-past block base n i p h =
    let e : length (pages_from base n) ≡ n = length-pages_from base n in ground (arith, h, e)

-- A call of GETMEM makes a block, and leaves the others.
find-new :
    (d : Bool) (b : Blocks) (n : ℕ)
    → find_block (get_mem d b n).allocations (new_id d b)
      ≡ some (pages_from b.next_bank (page_count n))
unfolding get_mem find_block
find-new d b n = let e : (new_id d b == new_id d b) ≡ true = ground arith in simp e

got-new :
    (d : Bool) (b : Blocks) (n i : ℕ)
    → i < page_count n
    → block_page (get_mem d b n) (new_id d b) i ≡ ok (b.next_bank + i)
unfolding block_page
got-new d b n i h =
    ap (page_in (new_id d b) i) (find-new d b n)
    ∙ page_in-new (new_id d b) b.next_bank (page_count n) i h

got-past :
    (d : Bool) (b : Blocks) (n i p : ℕ)
    → block_page (get_mem d b n) (new_id d b) i ≡ ok p
    → i < page_count n
unfolding block_page
got-past d b n i p h =
    page_in-past (new_id d b) b.next_bank (page_count n) i p
      (sym (ap (page_in (new_id d b) i) (find-new d b n)) ∙ h)

got-other :
    (d : Bool) (b : Blocks) (n x i : ℕ)
    → new_id d b ≢ x
    → block_page (get_mem d b n) x i ≡ block_page b x i
unfolding block_page get_mem find_block
got-other d b n x i h =
    let e : (new_id d b == x) ≡ false = ground arith in
    simp e (ap (page_in x i) (find-remove_other b.allocations (new_id d b) x h))

got-cases :
    (d : Bool) (b : Blocks) (n x i p : ℕ)
    → block_page (get_mem d b n) x i ≡ ok p
    → ((new_id d b ≡ x) × (p ≡ b.next_bank + i) × (i < page_count n)) ⊎ (block_page b x i ≡ ok p)
got-cases d b n x i p h = elim (Bool-cases (new_id d b == x)) [
  | inl e ↦
      let same : new_id d b ≡ x = ground arith in
      let h' : block_page (get_mem d b n) (new_id d b) i ≡ ok p =
        ap (λ y. block_page (get_mem d b n) y i) same ∙ h in
      let few : i < page_count n = got-past d b n i p h' in
      let page : ok p ≡ ok (b.next_bank + i) = sym h' ∙ got-new d b n i few in
      inl (same, ground (arith, page), few)
  | inr e ↦
      let other : new_id d b ≢ x = λ q. ground (arith, e, q) in
      inr (sym (got-other d b n x i other) ∙ h)
]

freed-ok :
    (b b' : Blocks) (k : ℕ) (o : Option (List ℕ))
    → freed b k o ≡ ok b'
    → record b { allocations = remove_block b.allocations k } ≡ b'
freed-ok b b' k none e = cc
freed-ok b b' k (some pages) e = cc

-- FREEMEM takes the block away, and no other.
page_after-free :
    (b : Blocks) (k x i p : ℕ)
    → block_page (record b { allocations = remove_block b.allocations k }) x i ≡ ok p
    → block_page b x i ≡ ok p
unfolding block_page
page_after-free b k x i p h = elim (Bool-cases (k == x)) [
  | inl e ↦
      let same : k ≡ x = ground arith in
      let gone : find_block (remove_block b.allocations k) x ≡ none =
        ap (find_block (remove_block b.allocations k)) (sym same)
        ∙ find-remove_self b.allocations k in
      let no : err (unknown_block x) ≡ ok p = sym (ap (page_in x i) gone) ∙ h in cc
  | inr e ↦
      let other : k ≢ x = λ q. ground (arith, e, q) in
      sym (ap (page_in x i) (find-remove_other b.allocations k x other)) ∙ h
]

pub record IsSeparate (b : Blocks) : Type 0 where
  pub below : (x i p : ℕ) → block_page b x i ≡ ok p → p < b.next_bank
  pub once : (x y i j p : ℕ) → block_page b x i ≡ ok p → block_page b y j ≡ ok p → (x ≡ y) × (i ≡ j)

next_bank-got :
    (d : Bool) (b : Blocks) (n : ℕ) → (get_mem d b n).next_bank ≡ b.next_bank + page_count n
unfolding get_mem
next_bank-got d b n = refl

get_mem-IsSeparate : (d : Bool) (b : Blocks) (n : ℕ) → IsSeparate b → IsSeparate (get_mem d b n)
get_mem-IsSeparate d b n s =
    let next : (get_mem d b n).next_bank ≡ b.next_bank + page_count n = next_bank-got d b n in
    record {
      below = λ x i p h. elim (got-cases d b n x i p h) [
        | inl new ↦ omega (arith, new.1, new.2, next)
        | inr old ↦ omega (arith, s.below x i p old, next)
      ];
      once = λ x y i j p h k. elim (got-cases d b n x i p h) [
        | inl new ↦ elim (got-cases d b n y j p k) [
          | inl new' ↦ (sym (new.0) ∙ new'.0, omega (arith, new.1, new'.1))
          | inr old ↦ absurd (omega (arith, new.1, s.below y j p old))
        ]
        | inr old ↦ elim (got-cases d b n y j p k) [
          | inl new ↦ absurd (omega (arith, new.1, s.below x i p old))
          | inr old' ↦ s.once x y i j p old old'
        ]
      ];
    }

removed-IsSeparate :
    (b : Blocks) (k : ℕ)
    → IsSeparate b
    → IsSeparate (record b { allocations = remove_block b.allocations k })
removed-IsSeparate b k s = record {
  below = λ x i p h. s.below x i p (page_after-free b k x i p h);
  once = λ x y i j p h h'.
      s.once x y i j p (page_after-free b k x i p h) (page_after-free b k y j p h');
}

free_mem-IsSeparate : (b b' : Blocks) (k : ℕ) → free_mem b k ≡ ok b' → IsSeparate b → IsSeparate b'
unfolding free_mem
free_mem-IsSeparate b b' k e s =
    subst IsSeparate (freed-ok b b' k (find_block b.allocations k) e) (removed-IsSeparate b k s)

no_blocks-IsSeparate : IsSeparate no_blocks
unfolding block_page find_block
no_blocks-IsSeparate = record { below = λ x i p h. cc; once = λ x y i j p h k. cc }

Calls-IsSeparate : (d : Bool) (b : Blocks) → Calls d b → IsSeparate b
Calls-IsSeparate d b at_start = no_blocks-IsSeparate
Calls-IsSeparate d b (then_got {b = b'} n c) = get_mem-IsSeparate d b' n (Calls-IsSeparate d b' c)
Calls-IsSeparate d b (then_freed {b = b'} k e c) =
    free_mem-IsSeparate b' b k e (Calls-IsSeparate d b' c)

-- Whatever blocks a program gets and gives back, in either numbering of the blocks, a page of memory
-- is at one place of one block at most, and no page of a block is one that GETMEM hands out next.
pub Calls-separate :
    (d : Bool) (b : Blocks)
    → Calls d b
    → ((x y i j p : ℕ) → block_page b x i ≡ ok p → block_page b y j ≡ ok p → (x ≡ y) × (i ≡ j))
      × ((x i p n k : ℕ)
          → block_page b x i ≡ ok p
          → block_page (get_mem d b n) (new_id d b) k ≢ ok p)
Calls-separate d b c =
    let s = Calls-IsSeparate d b c in
    (
      s.once,
      λ x i p n k h h'.
          let few : k < page_count n = got-past d b n k p h' in
          let page : ok p ≡ ok (b.next_bank + k) = sym h' ∙ got-new d b n k few in
          ground (arith, page, s.below x i p h),
    )
