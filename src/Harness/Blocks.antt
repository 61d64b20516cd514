-- ===== src/Harness/Blocks.antt =====
-- tools/exe-harness/harness.js, lines 322-331 and 522-552: the blocks of memory pages that the DSS calls
-- GETMEM, FREEMEM and SETWIN hand out, give back and map.
pub mod Separate
pub mod Windows
use sprinter_rtl8019a.Base.{
  ℕ, zero, suc, ◌+◌, Bool, true, false, Option, none, some, List, [], ◌∷◌, length, leb, ◌==◌,
  if◌then◌else◌, get_or, set, Result, ok, err, and_then,
}
use sprinter_rtl8019a.Harness.Memory.{MachineFault, unknown_block, page_past_block, Machine}

-- An entry of `allocations`.
pub record Block : Type 0 where
  pub id : ℕ
  pub pages : List ℕ

-- The order of the entries of a map is not looked at.
pub record Blocks : Type 0 where
  pub next_bank : ℕ
  pub next_block_id : ℕ
  pub allocations : List Block

abbrev pub no_blocks : Blocks
no_blocks = record { next_bank = 16; next_block_id = 200; allocations = [] }

-- `allocations.get`, and what `allocations.delete` leaves.
unfoldable pub find_block : List Block → ℕ → Option (List ℕ)
find_block [] x = none
find_block (b ∷ bs) x = if b.id == x then some b.pages else find_block bs x

unfoldable pub remove_block : List Block → ℕ → List Block
remove_block [] x = []
remove_block (b ∷ bs) x = let rest = remove_block bs x in if b.id == x then rest else b ∷ rest

unfoldable pub pages_from : ℕ → ℕ → List ℕ
pages_from base zero = []
pages_from base (suc n) = base ∷ pages_from (base + 1) n

-- `blockPage(block, index)`, which is the BIOS call EMM_FN4 too, on what `get` has found.
abbrev pub page_in : ℕ → ℕ → Option (List ℕ) → Result MachineFault ℕ
page_in block index none = err (unknown_block block)
page_in block index (some pages) =
    if leb (length pages) index
    then err (page_past_block block index)
    else ok (get_or pages index 0)

unfoldable pub block_page : Blocks → ℕ → ℕ → Result MachineFault ℕ
block_page b block index = page_in block index (find_block b.allocations block)

-- GETMEM of `count` pages, of one page for 0: the new block and what is allocated then.
abbrev pub page_count : ℕ → ℕ
page_count n = if n == 0 then 1 else n

abbrev pub new_id : Bool → Blocks → ℕ
new_id distinct b = if distinct then b.next_block_id else b.next_bank

unfoldable pub get_mem : Bool → Blocks → ℕ → Blocks
get_mem distinct b n =
    let id = new_id distinct b in
    let block : Block = record { id = id; pages = pages_from b.next_bank (page_count n) } in
    record {
      next_bank = b.next_bank + page_count n;
      next_block_id = if distinct then b.next_block_id + 1 else b.next_block_id;
      allocations = block ∷ remove_block b.allocations id;
    }

-- FREEMEM
abbrev pub freed : Blocks → ℕ → Option (List ℕ) → Result MachineFault Blocks
freed b block none = err (unknown_block block)
freed b block (some pages) = ok (record b { allocations = remove_block b.allocations block })

unfoldable pub free_mem : Blocks → ℕ → Result MachineFault Blocks
free_mem b block = freed b block (find_block b.allocations block)

-- SETWIN1, SETWIN2 and SETWIN3, and SETWIN for the window that it finds in H.
unfoldable pub set_win :
    {P T : Type 0} → Machine P T → Blocks → ℕ → ℕ → ℕ → Result MachineFault (Machine P T)
set_win m b window block index =
    and_then (block_page b block index) (λ page. ok (record m { win = set m.win window page }))
