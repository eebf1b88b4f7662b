-- ===== src/Kalloc.antt =====
-- kernel/kalloc.c, with PGSIZE and PGROUNDUP of kernel/riscv.h and PHYSTOP of kernel/memlayout.h.
-- An address is a number and 0 the null pointer. `link pa` is the first word of the page at `pa`,
-- where a free page keeps its `struct run`. `kernel_end` is the linker's symbol `end`.
-- `none` is a panic. The lock is left out: each call runs inside its critical section.
pub mod FreeList
pub mod Range
mod Tests
use group10os.Prelude.{
  ℕ, zero, suc, ◌+◌, ◌-◌, ◌*◌, ◌/◌, ◌%◌, not, ◌||◌, Option, none, some, ltb, leb, ◌==◌,
  if◌then◌else◌,
}
use group10os.Prelude.Memory.{Mem, store}

abbrev pub pgsize : ℕ
pgsize = 4096

-- KERNBASE + 128*1024*1024
abbrev pub phystop : ℕ
phystop = 0x88000000

-- `((sz)+PGSIZE-1) & ~(PGSIZE-1)`
abbrev pub pgroundup : ℕ → ℕ
pgroundup sz = (sz + 4095) / 4096 * 4096

pub record Kmem : Type 0 where
  pub freelist : ℕ
  pub link : Mem ℕ

-- The word that `memset(pa, 1, PGSIZE)` and `memset(r, 5, PGSIZE)` leave at the page's start.
abbrev pub junk_free : ℕ
junk_free = 0x0101010101010101

abbrev pub junk_alloc : ℕ
junk_alloc = 0x0505050505050505

-- The first page taken off the list and filled with junk.
abbrev pub taken : Kmem → Kmem
taken k = record { freelist = k.link k.freelist; link = store k.link k.freelist junk_alloc }

unfoldable pub kalloc : Kmem → ℕ × Kmem
kalloc k = let r = k.freelist in if r == 0 then (r, k) else (r, taken k)

-- The page filled with junk, and linked in front of the list.
abbrev pub freed : Kmem → ℕ → Kmem
freed k pa = record { freelist = pa; link = store (store k.link pa junk_free) pa k.freelist }

module _ (kernel_end : ℕ) where
  unfoldable pub kfree : Kmem → ℕ → Option Kmem
  kfree k pa =
      if not (pa % pgsize == 0) || (ltb pa kernel_end || leb phystop pa)
      then none
      else some (freed k pa)

  abbrev and_then : Option Kmem → (Kmem → Option Kmem) → Option Kmem
  and_then none f = none
  and_then (some k) f = f k

  -- The loop of freerange; `none` also where the fuel runs out.
  freerange_from : ℕ → Kmem → ℕ → ℕ → Option Kmem
  freerange_from zero k p pa_end = none
  freerange_from (suc fuel) k p pa_end =
      let rest = λ (k' : Kmem). freerange_from fuel k' (p + pgsize) pa_end in
      if leb (p + pgsize) pa_end then and_then (kfree k p) rest else some k

  -- Each round goes a page on, so `pa_end + 1` rounds are enough.
  pub freerange : Kmem → ℕ → ℕ → Option Kmem
  unfolding freerange_from
  freerange k pa_start pa_end = freerange_from (suc pa_end) k (pgroundup pa_start) pa_end

  pub kinit : Kmem → Option Kmem
  unfolding freerange
  kinit k = freerange k kernel_end phystop
