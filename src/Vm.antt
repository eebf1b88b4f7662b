-- ===== src/Vm.antt =====
-- kernel/vm.c with the page table entries of kernel/riscv.h. The memory is seen as 64-bit words where
-- page tables are, and as bytes elsewhere; pages come from kalloc and go back to kfree of Kalloc. The
-- junk that these fill a page with is left out here, since vm.c writes a page that it has got.
-- No virtual address that is used reaches MAXVA, so sums of addresses do not wrap.
pub mod Walk
pub mod Space
pub mod User
mod Tests
use group10os.Prelude.{
  ℕ, zero, suc, ◌+◌, ◌-◌, ◌*◌, ◌/◌, ◌%◌, ◌^◌, Bool, true, false, ◌&&◌, Option, none, some, ltb, leb,
  ◌==◌, if◌then◌else◌,
}
use group10os.Prelude.Memory.{Mem, store}
use group10os.Fs.Bits.{bit, set_bit}
use group10os.Kalloc.{Kmem, pgsize, kalloc}

abbrev pub and_then {ℓ κ} : {A : Type ℓ} {B : Type κ} → Option A → (A → Option B) → Option B
and_then none f = none
and_then (some a) f = f a

-- 1L << (9 + 9 + 9 + 12 - 1)
abbrev pub maxva : ℕ
maxva = 0x4000000000

abbrev pub pgrounddown : ℕ → ℕ
pgrounddown a = a / pgsize * pgsize

-- PTE_V, PTE_R, PTE_W and PTE_U of an entry.
abbrev pub is_valid : ℕ → Bool
is_valid pte = bit pte 0 == 1

abbrev pub is_writable : ℕ → Bool
is_writable pte = bit pte 2 == 1

abbrev pub is_user : ℕ → Bool
is_user pte = bit pte 4 == 1

-- None of PTE_R, PTE_W and PTE_X.
abbrev pub is_table : ℕ → Bool
is_table pte = bit pte 1 == 0 && (bit pte 2 == 0 && bit pte 3 == 0)

abbrev pub pte_r : ℕ
pte_r = 2

abbrev pub pte_w : ℕ
pte_w = 4

abbrev pub pte_u : ℕ
pte_u = 16

abbrev pub pa2pte : ℕ → ℕ
pa2pte pa = pa / 4096 * 1024

abbrev pub pte2pa : ℕ → ℕ
pte2pa pte = pte / 1024 * 4096 % 2 ^ 64

abbrev pub pte_flags : ℕ → ℕ
pte_flags pte = pte % 1024

-- `PA2PTE(pa) | perm | PTE_V`; `perm` is below 2^10, where PA2PTE has no bits.
abbrev pub entry : ℕ → ℕ → ℕ
entry pa perm = pa2pte pa + set_bit perm 0

abbrev pub px : ℕ → ℕ → ℕ
px level va = va / 2 ^ (12 + 9 * level) % 512

pub record Machine : Type 0 where
  pub kmem : Kmem
  pub pte : Mem ℕ
  pub byte : Mem ℕ

abbrev pub in_page : ℕ → ℕ → Bool
in_page page a = leb page a && ltb a (page + pgsize)

-- `memset(page, 0, PGSIZE)`
abbrev pub zero_page : ℕ → Machine → Machine
zero_page page m = record m {
  pte = λ a. (if in_page page a then 0 else m.pte a);
  byte = λ a. (if in_page page a then 0 else m.byte a);
}

abbrev pub set_pte : ℕ → ℕ → Machine → Machine
set_pte slot pte m = record m { pte = store m.pte slot pte }

-- `&pagetable[PX(level, va)]`
abbrev pub slot_of : ℕ → ℕ → ℕ → ℕ
slot_of table level va = table + 8 * px level va

-- The loop of walk with `level` rounds left: the address of the entry, or 0.
unfoldable pub walk_from : ℕ → ℕ → ℕ → Bool → Machine → ℕ × Machine
walk_from zero table va alloc m = (slot_of table 0 va, m)
walk_from (suc level) table va alloc m =
    let slot = slot_of table (suc level) va in
    let down = walk_from level (pte2pa (m.pte slot)) va alloc m in
    let (page, k) = kalloc m.kmem in
    let grown =
      walk_from level page va alloc
        (set_pte slot (pa2pte page + 1) (zero_page page (record m { kmem = k }))) in
    if is_valid (m.pte slot)
    then down
    else if alloc
    then (if page == 0 then (0, record m { kmem = k }) else grown)
    else (0, m)

-- `none` is a panic.
unfoldable pub walk : ℕ → ℕ → Bool → Machine → Option (ℕ × Machine)
unfolding walk_from
walk table va alloc m = if leb maxva va then none else some (walk_from 2 table va alloc m)

abbrev user_page : ℕ → Machine → ℕ
user_page slot m =
    if slot == 0
    then 0
    else if is_valid (m.pte slot) && is_user (m.pte slot)
    then pte2pa (m.pte slot)
    else 0

-- Below MAXVA walk does not panic.
unfoldable pub walkaddr : ℕ → ℕ → Machine → ℕ
walkaddr table va m = elim (walk table va false m) as (λ _. ℕ) [
  | none ↦ 0
  | some (slot, m') ↦ user_page slot m
]

-- Whether the address is mapped; `none` is a panic.
pub ismapped : ℕ → ℕ → Machine → Option Bool
ismapped table va m =
    and_then (walk table va false m)
      (λ (r : ℕ × Machine). some (if r.0 == 0 then false else is_valid (m.pte r.0)))
