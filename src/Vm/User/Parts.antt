-- ===== src/Vm/User/Parts.antt =====
-- The part of a page that a round of copyout, copyin and copyinstr of kernel/vm.c takes.
use group10os.Prelude.{ℕ, ◌+◌, ◌-◌, ◌≤◌, ◌<◌, ◌≡◌, ◌⊎◌, arith}
use group10os.Kalloc.{pgsize}
use group10os.Vm.{pgrounddown}
use group10os.Vm.User.{part}

-- No more than is left and than the page has, one byte at least, and up to the page's end unless it is the last one.
abbrev pub FitsPage : ℕ → ℕ → Type 0
FitsPage left va =
    (part left va ≤ left)
    × (0 < part left va)
    × ((va - pgrounddown va) + part left va ≤ 4096)
    × ((left - part left va ≡ 0) ⊎ (va + part left va ≡ pgrounddown va + pgsize))

pub part-FitsPage : (left va : ℕ) → 0 < left → FitsPage left va
part-FitsPage left va l = ground arith
