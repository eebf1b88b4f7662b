-- ===== src/Vm/User.antt =====
-- copyout, copyin and copyinstr of kernel/vm.c: between the kernel and the memory of a process.
pub mod Parts
pub mod Strings
pub mod Reading
use group10os.Prelude.{
  ℕ, zero, suc, ◌+◌, ◌-◌, ◌*◌, ◌/◌, Bool, true, false, not, Option, none, some, ltb, leb, ◌==◌,
  if◌then◌else◌,
}
use group10os.Prelude.Memory.{Mem, store}
use group10os.Prelude.Int.{ℤ, pos, negsuc}
use group10os.Str.{memmove}
use group10os.Kalloc.{pgsize}
use group10os.Vm.{Machine, and_then, maxva, pgrounddown, is_writable, walk, walkaddr}
use group10os.Vm.Space.{vmfault}

-- `PGSIZE - (va - va0)`, cut off at what is left.
abbrev pub part : ℕ → ℕ → ℕ
part left va = let n = pgsize - (va - pgrounddown va) in if ltb left n then left else n

module _ (kernel_end sz own : ℕ) where
  -- The page of an address, by walkaddr or else by vmfault.
  abbrev pub page_of : ℕ → ℕ → Machine → Option (ℕ × Machine)
  page_of table va0 m =
      let pa0 = walkaddr table va0 m in
      if pa0 == 0 then vmfault kernel_end sz own table va0 m else some (pa0, m)

  -- The loop of copyout; `none` is a panic, a null entry that is read, or the end of the fuel.
  copyout_from : ℕ → ℕ → ℕ → ℕ → ℕ → Machine → Option (ℤ × Machine)
  copyout_from zero table dstva src len m = none
  copyout_from (suc fuel) table dstva src len m =
      let va0 = pgrounddown dstva in
      let n = part len dstva in
      let next = λ (m' : Machine). copyout_from fuel table (va0 + pgsize) (src + n) (len - n) m' in
      let put = λ (pa0 : ℕ) (m' : Machine).
        next (record m' { byte = memmove m'.byte (pa0 + (dstva - va0)) src n }) in
      if len == 0
      then some (pos 0, m)
      else if leb maxva va0
      then some (negsuc 0, m)
      else and_then (page_of table va0 m) (λ (p : ℕ × Machine).
        if p.0 == 0
        then some (negsuc 0, p.1)
        else and_then (walk table va0 false p.1) (λ (r : ℕ × Machine).
          if r.0 == 0
          then none
          else if not (is_writable (p.1.pte r.0))
          then some (negsuc 0, p.1)
          else put p.0 p.1))

  -- A round copies a byte at least, so more rounds than bytes are enough.
  pub copyout : ℕ → ℕ → ℕ → ℕ → Machine → Option (ℤ × Machine)
  unfolding copyout_from
  copyout table dstva src len m = copyout_from (suc len) table dstva src len m

  unfoldable pub copyin_from : ℕ → ℕ → ℕ → ℕ → ℕ → Machine → Option (ℤ × Machine)
  copyin_from zero table dst srcva len m = none
  copyin_from (suc fuel) table dst srcva len m =
      let va0 = pgrounddown srcva in
      let n = part len srcva in
      let next = λ (m' : Machine). copyin_from fuel table (dst + n) (va0 + pgsize) (len - n) m' in
      if len == 0
      then some (pos 0, m)
      else and_then (page_of table va0 m) (λ (p : ℕ × Machine).
        if p.0 == 0
        then some (negsuc 0, p.1)
        else next (record (p.1) { byte = memmove p.1.byte dst (p.0 + (srcva - va0)) n }))

  unfoldable pub copyin : ℕ → ℕ → ℕ → ℕ → Machine → Option (ℤ × Machine)
  unfolding copyin_from
  copyin table dst srcva len m = copyin_from (suc len) table dst srcva len m

-- What the inner loop of copyinstr comes to: the memory, and whether it has met the NUL.
abbrev pub Scanned : Type 0
Scanned = Bool × Mem ℕ

-- The inner loop of copyinstr over `n` bytes.
unfoldable pub copy_bytes : ℕ → ℕ → ℕ → Mem ℕ → Scanned
copy_bytes zero dst p byte = (false, byte)
copy_bytes (suc n) dst p byte =
    let rest = copy_bytes n (dst + 1) (p + 1) (store byte dst (byte p)) in
    if byte p == 0 then (true, store byte dst 0) else rest

-- The outer loop. A null page table entry ends it, also behind MAXVA.
unfoldable pub copyinstr_from : ℕ → ℕ → ℕ → ℕ → ℕ → Machine → Option (ℤ × Machine)
copyinstr_from zero table dst srcva max m = none
copyinstr_from (suc fuel) table dst srcva max m =
    let va0 = pgrounddown srcva in
    let pa0 = walkaddr table va0 m in
    let n = part max srcva in
    let (got_null, byte) = copy_bytes n dst (pa0 + (srcva - va0)) m.byte in
    let m' = record m { byte = byte } in
    let next = copyinstr_from fuel table (dst + n) (va0 + pgsize) (max - n) m' in
    if max == 0
    then some (negsuc 0, m)
    else if pa0 == 0
    then some (negsuc 0, m)
    else if got_null
    then some (pos 0, m')
    else next

unfoldable pub copyinstr : ℕ → ℕ → ℕ → ℕ → Machine → Option (ℤ × Machine)
copyinstr table dst srcva max m = copyinstr_from (suc max) table dst srcva max m
