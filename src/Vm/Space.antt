-- ===== src/Vm/Space.antt =====
-- The address space of a process in kernel/vm.c: mappages, uvmcreate, uvmunmap, uvmdealloc, uvmalloc,
-- uvmcopy, uvmclear and vmfault. `kernel_end` is the linker's symbol `end`.
use group10os.Prelude.{
  ℕ, zero, suc, ◌+◌, ◌-◌, ◌/◌, ◌%◌, Bool, true, false, not, ◌&&◌, Option, none, some, ltb, leb,
  ◌==◌, if◌then◌else◌,
}
use group10os.Prelude.Int.{ℤ, pos, negsuc}
use group10os.Str.{memmove}
use group10os.Kalloc.{Kmem, pgsize, pgroundup, kalloc, kfree}
use group10os.Fs.Bits.{clear_bit}
use group10os.Vm.{
  Machine, and_then, pgrounddown, is_valid, pte_r, pte_w, pte_u, pte2pa, pte_flags, is_table, entry,
  zero_page, set_pte, walk, ismapped,
}

-- The loop of mappages with `k` rounds left; `none` is a panic.
mappages_from : ℕ → ℕ → ℕ → ℕ → ℕ → ℕ → Machine → Option (ℤ × Machine)
mappages_from zero table a last pa perm m = none
mappages_from (suc k) table a last pa perm m =
    let next = λ (m' : Machine). mappages_from k table (a + pgsize) last (pa + pgsize) perm m' in
    and_then (walk table a true m) (λ (r : ℕ × Machine).
      let m' = set_pte r.0 (entry pa perm) r.1 in
      if r.0 == 0
      then some (negsuc 0, r.1)
      else if is_valid (r.1.pte r.0)
      then none
      else if a == last
      then some (pos 0, m')
      else next m')

-- A round maps a page, so it has as many rounds as there are pages.
unfoldable pub mappages : ℕ → ℕ → ℕ → ℕ → ℕ → Machine → Option (ℤ × Machine)
unfolding mappages_from
mappages table va size pa perm m =
    let mapped = mappages_from (size / pgsize) table va (va + size - pgsize) pa perm m in
    if not (va % pgsize == 0)
    then none
    else if not (size % pgsize == 0)
    then none
    else if size == 0
    then none
    else mapped

-- A new page of zeros, or a null pointer.
abbrev pub zeroed : Machine → ℕ × Machine
zeroed m =
    let (page, k) = kalloc m.kmem in
    if page == 0 then (0, record m { kmem = k }) else (page, zero_page page (record m { kmem = k }))

pub uvmcreate : Machine → ℕ × Machine
uvmcreate m = zeroed m

pub uvmclear : ℕ → ℕ → Machine → Option Machine
uvmclear table va m =
    and_then (walk table va false m) (λ (r : ℕ × Machine).
      if r.0 == 0 then none else some (set_pte r.0 (clear_bit (m.pte r.0) 4) m))

module _ (kernel_end : ℕ) where
  abbrev pub give_back : ℕ → Machine → Option Machine
  give_back pa m =
      and_then (kfree kernel_end m.kmem pa) (λ (k : Kmem). some (record m { kmem = k }))

  -- The body of the loop of uvmunmap for one page.
  abbrev pub unmap_page : ℕ → ℕ → Bool → Machine → Option Machine
  unmap_page table a do_free m = and_then (walk table a false m) (λ (r : ℕ × Machine).
      if r.0 == 0
      then some m
      else if not (is_valid (m.pte r.0))
      then some m
      else and_then (if do_free then give_back (pte2pa (m.pte r.0)) m else some m)
          (λ (m' : Machine). some (set_pte r.0 0 m')))

  unmap_from : ℕ → ℕ → ℕ → Bool → Machine → Option Machine
  unmap_from zero table a do_free m = some m
  unmap_from (suc npages) table a do_free m =
      let next = λ (m' : Machine). unmap_from npages table (a + pgsize) do_free m' in
      and_then (unmap_page table a do_free m) next

  unfoldable pub uvmunmap : ℕ → ℕ → ℕ → Bool → Machine → Option Machine
  unfolding unmap_from
  uvmunmap table va npages do_free m =
      let unmapped = unmap_from npages table va do_free m in
      if va % pgsize == 0 then unmapped else none

  unfoldable pub uvmdealloc : ℕ → ℕ → ℕ → Machine → Option (ℕ × Machine)
  uvmdealloc table oldsz newsz m =
      let npages = (pgroundup oldsz - pgroundup newsz) / pgsize in
      if leb oldsz newsz
      then some (oldsz, m)
      else if ltb (pgroundup newsz) (pgroundup oldsz)
      then and_then (uvmunmap table (pgroundup newsz) npages true m)
          (λ (m' : Machine). some (newsz, m'))
      else some (newsz, m)

  -- Where uvmalloc gives up at address `a`.
  abbrev undo : ℕ → ℕ → ℕ → Machine → Option (ℕ × Machine)
  undo table a oldsz m = and_then (uvmdealloc table a oldsz m) (λ (r : ℕ × Machine). some (0, r.1))

  -- The loop of uvmalloc from address `a` on; `none` is a panic, or the end of the fuel.
  alloc_from : ℕ → ℕ → ℕ → ℕ → ℕ → ℕ → Machine → Option (ℕ × Machine)
  alloc_from zero table a oldsz newsz xperm m = none
  alloc_from (suc fuel) table a oldsz newsz xperm m =
      let next = λ (m' : Machine). alloc_from fuel table (a + pgsize) oldsz newsz xperm m' in
      let (mem, m1) = zeroed m in
      let mapped =
        and_then (mappages table a pgsize mem (pte_r + pte_u + xperm) m1) (λ (r : ℤ × Machine).
          elim r.0 as (λ _. Option (ℕ × Machine)) [
            | pos n ↦ next r.1
            | negsuc n ↦ and_then (give_back mem r.1) (λ (m' : Machine). undo table a oldsz m')
          ]) in
      if leb newsz a then some (newsz, m) else if mem == 0 then undo table a oldsz m1 else mapped

  -- A round takes a page, so more rounds than bytes are enough. `xperm` has neither PTE_R nor PTE_U.
  pub uvmalloc : ℕ → ℕ → ℕ → ℕ → Machine → Option (ℕ × Machine)
  unfolding alloc_from
  uvmalloc table oldsz newsz xperm m =
      let start = pgroundup oldsz in
      let grown = alloc_from (suc newsz) table start start newsz xperm m in
      if ltb newsz oldsz then some (oldsz, m) else grown

  -- Where uvmcopy gives up at address `i`.
  abbrev pub abandon : ℕ → ℕ → Machine → Option (ℤ × Machine)
  abandon new i m =
      and_then (uvmunmap new 0 (i / pgsize) true m) (λ (m' : Machine). some (negsuc 0, m'))

  -- The loop of uvmcopy from address `i` on; `none` is a panic, or the end of the fuel.
  copy_from : ℕ → ℕ → ℕ → ℕ → ℕ → Machine → Option (ℤ × Machine)
  copy_from zero old new i sz m = none
  copy_from (suc fuel) old new i sz m =
      let next = λ (m' : Machine). copy_from fuel old new (i + pgsize) sz m' in
      let copied = λ (pte : ℕ).
        (let (mem, k) = kalloc m.kmem in
          let m1 = record m { kmem = k; byte = memmove m.byte mem (pte2pa pte) pgsize } in
          if mem == 0
          then abandon new i (record m { kmem = k })
          else and_then (mappages new i pgsize mem (pte_flags pte) m1) (λ (r : ℤ × Machine).
            elim r.0 as (λ _. Option (ℤ × Machine)) [
              | pos n ↦ next r.1
              | negsuc n ↦ and_then (give_back mem r.1) (λ (m' : Machine). abandon new i m')
            ])) in
      if leb sz i
      then some (pos 0, m)
      else and_then (walk old i false m) (λ (r : ℕ × Machine).
        if r.0 == 0
        then next m
        else if not (is_valid (m.pte r.0))
        then next m
        else copied (m.pte r.0))

  -- As in uvmalloc, more rounds than bytes are enough.
  pub uvmcopy : ℕ → ℕ → ℕ → Machine → Option (ℤ × Machine)
  unfolding copy_from
  uvmcopy old new sz m = copy_from (suc sz) old new 0 sz m

  -- vmfault of a process with size `sz` and page table `own`: the address of the page, or 0.
  unfoldable pub vmfault : ℕ → ℕ → ℕ → ℕ → Machine → Option (ℕ × Machine)
  unfolding ismapped
  vmfault sz own table va m =
      let va0 = pgrounddown va in
      let map_page = λ (p : ℕ × Machine).
        if p.0 == 0
        then some p
        else and_then (mappages own va0 pgsize p.0 (pte_w + pte_u + pte_r) p.1)
            (λ (r : ℤ × Machine). elim r.0 as (λ _. Option (ℕ × Machine)) [
              | pos n ↦ some (p.0, r.1)
              | negsuc n ↦ and_then (give_back p.0 r.1) (λ (m' : Machine). some (0, m'))
            ]) in
      if leb sz va
      then some (0, m)
      else and_then (ismapped table va0 m)
          (λ (b : Bool). if b then some (0, m) else map_page (zeroed m))

  -- The loop of freewalk with `k` entries left from address `slot` on, where `free` frees a table.
  free_entries : (ℕ → Machine → Option Machine) → ℕ → ℕ → Machine → Option Machine
  free_entries free zero slot m = some m
  free_entries free (suc k) slot m =
      let next = λ (m' : Machine). free_entries free k (slot + 8) m' in
      if is_valid (m.pte slot) && is_table (m.pte slot)
      then and_then (free (pte2pa (m.pte slot)) m) (λ (m' : Machine). next (set_pte slot 0 m'))
      else if is_valid (m.pte slot)
      then none
      else next m

  -- freewalk on a table with `levels` levels.
  freewalk : ℕ → ℕ → Machine → Option Machine
  unfolding free_entries
  freewalk zero table m = none
  freewalk (suc levels) table m =
      let free = freewalk levels in and_then (free_entries free 512 table m) (give_back table)

  -- A page table has three levels.
  pub uvmfree : ℕ → ℕ → Machine → Option Machine
  unfolding freewalk
  uvmfree table sz m =
      and_then (if ltb 0 sz then uvmunmap table 0 (pgroundup sz / pgsize) true m else some m)
        (freewalk 3 table)
