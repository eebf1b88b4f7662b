-- ===== src/Vm/User/Strings.antt =====
-- copyinstr of kernel/vm.c, which goes page by page, against a copy byte by byte.
use group10os.Prelude.{
  ℕ, zero, suc, ◌+◌, ◌-◌, ◌*◌, ◌/◌, ◌≤◌, ◌<◌, ◌≡◌, refl, sym, ap, ◌∙◌, ◌≢◌, ◌⊎◌, inl, inr, true,
  false, Option, some, arith, ◌==◌, if◌then◌else◌, Bool-cases, ==_ne,
}
use group10os.Prelude.Memory.{Mem, store}
use group10os.Prelude.Int.{ℤ, pos, negsuc}
use group10os.Kalloc.{pgsize}
use group10os.Vm.{Machine, pgrounddown, walkaddr}
use group10os.Vm.Walk.{walkaddr-byte}
use group10os.Vm.User.Parts.{part-FitsPage}
use group10os.Vm.User.{part, Scanned, copy_bytes, copyinstr_from, copyinstr}

-- Each byte is looked up through the page table on its own, and copied until the NUL is.
unfoldable pub bytewise : ℕ → ℕ → ℕ → ℕ → Machine → ℤ × Machine
bytewise zero table dst va m = (negsuc 0, m)
bytewise (suc k) table dst va m =
    let pa = walkaddr table (pgrounddown va) m in
    let c = m.byte (pa + (va - pgrounddown va)) in
    let rest = bytewise k table (dst + 1) (va + 1) (record m { byte = store m.byte dst c }) in
    if pa == 0
    then (negsuc 0, m)
    else if c == 0
    then (pos 0, record m { byte = store m.byte dst 0 })
    else rest

abbrev after : ℕ → ℕ → ℕ → ℕ → Machine → Scanned → ℤ × Machine
after j table dst va m (true, b) = (pos 0, record m { byte = b })
after j table dst va m (false, b) = bytewise j table dst va (record m { byte = b })

after-byte :
    (j table dst va : ℕ) (m : Machine) (b : Mem ℕ) (x : Scanned)
    → after j table dst va (record m { byte = b }) x ≡ after j table dst va m x
after-byte j table dst va m b (true, c) = refl
after-byte j table dst va m b (false, c) = refl

bytewise-suc :
    (k table dst va off pa : ℕ) (m : Machine)
    → walkaddr table (pgrounddown va) m ≡ pa
    → va - pgrounddown va ≡ off
    → pa ≢ 0
    → bytewise (suc k) table dst va m ≡ (
        if m.byte (pa + off) == 0
        then (pos 0, record m { byte = store m.byte dst 0 })
        else bytewise k table
            (dst + 1)
            (va + 1)
            (record m { byte = store m.byte dst (m.byte (pa + off)) }))
unfolding bytewise
bytewise-suc k table dst va off pa m w s n = rw (bytewise, w, s, ==_ne pa 0 n) refl

-- `n` bytes that stand in one page.
bytewise-page :
    (n k j table dst dst' va va' q off pa : ℕ) (m : Machine)
    → k ≡ n + j
    → dst' ≡ dst + n
    → va' ≡ va + n
    → va ≡ q * 4096 + off
    → off + n ≤ 4096
    → walkaddr table (q * 4096) m ≡ pa
    → pa ≢ 0
    → bytewise k table dst va m ≡ after j table dst' va' m (copy_bytes n dst (pa + off) m.byte)
unfolding bytewise copy_bytes
bytewise-page zero k j table dst dst' va va' q off pa m ek ed ev ea l w n =
    ap (λ x. bytewise x table dst va m) (let e : k ≡ j = omega (arith, ek) in e)
    ∙ ap (λ x. bytewise j table x va m) (let e : dst ≡ dst' = omega arith in e)
    ∙ ap (λ x. bytewise j table dst' x m) (let e : va ≡ va' = omega (arith, ev) in e)
bytewise-page (suc n) zero j table dst dst' va va' q off pa m ek ed ev ea l w ne =
    let h : 0 < 0 = omega (arith, ek) in elim h [ ]
bytewise-page (suc n) (suc k) j table dst dst' va va' q off pa m ek ed ev ea l w ne =
    let d : pgrounddown va ≡ q * 4096 = omega (arith, ea, l) in
    let s : va - pgrounddown va ≡ off = omega (arith, ea, l) in
    let first = bytewise-suc k table dst va off pa m (ap (λ x. walkaddr table x m) d ∙ w) s ne in
    elim (Bool-cases (m.byte (pa + off) == 0)) [
      | inl e ↦ first ∙ rw (copy_bytes, e) refl
      | inr e ↦
          let b = store m.byte dst (m.byte (pa + off)) in
          let rest =
            bytewise-page n k j table (dst + 1) dst' (va + 1) va' q (off + 1) pa
              (record m { byte = b }) (omega (arith, ek)) (omega (arith, ed)) (omega (arith, ev))
              (omega (arith, ea)) (omega (arith, l)) (walkaddr-byte table (q * 4096) m b ∙ w) ne in
          let next : pa + (off + 1) ≡ pa + off + 1 = omega arith in
          first
          ∙ rw (copy_bytes, e)
              (rest
                ∙ after-byte j table dst' va' m b (copy_bytes n (dst + 1) (pa + (off + 1)) b)
                ∙ ap (λ x. after j table dst' va' m (copy_bytes n (dst + 1) x b)) next)
    ]

bytewise-end :
    (j table dst va va' : ℕ) (m : Machine)
    → (j ≡ 0) ⊎ (va ≡ va')
    → bytewise j table dst va m ≡ bytewise j table dst va' m
unfolding bytewise
bytewise-end zero table dst va va' m h = refl
bytewise-end (suc j) table dst va va' m (inl e) = let h : 0 < 0 = omega (arith, e) in elim h [ ]
bytewise-end (suc j) table dst va va' m (inr e) = ap (λ v. bytewise (suc j) table dst v m) e

-- How a round of copyinstr goes on from what its inner loop comes to.
abbrev go_on : ℕ → ℕ → ℕ → ℕ → ℕ → Machine → Scanned → Option (ℤ × Machine)
go_on fuel table dst va max m (true, b) = some (pos 0, record m { byte = b })
go_on fuel table dst va max m (false, b) =
    copyinstr_from fuel table dst va max (record m { byte = b })

copyinstr_from-suc :
    (fuel table dst va max pa : ℕ) (m : Machine)
    → walkaddr table (pgrounddown va) m ≡ pa
    → pa ≢ 0
    → copyinstr_from (suc fuel) table dst va (suc max) m
      ≡ go_on fuel table
          (dst + part (suc max) va)
          (pgrounddown va + pgsize)
          (suc max - part (suc max) va)
          m
          (copy_bytes (part (suc max) va) dst (pa + (va - pgrounddown va)) m.byte)
unfolding copyinstr_from
copyinstr_from-suc fuel table dst va max pa m w n =
    rw (copyinstr_from, w, ==_ne pa 0 n, ==_ne (suc max) 0 (λ e. omega arith))
      (shape (copy_bytes (part (suc max) va) dst (pa + (va - pgrounddown va)) m.byte))
  where
    shape :
        (x : Scanned)
        → (if x.0
            then some (pos 0, record m { byte = x.1 })
            else copyinstr_from fuel table
                (dst + part (suc max) va)
                (pgrounddown va + pgsize)
                (suc max - part (suc max) va)
                (record m { byte = x.1 }))
          ≡ go_on fuel table
              (dst + part (suc max) va)
              (pgrounddown va + pgsize)
              (suc max - part (suc max) va)
              m
              x
    shape (true, b) = refl
    shape (false, b) = refl

go_on-after :
    (fuel table dst va va' max : ℕ) (m : Machine)
    → ((m' : Machine)
        → copyinstr_from fuel table dst va max m' ≡ some (bytewise max table dst va m'))
    → (max ≡ 0) ⊎ (va' ≡ va)
    → (x : Scanned) → go_on fuel table dst va max m x ≡ some (after max table dst va' m x)
go_on-after fuel table dst va va' max m ih h (true, b) = refl
go_on-after fuel table dst va va' max m ih h (false, b) =
    ih (record m { byte = b })
    ∙ ap some (sym (bytewise-end max table dst va' va (record m { byte = b }) h))

copyinstr_from-bytewise :
    (fuel table dst va max : ℕ) (m : Machine)
    → max < fuel
    → copyinstr_from fuel table dst va max m ≡ some (bytewise max table dst va m)
unfolding copyinstr_from bytewise
copyinstr_from-bytewise zero table dst va max m l = elim l [ ]
copyinstr_from-bytewise (suc fuel) table dst va zero m l = refl
copyinstr_from-bytewise (suc fuel) table dst va (suc max) m l =
    elim (Bool-cases (walkaddr table (pgrounddown va) m == 0)) [
      | inl e ↦ rw (copyinstr_from, bytewise, e, ==_ne (suc max) 0 (λ z. omega arith)) refl
      | inr e ↦
          let n = part (suc max) va in
          let pa = walkaddr table (pgrounddown va) m in
          let off = va - pgrounddown va in
          let (le, some_byte, fits, ends) = part-FitsPage (suc max) va (omega arith) in
          let ne : pa ≢ 0 = λ z. ground (arith, e, z) in
          let shorter : suc max - n < fuel = omega (arith, l, some_byte) in
          copyinstr_from-suc fuel table dst va max pa m refl ne
          ∙ go_on-after fuel table (dst + n) (pgrounddown va + pgsize) (va + n) (suc max - n) m
              (λ m'.
                copyinstr_from-bytewise fuel table (dst + n) (pgrounddown va + pgsize) (suc max - n)
                  m' shorter)
              ends (copy_bytes n dst (pa + off) m.byte)
          ∙ ap some (
              sym (
                bytewise-page n (suc max) (suc max - n) table dst (dst + n) va (va + n) (va / 4096)
                  off pa m (omega (arith, le)) refl refl (omega arith) fits refl ne))
    ]

-- copyinstr copies what a copy byte by byte through the page table does, and returns the same: each
-- byte comes from a page that the process may access, up to the NUL; -1 for a page that is not there
-- or where none of the first `max` bytes is NUL. It ends, and does not panic.
pub copyinstr-bytewise :
    (table dst va max : ℕ) (m : Machine)
    → copyinstr table dst va max m ≡ some (bytewise max table dst va m)
unfolding copyinstr
copyinstr-bytewise table dst va max m =
    copyinstr_from-bytewise (suc max) table dst va max m (omega arith)
