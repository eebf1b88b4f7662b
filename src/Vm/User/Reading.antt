-- ===== src/Vm/User/Reading.antt =====
-- copyin of kernel/vm.c from pages that are there.
use group10os.Prelude.{
  ℕ, zero, suc, ◌+◌, ◌-◌, ◌≤◌, ◌<◌, ◌≡◌, refl, sym, ap, ◌∙◌, ◌≢◌, ◌⊎◌, inl, inr, true, false, ◌&&◌,
  Option, some, arith, ltb, leb, if◌then◌else◌, Bool-cases, ==_ne,
}
use group10os.Prelude.Memory.{Mem}
use group10os.Prelude.Int.{ℤ, pos}
use group10os.Str.{memmove}
use group10os.Str.Copy.{memmove_lem}
use group10os.Kalloc.{pgsize}
use group10os.Vm.{Machine, pgrounddown, walkaddr}
use group10os.Vm.Walk.{walkaddr-byte}
use group10os.Vm.User.{part, copyin_from, copyin}
use group10os.Vm.User.Parts.{part-FitsPage}

-- The physical address of a virtual one.
abbrev pub phys : ℕ → Machine → ℕ → ℕ
phys table m va = walkaddr table (pgrounddown va) m + (va - pgrounddown va)

-- The pages of the range are there, for the process.
abbrev pub IsMapped : ℕ → Machine → ℕ → ℕ → Type 0
IsMapped table m va len = (i : ℕ) → i < len → walkaddr table (pgrounddown (va + i)) m ≢ 0

-- The range of the process is elsewhere in memory than the kernel's buffer.
abbrev pub IsApart : ℕ → Machine → ℕ → ℕ → ℕ → Type 0
IsApart table m dst va len = (i j : ℕ) → i < len → j < len → phys table m (va + i) ≢ dst + j

-- The memory with the bytes of the process in the buffer.
abbrev pub copied : ℕ → Machine → ℕ → ℕ → ℕ → ℕ → ℕ
copied table m dst va len a =
    if leb dst a && ltb a (dst + len) then m.byte (phys table m (va + (a - dst))) else m.byte a

phys-page :
    (table va i : ℕ) (m : Machine)
    → (va - pgrounddown va) + i < 4096
    → phys table m (va + i) ≡ phys table m va + i
phys-page table va i m l =
    let d : pgrounddown (va + i) ≡ pgrounddown va = omega arith in
    let e : va + i - pgrounddown va ≡ va - pgrounddown va + i = omega arith in
    rw (d, e) (omega arith)

phys-byte :
    (table va : ℕ) (m : Machine) (b : Mem ℕ)
    → phys table (record m { byte = b }) va ≡ phys table m va
phys-byte table va m b =
    ap (λ x. x + (va - pgrounddown va)) (walkaddr-byte table (pgrounddown va) m b)

-- A byte that memmove does not reach.
kept :
    (m : Mem ℕ) (dst src n len x : ℕ)
    → n ≤ len
    → ((j : ℕ) → j < len → x ≢ dst + j)
    → memmove m dst src n x ≡ m x
kept m dst src n len x l h = ground (arith, memmove_lem m dst src n x, h (x - dst))

-- The rest of the range, behind the bytes that a round copies.
copied-rest :
    (table dst va va' len n : ℕ) (m : Machine)
    → n ≤ len
    → (va - pgrounddown va) + n ≤ 4096
    → (len - n ≡ 0) ⊎ (va + n ≡ va')
    → IsApart table m dst va len
    → (a : ℕ)
    → copied table
        (record m { byte = memmove m.byte dst (phys table m va) n })
        (dst + n)
        va'
        (len - n)
        a
      ≡ copied table m dst va len a
copied-rest table dst va va' len n m le fits ends apart a =
    let b1 = memmove m.byte dst (phys table m va) n in
    let q = memmove_lem m.byte dst (phys table m va) n a in
    elim (Bool-cases (leb dst a && ltb a (dst + n))) [
      | inl e ↦
          let p = phys-page table va (a - dst) m (ground (arith, e, fits)) in
          let behind : (leb (dst + n) a && ltb a (dst + n + (len - n))) ≡ false =
            ground (arith, e) in
          let whole : (leb dst a && ltb a (dst + len)) ≡ true = ground (arith, e, le) in
          rw (behind, whole) (q ∙ rw e (ap m.byte (sym p)))
      | inr e ↦ elim (Bool-cases (leb (dst + n) a && ltb a (dst + len))) [
        | inl f ↦
            let behind : (leb (dst + n) a && ltb a (dst + n + (len - n))) ≡ true =
              ground (arith, f) in
            let whole : (leb dst a && ltb a (dst + len)) ≡ true = ground (arith, f) in
            let left : a - dst < len = ground (arith, f) in
            let same : va' + (a - (dst + n)) ≡ va + (a - dst) = ground (arith, f, ends) in
            let y = phys-byte table (va' + (a - (dst + n))) m b1 ∙ ap (phys table m) same in
            rw (behind, whole)
              (ap b1 y
                ∙ kept m.byte dst (phys table m va) n len (phys table m (va + (a - dst))) le
                    (λ j l. apart (a - dst) j left l))
        | inr f ↦
            let behind : (leb (dst + n) a && ltb a (dst + n + (len - n))) ≡ false =
              ground (arith, f) in
            let whole : (leb dst a && ltb a (dst + len)) ≡ false = ground (arith, e, f) in
            rw (behind, whole) (q ∙ rw e refl)
      ]
    ]

module _ (kernel_end sz own : ℕ) where
  copyin_from-suc :
      (fuel table dst va len pa : ℕ) (m : Machine)
      → walkaddr table (pgrounddown va) m ≡ pa
      → pa ≢ 0
      → copyin_from kernel_end sz own (suc fuel) table dst va (suc len) m
        ≡ copyin_from kernel_end sz own fuel table
            (dst + part (suc len) va)
            (pgrounddown va + pgsize)
            (suc len - part (suc len) va)
            (record m {
              byte = memmove m.byte dst (pa + (va - pgrounddown va)) (part (suc len) va);
            })
  unfolding copyin_from
  copyin_from-suc fuel table dst va len pa m w n =
      rw (copyin_from, w, ==_ne pa 0 n, ==_ne pa 0 n, ==_ne (suc len) 0 (λ e. omega arith)) refl

  Copies : ℕ → ℕ → ℕ → ℕ → Machine → Option (ℤ × Machine) → Type 0
  Copies table dst va len m r =
      (b : Mem ℕ) × (r ≡ some (pos 0, record m { byte = b }))
      × ((a : ℕ) → b a ≡ copied table m dst va len a)

  copyin_from-Copies :
      (fuel table dst va len : ℕ) (m : Machine)
      → len < fuel
      → IsMapped table m va len
      → IsApart table m dst va len
      → Copies table dst va len m (copyin_from kernel_end sz own fuel table dst va len m)
  unfolding copyin_from Copies
  copyin_from-Copies zero table dst va len m l mapped apart = elim l [ ]
  copyin_from-Copies (suc fuel) table dst va zero m l mapped apart =
      (m.byte, refl, λ a. ground arith)
  copyin_from-Copies (suc fuel) table dst va (suc len) m l mapped apart =
      let n = part (suc len) va in
      let (le, some_byte, fits, ends) = part-FitsPage (suc len) va (omega arith) in
      let s = phys table m va in
      let b1 = memmove m.byte dst s n in
      let m1 = record m { byte = b1 } in
      let va' = pgrounddown va + pgsize in
      let start : va + 0 ≡ va = omega arith in
      let there : walkaddr table (pgrounddown va) m ≢ 0 =
        λ z. mapped 0 (omega arith) (ap (λ v. walkaddr table (pgrounddown v) m) start ∙ z) in
      let follows : (i : ℕ) → i < suc len - n → va' + i ≡ va + (n + i) =
        λ i h. ground (arith, ends, h) in
      let (b, e, g) =
        copyin_from-Copies fuel table (dst + n) va' (suc len - n) m1 (omega (arith, l, some_byte))
          (λ i h z. mapped (n + i) (omega (arith, h, le)) (
            ap (λ v. walkaddr table (pgrounddown v) m) (sym (follows i h))
            ∙ sym (walkaddr-byte table (pgrounddown (va' + i)) m b1)
            ∙ z))
          (λ i j h h' z. apart (n + i) (n + j) (omega (arith, h, le)) (omega (arith, h', le)) (
            ap (phys table m) (sym (follows i h))
            ∙ sym (phys-byte table (va' + i) m b1)
            ∙ z
            ∙ (let e : dst + n + j ≡ dst + (n + j) = omega arith in e))) in
      (
        b,
        copyin_from-suc fuel table dst va len (walkaddr table (pgrounddown va) m) m refl there ∙ e,
        λ a. g a ∙ copied-rest table dst va va' (suc len) n m le fits ends apart a,
      )

  -- Where the pages of the range are there for the process, and its bytes are elsewhere in memory
  -- than the buffer, copyin returns 0; the buffer then holds the bytes of the process, over as many
  -- pages as they stand in, and no other byte, no page table and no free page has changed.
  pub copyin-bytes :
      (table dst va len : ℕ) (m : Machine)
      → IsMapped table m va len
      → IsApart table m dst va len
      → (b : Mem ℕ) × (copyin kernel_end sz own table dst va len m
          ≡ some (pos 0, record m { byte = b }))
        × ((a : ℕ) → b a ≡ copied table m dst va len a)
  unfolding copyin Copies
  copyin-bytes table dst va len m mapped apart =
      copyin_from-Copies (suc len) table dst va len m (omega arith) mapped apart
