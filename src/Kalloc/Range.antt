-- ===== src/Kalloc/Range.antt =====
-- freerange and kinit of kernel/kalloc.c: which pages the allocator starts with.
use group10os.Prelude.{
  ℕ, zero, suc, ◌+◌, ◌-◌, ◌/◌, ◌%◌, ◌≤◌, ◌<◌, ◌≡◌, refl, List, [], ◌∷◌, some, arith, All, Fresh,
  length,
}
use group10os.Kalloc.{Kmem, freed, pgsize, phystop, pgroundup, freerange_from, freerange, kinit}
use group10os.Kalloc.FreeList.{IsPage, HasPages, kfree-HasPages}

-- The `n` pages from `p` on, the last one first, in front of `xs`.
abbrev pub pages_from : ℕ → ℕ → List ℕ → List ℕ
pages_from zero p xs = xs
pages_from (suc n) p xs = pages_from n (p + 4096) (p ∷ xs)

length-pages_from : (n p : ℕ) (xs : List ℕ) → length (pages_from n p xs) ≡ n + length xs
length-pages_from zero p xs = omega arith
length-pages_from (suc n) p xs = omega (arith, length-pages_from n (p + 4096) (p ∷ xs))

Below-mono : (p q : ℕ) (xs : List ℕ) → p ≤ q → All (λ x. x < p) xs → All (λ x. x < q) xs
Below-mono p q [] h b = tt
Below-mono p q (x ∷ xs) h b = (omega arith, Below-mono p q xs h b.1)

Below-Fresh : (p : ℕ) (xs : List ℕ) → All (λ x. x < p) xs → Fresh p xs
Below-Fresh p [] b = tt
Below-Fresh p (x ∷ xs) b = (omega arith, Below-Fresh p xs b.1)

module _ (kernel_end : ℕ) (pos_end : 0 < kernel_end) where
  -- From a page boundary inside the range, the loop frees each whole page below `pa_end`.
  freerange_from-HasPages :
      (fuel p pa_end n : ℕ) (k : Kmem) (xs : List ℕ)
      → 0 < fuel
      → pa_end < p + fuel
      → n ≡ (pa_end - p) / 4096
      → p % 4096 ≡ 0
      → kernel_end ≤ p
      → pa_end ≤ phystop
      → HasPages kernel_end k xs
      → All (λ x. x < p) xs
      → (k' : Kmem) × (freerange_from kernel_end fuel k p pa_end ≡ some k')
        × HasPages kernel_end k' (pages_from n p xs)
  unfolding freerange_from
  freerange_from-HasPages zero p pa_end n k xs h0 hf hn hp he ht v b = absurd (omega arith)
  freerange_from-HasPages (suc fuel) p pa_end zero k xs h0 hf hn hp he ht v b = (k, ground arith, v)
  freerange_from-HasPages (suc fuel) p pa_end (suc n) k xs h0 hf hn hp he ht v b =
      let page : IsPage kernel_end p = omega arith in
      let step = kfree-HasPages kernel_end p pos_end v page (Below-Fresh p xs b) in
      let (k', e, w) =
        freerange_from-HasPages fuel (p + 4096) pa_end n (freed k p) (p ∷ xs) (omega arith)
          (omega arith) (omega arith) (omega arith) (omega arith) ht step.1
          (omega arith, Below-mono p (p + 4096) xs (omega arith) b) in
      (k', ground (arith, e, step.0), w)

  -- From an empty free list, and with a kernel that does not end at address 0, kinit does not panic: it
  -- leaves the allocator with exactly the whole pages between the first page boundary at or behind
  -- the kernel's end and the top of memory, each free once.
  pub kinit-HasPages :
      (k : Kmem)
      → k.freelist ≡ 0
      → let first = pgroundup kernel_end in
        let count = (phystop - first) / pgsize in
        (k' : Kmem) × (kinit kernel_end k ≡ some k')
        × HasPages kernel_end k' (pages_from count first [])
        × (length (pages_from count first []) ≡ count)
  unfolding kinit freerange
  kinit-HasPages k e =
      let first = pgroundup kernel_end in
      let count = (phystop - first) / pgsize in
      let (k', r, v) =
        freerange_from-HasPages (suc phystop) first phystop count k [] (omega arith) (omega arith)
          refl (omega arith) (omega arith) (omega arith)
          (record { chain = e; pages = tt; distinct = tt }) tt in
      (k', r, v, omega (arith, length-pages_from count first []))
