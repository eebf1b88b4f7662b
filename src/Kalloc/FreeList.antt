-- ===== src/Kalloc/FreeList.antt =====
-- The free list of kernel/kalloc.c as the list of its pages.
use mathlib.Core.Path.{subst}
use group10os.Prelude.{
  ℕ, ◌%◌, ◌≤◌, ◌<◌, ◌≡◌, refl, sym, ◌≢◌, ◌↔◌, List, [], ◌∷◌, none, some, arith, All, Fresh,
  Distinct,
}
use group10os.Prelude.Memory.{Mem, store, store_self}
use group10os.Kalloc.{Kmem, freed, junk_free, junk_alloc, taken, pgsize, phystop, kalloc, kfree}

-- The pointers from `h` on run through the pages in order, and end in null.
abbrev pub Chain : Mem ℕ → ℕ → List ℕ → Type 0
Chain link h [] = h ≡ 0
Chain link h (x ∷ xs) = (h ≡ x) × (x ≢ 0) × Chain link (link x) xs

-- A write at a page outside the chain leaves it as it is.
Chain-store :
    (link : Mem ℕ) (a v h : ℕ) (xs : List ℕ)
    → Fresh a xs
    → Chain link h xs
    → Chain (store link a v) h xs
Chain-store link a v h [] f c = c
Chain-store link a v h (x ∷ xs) f c =
    (c.0, c.1, ground (arith, Chain-store link a v (link x) xs f.1 c.2))

module _ (kernel_end : ℕ) where
  -- A page that the allocator may manage.
  abbrev pub IsPage : ℕ → Type 0
  IsPage pa = (pa % pgsize ≡ 0) × (kernel_end ≤ pa) × (pa < phystop)

  -- The allocator's free pages are those of the list, each once.
  pub record HasPages (k : Kmem) (xs : List ℕ) : Type 0 where
    pub chain : Chain k.link k.freelist xs
    pub pages : All IsPage xs
    pub distinct : Distinct xs

  -- Freeing a page of the managed range that is not yet free puts it in front of the free pages, where
  -- the kernel does not end at address 0.
  pub kfree-HasPages :
      {k : Kmem} {xs : List ℕ} (pa : ℕ)
      → 0 < kernel_end
      → HasPages k xs
      → IsPage pa
      → Fresh pa xs
      → (kfree kernel_end k pa ≡ some (freed k pa)) × HasPages (freed k pa) (pa ∷ xs)
  unfolding kfree
  kfree-HasPages {k} {xs} pa pe v p f = (
    ground arith,
    record {
      chain = (
        refl,
        omega arith,
        rw (store_self (store k.link pa junk_free) pa k.freelist) (
            Chain-store (store k.link pa junk_free) pa k.freelist k.freelist xs f
              (Chain-store k.link pa junk_free k.freelist xs f v.chain)),
      );
      pages = (p, v.pages);
      distinct = (f, v.distinct);
    },
  )

  -- kfree panics exactly for an address that is no page of the managed range.
  kfree-none_iff : (k : Kmem) (pa : ℕ) → (kfree kernel_end k pa ≡ none) ↔ (¬ IsPage pa)
  unfolding kfree
  kfree-none_iff k pa = (λ e p. ground arith, λ h. grind arith)

  -- What a caller gets from free pages `xs`: null and an unchanged allocator when there are none,
  -- and otherwise the first of them, while the others stay free.
  abbrev pub Took : Kmem → List ℕ → ℕ → Kmem → Type 0
  Took k [] r k' = (r ≡ 0) × (k' ≡ k)
  Took k (x ∷ xs) r k' = (r ≡ x) × IsPage x × Fresh x xs × HasPages k' xs

  -- kalloc takes the first of the free pages, and fails exactly when there is none.
  pub kalloc-Took : (k : Kmem) (xs : List ℕ) → HasPages k xs → Took k xs (kalloc k).0 (kalloc k).1
  unfolding kalloc
  kalloc-Took k [] v = ground arith
  kalloc-Took k (x ∷ xs) v =
      let e : kalloc k ≡ (k.freelist, taken k) = ground arith in
      rw e (
        v.chain.0,
        v.pages.0,
        v.distinct.0,
        record {
          chain =
              subst (λ y. Chain (store k.link y junk_alloc) (k.link y) xs) (sym v.chain.0)
                (Chain-store k.link x junk_alloc (k.link x) xs v.distinct.0 v.chain.2);
          pages = v.pages.1;
          distinct = v.distinct.1;
        },
      )
