-- ===== src/Kalloc/Tests.antt =====
-- kernel/kalloc.c on a small machine: the kernel ends three pages below the top of memory.
use group10os.Prelude.{ℕ, ◌≡◌, refl, [], ◌∷◌, some, arith, length}
use group10os.Kalloc.{Kmem, freed, kinit}
use group10os.Kalloc.FreeList.{HasPages}
use group10os.Kalloc.Range.{kinit-HasPages}

abbrev kernel_end : ℕ
kernel_end = 0x87FFD000

abbrev cold : Kmem
cold = record { freelist = 0; link = λ _. 0 }

cold-HasPages : HasPages kernel_end cold []
cold-HasPages = record { chain = refl; pages = tt; distinct = tt }

-- One page is free.
abbrev warm : Kmem
warm = freed cold 0x87FFE000

warm-HasPages : HasPages kernel_end warm (0x87FFE000 ∷ [])
warm-HasPages = record {
  chain = (refl, omega arith, refl);
  pages = (omega arith, tt);
  distinct = (tt, tt);
}

kinit-HasPages_example :
    (k' : Kmem) × (kinit kernel_end cold ≡ some k')
    × HasPages kernel_end k' (0x87FFF000 ∷ 0x87FFE000 ∷ 0x87FFD000 ∷ [])
    × (length {A = ℕ} (0x87FFF000 ∷ 0x87FFE000 ∷ 0x87FFD000 ∷ []) ≡ 3)
kinit-HasPages_example = kinit-HasPages kernel_end (omega arith) cold refl
