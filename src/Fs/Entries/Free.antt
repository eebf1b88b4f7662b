-- ===== src/Fs/Entries/Free.antt =====
-- ialloc of kernel/fs.c takes the first free inode.
use group10os.Prelude.{
  ℕ, zero, suc, ◌+◌, ◌-◌, ◌<◌, ◌≤◌, ◌≡◌, refl, sym, ap, ◌∙◌, ◌≢◌, inl, inr, Option, none, some,
  arith, ◌==◌, Bool-cases, Option-cases, ==_iff,
}
use group10os.Prelude.Memory.{store_self, store_ne}
use group10os.Fs.{Superblock, Disk}
use group10os.Fs.Table.{iget}
use group10os.Fs.Names.{State}
use group10os.Fs.Entries.{free_inode, fresh_dinode, ialloc}

abbrev pub InUse : ℕ → ℕ → Disk → Type 0
InUse a b d = (x : ℕ) → a ≤ x → x < b → (d.dinode x).type ≢ 0

-- The first free inode among `k` from `a` on, or none of them is free.
First : ℕ → ℕ → Disk → Option ℕ → Type 0
First k a d none = InUse a (a + k) d
First k a d (some inum) = (a ≤ inum) × (inum < a + k) × ((d.dinode inum).type ≡ 0) × InUse a inum d

InUse-from : (a b : ℕ) (d : Disk) → (d.dinode a).type ≢ 0 → InUse (a + 1) b d → InUse a b d
InUse-from a b d n f x l h = elim (Bool-cases (a == x)) [
  | inl e ↦ λ z. n (ap (λ y. (d.dinode y).type) ((==_iff a x).0 e) ∙ z)
  | inr e ↦ f x (ground (arith, e, l)) h
]

First-cons :
    (k a : ℕ) (d : Disk) (r : Option ℕ)
    → (d.dinode a).type ≢ 0
    → First k (a + 1) d r
    → First (suc k) a d r
unfolding First
First-cons k a d none n f =
    λ x l h. InUse-from a (a + suc k) d n (λ y m o. f y m (omega (arith, o))) x l h
First-cons k a d (some inum) n (l, h, z, f) =
    (omega (arith, l), omega (arith, h), z, InUse-from a inum d n f)

free_inode-First : (sb : Superblock) (k a : ℕ) (d : Disk) → First k a d (free_inode sb k a d)
unfolding First free_inode
free_inode-First sb zero a d = λ x l h. absurd (omega (arith, l, h))
free_inode-First sb (suc k) a d = elim (Bool-cases ((d.dinode a).type == 0)) [
  | inl e ↦ rw e (
    omega arith,
    omega arith,
    (==_iff (d.dinode a).type 0).0 e,
    (λ x l h. absurd (omega (arith, l, h))),
  )
  | inr e ↦ rw e (
      First-cons k a d (free_inode sb k (a + 1) d) (λ z. ground (arith, e, z))
        (free_inode-First sb k (a + 1) d))
]

-- What ialloc leaves: no inode is free; or the first free one is allocated, with its type, no link and
-- no contents, and iget has given its entry of the table; or iget panics for it.
abbrev pub Allocated : Superblock → ℕ → ℕ → State → Option (Option ℕ × State) → Type 0
Allocated sb dev type s (some (none, s')) = (s' ≡ s) × InUse 1 sb.ninodes s.disk
Allocated sb dev type s (some (some i, s')) =
    (inum : ℕ) × (1 ≤ inum)
    × (inum < sb.ninodes)
    × ((s.disk.dinode inum).type ≡ 0)
    × InUse 1 inum s.disk
    × (iget dev inum s.table ≡ some (i, s'.table))
    × (s'.disk.dinode inum ≡ fresh_dinode type)
    × ((x : ℕ) → x ≢ inum → s'.disk.dinode x ≡ s.disk.dinode x)
Allocated sb dev type s none =
    (inum : ℕ) × (inum < sb.ninodes)
    × ((s.disk.dinode inum).type ≡ 0)
    × (iget dev inum s.table ≡ none)

ialloc-from :
    (sb : Superblock) (dev type : ℕ) (s : State) (r : Option ℕ)
    → free_inode sb (sb.ninodes - 1) 1 s.disk ≡ r
    → First (sb.ninodes - 1) 1 s.disk r
    → Allocated sb dev type s (ialloc sb dev type s)
unfolding ialloc First
ialloc-from sb dev type s none e f = rw (ialloc, e) (refl, (λ x l h. f x l (omega (arith, h))))
ialloc-from sb dev type s (some inum) e (l, h, z, f) =
    let low : inum < sb.ninodes = omega (arith, l, h) in
    elim (Option-cases (iget dev inum s.table)) [
      | inl g ↦ rw (ialloc, e, g) (inum, low, z, g)
      | inr ((i, t), g) ↦
          rw (ialloc, e, g)
            (
              inum,
              l,
              low,
              z,
              f,
              g,
              store_self s.disk.dinode inum (fresh_dinode type),
              (λ x n. store_ne s.disk.dinode inum x (fresh_dinode type) (λ q. n (sym q))),
            )
    ]

-- ialloc takes the first inode that is free on the disk, and changes no other; it returns null only
-- where all are in use, and panics only where iget finds no entry for the inode.
pub ialloc-Allocated :
    (sb : Superblock) (dev type : ℕ) (s : State) → Allocated sb dev type s (ialloc sb dev type s)
ialloc-Allocated sb dev type s =
    ialloc-from sb dev type s (free_inode sb (sb.ninodes - 1) 1 s.disk) refl
      (free_inode-First sb (sb.ninodes - 1) 1 s.disk)
