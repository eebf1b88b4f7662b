-- ===== src/Fs/Blocks/Alloc.antt =====
-- What balloc of kernel/fs.c finds.
use mathlib.Core.Path.{subst}
use group10os.Prelude.{
  ℕ, zero, suc, ◌+◌, ◌-◌, ◌%◌, ◌≤◌, ◌<◌, ◌≡◌, refl, ap, ◌∙◌, ◌≢◌, ◌⊎◌, inl, inr, Option, none, some,
  arith, ltb, ◌==◌, if◌then◌else◌, Bool-cases, Option-cases,
}
use group10os.Prelude.Memory.{Mem}
use group10os.Fs.{Disk, Superblock, bpb, bblock, put_block}
use group10os.Fs.Bits.{bit_of, set_bit_of}
use group10os.Fs.Blocks.{bzero, find_clear, mark, balloc_from, balloc, bfree}
use group10os.Fs.Blocks.Map.{used, used-put_set, used-put_clear, used-put_ne}

find_clear-some :
    (k bi b size : ℕ) (bytes : Mem ℕ) (r : ℕ)
    → find_clear k bi b size bytes ≡ some r
    → (bi ≤ r) × (r < bi + k) × (b + r < size) × (bit_of bytes r ≡ 0)
unfolding find_clear
find_clear-some zero bi b size bytes r e = cc
find_clear-some (suc k) bi b size bytes r e =
    ground (arith, find_clear-some k (bi + 1) b size bytes r)

find_clear-none :
    (k bi b size : ℕ) (bytes : Mem ℕ) (j : ℕ)
    → find_clear k bi b size bytes ≡ none
    → bi ≤ j
    → j < bi + k
    → b + j < size
    → bit_of bytes j ≢ 0
unfolding find_clear
find_clear-none zero bi b size bytes j e p q l = absurd (omega arith)
find_clear-none (suc k) bi b size bytes j e p q l =
    ground (arith, find_clear-none k (bi + 1) b size bytes j)

module _ (sb : Superblock) where
  -- The blocks of the map are in use themselves.
  abbrev pub MapUsed : Disk → Type 0
  MapUsed d = (j : ℕ) → j < sb.size → used sb d (bblock j sb) ≢ 0

  pub record Allocated (d : Disk) (b : ℕ) (d' : Disk) : Type 0 where
    pub in_range : b < sb.size
    pub was_free : used sb d b ≡ 0
    pub marked : (j : ℕ) → j < sb.size → used sb d' j ≡ (if b == j then 1 else used sb d j)
    pub zeroed : (a : ℕ) → d'.block b a ≡ 0
    pub others : (j : ℕ) → j ≢ b → j ≢ bblock b sb → d'.block j ≡ d.block j
    pub inodes : d'.dinode ≡ d.dinode

  -- A full disk, or a free block that is marked and zeroed.
  abbrev pub Balloc : Disk → ℕ × Disk → Type 0
  Balloc d (b, d') =
      ((b ≡ 0) × (d' ≡ d) × ((j : ℕ) → j < sb.size → used sb d j ≢ 0)) ⊎ Allocated d b d'

  abbrev map_marked : ℕ → Disk → Disk
  map_marked n d = put_block (bblock n sb) (set_bit_of (d.block (bblock n sb)) (n % bpb)) d

  map_marked-Allocated :
      (d : Disk) (n : ℕ)
      → MapUsed d
      → n < sb.size
      → used sb d n ≡ 0
      → Allocated d n (put_block n (λ _. 0) (map_marked n d))
  map_marked-Allocated d n mu r z = record {
    in_range = r;
    was_free = z;
    marked = λ j l.
        used-put_ne sb (map_marked n d) n j (λ _. 0) (λ e. mu j l (ap (used sb d) e ∙ z))
        ∙ used-put_set sb d n j;
    zeroed = λ a. ground arith;
    others = λ j p q. ground arith;
    inodes = refl;
  }

  mark-Allocated :
      (d : Disk) (b bi : ℕ)
      → MapUsed d
      → b % bpb ≡ 0
      → bi < bpb
      → b + bi < sb.size
      → bit_of (d.block (bblock b sb)) bi ≡ 0
      → Allocated d (b + bi) (mark sb b bi d)
  unfolding mark bzero
  mark-Allocated d b bi mu al lt r z =
      let e : bblock b sb ≡ bblock (b + bi) sb = omega arith in
      let f : bi ≡ (b + bi) % bpb = omega arith in
      let same : mark sb b bi d ≡ put_block (b + bi) (λ _. 0) (map_marked (b + bi) d) =
        λ i. put_block (b + bi) (λ _. 0) (put_block (e i) (set_bit_of (d.block (e i)) (f i)) d) in
      rw same (
        map_marked-Allocated d (b + bi) mu r (
          subst (λ m. bit_of (d.block m) ((b + bi) % bpb) ≡ 0) e
            (subst (λ k. bit_of (d.block (bblock b sb)) k ≡ 0) f z)))

  missed :
      (d : Disk) (b j : ℕ)
      → b % bpb ≡ 0
      → b ≤ j
      → j < b + bpb
      → j < sb.size
      → find_clear bpb 0 b sb.size (d.block (bblock b sb)) ≡ none
      → used sb d j ≢ 0
  missed d b j al p q l n =
      let e : bblock b sb ≡ bblock j sb = omega arith in
      let f : j - b ≡ j % bpb = omega arith in
      let h =
        find_clear-none bpb 0 b sb.size (d.block (bblock b sb)) (j - b) n (omega arith)
          (omega arith) (omega arith) in
      subst (λ m. bit_of (d.block m) (j % bpb) ≢ 0) e
        (subst (λ k. bit_of (d.block (bblock b sb)) k ≢ 0) f h)

  balloc_from-Balloc :
      (fuel b : ℕ) (d : Disk)
      → MapUsed d
      → b % bpb ≡ 0
      → 0 < fuel
      → sb.size < b + fuel
      → ((j : ℕ) → j < b → j < sb.size → used sb d j ≢ 0)
      → (r : ℕ × Disk) × (balloc_from sb fuel b d ≡ some r) × Balloc d r
  unfolding balloc_from
  balloc_from-Balloc zero b d mu al p f below = absurd (omega arith)
  balloc_from-Balloc (suc fuel) b d mu al p f below =
      let bytes = d.block (bblock b sb) in
      elim (Bool-cases (ltb b sb.size)) [
        | inl lt ↦ elim (Option-cases (find_clear bpb 0 b sb.size bytes)) [
          | inl n ↦
              let below' : (j : ℕ) → j < b + bpb → j < sb.size → used sb d j ≢ 0 = λ j lj lz.
                elim (Bool-cases (ltb j b)) [
                  | inl h ↦ below j (ground arith) lz
                  | inr h ↦ missed d b j al (ground arith) lj lz n
                ] in
              rw (lt, n)
                (balloc_from-Balloc fuel (b + bpb) d mu (omega arith) (ground arith) (omega arith)
                  below')
          | inr (bi, e) ↦
              let (p1, p2, p3, p4) = find_clear-some bpb 0 b sb.size bytes bi e in
              (
                (b + bi, mark sb b bi d),
                rw (lt, e) refl,
                inr (mark-Allocated d b bi mu al (omega arith) p3 p4),
              )
        ]
        | inr ge ↦ ((0, d), rw ge refl, inl (refl, refl, λ j l. below j (ground arith) l))
      ]

  -- Where the blocks of the map are marked, balloc ends: it finds a free block, marks that one only and
  -- zeroes it, or every block is in use and the disk stays as it is.
  pub balloc-Balloc : (d : Disk) → MapUsed d → (r : ℕ × Disk) × (balloc sb d ≡ some r) × Balloc d r
  unfolding balloc
  balloc-Balloc d mu =
      balloc_from-Balloc (suc sb.size) 0 d mu (omega arith) (omega arith) (omega arith)
        (λ j l. absurd (omega arith))

  -- What bfree leaves: a block in use becomes free, and no other changes.
  abbrev Freed : Disk → ℕ → Option Disk → Type 0
  Freed d b none = used sb d b ≡ 0
  Freed d b (some d') =
      (used sb d b ≢ 0)
      × ((j : ℕ) → used sb d' j ≡ (if b == j then 0 else used sb d j))
      × ((j : ℕ) → j ≢ bblock b sb → d'.block j ≡ d.block j)
      × (d'.dinode ≡ d.dinode)

  -- bfree panics exactly for a block that is free already; otherwise it frees that block and no other,
  -- and changes only the block of the map that holds its bit.
  bfree-Freed : (b : ℕ) (d : Disk) → Freed d b (bfree sb b d)
  unfolding bfree
  bfree-Freed b d = elim (Bool-cases (used sb d b == 0)) [
    | inl e ↦ rw e (ground arith)
    | inr e ↦ rw e ((λ z. ground arith), used-put_clear sb d b, (λ j n. ground arith), refl)
  ]
