-- ===== src/Fs/Blocks.antt =====
-- bzero, balloc and bfree of kernel/fs.c: the free map of the disk's blocks.
pub mod Map
pub mod Alloc
use group10os.Prelude.{
  ℕ, zero, suc, ◌+◌, ◌%◌, ◌/◌, not, List, ◌∷◌, Option, none, some, ltb, ◌==◌, if◌then◌else◌,
}
use group10os.Prelude.Memory.{Mem, store}
use group10os.Fs.{Disk, Superblock, bpb, bblock, put_block}
use group10os.Fs.Bits.{bit_of, set_bit_of, clear_bit_of}

-- memset of the whole block.
pub bzero : ℕ → Disk → Disk
bzero b d = put_block b (λ _. 0) d

-- The inner loop of balloc, with `k` rounds left: the index of the first clear bit.
unfoldable pub find_clear : ℕ → ℕ → ℕ → ℕ → Mem ℕ → Option ℕ
find_clear zero bi b size bytes = none
find_clear (suc k) bi b size bytes =
    let rest = find_clear k (bi + 1) b size bytes in
    if ltb (b + bi) size then (if bit_of bytes bi == 0 then some bi else rest) else none

module _ (sb : Superblock) where
  -- "Mark block in use", and the block is zeroed.
  abbrev pub mark : ℕ → ℕ → Disk → Disk
  unfolding bzero
  mark b bi d =
      let map = bblock b sb in bzero (b + bi) (put_block map (set_bit_of (d.block map) bi) d)

  -- The outer loop from block `b` on; `none` means that the fuel ran out.
  balloc_from : ℕ → ℕ → Disk → Option (ℕ × Disk)
  balloc_from zero b d = none
  balloc_from (suc fuel) b d =
      let rest = balloc_from fuel (b + bpb) d in
      if ltb b sb.size
      then elim (find_clear bpb 0 b sb.size (d.block (bblock b sb))) as (λ _. Option (ℕ × Disk)) [
        | some bi ↦ some (b + bi, mark b bi d)
        | none ↦ rest
      ]
      else some (0, d)

  -- Each round goes BPB blocks on, so more rounds than blocks are enough.
  unfoldable pub balloc : Disk → Option (ℕ × Disk)
  unfolding balloc_from
  balloc d = balloc_from (suc sb.size) 0 d

  -- `none` is a panic.
  unfoldable pub bfree : ℕ → Disk → Option Disk
  bfree b d =
      let map = bblock b sb in
      let bi = b % bpb in
      if bit_of (d.block map) bi == 0
      then none
      else some (put_block map (clear_bit_of (d.block map) bi) d)
