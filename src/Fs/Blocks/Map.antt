-- ===== src/Fs/Blocks/Map.antt =====
-- The free map of kernel/fs.c as a set of blocks.
use group10os.Prelude.{ℕ, ◌%◌, ◌≡◌, ◌≢◌, arith, ◌==◌, if◌then◌else◌}
use group10os.Prelude.Memory.{Mem}
use group10os.Fs.{Disk, Superblock, bpb, bblock, put_block}
use group10os.Fs.Bits.{bit_of, set_bit_of, clear_bit_of, bit_of-set_bit_of, bit_of-clear_bit_of}

module _ (sb : Superblock) where
  -- 1 for a block in use, and 0 for a free one.
  abbrev pub used : Disk → ℕ → ℕ
  used d b = bit_of (d.block (bblock b sb)) (b % bpb)

  -- A new block of the map, with one bit changed.
  pub used-put_set :
      (d : Disk) (b j : ℕ)
      → used (put_block (bblock b sb) (set_bit_of (d.block (bblock b sb)) (b % bpb)) d) j
        ≡ (if b == j then 1 else used d j)
  used-put_set d b j = ground (arith, bit_of-set_bit_of (d.block (bblock b sb)) (b % bpb) (j % bpb))

  pub used-put_clear :
      (d : Disk) (b j : ℕ)
      → used (put_block (bblock b sb) (clear_bit_of (d.block (bblock b sb)) (b % bpb)) d) j
        ≡ (if b == j then 0 else used d j)
  used-put_clear d b j =
      ground (arith, bit_of-clear_bit_of (d.block (bblock b sb)) (b % bpb) (j % bpb))

  -- A write to a block outside the map leaves the map as it is.
  pub used-put_ne :
      (d : Disk) (b j : ℕ) (bytes : Mem ℕ)
      → bblock j sb ≢ b
      → used (put_block b bytes d) j ≡ used d j
  used-put_ne d b j bytes n = ground arith
