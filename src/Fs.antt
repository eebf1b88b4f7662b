-- ===== src/Fs.antt =====
-- kernel/fs.c and kernel/fs.h: the file system on one disk. A block is its bytes by offset; the inode
-- blocks are read as the `struct dinode`s that they hold, by inode number. `bread` gives the current
-- contents of a block and `brelse` does nothing to them; `written` collects the blocks that are given
-- to log_write, newest first. Sleep locks are left out: each function runs under those it takes.
pub mod Bits
pub mod Blocks
pub mod Table
pub mod Content
pub mod Names
pub mod Entries
mod Tests
use group10os.Prelude.{ℕ, ◌+◌, ◌*◌, ◌/◌, ◌%◌, List, [], ◌∷◌}
use group10os.Prelude.Memory.{Mem, store}

abbrev pub bsize : ℕ
bsize = 1024

-- Bitmap bits per block.
abbrev pub bpb : ℕ
bpb = 8192

abbrev pub ndirect : ℕ
ndirect = 12

abbrev pub nindirect : ℕ
nindirect = 256

-- MAXFILE, in blocks.
abbrev pub maxfile : ℕ
maxfile = 268

-- Inodes per block.
abbrev pub ipb : ℕ
ipb = 16

abbrev pub t_dir : ℕ
t_dir = 1

-- The fields that the functions here read.
pub record Superblock : Type 0 where
  pub size : ℕ
  pub ninodes : ℕ
  pub inodestart : ℕ
  pub bmapstart : ℕ

-- BBLOCK and IBLOCK.
abbrev pub bblock : ℕ → Superblock → ℕ
bblock b sb = b / bpb + sb.bmapstart

abbrev pub iblock : ℕ → Superblock → ℕ
iblock i sb = i / ipb + sb.inodestart

pub record Dinode : Type 0 where
  pub type : ℕ
  pub major : ℕ
  pub minor : ℕ
  pub nlink : ℕ
  pub size : ℕ
  pub addrs : Mem ℕ

pub record Disk : Type 0 where
  pub block : ℕ → Mem ℕ
  pub dinode : ℕ → Dinode
  pub written : List ℕ

abbrev pub log_write : ℕ → Disk → Disk
log_write b d = record d { written = b ∷ d.written }

-- A block is given new contents, and to log_write.
abbrev pub put_block : ℕ → Mem ℕ → Disk → Disk
put_block b bytes d = record d { block = store d.block b bytes; written = b ∷ d.written }

-- The `i`th `uint` of a block, little-endian.
abbrev pub uint_at : Mem ℕ → ℕ → ℕ
uint_at a i = a (4 * i) + 256 * (a (4 * i + 1) + 256 * (a (4 * i + 2) + 256 * a (4 * i + 3)))

abbrev pub put_uint : Mem ℕ → ℕ → ℕ → Mem ℕ
put_uint a i v =
    store
      (store (store (store a (4 * i) (v % 256)) (4 * i + 1) (v / 256 % 256)) (4 * i + 2)
        (v / 65536 % 256))
      (4 * i + 3) (v / 16777216 % 256)
