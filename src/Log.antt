-- ===== src/Log.antt =====
-- kernel/log.c: the write-ahead log. Block data is any type `D`. A disk holds the header block at
-- `log.start` as the `struct logheader` that its bytes are, and every other block by its number.
-- `cache b` is what `bread` of block `b` gives: a logged block is pinned, and any other buffer that
-- is dropped is read again from the disk. `history` collects each state of the disk that a crash
-- could leave behind, newest first; `refcnt` counts the references that pin a buffer.
pub mod Install
pub mod Crash
pub mod Commit
pub mod Ops
mod Tests
use group10os.Prelude.{ℕ, zero, suc, ◌+◌, ◌-◌, Bool, true, false, List, [], ◌∷◌, ltb, if◌then◌else◌}
use group10os.Prelude.Memory.{Mem, store}

-- LOGBLOCKS and MAXOPBLOCKS of kernel/param.h.
abbrev pub maxopblocks : ℕ
maxopblocks = 10

abbrev pub logblocks : ℕ
logblocks = 30

pub record LogHeader : Type 0 where
  pub n : ℕ
  pub block : Mem ℕ

pub record Disk (D : Type 0) : Type 0 where
  pub header : LogHeader
  pub blocks : ℕ → D

pub record Machine (D : Type 0) : Type 0 where
  pub disk : Disk D
  pub cache : ℕ → D
  pub refcnt : ℕ → ℕ
  pub history : List (Disk D)

-- The loop `for (i = 0; i < n; i++) to[i] = from[i]`, with `k` rounds left.
abbrev pub copy_blocks : ℕ → ℕ → Mem ℕ → Mem ℕ → Mem ℕ
copy_blocks zero i from to = to
copy_blocks (suc k) i from to = copy_blocks k (i + 1) from (store to i (from i))

module _ {D : Type 0} where
  abbrev pub log_disk : Disk D → Machine D → Machine D
  log_disk d m = record m { disk = d; history = d ∷ m.history }

  -- bwrite: the buffer of block `b` goes to the disk.
  abbrev pub bwrite : ℕ → Machine D → Machine D
  bwrite b m = log_disk (record m.disk { blocks = store m.disk.blocks b (m.cache b) }) m

  -- `memmove(b->data, v, BSIZE)`
  abbrev pub fill_buf : ℕ → D → Machine D → Machine D
  fill_buf b v m = record m { cache = store m.cache b v }

  abbrev pub bunpin : ℕ → Machine D → Machine D
  bunpin b m = record m { refcnt = store m.refcnt b (m.refcnt b - 1) }

  abbrev pub bpin : ℕ → Machine D → Machine D
  bpin b m = record m { refcnt = store m.refcnt b (m.refcnt b + 1) }

  -- One round of install_trans: log block `tail` goes to its home.
  abbrev pub install_one : Bool → ℕ → LogHeader → ℕ → Machine D → Machine D
  install_one recovering start lh tail m =
      let dst = lh.block tail in
      let m' = bwrite dst (fill_buf dst (m.cache (start + tail + 1)) m) in
      if recovering then m' else bunpin dst m'

  pub install_from : ℕ → Bool → ℕ → LogHeader → ℕ → Machine D → Machine D
  install_from zero recovering start lh tail m = m
  install_from (suc k) recovering start lh tail m =
      install_from k recovering start lh (tail + 1) (install_one recovering start lh tail m)

  pub install_trans : Bool → ℕ → LogHeader → Machine D → Machine D
  unfolding install_from
  install_trans recovering start lh m = install_from lh.n recovering start lh 0 m

  -- `lh` is the header in memory before the call.
  pub read_head : LogHeader → Machine D → LogHeader
  read_head lh m =
      let hd = m.disk.header in record { n = hd.n; block = copy_blocks hd.n 0 hd.block lh.block }

  -- The header block keeps its entries behind the first `n`.
  pub write_head : LogHeader → Machine D → Machine D
  write_head lh m =
      let hb = m.disk.header in
      log_disk
        (record m.disk {
          header = record { n = lh.n; block = copy_blocks lh.n 0 lh.block hb.block };
        })
        m

  pub recover_from_log : ℕ → LogHeader → Machine D → LogHeader × Machine D
  unfolding read_head install_trans write_head
  recover_from_log start lh m =
      let lh' = read_head lh m in
      let m' = install_trans true start lh' m in
      let cleared = record lh' { n = 0 } in (cleared, write_head cleared m')

  -- One round of write_log: the buffer of a logged block goes to log block `tail`.
  abbrev pub log_one : ℕ → LogHeader → ℕ → Machine D → Machine D
  log_one start lh tail m =
      let to = start + tail + 1 in bwrite to (fill_buf to (m.cache (lh.block tail)) m)

  pub write_log_from : ℕ → ℕ → LogHeader → ℕ → Machine D → Machine D
  write_log_from zero start lh tail m = m
  write_log_from (suc k) start lh tail m =
      write_log_from k start lh (tail + 1) (log_one start lh tail m)

  pub write_log : ℕ → LogHeader → Machine D → Machine D
  unfolding write_log_from
  write_log start lh m = write_log_from lh.n start lh 0 m

  pub commit : ℕ → LogHeader → Machine D → LogHeader × Machine D
  unfolding write_log write_head install_trans
  commit start lh m =
      if ltb 0 lh.n
      then (let m' = install_trans false start lh (write_head lh (write_log start lh m)) in
          let cleared = record lh { n = 0 } in (cleared, write_head cleared m'))
      else (lh, m)
