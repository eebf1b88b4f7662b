-- ===== src/File.antt =====
-- kernel/file.c, and the calls on descriptors of kernel/sysfile.c. A `struct file *` is 0 for null and
-- `i + 1` for entry `i` of the table; a pipe is a number. The inode layer is Fs/Names, with the table
-- of inodes and the disk, and pipes are those of Pipe. begin_op and end_op around a change are left
-- out: they bound what the log has to hold, and Log/Ops has them.
pub mod Descriptors
pub mod Counts
pub mod Calls
mod Tests
use group10os.Prelude.{
  ℕ, zero, suc, ◌+◌, ◌-◌, ◌*◌, Bool, true, false, not, ◌&&◌, ◌||◌, List, [], ◌∷◌, ◌++◌, Option,
  none, some, ltb, leb, ◌==◌, if◌then◌else◌, get_elem?, modify, set,
}
use group10os.Prelude.Memory.{Mem, store}
use group10os.Prelude.Int.{ℤ, pos, negsuc, is_positive}
use group10os.Pipe.{Pipe, pipeclose}
use group10os.Pipe.Loops.{WriteRound, ReadRound, pipewrite, piperead}
use group10os.Fs.{Superblock, Disk, bsize}
use group10os.Fs.Table.{Inode}
use group10os.Fs.Content.{and_then, readi, writei}
use group10os.Fs.Names.{State, iput_at, ilock_at, put_inode}

pub data FileType : Type 0 where
  fd_none fd_pipe fd_inode fd_device : FileType

pub record File : Type 0 where
  pub type : FileType
  pub ref : ℕ
  pub readable : Bool
  pub writable : Bool
  pub pipe : ℕ
  pub ip : ℕ
  pub off : ℕ
  pub major : ℕ

-- The files, the pipes with the pages that were given to kfree, and the inodes.
pub record Kernel : Type 0 where
  pub files : List File
  pub pipes : Mem Pipe
  pub freed : List ℕ
  pub fs : State

abbrev pub file_at : List File → ℕ → Option File
file_at t zero = none
file_at t (suc i) = get_elem? t i

abbrev pub change : List File → ℕ → (File → File) → List File
change t zero f = t
change t (suc i) f = modify t i f

-- The loop of filealloc over the entries from pointer `p` on.
unfoldable pub first_free : List File → ℕ → Option ℕ
first_free [] p = none
first_free (f ∷ fs) p = if f.ref == 0 then some p else first_free fs (p + 1)

abbrev pub with_ref : ℕ → File → File
with_ref n f = record f { ref = n }

-- A null pointer where every entry is in use.
unfoldable pub filealloc : List File → ℕ × List File
unfolding first_free
filealloc t = elim (first_free t 1) as (λ _. ℕ × List File) [
  | none ↦ (0, t)
  | some p ↦ (p, change t p (with_ref 1))
]

-- `none` is a panic.
unfoldable pub filedup : ℕ → List File → Option (List File)
filedup p t =
    and_then (file_at t p)
      (λ (f : File). if ltb f.ref 1 then none else some (change t p (with_ref (f.ref + 1))))

abbrev pub emptied : File → File
emptied f = record f { ref = 0; type = fd_none }

abbrev close_pipe : ℕ → Bool → Kernel → Kernel
close_pipe n writable k =
    let (gone, q) = pipeclose (k.pipes n) writable in
    record k { pipes = store k.pipes n q; freed = if gone then n ∷ k.freed else k.freed }

module _ (sb : Superblock) where
  -- What fileclose does with the last reference, after it has emptied the entry.
  abbrev pub release : FileType → File → Kernel → Option Kernel
  release fd_none f k = some k
  release fd_pipe f k = some (close_pipe f.pipe f.writable k)
  release fd_inode f k = and_then (iput_at sb f.ip k.fs) (λ (s : State). some (record k { fs = s }))
  release fd_device f k =
      and_then (iput_at sb f.ip k.fs) (λ (s : State). some (record k { fs = s }))

  unfoldable pub fileclose : ℕ → Kernel → Option Kernel
  fileclose p k = and_then (file_at k.files p) (λ (f : File).
      if ltb f.ref 1
      then none
      else if ltb 0 (f.ref - 1)
      then some (record k { files = change k.files p (with_ref (f.ref - 1)) })
      else release f.type f (record k { files = change k.files p emptied }))

  -- What a device gives for a read, or takes for a write, of so many bytes: devsw of the major number,
  -- or `none` where it has no such function.
  abbrev pub Device : Type 0
  Device = ℕ → Option (ℕ → ℤ × List ℕ)

  -- The result, the bytes that were read, and the state.
  abbrev pub ReadResult : Type 0
  ReadResult = Option (ℤ × List ℕ × Kernel)

  abbrev amount : ℤ → ℕ
  amount (pos n) = n
  amount (negsuc n) = 0

  read_pipe : List ReadRound → File → ℕ → Kernel → ReadResult
  read_pipe rs f n k =
      and_then (piperead rs (k.pipes f.pipe) n)
        (λ (r : ℤ × List ℕ × Pipe). some (r.0, r.1, record k { pipes = store k.pipes f.pipe r.2 }))

  read_inode : (ℕ → Bool) → ℕ → File → ℕ → Kernel → ReadResult
  read_inode copied p f n k = and_then (ilock_at sb f.ip k.fs) (λ (l : Inode × State).
      and_then (readi sb copied l.0 f.off n l.1.disk) (λ (r : ℤ × Inode × Disk × List ℕ). some (
        r.0,
        r.3,
        record k {
          files = change k.files p (λ g. record g { off = g.off + amount r.0 });
          fs = put_inode sb f.ip r.1 r.2 l.1;
        },
      )))

  -- fileread of the file at pointer `p`: `rs` is what the process meets in a pipe, and `copied` says
  -- which bytes reach the user. `none` is a panic, or waiting.
  pub fileread : List ReadRound → (ℕ → Bool) → Device → ℕ → ℕ → Kernel → ReadResult
  unfolding read_pipe read_inode
  fileread rs copied devsw p n k = and_then (file_at k.files p) (λ (f : File).
      let dispatch = elim f.type as (λ _. ReadResult) [
        | fd_none ↦ none
        | fd_pipe ↦ read_pipe rs f n k
        | fd_inode ↦ read_inode copied p f n k
        | fd_device ↦ elim (devsw f.major) as (λ _. ReadResult) [
          | none ↦ some (negsuc 0, [], k)
          | some read ↦ some ((read n).0, (read n).1, k)
        ]
      ] in
      if not f.readable then some (negsuc 0, [], k) else dispatch)

  -- ((MAXOPBLOCKS - 1 - 1 - 2) / 2) * BSIZE
  abbrev pub max_write : ℕ
  max_write = 3 * bsize

  abbrev same_amount : ℤ → ℕ → Bool
  same_amount (pos m) n = m == n
  same_amount (negsuc m) n = false

  -- One round of the loop of filewrite: the result of writei, and the state.
  pub write_some : (ℕ → Bool) → (ℕ → ℕ) → ℕ → File → ℕ → Kernel → Option (ℤ × Kernel)
  write_some copied src p f n1 k = and_then (ilock_at sb f.ip k.fs) (λ (l : Inode × State).
      and_then (writei sb copied src l.0 f.off n1 l.1.disk) (λ (w : ℤ × Inode × Disk). some (
        w.0,
        record k {
          files = change k.files p (λ g. record g { off = g.off + amount w.0 });
          fs = put_inode sb f.ip w.1 w.2 l.1;
        },
      )))

  -- The loop of filewrite, with `left` bytes to write; whether all of them are written.
  write_from : ℕ → (ℕ → Bool) → (ℕ → ℕ) → ℕ → ℕ → Kernel → Option (Bool × Kernel)
  write_from zero copied src p left k = none
  write_from (suc fuel) copied src p left k =
      let n1 = if ltb max_write left then max_write else left in
      let next = λ (f : File). and_then (write_some copied src p f n1 k) (λ (r : ℤ × Kernel).
        (let rest = write_from fuel copied src p (left - n1) r.1 in
          if same_amount r.0 n1 then rest else some (false, r.1))) in
      if left == 0 then some (true, k) else and_then (file_at k.files p) next

  abbrev pub WriteResult : Type 0
  WriteResult = Option (ℤ × Kernel)

  write_pipe : List WriteRound → File → ℕ → Kernel → WriteResult
  write_pipe rs f n k =
      and_then (pipewrite rs (k.pipes f.pipe) n)
        (λ (r : ℤ × Pipe). some (r.0, record k { pipes = store k.pipes f.pipe r.1 }))

  -- `src` gives the bytes to write by their offset in the file. A round writes a byte at least, so
  -- `n + 1` rounds are enough.
  write_inode : (ℕ → Bool) → (ℕ → ℕ) → ℕ → ℕ → Kernel → WriteResult
  unfolding write_from
  write_inode copied src p n k =
      and_then (write_from (suc n) copied src p n k)
        (λ (r : Bool × Kernel). some ((if r.0 then pos n else negsuc 0), r.1))

  pub filewrite : List WriteRound → (ℕ → Bool) → (ℕ → ℕ) → Device → ℕ → ℕ → Kernel → WriteResult
  unfolding write_pipe write_inode
  filewrite rs copied src devsw p n k = and_then (file_at k.files p) (λ (f : File).
      let dispatch = elim f.type as (λ _. WriteResult) [
        | fd_none ↦ none
        | fd_pipe ↦ write_pipe rs f n k
        | fd_inode ↦ write_inode copied src p n k
        | fd_device ↦ elim (devsw f.major) as (λ _. WriteResult) [
          | none ↦ some (negsuc 0, k)
          | some write ↦ some ((write n).0, k)
        ]
      ] in
      if not f.writable then some (negsuc 0, k) else dispatch)
