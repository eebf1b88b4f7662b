-- ===== src/File/Calls.antt =====
-- The calls of kernel/sysfile.c that make descriptors, sys_open and sys_pipe, with pipealloc of
-- kernel/pipe.c, and sys_read, sys_write and sys_fstat, with filestat of kernel/file.c and stati of
-- kernel/fs.c.
pub mod Refs
pub mod Alloc
pub mod Pipes
use group10os.Prelude.{
  ℕ, zero, suc, ◌+◌, ◌/◌, ◌%◌, Bool, true, false, not, ◌&&◌, ◌||◌, List, [], ◌∷◌, Option, none,
  some, ltb, ◌==◌, if◌then◌else◌, set,
}
use group10os.Prelude.Memory.{Mem, store}
use group10os.Prelude.Int.{ℤ, pos, negsuc}
use group10os.Pipe.{Pipe, fresh}
use group10os.Pipe.Loops.{WriteRound, ReadRound}
use group10os.Fs.{Superblock, Disk, t_dir}
use group10os.Fs.Table.{Inode}
use group10os.Fs.Content.{and_then, itrunc}
use group10os.Fs.Names.{State, at_index, Named, put_inode, iput_at, ilock_at, namei}
use group10os.Fs.Entries.{t_file, t_device}
use group10os.Fs.Entries.Create.{create}
use group10os.File.{
  File, fd_none, fd_pipe, fd_inode, fd_device, Kernel, file_at, change, filealloc, fileclose,
  fileread, filewrite, Device, ReadResult, WriteResult,
}
use group10os.File.Descriptors.{argfd, fdalloc, Call, fails}

-- The end of a pipe that a file is made to.
abbrev pub as_end : Bool → ℕ → File → File
as_end writable n f = record f {
  type = fd_pipe;
  readable = not writable;
  writable = writable;
  pipe = n;
}

-- The bits of `omode` that sys_open tests.
abbrev pub has_bit : ℕ → ℕ → Bool
has_bit bit omode = omode / bit % 2 == 1

module _ (sb : Superblock) where
  -- Two fileclose in a row, at the end of a call that fails.
  unfoldable pub close_both : ℕ → ℕ → Kernel → Option Kernel
  close_both p q k = and_then (fileclose sb p k) (fileclose sb q)

  -- pipealloc behind its calls of filealloc; `page` is what kalloc gives, with its contents.
  unfoldable pub pipe_on : Option (ℕ × Mem ℕ) → ℕ → ℕ → Kernel → Option (Option (ℕ × ℕ) × Kernel)
  pipe_on none p q k = and_then (close_both p q k) (λ (k' : Kernel). some (none, k'))
  pipe_on (some (n, buf)) p q k = some (
    some (p, q),
    record k {
      pipes = store k.pipes n (fresh buf);
      files = change (change k.files p (as_end false n)) q (as_end true n);
    },
  )

  -- The pointers to the two files, or -1 as `none`; `none` outside is a panic.
  unfoldable pub pipealloc : Option (ℕ × Mem ℕ) → Kernel → Option (Option (ℕ × ℕ) × Kernel)
  pipealloc page k =
      let (p, t) = filealloc k.files in
      let (q, u) = filealloc t in
      if p == 0
      then some (none, k)
      else if q == 0
      then and_then (fileclose sb p (record k { files = t })) (λ (k' : Kernel). some (none, k'))
      else pipe_on page p q (record k { files = u })

  -- The end of sys_pipe where it fails behind pipealloc.
  abbrev pub pipe_fails : ℕ → ℕ → List ℕ → Kernel → Call
  pipe_fails p q ofile k = and_then (close_both p q k) (fails ofile)

  -- sys_pipe with its two descriptors; `copied` is whether both copyout succeed.
  abbrev pub pipe_copied : Bool → ℕ → ℕ → ℕ → ℕ → List ℕ → Kernel → Call
  pipe_copied copied p q fd0 fd1 ofile k =
      if copied then some (pos 0, ofile, k) else pipe_fails p q (set (set ofile fd0 0) fd1 0) k

  unfoldable pub pipe_second : Bool → ℕ → ℕ → ℕ → List ℕ → Kernel → Call
  pipe_second copied p q fd0 ofile k = elim (fdalloc q ofile) as (λ _. Call) [
    | none ↦ pipe_fails p q (set ofile fd0 0) k
    | some (fd1, ofile') ↦ pipe_copied copied p q fd0 fd1 ofile' k
  ]

  unfoldable pub pipe_first : Bool → ℕ → ℕ → List ℕ → Kernel → Call
  pipe_first copied p q ofile k = elim (fdalloc p ofile) as (λ _. Call) [
    | none ↦ pipe_fails p q ofile k
    | some (fd0, ofile') ↦ pipe_second copied p q fd0 ofile' k
  ]

  unfoldable pub sys_pipe : Option (ℕ × Mem ℕ) → Bool → List ℕ → Kernel → Call
  sys_pipe page copied ofile k = and_then (pipealloc page k) (λ (r : Option (ℕ × ℕ) × Kernel).
      elim r.0 as (λ _. Call) [
        | none ↦ fails ofile r.1
        | some (p, q) ↦ pipe_first copied p q ofile r.1
      ])

  -- Where sys_open fails with the inode at index `i` locked.
  abbrev pub open_fails : ℕ → List ℕ → Kernel → Call
  open_fails i ofile k =
      and_then (iput_at sb i k.fs) (λ (s : State). fails ofile (record k { fs = s }))

  abbrev pub as_opened : ℕ → ℕ → Inode → File → File
  as_opened i omode ip f =
      let g = record f {
        ip = i;
        readable = not (has_bit 1 omode);
        writable = has_bit 1 omode || has_bit 2 omode;
      } in
      if ip.type == t_device
      then record g { type = fd_device; major = ip.major }
      else record g { type = fd_inode; off = 0 }

  -- sys_open with its file and its descriptor.
  unfoldable pub open_with : ℕ → ℕ → ℕ → ℕ → Inode → List ℕ → Kernel → Call
  open_with p fd i omode ip ofile k =
      let k1 = record k { files = change k.files p (as_opened i omode ip) } in
      if has_bit 1024 omode && ip.type == t_file
      then and_then (itrunc sb ip k1.fs.disk) (λ (r : Inode × Disk).
        some (pos fd, ofile, record k1 { fs = put_inode sb i r.0 r.1 k1.fs }))
      else some (pos fd, ofile, k1)

  unfoldable pub open_fd : ℕ → ℕ → ℕ → Inode → List ℕ → Kernel → Call
  open_fd p i omode ip ofile k = elim (fdalloc p ofile) as (λ _. Call) [
    | none ↦ and_then (fileclose sb p k) (open_fails i ofile)
    | some (fd, ofile') ↦ open_with p fd i omode ip ofile' k
  ]

  -- sys_open with the locked inode at index `i`.
  unfoldable pub open_at : ℕ → ℕ → List ℕ → Kernel → Call
  open_at i omode ofile k = and_then (at_index k.fs i) (λ (ip : Inode).
      let (p, t) = filealloc k.files in
      if ip.type == t_device && not (ltb ip.major 10)
      then open_fails i ofile k
      else if p == 0
      then open_fails i ofile k
      else open_fd p i omode ip ofile (record k { files = t }))

  unfoldable pub open_named : ℕ → Named sb → List ℕ → Kernel → Call
  open_named omode none ofile k = fails ofile k
  open_named omode (some (i, _)) ofile k = and_then (ilock_at sb i k.fs) (λ (l : Inode × State).
      let k1 = record k { fs = l.1 } in
      if l.0.type == t_dir && not (omode == 0)
      then open_fails i ofile k1
      else open_at i omode ofile k1)

  unfoldable pub open_created : ℕ → Option ℕ → List ℕ → Kernel → Call
  open_created omode none ofile k = fails ofile k
  open_created omode (some i) ofile k = open_at i omode ofile k

  unfoldable pub sys_open : Option (List ℕ) → ℕ → ℕ → List ℕ → Kernel → Call
  sys_open none omode cwd ofile k = fails ofile k
  sys_open (some path) omode cwd ofile k =
      if has_bit 512 omode
      then and_then (create sb path t_file 0 0 cwd k.fs)
          (λ (r : Option ℕ × State). open_created omode r.0 ofile (record k { fs = r.1 }))
      else and_then (namei sb path cwd k.fs)
          (λ (r : Named sb × State). open_named omode r.0 ofile (record k { fs = r.1 }))

  unfoldable pub sys_read :
      List ReadRound → (ℕ → Bool) → Device sb → ℤ → ℕ → List ℕ → Kernel → ReadResult sb
  sys_read rs copied devsw fd n ofile k = elim (argfd fd ofile) as (λ _. ReadResult sb) [
    | none ↦ some (negsuc 0, [], k)
    | some (_, p) ↦ fileread sb rs copied devsw p n k
  ]

  unfoldable pub sys_write :
      List WriteRound → (ℕ → Bool) → (ℕ → ℕ) → Device sb → ℤ → ℕ → List ℕ → Kernel → WriteResult sb
  sys_write rs copied src devsw fd n ofile k = elim (argfd fd ofile) as (λ _. WriteResult sb) [
    | none ↦ some (negsuc 0, k)
    | some (_, p) ↦ filewrite sb rs copied src devsw p n k
  ]

pub record Stat : Type 0 where
  pub dev : ℕ
  pub ino : ℕ
  pub type : ℕ
  pub nlink : ℕ
  pub size : ℕ

abbrev pub stati : Inode → Stat
stati ip = record { dev = ip.dev; ino = ip.inum; type = ip.type; nlink = ip.nlink; size = ip.size }

-- What fills in the user's `struct stat`, with the result.
abbrev pub Stated : Type 0
Stated = Option (ℤ × Option Stat × Kernel)

abbrev pub stat_inode : Superblock → Bool → ℕ → Kernel → Stated
stat_inode sb copied i k = and_then (ilock_at sb i k.fs) (λ (l : Inode × State).
    let k1 = record k { fs = l.1 } in
    if copied then some (pos 0, some (stati l.0), k1) else some (negsuc 0, none, k1))

-- filestat; `copied` is whether copyout succeeds.
unfoldable pub filestat : Superblock → Bool → ℕ → Kernel → Stated
filestat sb copied p k = and_then (file_at k.files p) (λ (f : File). elim f.type as (λ _. Stated) [
  | fd_none ↦ some (negsuc 0, none, k)
  | fd_pipe ↦ some (negsuc 0, none, k)
  | fd_inode ↦ stat_inode sb copied f.ip k
  | fd_device ↦ stat_inode sb copied f.ip k
])

unfoldable pub sys_fstat : Superblock → Bool → ℤ → List ℕ → Kernel → Stated
sys_fstat sb copied fd ofile k = elim (argfd fd ofile) as (λ _. Stated) [
  | none ↦ some (negsuc 0, none, k)
  | some (_, p) ↦ filestat sb copied p k
]
