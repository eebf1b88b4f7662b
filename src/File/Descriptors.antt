-- ===== src/File/Descriptors.antt =====
-- The descriptors of a process in kernel/sysfile.c: argfd, fdalloc, sys_dup and sys_close. `ofile` is
-- the list of file pointers of the process, NOFILE of them; a descriptor is an `int`.
use group10os.Prelude.{ℕ, ◌+◌, List, [], ◌∷◌, Option, none, some, ◌==◌, if◌then◌else◌, get_or, set}
use group10os.Prelude.Int.{ℤ, pos, negsuc}
use group10os.Fs.{Superblock}
use group10os.File.{Kernel, filedup, fileclose}

-- The descriptor and the file pointer; a descriptor behind the list has no file.
abbrev pub argfd : ℤ → List ℕ → Option (ℕ × ℕ)
argfd (negsuc n) ofile = none
argfd (pos fd) ofile = if get_or ofile fd 0 == 0 then none else some (fd, get_or ofile fd 0)

-- The loop of fdalloc from descriptor `fd` on.
unfoldable pub free_fd : List ℕ → ℕ → Option ℕ
free_fd [] fd = none
free_fd (f ∷ fs) fd = if f == 0 then some fd else free_fd fs (fd + 1)

unfoldable pub fdalloc : ℕ → List ℕ → Option (ℕ × List ℕ)
unfolding free_fd
fdalloc p ofile = elim (free_fd ofile 0) as (λ _. Option (ℕ × List ℕ)) [
  | none ↦ none
  | some fd ↦ some (fd, set ofile fd p)
]

-- The result, the descriptors and the kernel; `none` is a panic.
abbrev pub Call : Type 0
Call = Option (ℤ × List ℕ × Kernel)

abbrev pub fails : List ℕ → Kernel → Call
fails ofile k = some (negsuc 0, ofile, k)

unfoldable pub sys_dup : ℤ → List ℕ → Kernel → Call
unfolding fdalloc
sys_dup n ofile k = elim (argfd n ofile) as (λ _. Call) [
  | none ↦ fails ofile k
  | some (old, p) ↦ elim (fdalloc p ofile) as (λ _. Call) [
    | none ↦ fails ofile k
    | some (fd, ofile') ↦ elim (filedup p k.files) as (λ _. Call) [
      | none ↦ none
      | some t ↦ some (pos fd, ofile', record k { files = t })
    ]
  ]
]

unfoldable pub sys_close : Superblock → ℤ → List ℕ → Kernel → Call
sys_close sb n ofile k = elim (argfd n ofile) as (λ _. Call) [
  | none ↦ fails ofile k
  | some (fd, p) ↦ elim (fileclose sb p k) as (λ _. Call) [
    | none ↦ none
    | some k' ↦ some (pos 0, set ofile fd 0, k')
  ]
]
