-- ===== src/File/Tests.antt =====
-- kernel/file.c and the descriptors of kernel/sysfile.c on two files and a process with three
-- descriptors.
use group10os.Prelude.{
  ℕ, zero, suc, ◌+◌, ◌<◌, ◌≡◌, ◌∙◌, refl, sym, ap, true, false, Option, List, [], ◌∷◌, none, some,
  arith,
}
use group10os.Prelude.Int.{ℤ, pos}
use group10os.Fs.{Superblock}
use group10os.File.{File, Kernel, fd_none, fd_device, file_at, filealloc, first_free}
use group10os.File.Calls.{pipealloc, pipe_on, pipe_first, pipe_second, sys_pipe}
use group10os.File.Calls.Alloc.{IsClean}
use group10os.File.Calls.Pipes.{Piped, sys_pipe-Piped}
use group10os.File.Descriptors.{argfd, fdalloc, free_fd, sys_dup, sys_close}
use group10os.File.Counts.{sys_dup-Counted, Closed, sys_close-Closed}
use group10os.File.Counts.Pointers.{count, Counted}

abbrev sb : Superblock
sb = record { size = 20; ninodes = 16; inodestart = 2; bmapstart = 3 }

abbrev console : File
console = record {
  type = fd_device;
  ref = 2;
  readable = true;
  writable = true;
  pipe = 0;
  ip = 0;
  off = 0;
  major = 1;
}

abbrev spare : File
spare = record console { type = fd_none; ref = 0 }

-- The first file is open twice, by descriptor 0 and by another process.
abbrev files : List File
files = console ∷ spare ∷ []

abbrev others : ℕ → ℕ
others (suc zero) = 1
others p = 0

abbrev ofile : List ℕ
ofile = 1 ∷ 0 ∷ 0 ∷ []

files-Counted : Counted others ofile files
files-Counted = (counts, points)
  where
    counts : (p : ℕ) (f : File) → file_at files p ≡ some f → f.ref ≡ count p ofile + others p
    counts zero f e = cc
    counts (suc zero) f e = let g : console ≡ f = cc e in sym (ap (λ (x : File). x.ref) g)
    counts (suc (suc zero)) f e = let g : spare ≡ f = cc e in sym (ap (λ (x : File). x.ref) g)
    counts (suc (suc (suc j))) f e = cc

    points : (p : ℕ) → 0 < p → 0 < count p ofile → (f : File) × (file_at files p ≡ some f)
    points zero l n = elim l [ ]
    points (suc zero) l n = (console, refl)
    points (suc (suc j)) l n = ground (arith, n)

abbrev kernel : Kernel
kernel = record {
  files = files;
  pipes =
      λ _. record { data_buf = λ _. 0; nread = 0; nwrite = 0; readopen = true; writeopen = true };
  freed = [];
  fs = record {
    table = [];
    disk = record {
      block = λ _ _. 0;
      dinode = λ _. record { type = 0; major = 0; minor = 0; nlink = 0; size = 0; addrs = λ _. 0 };
      written = [];
    };
  };
}

sys_dup-Counted_example :
    (r : ℤ × List ℕ × Kernel) × (sys_dup (pos 0) ofile kernel ≡ some r)
    × Counted others r.1 (r.2.files)
sys_dup-Counted_example = sys_dup-Counted others (pos 0) ofile kernel files-Counted

sys_close-Closed_example : Closed others sb (pos 0) ofile kernel (sys_close sb (pos 0) ofile kernel)
sys_close-Closed_example = sys_close-Closed others sb (pos 0) ofile kernel files-Counted

-- The first free entry is taken.
filealloc-second : (filealloc files).0 ≡ 2
unfolding filealloc
filealloc-second = refl

-- A descriptor behind the list, and a free one, have no file.
argfd-outside : (argfd (pos 3) ofile ≡ none) × (argfd (pos 1) ofile ≡ none)
argfd-outside = (refl, refl)

-- With two spare files.
abbrev roomy : Kernel
roomy = record kernel { files = console ∷ spare ∷ spare ∷ [] }

roomy-IsClean : IsClean (roomy.files)
roomy-IsClean zero f e z =
    let g : console ≡ f = cc e in
    absurd (let bad : 2 ≡ 0 = ap (λ (x : File). x.ref) g ∙ z in ground (arith, bad))
roomy-IsClean (suc zero) f e z = let g : spare ≡ f = cc e in sym (ap (λ (x : File). x.type) g)
roomy-IsClean (suc (suc zero)) f e z = let g : spare ≡ f = cc e in sym (ap (λ (x : File). x.type) g)
roomy-IsClean (suc (suc (suc i))) f e z = cc

sys_pipe-Piped_example :
    Piped ofile roomy.files (sys_pipe sb (some (4096, λ _. 0)) false ofile roomy)
sys_pipe-Piped_example = sys_pipe-Piped sb (some (4096, λ _. 0)) false ofile roomy roomy-IsClean

-- The descriptors 1 and 2 for the files 2 and 3.
abbrev descriptors : Option (ℤ × List ℕ × Kernel) → List ℕ
descriptors none = []
descriptors (some (r, fds, k)) = fds

pipe_made : descriptors (sys_pipe sb (some (4096, λ _. 0)) true ofile roomy) ≡ 1 ∷ 2 ∷ 3 ∷ []
unfolding sys_pipe pipealloc pipe_on pipe_first pipe_second filealloc first_free fdalloc free_fd
pipe_made = refl
