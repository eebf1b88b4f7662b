-- ===== src/File/Calls/Pipes.antt =====
-- sys_pipe of kernel/sysfile.c over pipealloc: what is left of it when it fails, at any point.
use mathlib.Core.Path.{subst}
use group10os.Prelude.{
  ℕ, suc, ◌<◌, ◌≡◌, refl, sym, ap, ◌∙◌, ◌≢◌, ◌⊎◌, inl, inr, Bool, true, false, List, Option, none,
  some, arith, get_or, set, length, length-set, Bool-cases, Option-cases, get_or-set_self,
  get_or-set_ne,
}
use group10os.Prelude.Memory.{Mem}
use group10os.Prelude.Int.{pos, negsuc}
use group10os.Fs.{Superblock}
use group10os.File.{File, Kernel}
use group10os.File.Counts.Pointers.{free_fd-some}
use group10os.File.Descriptors.{Call, free_fd, fdalloc}
use group10os.File.Calls.{pipealloc, pipe_fails, pipe_second, pipe_first, sys_pipe}
use group10os.File.Calls.Alloc.{
  IsClean, Ends, IsEnd-Mine, close_both-refs, Alloced, pipealloc-Alloced,
}
use group10os.File.Calls.Refs.{refs, set_back, set_back_two}

-- What sys_pipe leaves: where it fails, the descriptors and the references of all files are as they
-- were; otherwise two free descriptors of the process are the ends of a pipe.
abbrev pub Piped : List ℕ → List File → Call → Type 0
Piped ofile t none = ⊥
Piped ofile t (some (negsuc m, ofile', k')) = (ofile' ≡ ofile) × (refs k'.files ≡ refs t)
Piped ofile t (some (pos m, ofile', k')) =
    (n i j fd0 fd1 : ℕ) × (fd0 ≢ fd1)
    × (fd0 < length ofile)
    × (fd1 < length ofile)
    × (get_or ofile fd0 0 ≡ 0)
    × (get_or ofile fd1 0 ≡ 0)
    × (ofile' ≡ set (set ofile fd0 (suc i)) fd1 (suc j))
    × Ends n i j t k'.files

pipe_fails-Piped :
    (sb : Superblock) (n i j : ℕ) (ofile ofile1 : List ℕ) (t : List File) (k : Kernel)
    → Ends n i j t k.files
    → ofile1 ≡ ofile
    → Piped ofile t (pipe_fails sb (suc i) (suc j) ofile1 k)
pipe_fails-Piped sb n i j ofile ofile1 t k (ij, zi, zj, r, a, b) e =
    let (k', c, q) =
      close_both-refs sb i j k ij (IsEnd-Mine false n i k.files a)
        (IsEnd-Mine true n j k.files b) in
    rw c (e, q ∙ ap (λ xs. set (set xs i 0) j 0) r ∙ set_back_two (refs t) i j 1 1 0 ij zi zj)

-- fdalloc takes a free descriptor, or there is none.
fdalloc-free :
    (p : ℕ) (ofile : List ℕ)
    → (fdalloc p ofile ≡ none)
      ⊎ ((fd : ℕ) × (fdalloc p ofile ≡ some (fd, set ofile fd p))
          × (fd < length ofile)
          × (get_or ofile fd 0 ≡ 0))
unfolding fdalloc
fdalloc-free p ofile = elim (Option-cases (free_fd ofile 0)) [
  | inl g ↦ inl (rw (fdalloc, g) refl)
  | inr (fd, g) ↦
      let (m, e, l, z) = free_fd-some ofile 0 fd g in
      let e' : m ≡ fd = omega (arith, e) in
      inr (
        fd,
        rw (fdalloc, g) refl,
        subst (λ x. x < length ofile) e' l,
        subst (λ x. get_or ofile x 0 ≡ 0) e' z,
      )
]

pipe_second-Piped :
    (sb : Superblock) (copied : Bool) (n i j fd0 : ℕ) (ofile : List ℕ) (t : List File) (k : Kernel)
    → Ends n i j t k.files
    → fd0 < length ofile
    → get_or ofile fd0 0 ≡ 0
    → Piped ofile t (pipe_second sb copied (suc i) (suc j) fd0 (set ofile fd0 (suc i)) k)
unfolding pipe_second
pipe_second-Piped sb copied n i j fd0 ofile t k ends l z =
    let ofile1 = set ofile fd0 (suc i) in
    elim (fdalloc-free (suc j) ofile1) [
      | inl e ↦
          rw (pipe_second, e)
            (pipe_fails-Piped sb n i j ofile (set ofile1 fd0 0) t k ends
              (set_back ofile fd0 (suc i) 0 z))
      | inr (fd1, e, l1, z1) ↦
          let taken = get_or-set_self ofile fd0 (suc i) 0 l in
          let ne : fd0 ≢ fd1 =
            λ q. (let bad = sym taken ∙ ap (λ x. get_or ofile1 x 0) q ∙ z1 in omega (arith, bad)) in
          let l1' = subst (λ x. fd1 < x) (length-set ofile fd0 (suc i)) l1 in
          let z1' = sym (get_or-set_ne ofile fd0 fd1 (suc i) 0 ne) ∙ z1 in
          elim (Bool-cases copied) [
            | inl c ↦ rw (pipe_second, e, c) (n, i, j, fd0, fd1, ne, l, l1', z, z1', refl, ends)
            | inr c ↦
                rw (pipe_second, e, c)
                  (pipe_fails-Piped sb n i j ofile (set (set (set ofile1 fd1 (suc j)) fd0 0) fd1 0)
                    t k ends (set_back_two ofile fd0 fd1 (suc i) (suc j) 0 ne z z1'))
          ]
    ]

pipe_first-Piped :
    (sb : Superblock) (copied : Bool) (n i j : ℕ) (ofile : List ℕ) (t : List File) (k : Kernel)
    → Ends n i j t k.files
    → Piped ofile t (pipe_first sb copied (suc i) (suc j) ofile k)
unfolding pipe_first
pipe_first-Piped sb copied n i j ofile t k ends = elim (fdalloc-free (suc i) ofile) [
  | inl e ↦ rw (pipe_first, e) (pipe_fails-Piped sb n i j ofile ofile t k ends refl)
  | inr (fd0, e, l, z) ↦
      rw (pipe_first, e) (pipe_second-Piped sb copied n i j fd0 ofile t k ends l z)
]

sys_pipe-from :
    (sb : Superblock) (page : Option (ℕ × Mem ℕ)) (copied : Bool) (ofile : List ℕ) (k : Kernel)
    (o : Option (Option (ℕ × ℕ) × Kernel))
    → pipealloc sb page k ≡ o
    → Alloced k.files o
    → Piped ofile k.files (sys_pipe sb page copied ofile k)
unfolding sys_pipe
sys_pipe-from sb page copied ofile k none e a = elim a [ ]
sys_pipe-from sb page copied ofile k (some (none, k')) e a = rw (sys_pipe, e) (refl, a)
sys_pipe-from sb page copied ofile k (some (some (p, q), k')) e (n, i, j, x, y, ends) =
    rw (sys_pipe, e, x, y) (pipe_first-Piped sb copied n i j ofile k.files k' ends)

-- Where the unused entries of the file table are of no type, sys_pipe never panics. When it fails,
-- for want of files, of a page or of descriptors or since a copy to the user fails, the descriptors and
-- the references of all files are as before; otherwise two descriptors of the process and two files
-- that were free are the two ends of one pipe, each descriptor with the one file.
pub sys_pipe-Piped :
    (sb : Superblock) (page : Option (ℕ × Mem ℕ)) (copied : Bool) (ofile : List ℕ) (k : Kernel)
    → IsClean k.files
    → Piped ofile k.files (sys_pipe sb page copied ofile k)
sys_pipe-Piped sb page copied ofile k clean =
    sys_pipe-from sb page copied ofile k (pipealloc sb page k) refl
      (pipealloc-Alloced sb page k clean)
