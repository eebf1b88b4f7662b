-- ===== src/File/Counts.antt =====
-- The reference counts of the file table of kernel/file.c against the descriptors of a process, in
-- sys_dup and sys_close of kernel/sysfile.c.
pub mod Pointers
use mathlib.Core.Path.{subst}
use group10os.Prelude.{
  ℕ, zero, suc, ◌+◌, ◌-◌, ◌<◌, ◌≡◌, refl, sym, ap, ◌∙◌, ◌≢◌, ◌⊎◌, inl, inr, true, false, List, [],
  ◌∷◌, Option, none, some, arith, get_elem?, get_or, set, length, modify, modify-get_elem?, ltb,
  ◌==◌, if◌then◌else◌, get_elem?-modify_self, get_elem?-modify_ne, Bool-cases, Bool, le→ltb,
  Option-cases, ==_iff,
}
use group10os.Prelude.Int.{ℤ, pos, negsuc}
use group10os.Fs.{Superblock}
use group10os.Fs.Content.{and_then}
use group10os.Fs.Names.{State, iput_at}
use group10os.File.{
  File, FileType, fd_none, fd_pipe, fd_inode, fd_device, Kernel, file_at, change, with_ref, emptied,
  filedup, release, fileclose,
}
use group10os.File.Descriptors.{argfd, free_fd, fdalloc, Call, sys_dup, sys_close}
use group10os.File.Counts.Pointers.{
  one, one_self, one_ne, count, Counted, count-set, get_or-length, count-get_or, free_fd-some,
  change-Counted, filedup-some, argfd-some, fdalloc-cases,
}

-- sys_dup does not panic where every file counts its references, and every file still does behind it.
pub sys_dup-Counted :
    (others : ℕ → ℕ) (n : ℤ) (ofile : List ℕ) (k : Kernel)
    → Counted others ofile k.files
    → (r : ℤ × List ℕ × Kernel) × (sys_dup n ofile k ≡ some r) × Counted others r.1 (r.2.files)
unfolding sys_dup
sys_dup-Counted others n ofile k c = elim (Option-cases (argfd n ofile)) [
  | inl e ↦ ((negsuc 0, ofile, k), rw (sys_dup, e) refl, c)
  | inr ((old, p), e) ↦ elim (fdalloc-cases p ofile) [
    | inl g ↦ ((negsuc 0, ofile, k), rw (sys_dup, e, g) refl, c)
    | inr (fd, g, h) ↦
        let (a, n, l) = argfd-some n ofile old p e in
        let (f, m) = c.1 p (omega (arith, n)) l in
        let ref = c.0 p f m in
        let d = filedup-some k.files p f m (omega (arith, ref, l)) in
        (
          (pos fd, set ofile fd p, record k { files = change k.files p (with_ref (f.ref + 1)) }),
          rw (sys_dup, e, g, d) refl,
          change-Counted others ofile (set ofile fd p) k.files p (with_ref (f.ref + 1)) c
              (λ q l' ne. omega (arith, h q l', one_ne p q ne))
              (λ _ _. omega (arith, ref, h p (omega (arith, n)), one_self p)) (omega (arith, n)) l,
        )
  ]
]

abbrev KeepsFiles : Kernel → Option Kernel → Type 0
KeepsFiles k none = Unit
KeepsFiles k (some k') = k'.files ≡ k.files

and_then-KeepsFiles :
    (k : Kernel) (o : Option State)
    → KeepsFiles k (and_then o (λ (s : State). some (record k { fs = s })))
and_then-KeepsFiles k none = tt
and_then-KeepsFiles k (some s) = refl

release-KeepsFiles :
    (sb : Superblock) (t : FileType) (f : File) (k : Kernel) → KeepsFiles k (release sb t f k)
release-KeepsFiles sb fd_none f k = refl
release-KeepsFiles sb fd_pipe f k = refl
release-KeepsFiles sb fd_inode f k = and_then-KeepsFiles k (iput_at sb f.ip k.fs)
release-KeepsFiles sb fd_device f k = and_then-KeepsFiles k (iput_at sb f.ip k.fs)

-- A close gives a reference back; it panics only if that was the last one and the release does.
abbrev Released : Superblock → ℕ → File → Kernel → Option Kernel → Type 0
Released sb p f k none =
    (f.ref ≡ 1) × (release sb f.type f (record k { files = change k.files p emptied }) ≡ none)
Released sb p f k (some k') =
    (g : File → File) × (k'.files ≡ change k.files p g)
    × ((x : File) → x.ref ≡ f.ref → (g x).ref ≡ f.ref - 1)

last-Released :
    (sb : Superblock) (p : ℕ) (f : File) (k : Kernel) (o : Option Kernel)
    → f.ref ≡ 1
    → release sb f.type f (record k { files = change k.files p emptied }) ≡ o
    → KeepsFiles (record k { files = change k.files p emptied }) o
    → Released sb p f k o
last-Released sb p f k none l e h = (l, e)
last-Released sb p f k (some k') l e h = (emptied, h, λ x _. omega (arith, l))

fileclose-Released :
    (sb : Superblock) (p : ℕ) (f : File) (k : Kernel)
    → file_at k.files p ≡ some f
    → 0 < f.ref
    → Released sb p f k (fileclose sb p k)
unfolding fileclose
fileclose-Released sb p f k e l =
    rw (fileclose, e, le→ltb f.ref 1 (omega (arith, l)))
      (elim (Bool-cases (ltb 0 (f.ref - 1))) [
        | inl b ↦ rw b (with_ref (f.ref - 1), refl, λ x _. refl)
        | inr b ↦
            let emptied_k = record k { files = change k.files p emptied } in
            rw b (
              last-Released sb p f k (release sb f.type f emptied_k) (ground (arith, b, l)) refl
                (release-KeepsFiles sb f.type f emptied_k))
      ])

given_back-Counted :
    (others : ℕ → ℕ) (ofile : List ℕ) (t : List File) (fd p : ℕ) (f : File) (g : File → File)
    → Counted others ofile t
    → p ≡ get_or ofile fd 0
    → p ≢ 0
    → 0 < count p ofile
    → file_at t p ≡ some f
    → ((x : File) → x.ref ≡ f.ref → (g x).ref ≡ f.ref - 1)
    → Counted others (set ofile fd 0) (change t p g)
given_back-Counted others ofile t fd p f g c a n l m h =
    let ref = c.0 p f m in
    let freed : (q : ℕ) → count q (set ofile fd 0) + one p q ≡ count q ofile + one 0 q = λ q.
      (let s = count-set ofile fd 0 q (get_or-length ofile fd (λ y. n (a ∙ y))) in
        subst (λ x. count q (set ofile fd 0) + one x q ≡ count q ofile + one 0 q) (sym a) s) in
    change-Counted others ofile (set ofile fd 0) t p g c
      (λ q l' ne. omega (arith, freed q, one_ne p q ne, one_ne 0 q (λ y. omega (arith, y, l'))))
      (λ x e.
        (let r = c.0 p x e in
          omega
            (arith, h x (r ∙ sym ref), ref, l, freed p, one_self p, one_ne 0 p (λ y. n (sym y)))))
      (omega (arith, n)) l

-- What sys_close leaves: every file counts its references; or a panic, of the release of the last
-- reference to the file of the descriptor.
abbrev pub Closed : (ℕ → ℕ) → Superblock → ℤ → List ℕ → Kernel → Call → Type 0
Closed others sb n ofile k (some (r, ofile', k')) = Counted others ofile' k'.files
Closed others sb n ofile k none =
    (fd p : ℕ) × (f : File) × (argfd n ofile ≡ some (fd, p))
    × (file_at k.files p ≡ some f)
    × (f.ref ≡ 1)
    × (release sb f.type f (record k { files = change k.files p emptied }) ≡ none)

-- Where every file counts its references, sys_close keeps it so, and it panics only where it gives
-- the last reference back and the release of the inode panics.
pub sys_close-Closed :
    (others : ℕ → ℕ) (sb : Superblock) (n : ℤ) (ofile : List ℕ) (k : Kernel)
    → Counted others ofile k.files
    → Closed others sb n ofile k (sys_close sb n ofile k)
unfolding sys_close
sys_close-Closed others sb n ofile k c = elim (Option-cases (argfd n ofile)) [
  | inl e ↦ rw (sys_close, e) c
  | inr ((fd, p), e) ↦
      let (a, n, l) = argfd-some n ofile fd p e in
      let (f, m) = c.1 p (omega (arith, n)) l in
      let ref = c.0 p f m in
      let r = fileclose-Released sb p f k m (omega (arith, ref, l)) in
      elim (Option-cases (fileclose sb p k)) [
        | inl z ↦
            let r' = subst (Released sb p f k) z r in
            rw (sys_close, e, z) (fd, p, f, e, m, r'.0, r'.1)
        | inr (k', z) ↦
            let (g, eq, h) = subst (Released sb p f k) z r in
            rw (sys_close, e, z)
              (subst (Counted others (set ofile fd 0)) (sym eq)
                (given_back-Counted others ofile k.files fd p f g c a n l m h))
      ]
]
