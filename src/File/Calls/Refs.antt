-- ===== src/File/Calls/Refs.antt =====
-- The references of the files, as a list of numbers: what filealloc and fileclose of kernel/file.c do
-- to it.
use mathlib.Core.Path.{subst}
use group10os.Prelude.{
  ℕ, zero, suc, ◌+◌, ◌≡◌, refl, sym, ap, ◌∙◌, ◌≢◌, inl, inr, List, [], ◌∷◌, Option, none, some,
  arith, get_elem?, get_or, set, modify, ◌==◌, if◌then◌else◌, get_or-set_ne, Bool-cases,
}
use group10os.Prelude.Memory.{store}
use group10os.Pipe.{pipeclose}
use group10os.Fs.{Superblock}
use group10os.File.{
  File, fd_none, fd_pipe, Kernel, file_at, change, first_free, filealloc, with_ref, emptied,
  fileclose,
}

abbrev pub refs : List File → List ℕ
refs [] = []
refs (f ∷ fs) = f.ref ∷ refs fs

-- A change that gives a file `v` references, and one that keeps them.
pub refs-modify :
    (t : List File) (i v : ℕ) (g : File → File)
    → ((f : File) → (g f).ref ≡ v)
    → refs (modify t i g) ≡ set (refs t) i v
refs-modify [] i v g e = refl
refs-modify (f ∷ t) zero v g e = ap (λ n. n ∷ refs t) (e f)
refs-modify (f ∷ t) (suc i) v g e = ap (λ ns. f.ref ∷ ns) (refs-modify t i v g e)

pub refs-modify_same :
    (t : List File) (i : ℕ) (g : File → File)
    → ((f : File) → (g f).ref ≡ f.ref)
    → refs (modify t i g) ≡ refs t
refs-modify_same [] i g e = refl
refs-modify_same (f ∷ t) zero g e = ap (λ n. n ∷ refs t) (e f)
refs-modify_same (f ∷ t) (suc i) g e = ap (λ ns. f.ref ∷ ns) (refs-modify_same t i g e)

-- Putting back what stood there.
pub set_back : (xs : List ℕ) (i v d : ℕ) → get_or xs i d ≡ d → set (set xs i v) i d ≡ xs
set_back [] i v d e = refl
set_back (x ∷ xs) zero v d e = ap (λ y. y ∷ xs) (sym e)
set_back (x ∷ xs) (suc i) v d e = ap (λ ys. x ∷ ys) (set_back xs i v d e)

pub set_swap : (xs : List ℕ) (i j v w : ℕ) → i ≢ j → set (set xs i v) j w ≡ set (set xs j w) i v
set_swap [] i j v w n = refl
set_swap (x ∷ xs) zero zero v w n = absurd (n refl)
set_swap (x ∷ xs) zero (suc j) v w n = refl
set_swap (x ∷ xs) (suc i) zero v w n = refl
set_swap (x ∷ xs) (suc i) (suc j) v w n =
    ap (λ ys. x ∷ ys) (set_swap xs i j v w (λ z. n (ap suc z)))

-- Two places that are put back in the order in which they were taken.
pub set_back_two :
    (xs : List ℕ) (i j v w d : ℕ)
    → i ≢ j
    → get_or xs i d ≡ d
    → get_or xs j d ≡ d
    → set (set (set (set xs i v) j w) i d) j d ≡ xs
set_back_two xs i j v w d n e f =
    ap (λ ys. set (set ys i d) j d) (set_swap xs i j v w n)
    ∙ ap (λ ys. set ys j d)
        (set_back (set xs j w) i v d (get_or-set_ne xs j i w d (λ z. n (sym z)) ∙ e))
    ∙ set_back xs j w d f

-- filealloc takes an entry that no one refers to; or all are referred to.
abbrev pub Filed : List File → ℕ × List File → Type 0
Filed t (zero, u) = u ≡ t
Filed t (suc i, u) =
    (u ≡ modify t i (with_ref 1)) × ((f : File) × (get_elem? t i ≡ some f) × (f.ref ≡ 0))

Free : ℕ → List File → Option ℕ → Type 0
Free k t none = Unit {0}
Free k t (some p) = (i : ℕ) × (p ≡ k + i) × ((f : File) × (get_elem? t i ≡ some f) × (f.ref ≡ 0))

Free-cons : (k : ℕ) (f : File) (t : List File) (r : Option ℕ) → Free (k + 1) t r → Free k (f ∷ t) r
unfolding Free
Free-cons k f t none h = tt
Free-cons k f t (some p) (i, e, h) = (suc i, omega (arith, e), h)

first_free-Free : (k : ℕ) (t : List File) → Free k t (first_free t k)
unfolding Free first_free
first_free-Free k [] = tt
first_free-Free k (f ∷ t) = elim (Bool-cases (f.ref == 0)) [
  | inl e ↦ rw e (0, omega arith, (f, refl, ground (arith, e)))
  | inr e ↦ rw e (Free-cons k f t (first_free t (k + 1)) (first_free-Free (k + 1) t))
]

Free-Filed :
    (t : List File) (r : Option ℕ)
    → Free 1 t r
    → Filed t
        (elim r as (λ _. ℕ × List File) [ none ↦ (0, t) | some p ↦ (p, change t p (with_ref 1)) ])
unfolding Free
Free-Filed t none h = refl
Free-Filed t (some p) (i, e, h) =
    let e' : suc i ≡ p = omega (arith, e) in
    subst (λ q. Filed t (q, change t q (with_ref 1))) e' (refl, h)

pub filealloc-Filed : (t : List File) → Filed t (filealloc t)
unfolding filealloc
filealloc-Filed t = Free-Filed t (first_free t 1) (first_free-Free 1 t)

-- fileclose of a last reference to a file that is nothing yet, and to the end of a pipe.
pub fileclose-none :
    (sb : Superblock) (p : ℕ) (f : File) (k : Kernel)
    → file_at k.files p ≡ some f
    → f.ref ≡ 1
    → f.type ≡ fd_none
    → fileclose sb p k ≡ some (record k { files = change k.files p emptied })
unfolding fileclose
fileclose-none sb p f k e r t = rw (e, r, t) refl

pub refs-get_elem? :
    (t : List File) (i : ℕ) (f : File) → get_elem? t i ≡ some f → get_or (refs t) i 0 ≡ f.ref
refs-get_elem? [] i f e = cc
refs-get_elem? (g ∷ t) zero f e = let same : g ≡ f = cc e in ap (λ (h : File). h.ref) same
refs-get_elem? (g ∷ t) (suc i) f e = refs-get_elem? t i f e

-- The other end of the pipe is closed, or this one is.
abbrev pub closed_end : File → Kernel → Kernel
closed_end f k =
    let r = pipeclose (k.pipes f.pipe) f.writable in
    record k { pipes = store k.pipes f.pipe r.1; freed = if r.0 then f.pipe ∷ k.freed else k.freed }

pub fileclose-pipe :
    (sb : Superblock) (p : ℕ) (f : File) (k : Kernel)
    → file_at k.files p ≡ some f
    → f.ref ≡ 1
    → f.type ≡ fd_pipe
    → fileclose sb p k ≡ some (closed_end f (record k { files = change k.files p emptied }))
unfolding fileclose
fileclose-pipe sb p f k e r t = rw (e, r, t) refl
