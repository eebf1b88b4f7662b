-- ===== src/File/Counts/Pointers.antt =====
-- How often the descriptors of a process point to a file, as argfd and fdalloc of kernel/sysfile.c
-- change it.
use mathlib.Core.Path.{subst}
use group10os.Prelude.{
  ℕ, zero, suc, ◌+◌, ◌<◌, ◌≡◌, refl, sym, ap, ◌∙◌, ◌≢◌, ◌⊎◌, inl, inr, true, false, List, [], ◌∷◌,
  none, some, arith, get_elem?, get_or, set, length, modify, modify-get_elem?, ◌==◌, if◌then◌else◌,
  get_elem?-modify_self, get_elem?-modify_ne, Bool-cases, Bool, le→ltb, Option-cases, ==_iff,
}
use group10os.Prelude.Int.{ℤ, pos, negsuc}
use group10os.File.{File, file_at, change, with_ref, filedup}
use group10os.File.Descriptors.{argfd, free_fd, fdalloc}

abbrev pub one : ℕ → ℕ → ℕ
one q p = if q == p then 1 else 0

pub one_self : (p : ℕ) → one p p ≡ 1
one_self p = ground arith

pub one_ne : (q p : ℕ) → q ≢ p → one q p ≡ 0
one_ne q p n = ground (arith, n)

-- How often a pointer stands among the descriptors.
abbrev pub count : ℕ → List ℕ → ℕ
count p [] = 0
count p (q ∷ qs) = one q p + count p qs

-- Every file counts the descriptors that point to it and the `others p` references from elsewhere,
-- and every descriptor points to a file.
abbrev pub Counted : (ℕ → ℕ) → List ℕ → List File → Type 0
Counted others ofile t =
    ((p : ℕ) (f : File) → file_at t p ≡ some f → f.ref ≡ count p ofile + others p)
    × ((p : ℕ) → 0 < p → 0 < count p ofile → (f : File) × (file_at t p ≡ some f))

pub count-set :
    (xs : List ℕ) (i y p : ℕ)
    → i < length xs
    → count p (set xs i y) + one (get_or xs i 0) p ≡ count p xs + one y p
count-set [] i y p l = omega arith
count-set (x ∷ xs) zero y p l = omega arith
count-set (x ∷ xs) (suc i) y p l = let h = count-set xs i y p (omega arith) in omega (arith, h)

pub get_or-length : (xs : List ℕ) (i : ℕ) → get_or xs i 0 ≢ 0 → i < length xs
get_or-length [] i n = absurd (n refl)
get_or-length (x ∷ xs) zero n = omega arith
get_or-length (x ∷ xs) (suc i) n = let h = get_or-length xs i n in omega (arith, h)

pub count-get_or : (xs : List ℕ) (i : ℕ) → get_or xs i 0 ≢ 0 → 0 < count (get_or xs i 0) xs
count-get_or [] i n = absurd (n refl)
count-get_or (x ∷ xs) zero n = ground arith
count-get_or (x ∷ xs) (suc i) n = let h = count-get_or xs i n in omega (arith, h)

pub free_fd-some :
    (xs : List ℕ) (k fd : ℕ)
    → free_fd xs k ≡ some fd
    → (m : ℕ) × (fd ≡ k + m) × (m < length xs) × (get_or xs m 0 ≡ 0)
unfolding free_fd
free_fd-some [] k fd e = cc
free_fd-some (zero ∷ xs) k fd e = (0, (let g : k ≡ fd = cc e in omega arith), omega arith, refl)
free_fd-some (suc x ∷ xs) k fd e =
    let (m, g, l, z) = free_fd-some xs (k + 1) fd (ground (arith, e)) in
    (suc m, omega arith, omega arith, z)

-- A guarded result that is there.
unguarded {ℓ} :
    {A : Type ℓ} (b : Bool) (x y : A)
    → (if b then none else some x) ≡ some y
    → (b ≡ false) × (x ≡ y)
unguarded true x y e = cc
unguarded false x y e = (refl, cc)

eq_cases : (i j : ℕ) → (i ≡ j) ⊎ (i ≢ j)
eq_cases i j = elim (Bool-cases (i == j)) [
  | inl e ↦ inl ((==_iff i j).0 e)
  | inr e ↦ inr (λ z. ground (arith, e, z))
]

-- A change of the file at `p`, whose count follows the descriptors, where no other file is concerned.
pub change-Counted :
    (others : ℕ → ℕ) (ofile ofile' : List ℕ) (t : List File) (p : ℕ) (g : File → File)
    → Counted others ofile t
    → ((q : ℕ) → 0 < q → p ≢ q → count q ofile' ≡ count q ofile)
    → ((f : File) → file_at t p ≡ some f → (g f).ref ≡ count p ofile' + others p)
    → 0 < p
    → 0 < count p ofile
    → Counted others ofile' (change t p g)
change-Counted others ofile ofile' t zero g c same new l n = elim l [ ]
change-Counted others ofile ofile' t (suc i) g (c, v) same new l n = (counts, points)
  where
    counts :
        (q : ℕ) (f : File)
        → file_at (change t (suc i) g) q ≡ some f
        → f.ref ≡ count q ofile' + others q
    counts zero f e = cc
    counts (suc j) f e =
        let (x, e', h) = modify-get_elem? t i j g f e in
        elim h [
          | inl (a, b) ↦
              ap (λ (y : File). y.ref) b
              ∙ new x (ap (get_elem? t) a ∙ e')
              ∙ ap (λ z. count (suc z) ofile' + others (suc z)) a
          | inr (a, b) ↦
              ap (λ (y : File). y.ref) b
              ∙ c (suc j) x e'
              ∙ ap (λ z. z + others (suc j))
                  (sym (same (suc j) (omega arith) (λ z. a (omega arith))))
        ]

    points :
        (q : ℕ)
        → 0 < q
        → 0 < count q ofile'
        → (f : File) × (file_at (change t (suc i) g) q ≡ some f)
    points zero l' n' = elim l' [ ]
    points (suc j) l' n' = elim (eq_cases i j) [
      | inl a ↦
          let (f, e) = v (suc i) l n in
          (g f, ap (get_elem? (modify t i g)) (sym a) ∙ get_elem?-modify_self t i g f e)
      | inr b ↦
          let s = same (suc j) l' (λ z. b (omega arith)) in
          let (f, e) = v (suc j) l' (omega (arith, n', s)) in (f, get_elem?-modify_ne t i j g b ∙ e)
    ]

pub filedup-some :
    (t : List File) (p : ℕ) (f : File)
    → file_at t p ≡ some f
    → 0 < f.ref
    → filedup p t ≡ some (change t p (with_ref (f.ref + 1)))
unfolding filedup
filedup-some t p f e l = rw (e, le→ltb f.ref 1 (omega (arith, l))) refl

-- What argfd gives is a pointer among the descriptors.
pub argfd-some :
    (n : ℤ) (ofile : List ℕ) (fd p : ℕ)
    → argfd n ofile ≡ some (fd, p)
    → (p ≡ get_or ofile fd 0) × (p ≢ 0) × (0 < count p ofile)
argfd-some (negsuc m) ofile fd p e = cc
argfd-some (pos m) ofile fd p e =
    let (z, x) = unguarded (get_or ofile m 0 == 0) (m, get_or ofile m 0) (fd, p) e in
    let a : m ≡ fd = cc x in
    let b : get_or ofile m 0 ≡ p = cc x in
    let n : p ≢ 0 = λ y. ground (arith, z, b, y) in
    let h = count-get_or ofile m (λ y. n (sym b ∙ y)) in
    (sym b ∙ ap (λ i. get_or ofile i 0) a, n, subst (λ y. 0 < count y ofile) b h)

-- fdalloc puts the pointer where there was none.
pub fdalloc-cases :
    (p : ℕ) (ofile : List ℕ)
    → (fdalloc p ofile ≡ none)
      ⊎ ((fd : ℕ) × (fdalloc p ofile ≡ some (fd, set ofile fd p))
          × ((q : ℕ) → 0 < q → count q (set ofile fd p) ≡ count q ofile + one p q))
unfolding fdalloc
fdalloc-cases p ofile = elim (Option-cases (free_fd ofile 0)) [
  | inl g ↦ inl (rw (fdalloc, g) refl)
  | inr (fd, g) ↦
      let (m, e, l, z) = free_fd-some ofile 0 fd g in
      let e' : m ≡ fd = omega (arith, e) in
      inr (
        fd,
        rw (fdalloc, g) refl,
        λ q l'.
            (let s = count-set ofile m p q l in
              let t : one (get_or ofile m 0) q ≡ 0 =
                rw z (one_ne 0 q (λ y. omega (arith, y, l'))) in
              subst (λ i. count q (set ofile i p) ≡ count q ofile + one p q) e'
                (omega (arith, s, t))),
      )
]
