-- ===== src/File/Calls/Alloc.antt =====
-- pipealloc of kernel/pipe.c on the file table: two free files are made the ends of a pipe, or given back.
use group10os.Prelude.{
  ℕ, zero, suc, ◌≡◌, refl, sym, ap, ◌∙◌, ◌≢◌, ◌⊎◌, inl, inr, Bool, true, false, not, List, Option,
  none, some, arith, get_elem?, get_or, set, modify, ◌==◌, get_elem?-modify_self,
  get_elem?-modify_ne,
}
use group10os.Prelude.Memory.{Mem}
use group10os.Fs.{Superblock}
use group10os.File.{File, fd_none, fd_pipe, Kernel, change, filealloc, with_ref, emptied, fileclose}
use group10os.File.Calls.{as_end, close_both, pipe_on, pipealloc}
use group10os.File.Calls.Refs.{
  refs, refs-modify, refs-modify_same, set_back, set_back_two, Filed, filealloc-Filed,
  fileclose-none, closed_end, fileclose-pipe, refs-get_elem?,
}

-- An entry of the file table that no one refers to is of no type, as fileclose leaves it.
abbrev pub IsClean : List File → Type 0
IsClean t = (i : ℕ) (f : File) → get_elem? t i ≡ some f → f.ref ≡ 0 → f.type ≡ fd_none

-- A close of a last reference works, and leaves the others.
Closes : Superblock → ℕ → Kernel → Type 0
Closes sb i k =
    (k' : Kernel) × (fileclose sb (suc i) k ≡ some k') × (k'.files ≡ change k.files (suc i) emptied)

Closes-none :
    (sb : Superblock) (i : ℕ) (f : File) (k : Kernel)
    → get_elem? k.files i ≡ some f
    → f.ref ≡ 1
    → (f.type ≡ fd_none) ⊎ (f.type ≡ fd_pipe)
    → Closes sb i k
unfolding Closes
Closes-none sb i f k e r (inl t) =
    (record k { files = change k.files (suc i) emptied }, fileclose-none sb (suc i) f k e r t, refl)
Closes-none sb i f k e r (inr t) = (
  closed_end f (record k { files = change k.files (suc i) emptied }),
  fileclose-pipe sb (suc i) f k e r t,
  refl,
)

-- A file of the call: one reference, and nothing that fileclose would have to give to an inode.
abbrev pub Mine : ℕ → List File → Type 0
Mine i t =
    (f : File) × (get_elem? t i ≡ some f) × (f.ref ≡ 1) × ((f.type ≡ fd_none) ⊎ (f.type ≡ fd_pipe))

-- close_both gives two such files back.
pub close_both-refs :
    (sb : Superblock) (i j : ℕ) (k : Kernel)
    → i ≢ j
    → Mine i k.files
    → Mine j k.files
    → (k' : Kernel) × (close_both sb (suc i) (suc j) k ≡ some k')
      × (refs k'.files ≡ set (set (refs k.files) i 0) j 0)
unfolding close_both Closes
close_both-refs sb i j k n (f, e, r, t) (g, e', r', t') =
    let (k1, c1, q1) = Closes-none sb i f k e r t in
    let still = ap (λ u. get_elem? u j) q1 ∙ get_elem?-modify_ne k.files i j emptied n ∙ e' in
    let (k2, c2, q2) = Closes-none sb j g k1 still r' t' in
    (
      k2,
      rw (c1, c2) refl,
      ap refs q2
          ∙ refs-modify k1.files j 0 emptied (λ f. refl)
          ∙ ap (λ xs. set xs j 0) (ap refs q1 ∙ refs-modify k.files i 0 emptied (λ f. refl)),
    )

-- The entry at index `i` is the end of pipe `n` that the call made it.
abbrev pub IsEnd : Bool → ℕ → ℕ → List File → Type 0
IsEnd w n i t =
    (f : File) × (get_elem? t i ≡ some f)
    × (f.ref ≡ 1)
    × (f.type ≡ fd_pipe)
    × (f.readable ≡ not w)
    × (f.writable ≡ w)
    × (f.pipe ≡ n)

-- Behind pipealloc: two entries that no one referred to are the ends of one pipe.
abbrev pub Ends : ℕ → ℕ → ℕ → List File → List File → Type 0
Ends n i j t u =
    (i ≢ j)
    × (get_or (refs t) i 0 ≡ 0)
    × (get_or (refs t) j 0 ≡ 0)
    × (refs u ≡ set (set (refs t) i 1) j 1)
    × IsEnd false n i u
    × IsEnd true n j u

pub IsEnd-Mine : (w : Bool) (n i : ℕ) (t : List File) → IsEnd w n i t → Mine i t
IsEnd-Mine w n i t (f, e, r, p, _, _, _) = (f, e, r, inr p)

-- Two entries that filealloc took one after the other, in the table `u`.
Two : ℕ → ℕ → List File → List File → Type 0
Two i j t u =
    (i ≢ j)
    × (get_or (refs t) i 0 ≡ 0)
    × (get_or (refs t) j 0 ≡ 0)
    × (refs u ≡ set (set (refs t) i 1) j 1)
    × ((f : File) × (get_elem? u i ≡ some f) × (f.ref ≡ 1) × (f.type ≡ fd_none))
    × ((f : File) × (get_elem? u j ≡ some f) × (f.ref ≡ 1) × (f.type ≡ fd_none))

take-Two :
    (t : List File) (i j : ℕ) (f g : File)
    → IsClean t
    → get_elem? t i ≡ some f
    → f.ref ≡ 0
    → get_elem? (modify t i (with_ref 1)) j ≡ some g
    → g.ref ≡ 0
    → Two i j t (modify (modify t i (with_ref 1)) j (with_ref 1))
unfolding Two
take-Two t i j f g clean e r e' r' =
    let u = modify t i (with_ref 1) in
    let mine = get_elem?-modify_self t i (with_ref 1) f e in
    let ij : i ≢ j = λ q.
      (let same : some (with_ref 1 f) ≡ some g = sym mine ∙ ap (get_elem? u) q ∙ e' in
        let bad : 1 ≡ g.ref = ap (λ o. elim o as (λ _. ℕ) [ none ↦ 0 | some h ↦ h.ref ]) same in
        omega (arith, bad, r')) in
    let old = sym (get_elem?-modify_ne t i j (with_ref 1) ij) ∙ e' in
    (
      ij,
      refs-get_elem? t i f e ∙ r,
      refs-get_elem? t j g old ∙ r',
      refs-modify u j 1 (with_ref 1) (λ h. refl)
          ∙ ap (λ xs. set xs j 1) (refs-modify t i 1 (with_ref 1) (λ h. refl)),
      (
        with_ref 1 f,
        get_elem?-modify_ne u j i (with_ref 1) (λ q. ij (sym q)) ∙ mine,
        refl,
        clean i f e r,
      ),
      (with_ref 1 g, get_elem?-modify_self u j (with_ref 1) g e', refl, clean j g old r'),
    )

-- What pipealloc leaves.
abbrev pub Alloced : List File → Option (Option (ℕ × ℕ) × Kernel) → Type 0
Alloced t none = ⊥
Alloced t (some (none, k')) = refs k'.files ≡ refs t
Alloced t (some (some (p, q), k')) = (n i j : ℕ) × (p ≡ suc i) × (q ≡ suc j) × Ends n i j t k'.files

pipe_on-Alloced :
    (sb : Superblock) (page : Option (ℕ × Mem ℕ)) (i j : ℕ) (t : List File) (k : Kernel)
    → Two i j t k.files
    → Alloced t (pipe_on sb page (suc i) (suc j) k)
unfolding pipe_on Two
pipe_on-Alloced sb none i j t k (ij, zi, zj, r, (f, e, o, a), (g, e', o', a')) =
    let (k', c, q) = close_both-refs sb i j k ij (f, e, o, inl a) (g, e', o', inl a') in
    rw c (q ∙ ap (λ xs. set (set xs i 0) j 0) r ∙ set_back_two (refs t) i j 1 1 0 ij zi zj)
pipe_on-Alloced sb (some (n, buf)) i j t k (ij, zi, zj, r, (f, e, o, a), (g, e', o', a')) =
    let u = modify k.files i (as_end false n) in
    let mine = get_elem?-modify_self k.files i (as_end false n) f e in
    let other = get_elem?-modify_ne k.files i j (as_end false n) ij ∙ e' in
    (
      n,
      i,
      j,
      refl,
      refl,
      (
        ij,
        zi,
        zj,
        refs-modify_same u j (as_end true n) (λ h. refl)
            ∙ refs-modify_same k.files i (as_end false n) (λ h. refl)
            ∙ r,
        (
          as_end false n f,
          get_elem?-modify_ne u j i (as_end true n) (λ q. ij (sym q)) ∙ mine,
          o,
          refl,
          refl,
          refl,
          refl,
        ),
        (
          as_end true n g,
          get_elem?-modify_self u j (as_end true n) g other,
          o',
          refl,
          refl,
          refl,
          refl,
        ),
      ),
    )

Filed-cases :
    (t : List File) (r : ℕ × List File)
    → Filed t r
    → (r ≡ (0, t))
      ⊎ ((i : ℕ) × (f : File) × (r ≡ (suc i, modify t i (with_ref 1)))
          × (get_elem? t i ≡ some f)
          × (f.ref ≡ 0))
Filed-cases t (zero, u) e = inl (ap (λ v. (0, v)) e)
Filed-cases t (suc i, u) (e, (f, g, r)) = inr (i, f, ap (λ v. (suc i, v)) e, g, r)

nonzero : (i : ℕ) → (suc i == 0) ≡ false
nonzero i = ground arith

pub pipealloc-Alloced :
    (sb : Superblock) (page : Option (ℕ × Mem ℕ)) (k : Kernel)
    → IsClean k.files
    → Alloced k.files (pipealloc sb page k)
unfolding pipealloc Closes
pipealloc-Alloced sb page k clean =
    elim (Filed-cases k.files (filealloc k.files) (filealloc-Filed k.files)) [
      | inl e ↦ rw (pipealloc, e) refl
      | inr (i, f, e, m, r) ↦
          let t1 = modify k.files i (with_ref 1) in
          elim (Filed-cases t1 (filealloc t1) (filealloc-Filed t1)) [
            | inl e' ↦
                let k1 = record k { files = t1 } in
                let mine = get_elem?-modify_self k.files i (with_ref 1) f m in
                let (k2, c, q) =
                  Closes-none sb i (with_ref 1 f) k1 mine refl (inl (clean i f m r)) in
                rw (pipealloc, e, e', nonzero i, c)
                  (ap refs q
                    ∙ refs-modify t1 i 0 emptied (λ h. refl)
                    ∙ ap (λ xs. set xs i 0) (refs-modify k.files i 1 (with_ref 1) (λ h. refl))
                    ∙ set_back (refs k.files) i 1 0 (refs-get_elem? k.files i f m ∙ r))
            | inr (j, g, e', m', r') ↦
                rw (pipealloc, e, e', nonzero i, nonzero j)
                  (pipe_on-Alloced sb page i j k.files
                    (record k { files = modify t1 j (with_ref 1) })
                    (take-Two k.files i j f g clean m r m' r'))
          ]
    ]
