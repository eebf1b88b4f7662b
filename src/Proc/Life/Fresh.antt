-- ===== src/Proc/Life/Fresh.antt =====
-- What a new process of kernel/proc.c starts with.
use group10os.Prelude.{
  ℕ, zero, suc, ◌+◌, ◌≡◌, refl, sym, ap, ◌∙◌, ◌≢◌, inl, inr, true, List, [], ◌∷◌, some, arith, ◌==◌,
  get_elem?, Bool-cases, Option-cases,
}
use group10os.Prelude.Int.{pos}
use group10os.Proc.{Proc, is_unused, Kernel, update_at}
use group10os.Proc.Signal.{kill, kkill}
use group10os.Proc.Life.{Services, claimed, claim, allocproc, find_unused}
use group10os.Proc.Life.Pids.{HasPids}

get_elem?-update_at_self :
    (ps : List Proc) (i : ℕ) (f : Proc → Proc) (p : Proc)
    → get_elem? ps i ≡ some p
    → get_elem? (update_at ps i f) i ≡ some (f p)
get_elem?-update_at_self [] i f p e = cc
get_elem?-update_at_self (x ∷ ps) zero f p e = ap some (ap f (cc e))
get_elem?-update_at_self (x ∷ ps) (suc i) f p e = get_elem?-update_at_self ps i f p e

find_unused_lem :
    (ps : List Proc) (j i : ℕ)
    → find_unused ps j ≡ some i
    → (m : ℕ) × (p : Proc) × (i ≡ j + m) × (get_elem? ps m ≡ some p) × (is_unused p.state ≡ true)
unfolding find_unused
find_unused_lem [] j i e = cc
find_unused_lem (x ∷ ps) j i e = elim (Bool-cases (is_unused x.state)) [
  | inl t ↦ (0, x, ground (arith, e, t), refl, t)
  | inr f ↦
      let (m, p, ei, g, u) = find_unused_lem ps (j + 1) i (ground (arith, e, f)) in
      (suc m, p, omega arith, g, u)
]

-- What allocproc makes of the unused entry that it takes.
abbrev pub started : ℕ → ℕ → ℕ → Proc → Proc
started pid tf pt p = record (claimed pid p) { trapframe = tf; pagetable = pt }

module _ (S : Services) where
  claim-some :
      (i j : ℕ) (k : Kernel) (w : S.World) (p : Proc)
      → (claim S i k w).0 ≡ some j
      → get_elem? k.procs i ≡ some p
      → (tf pt : ℕ) × (j ≡ i)
        × (tf ≢ 0)
        × (pt ≢ 0)
        × (get_elem? (claim S i k w).1.procs i ≡ some (started k.nextpid tf pt p))
        × ((claim S i k w).1.nextpid ≡ k.nextpid + 1)
  unfolding claim
  claim-some i j k w p e g =
      let tf : ℕ = (S.kalloc w).0 in
      let pt : ℕ = (S.proc_pagetable tf (S.kalloc w).1).0 in
      let procs1 = update_at k.procs i (claimed k.nextpid) in
      let procs2 = update_at procs1 i (λ q. record q { trapframe = tf }) in
      let entry : get_elem? (update_at procs2 i (λ q. record q { pagetable = pt })) i
          ≡ some (started k.nextpid tf pt p) =
        get_elem?-update_at_self procs2 i (λ q. record q { pagetable = pt }) _
          (get_elem?-update_at_self procs1 i (λ q. record q { trapframe = tf }) _
            (get_elem?-update_at_self k.procs i (claimed k.nextpid) p g)) in
      elim (Bool-cases (tf == 0)) [
        | inl t ↦ ground (arith, e, t)
        | inr t ↦ elim (Bool-cases (pt == 0)) [
          | inl u ↦ ground (arith, e, t, u)
          | inr u ↦ (
            tf,
            pt,
            ground (arith, e, t, u),
            ground (arith, t),
            ground (arith, u),
            ground (arith, t, u, entry),
            ground (arith, t, u),
          )
        ]
      ]

  -- Where allocproc succeeds, the entry was unused; it now is in use under the next pid, with a
  -- trapframe, a page table and the default quota, and all its other fields are as they were.
  allocproc-some :
      (k : Kernel) (w : S.World) (i : ℕ)
      → (allocproc S k w).0 ≡ some i
      → (p : Proc) × (tf pt : ℕ) × (get_elem? k.procs i ≡ some p)
        × (is_unused p.state ≡ true)
        × (tf ≢ 0)
        × (pt ≢ 0)
        × (get_elem? (allocproc S k w).1.procs i ≡ some (started k.nextpid tf pt p))
        × ((allocproc S k w).1.nextpid ≡ k.nextpid + 1)
  unfolding allocproc
  allocproc-some k w i e = elim (Option-cases (find_unused k.procs 0)) [
    | inl n ↦ ground (arith, e, n)
    | inr (j, s) ↦
        let (m, p, ej, g, u) = find_unused_lem k.procs 0 j s in
        let g' : get_elem? k.procs j ≡ some p =
          let h : j ≡ m = omega arith in ap (get_elem? k.procs) h ∙ g in
        let (tf, pt, same, t0, p0, entry, next) = claim-some j i k w p (ground (arith, e, s)) g' in
        (
          p,
          tf,
          pt,
          ap (get_elem? k.procs) same ∙ g',
          u,
          t0,
          p0,
          rw (same, s, allocproc) entry,
          rw (s, allocproc) next,
        )
  ]

kkill-unused :
    (n j i : ℕ) (ps : List Proc)
    → HasPids n ps
    → find_unused ps j ≡ some i
    → ((kkill 0 ps).0 ≡ pos 0)
      × (find_unused (kkill 0 ps).1 j ≡ some i)
      × ((m : ℕ) × (p : Proc) × (i ≡ j + m)
          × (get_elem? (kkill 0 ps).1 m ≡ some p)
          × (p.killed ≡ true))
unfolding kkill find_unused
kkill-unused n j i [] h e = cc
kkill-unused n j i (x ∷ ps) h e = elim (Bool-cases (x.pid == 0)) [
  | inl t ↦ (
    ground (arith, t),
    ground (arith, t, e, h.0),
    (0, kill x, ground (arith, t, e, h.0), ground (arith, t), ground arith),
  )
  | inr f ↦
      let (r, u, (m, p, ei, g, k)) = kkill-unused n (j + 1) i ps h.2 (ground (arith, e, f, h.0)) in
      (
        ground (arith, f, r),
        ground (arith, f, u, h.0),
        (suc m, p, omega arith, ground (arith, f, g), k),
      )
]

-- In a table where processes have positive pids, `kill(0)` succeeds while an entry is unused, and the
-- process that allocproc next starts in the first such entry is marked as killed from the start.
pub allocproc-kkill_zero :
    (S : Services) (k : Kernel) (w : S.World) (i : ℕ)
    → HasPids k.nextpid k.procs
    → (allocproc S (record k { procs = (kkill 0 k.procs).1 }) w).0 ≡ some i
    → find_unused k.procs 0 ≡ some i
    → let k' = record k { procs = (kkill 0 k.procs).1 } in
      ((kkill 0 k.procs).0 ≡ pos 0)
      × ((p : Proc) × (get_elem? (allocproc S k' w).1.procs i ≡ some p) × (p.killed ≡ true))
allocproc-kkill_zero S k w i h e u =
    let k' = record k { procs = (kkill 0 k.procs).1 } in
    let (r, u', (m, p, ei, g, kp)) = kkill-unused k.nextpid 0 i k.procs h u in
    let (q, tf, pt, gq, uq, t0, p0, entry, next) = allocproc-some S k' w i e in
    let g' : get_elem? (kkill 0 k.procs).1 i ≡ some p =
      let s : i ≡ m = omega arith in ap (get_elem? (kkill 0 k.procs).1) s ∙ g in
    let same : q ≡ p = cc (sym gq ∙ g') in
    (r, (started k'.nextpid tf pt q, entry, ap (λ (x : Proc). x.killed) same ∙ kp))
