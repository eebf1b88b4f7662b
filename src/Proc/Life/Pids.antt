-- ===== src/Proc/Life/Pids.antt =====
-- The process ids in the table of kernel/proc.c.
use mathlib.Core.Path.{subst}
use native.Mathlib.Nat.{le_refl}
use group10os.Prelude.{
  ℕ, zero, suc, ◌+◌, ◌≤◌, ◌<◌, ◌≡◌, refl, sym, ◌≢◌, ◌⊎◌, inl, inr, Bool, true, false, List, [], ◌∷◌,
  Option, some, arith, ◌==◌, if◌then◌else◌, get_elem?, All, Option-cases,
}
use group10os.Proc.{Proc, is_unused, Kernel, update_at}
use group10os.Proc.Life.{Services, freed, claimed, freeproc, claim, allocproc, find_unused}

-- A pid below `n`, which is 0 exactly for an unused entry.
abbrev pub HasPid : ℕ → Proc → Type 0
HasPid n p =
    (p.pid < n)
    × ((is_unused p.state ≡ true) × (p.pid ≡ 0) ⊎ (is_unused p.state ≡ false) × (0 < p.pid))

abbrev pub Apart : Proc → Proc → Type 0
Apart p q = (p.pid ≡ 0) ⊎ (p.pid ≢ q.pid)

-- Each entry has such a pid, and no two entries in use share one.
abbrev pub HasPids : ℕ → List Proc → Type 0
HasPids n [] = Unit {0}
HasPids n (p ∷ ps) = HasPid n p × All (Apart p) ps × HasPids n ps

-- A change gives an entry a pid that is 0, kept, or new, with `n` the bound before it and `m` after.
abbrev pub Renews : ℕ → ℕ → (Proc → Proc) → Proc → Type 0
Renews n m f p = HasPid m (f p) × (((f p).pid ≡ 0) ⊎ (((f p).pid ≡ p.pid) ⊎ (n ≤ (f p).pid)))

HasPids-mono : (n m : ℕ) (ps : List Proc) → n ≤ m → HasPids n ps → HasPids m ps
HasPids-mono n m [] le h = tt
HasPids-mono n m (p ∷ ps) le h = ((omega arith, h.0.1), h.1, HasPids-mono n m ps le h.2)

HasPid-at :
    (n : ℕ) (ps : List Proc) (i : ℕ) (p : Proc)
    → get_elem? ps i ≡ some p
    → HasPids n ps
    → HasPid n p
HasPid-at n [] i p g h = cc
HasPid-at n (x ∷ ps) zero p g h = let e : x ≡ p = cc g in subst (HasPid n) e h.0
HasPid-at n (x ∷ ps) (suc i) p g h = HasPid-at n ps i p g h.2

Apart-update :
    (n m : ℕ) (q : Proc) (ps : List Proc) (i : ℕ) (f : Proc → Proc)
    → q.pid < n
    → ((p : Proc) → get_elem? ps i ≡ some p → Renews n m f p)
    → All (Apart q) ps
    → All (Apart q) (update_at ps i f)
Apart-update n m q [] i f lt r a = tt
Apart-update n m q (p ∷ ps) zero f lt r a = (ground (arith, r p refl), a.1)
Apart-update n m q (p ∷ ps) (suc i) f lt r a = (a.0, Apart-update n m q ps i f lt r a.1)

Apart-new :
    (n : ℕ) (q q' : Proc) (ps : List Proc)
    → (q'.pid ≡ 0) ⊎ ((q'.pid ≡ q.pid) ⊎ (n ≤ q'.pid))
    → HasPids n ps
    → All (Apart q) ps
    → All (Apart q') ps
Apart-new n q q' [] r b a = tt
Apart-new n q q' (p ∷ ps) r b a = (ground arith, Apart-new n q q' ps r b.2 a.1)

pub update_at-HasPids :
    (n m : ℕ) (ps : List Proc) (i : ℕ) (f : Proc → Proc)
    → n ≤ m
    → ((p : Proc) → get_elem? ps i ≡ some p → HasPid n p → Renews n m f p)
    → HasPids n ps
    → HasPids m (update_at ps i f)
update_at-HasPids n m [] i f le r h = tt
update_at-HasPids n m (p ∷ ps) zero f le r h =
    let s = r p refl h.0 in (s.0, Apart-new n p (f p) ps s.1 h.2 h.1, HasPids-mono n m ps le h.2)
update_at-HasPids n m (p ∷ ps) (suc i) f le r h = (
  (omega arith, h.0.1),
  Apart-update n m p ps i f h.0.0 (λ q g. r q g (HasPid-at n ps i q g h.2)) h.1,
  update_at-HasPids n m ps i f le r h.2,
)

module _ (S : Services) where
  pub freeproc-HasPids :
      (i : ℕ) (k : Kernel) (w : S.World)
      → 0 < k.nextpid
      → HasPids k.nextpid k.procs
      → ((freeproc S i k w).0.nextpid ≡ k.nextpid) × HasPids k.nextpid (freeproc S i k w).0.procs
  unfolding freeproc
  freeproc-HasPids i k w pn h = elim (Option-cases (get_elem? k.procs i)) [
    | inl e ↦ rw (e, freeproc) (refl, h)
    | inr (p, e) ↦
        rw (e, freeproc)
          (
            refl,
            update_at-HasPids k.nextpid k.nextpid k.procs i freed (le_refl k.nextpid)
                (λ q g v. ((omega arith, inl (refl, refl)), inl refl)) h,
          )
  ]

  -- The next pid is positive, and the pids in the table are below it and unique.
  abbrev pub SoundPids : Kernel → Type 0
  SoundPids k = (0 < k.nextpid) × HasPids k.nextpid k.procs

  freeproc-SoundPids :
      (i : ℕ) (k : Kernel) (w : S.World) → SoundPids k → SoundPids (freeproc S i k w).0
  freeproc-SoundPids i k w v =
      let (e, h) = freeproc-HasPids i k w v.0 v.1 in
      (omega (arith, e, v.0), subst (λ n. HasPids n (freeproc S i k w).0.procs) (sym e) h)

  -- A change that touches neither the pid nor the state of an entry.
  kept-SoundPids :
      (k : Kernel) (i : ℕ) (f : Proc → Proc)
      → ((p : Proc) → ((f p).pid ≡ p.pid) × (is_unused (f p).state ≡ is_unused p.state))
      → SoundPids k
      → SoundPids (record k { procs = update_at k.procs i f })
  kept-SoundPids k i f same v = (
    v.0,
    update_at-HasPids k.nextpid k.nextpid k.procs i f (le_refl k.nextpid)
        (λ p g h. (ground (arith, same p), inr (inl (same p).0))) v.1,
  )

  if_ind {ℓ} :
      {A : Type ℓ} (P : A → Type 0) (b : Bool) (x y : A) → P x → P y → P (if b then x else y)
  if_ind P true x y p q = p
  if_ind P false x y p q = q

  claim-SoundPids : (i : ℕ) (k : Kernel) (w : S.World) → SoundPids k → SoundPids (claim S i k w).1
  unfolding claim
  claim-SoundPids i k w v =
      if_ind (λ (r : Option ℕ × Kernel × S.World). SoundPids r.1) (tf == 0) _ _
        (freeproc-SoundPids i k2 w1 v2)
        (if_ind (λ (r : Option ℕ × Kernel × S.World). SoundPids r.1) (pt == 0) _ _
          (freeproc-SoundPids i k3 w2 v3) v3)
    where
      k1 : Kernel
      k1 = record k { procs = update_at k.procs i (claimed k.nextpid); nextpid = k.nextpid + 1 }

      tf : ℕ
      tf = (S.kalloc w).0

      w1 : S.World
      w1 = (S.kalloc w).1

      k2 : Kernel
      k2 = record k1 { procs = update_at k1.procs i (λ p. record p { trapframe = tf }) }

      pt : ℕ
      pt = (S.proc_pagetable tf w1).0

      w2 : S.World
      w2 = (S.proc_pagetable tf w1).1

      k3 : Kernel
      k3 = record k2 { procs = update_at k2.procs i (λ p. record p { pagetable = pt }) }

      v1 : SoundPids k1
      v1 = (
        omega (arith, v.0),
        update_at-HasPids k.nextpid (k.nextpid + 1) k.procs i (claimed k.nextpid) (omega arith)
            (λ p g h. ((omega arith, inr (refl, v.0)), inr (inr (le_refl k.nextpid)))) v.1,
      )

      v2 : SoundPids k2
      v2 = kept-SoundPids k1 i (λ p. record p { trapframe = tf }) (λ p. (refl, refl)) v1

      v3 : SoundPids k3
      v3 = kept-SoundPids k2 i (λ p. record p { pagetable = pt }) (λ p. (refl, refl)) v2

  -- allocproc keeps the pids below the next one and unique, whether it succeeds or fails.
  pub allocproc-SoundPids : (k : Kernel) (w : S.World) → SoundPids k → SoundPids (allocproc S k w).1
  unfolding allocproc
  allocproc-SoundPids k w v = elim (Option-cases (find_unused k.procs 0)) [
    | inl e ↦ rw (e, allocproc) v
    | inr (i, e) ↦ rw (e, allocproc) (claim-SoundPids i k w v)
  ]
