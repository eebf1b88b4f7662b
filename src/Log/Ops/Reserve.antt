-- ===== src/Log/Ops/Reserve.antt =====
-- The space that begin_op of kernel/log.c reserves, for operations that write at most MAXOPBLOCKS
-- blocks each, as kernel/param.h demands.
use mathlib.Core.Path.{subst}
use group10os.Prelude.{
  ℕ, suc, ◌+◌, ◌-◌, ◌*◌, ◌≤◌, ◌<◌, ◌≡◌, refl, sym, ◌∙◌, ap, ◌≢◌, ◌⊎◌, inl, inr, true, false, List,
  [], ◌∷◌, ◌++◌, none, some, arith, All, length,
}
use group10os.Log.{LogHeader, Machine, maxopblocks, logblocks}
use group10os.Log.Ops.{Log, begin_op, panics, wakes, commits, end_op, finish_commit, log_write}
use group10os.Log.Ops.Absorb.{IsAbsorbed, Recorded, log_write-Recorded}

-- The log with the buffers and the disk, and for each running operation the number of log_write
-- calls that it may still make.
pub record System (D : Type 0) : Type 0 where
  pub log : Log
  pub machine : Machine D
  pub left : List ℕ

abbrev pub sum : List ℕ → ℕ
sum [] = 0
sum (x ∷ xs) = x + sum xs

sum-middle : (xs : List ℕ) (r : ℕ) (ys : List ℕ) → sum (xs ++ (r ∷ ys)) ≡ r + sum (xs ++ ys)
sum-middle [] r ys = omega arith
sum-middle (x ∷ xs) r ys = omega (arith, sum-middle xs r ys)

length-middle :
    (xs : List ℕ) (r : ℕ) (ys : List ℕ) → length (xs ++ (r ∷ ys)) ≡ suc (length (xs ++ ys))
length-middle [] r ys = refl
length-middle (x ∷ xs) r ys = ap suc (length-middle xs r ys)

-- No allowance is above MAXOPBLOCKS.
abbrev pub Allowed : List ℕ → Type 0
Allowed = All (λ r. r ≤ maxopblocks)

Allowed-drop : (xs : List ℕ) (r : ℕ) (ys : List ℕ) → Allowed (xs ++ (r ∷ ys)) → Allowed (xs ++ ys)
Allowed-drop [] r ys a = a.1
Allowed-drop (x ∷ xs) r ys a = (a.0, Allowed-drop xs r ys a.1)

Allowed-spend :
    (xs : List ℕ) (r : ℕ) (ys : List ℕ) → Allowed (xs ++ (suc r ∷ ys)) → Allowed (xs ++ (r ∷ ys))
Allowed-spend [] r ys a = (omega arith, a.1)
Allowed-spend (x ∷ xs) r ys a = (a.0, Allowed-spend xs r ys a.1)

sum-Allowed : (xs : List ℕ) → Allowed xs → sum xs ≤ length xs * maxopblocks
sum-Allowed [] a = omega arith
sum-Allowed (x ∷ xs) a = omega (arith, sum-Allowed xs a.1)

begin_op_lem :
    (l l' : Log)
    → begin_op l ≡ some l'
    → (l.committing ≡ false)
      × (l.lh.n + (l.outstanding + 1) * maxopblocks ≤ logblocks)
      × (l' ≡ record l { outstanding = l.outstanding + 1 })
unfolding begin_op
begin_op_lem l l' e = ground arith

end_op_lem :
    (l l' : Log)
    → (end_op l ≡ wakes l') ⊎ (end_op l ≡ commits l')
    → (l'.lh ≡ l.lh)
      × (l'.outstanding ≡ l.outstanding - 1)
      × (l'.committing ≡ true → l'.outstanding ≡ 0)
unfolding end_op
end_op_lem l l' (inl e) = ground arith
end_op_lem l l' (inr e) = ground arith

finish_commit_lem :
    {D : Type 0} (l : Log) (m : Machine D)
    → ((finish_commit l m).0.lh.n ≡ 0)
      × ((finish_commit l m).0.committing ≡ false)
      × ((finish_commit l m).0.outstanding ≡ l.outstanding)
unfolding finish_commit
finish_commit_lem l m = ground arith

module _ {D : Type 0} where
  -- One step of one process: an operation begins, writes a block to the log within its allowance,
  -- or ends; the last one to end commits, and the commit runs with no operation going on.
  pub data Step (s t : System D) : Type 0 where
    begins :
        begin_op s.log ≡ some t.log
        → t.machine ≡ s.machine
        → t.left ≡ maxopblocks ∷ s.left
        → Step s t
    writes :
        (b r : ℕ) (before after : List ℕ)
        → s.left ≡ before ++ (suc r ∷ after)
        → t.left ≡ before ++ (r ∷ after)
        → log_write s.log s.machine b ≡ some (t.log, t.machine)
        → Step s t
    ends :
        (r : ℕ) (before after : List ℕ)
        → s.left ≡ before ++ (r ∷ after)
        → t.left ≡ before ++ after
        → (end_op s.log ≡ wakes t.log) ⊎ (end_op s.log ≡ commits t.log)
        → t.machine ≡ s.machine
        → Step s t
    committed :
        s.log.committing ≡ true
        → (t.log, t.machine) ≡ finish_commit s.log s.machine
        → t.left ≡ s.left
        → Step s t

  pub data Reach (s : System D) : System D → Type 0 where
    here : Reach s s
    next : {t u : System D} → Reach s t → Step t u → Reach s u

  -- The reservation covers what the running operations may still write.
  pub record Reserved (s : System D) : Type 0 where
    pub counted : s.log.outstanding ≡ length s.left
    pub fits : s.log.lh.n + sum s.left ≤ logblocks
    pub allowance : Allowed s.left
    pub absorbed : IsAbsorbed s.log.lh
    pub quiet : s.log.committing ≡ true → s.log.outstanding ≡ 0

  begins-Reserved :
      (s t : System D)
      → begin_op s.log ≡ some t.log
      → t.left ≡ maxopblocks ∷ s.left
      → Reserved s
      → Reserved t
  begins-Reserved s t e f v =
      let (c, room, e') = begin_op_lem s.log t.log e in
      record {
        counted = omega (arith, ap (λ (l : Log). l.outstanding) e', ap length f, v.counted);
        fits = omega (
          arith,
          ap (λ (l : Log). l.lh.n) e',
          ap sum f,
          room,
          sum-Allowed s.left v.allowance,
          v.counted,
        );
        allowance = subst Allowed (sym f) (omega arith, v.allowance);
        absorbed = subst (λ (l : Log). IsAbsorbed l.lh) (sym e') v.absorbed;
        quiet = λ h. ground (arith, ap (λ (l : Log). l.committing) e', c);
      }

  writes-Reserved :
      (s t : System D) (b r : ℕ) (before after : List ℕ)
      → s.left ≡ before ++ (suc r ∷ after)
      → t.left ≡ before ++ (r ∷ after)
      → log_write s.log s.machine b ≡ some (t.log, t.machine)
      → Reserved s
      → Reserved t
  writes-Reserved s t b r before after e f w v =
      let counts = ap length e ∙ length-middle before (suc r) after in
      let sums = ap sum e ∙ sum-middle before (suc r) after in
      let (q, e', rec) =
        log_write-Recorded s.log s.machine b v.absorbed (omega (arith, sums, v.fits))
          (omega (arith, counts, v.counted)) in
      let found : q ≡ (t.log, t.machine) = cc (sym e' ∙ w) in
      let rec' : Recorded s.log s.machine b t.log t.machine =
        subst (λ (p : Log × Machine D). Recorded s.log s.machine b p.0 p.1) found rec in
      record {
        counted =
            omega
              (arith, rec'.same.1, v.counted, counts, ap length f ∙ length-middle before r after);
        fits = omega (arith, rec'.counted, v.fits, sums, ap sum f ∙ sum-middle before r after);
        allowance =
            subst Allowed (sym f) (Allowed-spend before r after (subst Allowed e v.allowance));
        absorbed = rec'.absorbed;
        quiet = λ h. omega (arith, rec'.same.1, v.quiet (sym rec'.same.2 ∙ h));
      }

  ends-Reserved :
      (s t : System D) (r : ℕ) (before after : List ℕ)
      → s.left ≡ before ++ (r ∷ after)
      → t.left ≡ before ++ after
      → (end_op s.log ≡ wakes t.log) ⊎ (end_op s.log ≡ commits t.log)
      → Reserved s
      → Reserved t
  ends-Reserved s t r before after e f w v =
      let (same, less, quiet) = end_op_lem s.log t.log w in
      let counts = ap length e ∙ length-middle before r after in
      record {
        counted = omega (arith, less, v.counted, counts, ap length f);
        fits = omega (
          arith,
          ap (λ (h : LogHeader). h.n) same,
          v.fits,
          ap sum e ∙ sum-middle before r after,
          ap sum f,
        );
        allowance =
            subst Allowed (sym f) (Allowed-drop before r after (subst Allowed e v.allowance));
        absorbed = subst IsAbsorbed (sym same) v.absorbed;
        quiet = quiet;
      }

  -- Every step keeps the reservation.
  Step-Reserved : {s t : System D} → Step s t → Reserved s → Reserved t
  Step-Reserved {s} {t} (begins e m f) v = begins-Reserved s t e f v
  Step-Reserved {s} {t} (writes b r before after e f w) v =
      writes-Reserved s t b r before after e f w v
  Step-Reserved {s} {t} (ends r before after e f w m) v = ends-Reserved s t r before after e f w v
  Step-Reserved {s} {t} (committed c e f) v =
      let (n0, c0, o0) = finish_commit_lem s.log s.machine in
      let e' : t.log ≡ (finish_commit s.log s.machine).0 = ap (λ (p : Log × Machine D). p.0) e in
      let n1 : t.log.lh.n ≡ 0 = ap (λ (l : Log). l.lh.n) e' ∙ n0 in
      let o1 : t.log.outstanding ≡ s.log.outstanding = ap (λ (l : Log). l.outstanding) e' ∙ o0 in
      record {
        counted = omega (arith, o1, v.counted, ap length f);
        fits = omega (arith, n1, v.quiet c, v.counted, sum-Allowed s.left v.allowance, ap sum f);
        allowance = subst Allowed (sym f) v.allowance;
        absorbed = λ i j p q. absurd (omega arith);
        quiet = λ h. omega (arith, o1, v.quiet c);
      }

  -- From any state with a sound reservation, such as the empty log with no operation, every state
  -- that the processes reach has one.
  pub Reach-Reserved : {s t : System D} → Reserved s → Reach s t → Reserved t
  Reach-Reserved v here = v
  Reach-Reserved v (next r st) = Step-Reserved st (Reach-Reserved v r)

  -- Whatever operations begin, write within their allowance of MAXOPBLOCKS, end and commit, from a log
  -- with room for those that run: whatever a running operation has left of its allowance, nothing
  -- included, it never finds a commit going on when it ends, so that end_op does not panic, and
  -- where it has some left, log_write does not panic either.
  pub Reach-no_panic :
      (s t : System D) (r b : ℕ) (before after : List ℕ)
      → Reserved s
      → Reach s t
      → t.left ≡ before ++ (r ∷ after)
      → (end_op t.log ≢ panics) × (0 < r → log_write t.log t.machine b ≢ none)
  unfolding end_op
  Reach-no_panic s t r b before after v reach e =
      let w = Reach-Reserved v reach in
      let counts = ap length e ∙ length-middle before r after in
      let sums = ap sum e ∙ sum-middle before r after in
      (
        λ h. ground (arith, w.quiet, counts, w.counted),
        λ some_left h.
            (let (q, found, rec) =
                log_write-Recorded t.log t.machine b w.absorbed
                  (omega (arith, some_left, sums, w.fits)) (omega (arith, counts, w.counted)) in
              cc (sym found ∙ h)),
      )
