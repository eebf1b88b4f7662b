-- ===== src/Proc/Sched/Choice.antt =====
-- Which process the scheduler of kernel/proc.c chooses.
use mathlib.Core.Path.{subst}
use mathlib.Core.Bool.{false≢true}
use native.Mathlib.Nat.{le_of_eq}
use group10os.Prelude.{
  ℕ, zero, suc, ◌+◌, ◌≤◌, ◌≡◌, refl, sym, ◌∙◌, ap, ◌⊎◌, inl, inr, Bool, true, false, ◌&&◌, List, [],
  ◌∷◌, none, some, arith, ltb, if◌then◌else◌, get_elem?, Bool-cases, Option-cases, ◌↔◌,
}
use group10os.Proc.{Proc}
use group10os.Proc.Sched.{
  is_eligible, is_schedtest_child, Pick, better, pick_child, pick_first, choose,
}

-- What a pick may be: the one before the loop, or an entry of the list that passes the test.
abbrev Origin : (Proc → Bool) → List Proc → ℕ → Pick → ℕ → ℕ → Type 0
Origin test ps i best j q =
    (best ≡ some (j, q))
    ⊎ ((m : ℕ) × (p : Proc) × (get_elem? ps m ≡ some p)
        × (test p ≡ true)
        × (j ≡ i + m)
        × (q ≡ p.pid))

Origin-cons :
    (test : Proc → Bool) (x : Proc) (ps : List Proc) (i : ℕ) (best best' : Pick) (j q : ℕ)
    → ((best' ≡ some (j, q)) → Origin test (x ∷ ps) i best j q)
    → Origin test ps (i + 1) best' j q
    → Origin test (x ∷ ps) i best j q
Origin-cons test x ps i best best' j q h (inl e) = h e
Origin-cons test x ps i best best' j q h (inr (m, p, g, t, ej, eq)) =
    inr (suc m, p, g, t, omega arith, eq)

better-Origin :
    (test : Proc → Bool) (x : Proc) (ps : List Proc) (i : ℕ) (best : Pick) (j q : ℕ)
    → test x ≡ true
    → better x i best ≡ some (j, q)
    → Origin test (x ∷ ps) i best j q
better-Origin test x ps i none j q t e = inr (0, x, refl, t, ground arith, ground arith)
better-Origin test x ps i (some (j', q')) j q t e = elim (Bool-cases (ltb x.pid q')) [
  | inl l ↦ inr (0, x, refl, t, ground arith, ground arith)
  | inr g ↦ inl (ground arith)
]

pick_child-Origin :
    (test : Proc → Bool) (ps : List Proc) (i : ℕ) (best : Pick) (j q : ℕ)
    → pick_child test ps i best ≡ some (j, q)
    → Origin test ps i best j q
unfolding pick_child
pick_child-Origin test [] i best j q e = inl e
pick_child-Origin test (x ∷ ps) i best j q e = elim (Bool-cases (test x)) [
  | inl t ↦
      Origin-cons test x ps i best (better x i best) j q (better-Origin test x ps i best j q t)
        (pick_child-Origin test ps (i + 1) (better x i best) j q (rw t at e))
  | inr f ↦
      Origin-cons test x ps i best best j q inl
        (pick_child-Origin test ps (i + 1) best j q (rw f at e))
]

-- A pick with a pid of at most `n`.
abbrev AtMost : ℕ → Pick → Type 0
AtMost n none = ⊥
AtMost n (some (j, q)) = q ≤ n

better-AtMost :
    (x : Proc) (i n : ℕ) (best : Pick) → AtMost n best ⊎ (x.pid ≤ n) → AtMost n (better x i best)
better-AtMost x i n none h = ground arith
better-AtMost x i n (some (j, q)) h = ground arith

pick_child-AtMost :
    (test : Proc → Bool) (ps : List Proc) (i n : ℕ) (best : Pick)
    → AtMost n best
    → AtMost n (pick_child test ps i best)
unfolding pick_child
pick_child-AtMost test [] i n best h = h
pick_child-AtMost test (x ∷ ps) i n best h = elim (Bool-cases (test x)) [
  | inl t ↦
      rw t
        (pick_child-AtMost test ps (i + 1) n (better x i best) (better-AtMost x i n best (inl h)))
  | inr f ↦ rw f (pick_child-AtMost test ps (i + 1) n best h)
]

pick_child-min :
    (test : Proc → Bool) (ps : List Proc) (i m : ℕ) (best : Pick) (p : Proc)
    → get_elem? ps m ≡ some p
    → test p ≡ true
    → AtMost p.pid (pick_child test ps i best)
unfolding pick_child
pick_child-min test [] i m best p g t = cc
pick_child-min test (x ∷ ps) i zero best p g t =
    let e : x ≡ p = cc in
    let t' : test x ≡ true = ap test e ∙ t in
    rw t' (
      pick_child-AtMost test ps (i + 1) p.pid (better x i best)
        (better-AtMost x i p.pid best (inr (le_of_eq (ap (λ (r : Proc). r.pid) e)))))
pick_child-min test (x ∷ ps) i (suc m) best p g t =
    pick_child-min test ps (i + 1) m (if test x then better x i best else best) p g t

pick_first-some :
    (test : Proc → Bool) (ps : List Proc) (i j : ℕ)
    → pick_first test ps i ≡ some j
    → (m : ℕ) × (p : Proc) × (get_elem? ps m ≡ some p) × (test p ≡ true) × (j ≡ i + m)
unfolding pick_first
pick_first-some test [] i j e = cc
pick_first-some test (x ∷ ps) i j e = elim (Bool-cases (test x)) [
  | inl t ↦ (0, x, refl, t, ground arith)
  | inr f ↦
      let (m, p, g, t, ej) = pick_first-some test ps (i + 1) j (rw f at e) in
      (suc m, p, g, t, omega arith)
]

pick_first-none :
    (test : Proc → Bool) (ps : List Proc) (i m : ℕ) (p : Proc)
    → pick_first test ps i ≡ none
    → get_elem? ps m ≡ some p
    → test p ≡ false
unfolding pick_first
pick_first-none test [] i m p e g = cc
pick_first-none test (x ∷ ps) i zero p e g = elim (Bool-cases (test x)) [
  | inl t ↦ ground (arith, t)
  | inr f ↦ let h : x ≡ p = cc in sym (ap test h) ∙ f
]
pick_first-none test (x ∷ ps) i (suc m) p e g =
    pick_first-none test ps (i + 1) m p (ground (arith, e)) g

abbrev is_candidate : ℕ → List Proc → Proc → Bool
is_candidate eco procs p = is_eligible eco p && is_schedtest_child procs p

abbrev picked : ℕ → List Proc → Pick
picked eco procs = pick_child (is_candidate eco procs) procs 0 none

candidate_split :
    (eco : ℕ) (procs : List Proc) (p : Proc)
    → is_candidate eco procs p ≡ true
    → (is_eligible eco p ≡ true) × (is_schedtest_child procs p ≡ true)
candidate_split eco procs p h = ground arith

picked-Origin :
    (eco : ℕ) (procs : List Proc) (j q : ℕ)
    → picked eco procs ≡ some (j, q)
    → (p : Proc) × (get_elem? procs j ≡ some p)
      × (is_eligible eco p ≡ true)
      × (is_schedtest_child procs p ≡ true)
      × (q ≡ p.pid)
picked-Origin eco procs j q e =
    elim (pick_child-Origin (is_candidate eco procs) procs 0 none j q e) [
      | inl h ↦ cc
      | inr (m, p, g, t, ej, eq) ↦
          let (a, b) = candidate_split eco procs p t in
          let same : j ≡ m = omega arith in (p, ap (get_elem? procs) same ∙ g, a, b, eq)
    ]

-- The scheduler never chooses a process that is not runnable, or that is throttled while quotas are
-- enforced.
pub choose-eligible :
    (eco : ℕ) (procs : List Proc) (i : ℕ)
    → choose eco procs ≡ some i
    → (p : Proc) × (get_elem? procs i ≡ some p) × (is_eligible eco p ≡ true)
unfolding choose
choose-eligible eco procs i e = elim (Option-cases (picked eco procs)) [
  | inl n ↦
      let (m, p, g, t, ej) = pick_first-some (is_eligible eco) procs 0 i (ground (arith, e, n)) in
      let same : i ≡ m = omega arith in (p, ap (get_elem? procs) same ∙ g, t)
  | inr ((j, q), s) ↦
      let (p, g, t, c, eq) = picked-Origin eco procs j q s in
      let same : i ≡ j = ground (arith, e, s) in (p, ap (get_elem? procs) same ∙ g, t)
]

-- The processor waits exactly when no entry of the table is eligible.
pub choose-none_iff :
    (eco : ℕ) (procs : List Proc)
    → (choose eco procs ≡ none)
      ↔ ((m : ℕ) (p : Proc) → get_elem? procs m ≡ some p → is_eligible eco p ≡ false)
unfolding choose
choose-none_iff eco procs = (idle, none_of)
  where
    idle :
        choose eco procs ≡ none
        → (m : ℕ) (p : Proc) → get_elem? procs m ≡ some p
        → is_eligible eco p ≡ false
    idle e m p g = elim (Option-cases (picked eco procs)) [
      | inl n ↦ pick_first-none (is_eligible eco) procs 0 m p (ground (arith, e, n)) g
      | inr ((j, q), s) ↦ ground (arith, e, s)
    ]

    none_of :
        ((m : ℕ) (p : Proc) → get_elem? procs m ≡ some p → is_eligible eco p ≡ false)
        → choose eco procs ≡ none
    none_of all = elim (Option-cases (choose eco procs)) [
      | inl n ↦ n
      | inr (i, s) ↦
          let (p, g, t) = choose-eligible eco procs i s in absurd (false≢true (sym (all i p g) ∙ t))
    ]

-- As long as a child of schedtest is eligible, such a child is chosen, and none of them has a smaller
-- pid.
pub choose-min_pid :
    (eco : ℕ) (procs : List Proc) (m : ℕ) (q : Proc)
    → get_elem? procs m ≡ some q
    → is_eligible eco q ≡ true
    → is_schedtest_child procs q ≡ true
    → (i : ℕ) × (p : Proc) × (choose eco procs ≡ some i)
      × (get_elem? procs i ≡ some p)
      × (is_eligible eco p ≡ true)
      × (is_schedtest_child procs p ≡ true)
      × (p.pid ≤ q.pid)
unfolding choose
choose-min_pid eco procs m q g el ch = elim (Option-cases (picked eco procs)) [
  | inl n ↦ absurd (subst (AtMost q.pid) n least)
  | inr ((j, r), s) ↦
      let (p, gp, t, c, eq) = picked-Origin eco procs j r s in
      (j, p, ground (arith, s), gp, t, c, omega (arith, subst (AtMost q.pid) s least, eq))
]
  where
    least : AtMost q.pid (picked eco procs)
    least = pick_child-min (is_candidate eco procs) procs 0 m none q g (ground (arith, el, ch))
