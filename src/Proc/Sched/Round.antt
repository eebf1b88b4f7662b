-- ===== src/Proc/Sched/Round.antt =====
-- What a round of the scheduler of kernel/proc.c does to each entry of the process table.
use mathlib.Core.Path.{subst}
use native.Mathlib.Decide.{ℕ_discrete}
use group10os.Prelude.{
  ℕ, zero, suc, ◌+◌, ◌≡◌, refl, sym, ◌∙◌, ap, ◌≢◌, true, not, ◌&&◌, List, [], ◌∷◌, Option, some,
  arith, ◌==◌, if◌then◌else◌, get_elem?, ==_refl, ==_ne,
}
use group10os.Proc.{Proc, Kernel, running, update_at}
use group10os.Proc.Quota.{check_and_reset_quota_window}
use group10os.Proc.Sched.{
  is_eligible, choose, waits_on, run_chosen, bump_waiting, dispatch, scheduler_round,
}
use group10os.Proc.Sched.Choice.{choose-eligible}

pub get_elem?-update_at :
    (ps : List Proc) (i m : ℕ) (f : Proc → Proc) (p : Proc)
    → get_elem? ps m ≡ some p
    → get_elem? (update_at ps i f) m ≡ some (if m == i then f p else p)
get_elem?-update_at [] i m f p e = cc
get_elem?-update_at (x ∷ ps) zero zero f p e = ground (arith, e)
get_elem?-update_at (x ∷ ps) zero (suc m) f p e = ground (arith, e)
get_elem?-update_at (x ∷ ps) (suc i) zero f p e = ground (arith, e)
get_elem?-update_at (x ∷ ps) (suc i) (suc m) f p e =
    ground (arith, get_elem?-update_at ps i m f p e)

get_elem?-bump_waiting :
    (eco chosen : ℕ) (ps : List Proc) (i m : ℕ) (p : Proc)
    → get_elem? ps m ≡ some p
    → get_elem? (bump_waiting eco chosen ps i) m
      ≡ some (if is_eligible eco p && not (i + m == chosen) then waits_on p else p)
unfolding bump_waiting
get_elem?-bump_waiting eco chosen [] i m p e = cc
get_elem?-bump_waiting eco chosen (x ∷ ps) i zero p e = ground (arith, e)
get_elem?-bump_waiting eco chosen (x ∷ ps) i (suc m) p e =
    ground (arith, get_elem?-bump_waiting eco chosen ps (i + 1) m p e)

-- An entry after a round that runs entry `i`.
abbrev pub after_round : ℕ → ℕ → ℕ → Proc → Proc
after_round eco i m p =
    if m == i then record p { state = running } else if is_eligible eco p then waits_on p else p

-- The entry that runs.
run_chosen_self :
    (k : Kernel) (i : ℕ) (p : Proc)
    → get_elem? k.procs i ≡ some p
    → is_eligible k.eco_mode p ≡ true
    → get_elem? (run_chosen k (some i)).1.procs i ≡ some (record p { state = running })
unfolding run_chosen
run_chosen_self k i p g el =
    let waited = bump_waiting k.eco_mode i k.procs 0 in
    let kept : get_elem? waited i ≡ some p =
      ground (arith, get_elem?-bump_waiting k.eco_mode i k.procs 0 i p g) in
    ground (arith, get_elem?-update_at waited i i (dispatch k.eco_mode) p kept, el)

-- Any other entry.
run_chosen_other :
    (k : Kernel) (i m : ℕ) (p : Proc)
    → m ≢ i
    → get_elem? k.procs m ≡ some p
    → get_elem? (run_chosen k (some i)).1.procs m
      ≡ some (if is_eligible k.eco_mode p then waits_on p else p)
unfolding run_chosen
run_chosen_other k i m p d g =
    let waited = bump_waiting k.eco_mode i k.procs 0 in
    let p' = if is_eligible k.eco_mode p then waits_on p else p in
    let bumped : get_elem? waited m ≡ some p' =
      ground (arith, get_elem?-bump_waiting k.eco_mode i k.procs 0 m p g) in
    ground (arith, get_elem?-update_at waited i m (dispatch k.eco_mode) p' bumped)

run_chosen_lem :
    (k : Kernel) (i m : ℕ) (p q : Proc)
    → get_elem? k.procs i ≡ some q
    → is_eligible k.eco_mode q ≡ true
    → get_elem? k.procs m ≡ some p
    → get_elem? (run_chosen k (some i)).1.procs m ≡ some (after_round k.eco_mode i m p)
run_chosen_lem k i m p q gi el g = elim (ℕ_discrete m i) [
  | yes e ↦
      let gp : get_elem? k.procs i ≡ some p = subst (λ n. get_elem? k.procs n ≡ some p) e g in
      let same : q ≡ p = cc (sym gi ∙ gp) in
      let el' = subst (λ r. is_eligible k.eco_mode r ≡ true) same el in
      ap (get_elem? (run_chosen k (some i)).1.procs) e
      ∙ run_chosen_self k i p gp el'
      ∙ ap some (sym (rw (e, ==_refl)))
  | no d ↦ run_chosen_other k i m p d g ∙ ap some (sym (rw (==_ne m i d)))
]

run_chosen_entry : (k : Kernel) (i : ℕ) → (run_chosen k (some i)).0 ≡ some i
unfolding run_chosen
run_chosen_entry k i = refl

scheduler_round-eq-run_chosen :
    (k : Kernel)
    → let k' = check_and_reset_quota_window k k.ticks in
      scheduler_round k ≡ run_chosen k' (choose k'.eco_mode k'.procs)
unfolding scheduler_round
scheduler_round-eq-run_chosen k = refl

-- In a round that chooses entry `i`, with the table as the window check leaves it, that entry now
-- runs, every other eligible process has waited for one round more, and no other field changes.
pub scheduler_round_lem :
    (k k' : Kernel) (i m : ℕ) (p : Proc)
    → k' ≡ check_and_reset_quota_window k k.ticks
    → choose k'.eco_mode k'.procs ≡ some i
    → get_elem? k'.procs m ≡ some p
    → ((scheduler_round k).0 ≡ some i)
      × (get_elem? (scheduler_round k).1.procs m ≡ some (after_round k'.eco_mode i m p))
scheduler_round_lem k k' i m p ek e g =
    let eq : scheduler_round k ≡ run_chosen k' (some i) =
      scheduler_round-eq-run_chosen k
      ∙ ap (λ (x : Kernel). run_chosen x (choose x.eco_mode x.procs)) (sym ek)
      ∙ ap (run_chosen k') e in
    let (q, gi, el) = choose-eligible k'.eco_mode k'.procs i e in
    (
      ap (λ (r : Option ℕ × Kernel). r.0) eq ∙ run_chosen_entry k' i,
      ap (λ (r : Option ℕ × Kernel). get_elem? r.1.procs m) eq ∙ run_chosen_lem k' i m p q gi el g,
    )
