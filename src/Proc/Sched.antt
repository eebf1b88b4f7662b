-- ===== src/Proc/Sched.antt =====
-- scheduler of kernel/proc.c: one round of its loop. `swtch` runs the process, which is not modelled:
-- the round ends with the process running.
pub mod Choice
pub mod Round
use group10os.Prelude.{
  ℕ, zero, suc, ◌+◌, Bool, true, false, not, ◌&&◌, ◌||◌, List, [], ◌∷◌, Option, none, some, ltb,
  ◌==◌, if◌then◌else◌, get_elem?, get_or,
}
use group10os.Prelude.Int.{is_zero}
use group10os.Str.{strncmp}
use group10os.Proc.{Proc, ProcState, running, is_runnable, Kernel, update_at}
use group10os.Proc.Quota.{check_and_reset_quota_window}

abbrev pub eco_quota : ℕ
eco_quota = 1

-- "schedtest"
abbrev pub schedtest : ℕ → ℕ
schedtest i = get_or (b's' ∷ b'c' ∷ b'h' ∷ b'e' ∷ b'd' ∷ b't' ∷ b'e' ∷ b's' ∷ b't' ∷ []) i 0

abbrev pub is_eligible : ℕ → Proc → Bool
is_eligible eco p = is_runnable p.state && (not (eco == eco_quota) || not p.throttled)

-- The parent is a process with a name that begins with "schedtest".
unfoldable pub is_schedtest_child : List Proc → Proc → Bool
is_schedtest_child procs p = elim p.parent [
  | none ↦ false
  | some j ↦ elim (get_elem? procs j) [
    | none ↦ false
    | some q ↦ is_zero (strncmp q.name schedtest 9)
  ]
]

-- An entry with its pid.
abbrev pub Pick : Type 0
Pick = Option (ℕ × ℕ)

abbrev better : Proc → ℕ → Pick → Pick
better p i none = some (i, p.pid)
better p i (some (j, pid)) = if ltb p.pid pid then some (i, p.pid) else some (j, pid)

-- The first loop, over the entries from index `i` on, with the best one so far.
pick_child : (Proc → Bool) → List Proc → ℕ → Pick → Pick
pick_child test [] i best = best
pick_child test (p ∷ ps) i best =
    pick_child test ps (i + 1) (if test p then better p i best else best)

-- The fallback loop.
pick_first : (Proc → Bool) → List Proc → ℕ → Option ℕ
pick_first test [] i = none
pick_first test (p ∷ ps) i = if test p then some i else pick_first test ps (i + 1)

unfoldable pub choose : ℕ → List Proc → Option ℕ
unfolding is_schedtest_child pick_child pick_first
choose eco procs =
    elim (pick_child (λ p. is_eligible eco p && is_schedtest_child procs p) procs 0 none) [
      | some (i, pid) ↦ some i
      | none ↦ pick_first (is_eligible eco) procs 0
    ]

abbrev pub waits_on : Proc → Proc
waits_on p = record p { waiting_tick = p.waiting_tick + 1 }

-- "increment waiting time for other RUNNABLE processes", for the entries from index `i` on.
bump_waiting : ℕ → ℕ → List Proc → ℕ → List Proc
bump_waiting eco chosen [] i = []
bump_waiting eco chosen (p ∷ ps) i =
    (if is_eligible eco p && not (i == chosen) then waits_on p else p)
    ∷ bump_waiting eco chosen ps (i + 1)

-- "Run chosen process".
abbrev pub dispatch : ℕ → Proc → Proc
dispatch eco p = if is_eligible eco p then record p { state = running } else p

-- The rest of a round behind the choice.
run_chosen : Kernel → Option ℕ → Option ℕ × Kernel
unfolding bump_waiting
run_chosen k none = (none, k)
run_chosen k (some i) =
    let waited = bump_waiting k.eco_mode i k.procs 0 in
    (some i, record k { procs = update_at waited i (dispatch k.eco_mode) })

-- A round of the loop, with the entry that it runs; `none` is the wait for an interrupt.
pub scheduler_round : Kernel → Option ℕ × Kernel
unfolding choose run_chosen check_and_reset_quota_window
scheduler_round k =
    let k' = check_and_reset_quota_window k k.ticks in run_chosen k' (choose k'.eco_mode k'.procs)
