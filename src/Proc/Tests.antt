-- ===== src/Proc/Tests.antt =====
-- kernel/proc.c on a table of three entries: an idle schedtest, its sleeping child and a free entry.
use group10os.Prelude.{
  ℕ, ◌+◌, ◌≤◌, ◌<◌, ◌≡◌, ◌⊎◌, refl, inl, inr, true, false, List, [], ◌∷◌, none, some, arith,
  get_elem?,
}
use group10os.Prelude.Int.{pos}
use group10os.Str.{strncmp}
use group10os.Proc.{Proc, unused, sleeping, runnable, no_chan, of_addr, Kernel}
use group10os.Proc.Quota.{window_size, check_and_reset_quota_window, timer_tick}
use group10os.Proc.Quota.Limit.{
  IsWithin, preempt, Meters, dispatches, ticks, here, next, Meters-IsWithin,
}
use group10os.Proc.Quota.Window.{check_and_reset_quota_window_lem}
use group10os.Proc.Sched.{is_eligible, is_schedtest_child, choose, dispatch, schedtest}
use group10os.Proc.Sched.Choice.{choose-min_pid}
use group10os.Proc.Signal.{kkill}
use group10os.Proc.Life.{Services, allocproc, find_unused}
use group10os.Proc.Life.Pids.{HasPids, SoundPids, allocproc-SoundPids}
use group10os.Proc.Life.Fresh.{allocproc-kkill_zero}

abbrev free_entry : Proc
free_entry = record {
  state = unused;
  chan = no_chan;
  killed = false;
  xstate = pos 0;
  pid = 0;
  waiting_tick = 0;
  parent = none;
  sz = 0;
  pagetable = 0;
  trapframe = 0;
  frame = λ _. 0;
  ofile = [];
  cwd = 0;
  name = λ _. 0;
  cpu_quota = 20;
  cpu_used_in_window = 0;
  throttled = false;
  quota_violations = 0;
}

abbrev tester : Proc
tester = record free_entry { state = sleeping; chan = of_addr 7; pid = 1; name = schedtest }

abbrev child : Proc
child = record free_entry { state = runnable; pid = 2; parent = some 0; cpu_used_in_window = 19 }

abbrev table : List Proc
table = tester ∷ child ∷ free_entry ∷ []

abbrev kernel : Kernel
kernel = record {
  procs = table;
  nextpid = 3;
  initproc = 0;
  ticks = 5;
  quota_window_start = 0;
  eco_mode = 1;
}

choose-table : choose 1 table ≡ some 1
unfolding choose is_schedtest_child strncmp
choose-table = refl

child-is_schedtest_child : is_schedtest_child table child ≡ true
unfolding is_schedtest_child strncmp
child-is_schedtest_child = refl

choose-min_pid_example :
    (i : ℕ) × (p : Proc) × (choose 1 table ≡ some i)
    × (get_elem? table i ≡ some p)
    × (is_eligible 1 p ≡ true)
    × (is_schedtest_child table p ≡ true)
    × (p.pid ≤ 2)
choose-min_pid_example = choose-min_pid 1 table 1 child refl refl child-is_schedtest_child

-- The child is run, uses its last tick, and is then passed over by the scheduler.
abbrev throttled_child : Proc
throttled_child = dispatch 1 (preempt (timer_tick 1 (dispatch 1 child)))

child-IsWithin : IsWithin 1 20 child
child-IsWithin = record {
  positive = omega arith;
  capped = omega arith;
  bounded = omega arith;
  open_below = λ h. omega arith;
  due = λ h. cc h;
  stopped = λ e h. refl;
}

child-Meters : Meters 1 20 child throttled_child
child-Meters = next (next (next here (dispatches refl)) (ticks refl)) (dispatches refl)

Meters-IsWithin_example : IsWithin 1 20 throttled_child
Meters-IsWithin_example = Meters-IsWithin child-IsWithin child-Meters

child-throttled :
    (throttled_child.throttled ≡ true)
    × (throttled_child.cpu_used_in_window ≡ 20)
    × (throttled_child.state ≡ runnable)
unfolding timer_tick
child-throttled = (refl, refl, refl)

abbrev late_kernel : Kernel
late_kernel = record kernel { ticks = 100 }

check_and_reset_quota_window_lem_example :
    let k' = check_and_reset_quota_window late_kernel 100 in
    ((100 < window_size) × (k' ≡ late_kernel))
    ⊎ ((window_size ≤ 100)
        × (k'.quota_window_start ≡ 100)
        × (get_elem? k'.procs 1
            ≡ some (record child { cpu_used_in_window = 0; throttled = false })))
check_and_reset_quota_window_lem_example =
    check_and_reset_quota_window_lem late_kernel 100 1 child (omega arith) (omega arith)
      (omega arith) refl

-- Memory that never runs out, and calls that do nothing else.
abbrev plenty : Services
plenty = record {
  World = ℕ;
  kalloc = λ w. (4096, w + 1);
  kfree = λ _ w. w;
  proc_pagetable = λ _ w. (8192, w + 1);
  proc_freepagetable = λ _ _ w. w;
  uvmcopy = λ _ _ _ w. (true, w);
  copyout_status = λ _ _ _ w. (true, w);
  filedup = λ _ w. w;
  fileclose = λ _ w. w;
  idup = λ _ w. w;
  iput = λ _ w. w;
}

table-HasPids : HasPids 3 table
table-HasPids = (
  (omega arith, inr (refl, omega arith)),
  (inr (omega arith), (inr (omega arith), tt)),
  (
    (omega arith, inr (refl, omega arith)),
    (inr (omega arith), tt),
    ((omega arith, inl (refl, refl)), tt, tt),
  ),
)

allocproc-SoundPids_example : SoundPids plenty (allocproc plenty kernel 0).1
allocproc-SoundPids_example = allocproc-SoundPids plenty kernel 0 (omega arith, table-HasPids)

allocproc_slot : (allocproc plenty kernel 0).0 ≡ some 2
unfolding allocproc
allocproc_slot = refl

abbrev killed_kernel : Kernel
killed_kernel = record kernel { procs = (kkill 0 table).1 }

killed_slot : (allocproc plenty killed_kernel 0).0 ≡ some 2
unfolding allocproc kkill
killed_slot = refl

first_unused : find_unused table 0 ≡ some 2
unfolding find_unused
first_unused = refl

allocproc-kkill_zero_example :
    ((kkill 0 table).0 ≡ pos 0)
    × ((p : Proc) × (get_elem? (allocproc plenty killed_kernel 0).1.procs 2 ≡ some p)
        × (p.killed ≡ true))
allocproc-kkill_zero_example =
    allocproc-kkill_zero plenty kernel 0 2 table-HasPids killed_slot first_unused
