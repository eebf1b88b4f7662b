-- ===== src/Proc/Quota/Limit.antt =====
-- The quota of a process against the ticks that it uses in a window, with the scheduler that passes
-- over a throttled process.
use group10os.Prelude.{ℕ, ◌≤◌, ◌<◌, ◌≡◌, true, false, arith, if◌then◌else◌}
use group10os.Prelude.Int.{ℤ, pos, negsuc}
use group10os.Proc.{Proc, ProcState, runnable, is_running}
use group10os.Proc.Quota.{reset_cpu_quota, timer_tick, sys_setquota}
use group10os.Proc.Sched.{eco_quota, dispatch}

-- No quota has been above `most`. What the process has used is not above it either, a process that is
-- not throttled may use one tick more, a throttled one has used its quota, and with quotas enforced a
-- throttled process does not run.
pub record IsWithin (eco most : ℕ) (p : Proc) : Type 0 where
  pub positive : 0 < p.cpu_quota
  pub capped : p.cpu_quota ≤ most
  pub bounded : p.cpu_used_in_window ≤ most
  pub open_below : p.throttled ≡ false → p.cpu_used_in_window < most
  pub due : p.throttled ≡ true → p.cpu_quota ≤ p.cpu_used_in_window
  pub stopped : eco ≡ eco_quota → is_running p.state ≡ true → p.throttled ≡ false

-- `yield`, which a process that is running calls behind the tick.
abbrev pub preempt : Proc → Proc
preempt p = if is_running p.state then record p { state = runnable } else p

abbrev pub AtMost : ℕ → ℤ → Type 0
AtMost most (pos n) = n ≤ most
AtMost most (negsuc n) = Unit {0}

-- What happens to a process in the mode `eco`: the scheduler tries it; a timer interrupt in user mode
-- with the yield behind it; the start of a window; its call of setquota, with no quota above `most`;
-- or any change of its state but to RUNNING, such as sleep, wakeup, kill and exit.
pub data Meter (eco most : ℕ) (p q : Proc) : Type 0 where
  dispatches : q ≡ dispatch eco p → Meter eco most p q
  ticks : q ≡ preempt (timer_tick eco p) → Meter eco most p q
  new_window : q ≡ reset_cpu_quota p → Meter eco most p q
  sets : (n : ℤ) → AtMost most n → q ≡ (sys_setquota p n).1 → Meter eco most p q
  switches :
      (s : ProcState) → is_running s ≡ false → q ≡ record p { state = s } → Meter eco most p q

pub data Meters (eco most : ℕ) (p : Proc) : Proc → Type 0 where
  here : Meters eco most p p
  next : {q r : Proc} → Meters eco most p q → Meter eco most q r → Meters eco most p r

Meter-IsWithin :
    (eco most : ℕ) (p q : Proc) → Meter eco most p q → IsWithin eco most p → IsWithin eco most q
unfolding timer_tick sys_setquota
Meter-IsWithin eco most p q (dispatches e) v = ground (arith, e)
Meter-IsWithin eco most p q (ticks e) v = ground (arith, e)
Meter-IsWithin eco most p q (new_window e) v = ground (arith, e)
Meter-IsWithin eco most p q (sets (pos n) h e) v = ground (arith, e)
Meter-IsWithin eco most p q (sets (negsuc n) h e) v = ground (arith, e)
Meter-IsWithin eco most p q (switches s h e) v = ground (arith, e)

-- In a mode that stays as it is, from a process within its quota, such as a new one: whatever sequence
-- of dispatches by the scheduler, timer interrupts with their yields, new windows, calls of setquota
-- with any argument and other changes of its state the process goes through, it never uses more ticks
-- of a window than the highest quota that it has had. It is throttled only once it has used its quota,
-- and with quotas enforced it does not run while it is throttled.
pub Meters-IsWithin :
    {eco most : ℕ} {p q : Proc} → IsWithin eco most p → Meters eco most p q → IsWithin eco most q
Meters-IsWithin v here = v
Meters-IsWithin {eco} {most} v (next {q} {r} ms m) =
    Meter-IsWithin eco most q r m (Meters-IsWithin v ms)
