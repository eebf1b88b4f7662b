-- ===== src/Proc/Quota.antt =====
-- The CPU quota: reset_cpu_quotas and check_and_reset_quota_window of kernel/proc.c, the timer branch
-- of usertrap in kernel/trap.c, and sys_setquota of kernel/sysproc.c.
pub mod Limit
pub mod Window
use group10os.Prelude.{
  ℕ, ◌+◌, ◌-◌, ◌%◌, ◌^◌, Bool, true, false, not, ◌&&◌, List, [], ◌∷◌, map, ltb, leb, ◌==◌,
  if◌then◌else◌,
}
use group10os.Prelude.Int.{ℤ, pos, negsuc, is_positive}
use group10os.Proc.{Proc, ProcState, is_unused, is_running, Kernel}

abbrev pub window_size : ℕ
window_size = 100

abbrev pub reset_cpu_quota : Proc → Proc
reset_cpu_quota p =
    if not (is_unused p.state) then record p { cpu_used_in_window = 0; throttled = false } else p

pub reset_cpu_quotas : List Proc → List Proc
reset_cpu_quotas procs = map reset_cpu_quota procs

-- `current_ticks` is read under `tickslock` at the start, and the rest runs without that lock, so it
-- may be older than the start of the window. The difference is one of `uint`s.
unfoldable pub check_and_reset_quota_window : Kernel → ℕ → Kernel
unfolding reset_cpu_quotas
check_and_reset_quota_window k current_ticks =
    if leb window_size ((current_ticks + 2 ^ 32 - k.quota_window_start) % 2 ^ 32)
    then record k { quota_window_start = current_ticks; procs = reset_cpu_quotas k.procs }
    else k

-- What a timer interrupt in user mode does to the running process before `yield`.
abbrev pub charge : Proc → Proc
charge p =
    let used = p.cpu_used_in_window + 1 in
    if leb p.cpu_quota used && not p.throttled
    then record p {
      cpu_used_in_window = used;
      throttled = true;
      quota_violations = p.quota_violations + 1;
    }
    else record p { cpu_used_in_window = used }

unfoldable pub timer_tick : ℕ → Proc → Proc
timer_tick eco p = if eco == 1 && is_running p.state then charge p else p

abbrev pub with_quota : Proc → ℕ → Proc
with_quota p quota =
    if ltb p.cpu_used_in_window quota
    then record p { cpu_quota = quota; throttled = false }
    else record p { cpu_quota = quota }

-- The result and the calling process.
pub sys_setquota : Proc → ℤ → ℤ × Proc
sys_setquota p (pos quota) =
    if is_positive (pos quota) then (pos 0, with_quota p quota) else (negsuc 0, p)
sys_setquota p (negsuc q) = (negsuc 0, p)
