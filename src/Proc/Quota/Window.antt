-- ===== src/Proc/Quota/Window.antt =====
-- When the quota window starts anew, and what that does to the table.
use group10os.Prelude.{
  ℕ, zero, suc, ◌+◌, ◌%◌, ◌^◌, ◌≤◌, ◌<◌, ◌≡◌, ◌⊎◌, false, List, [], ◌∷◌, some, arith, get_elem?,
  if◌then◌else◌,
}
use group10os.Proc.{Proc, Kernel, is_unused}
use group10os.Proc.Quota.{
  window_size, reset_cpu_quota, reset_cpu_quotas, check_and_reset_quota_window,
}

get_elem?-reset :
    (ps : List Proc) (m : ℕ) (p : Proc)
    → get_elem? ps m ≡ some p
    → get_elem? (reset_cpu_quotas ps) m ≡ some (reset_cpu_quota p)
unfolding reset_cpu_quotas
get_elem?-reset [] m p e = cc
get_elem?-reset (x ∷ ps) zero p e = ground (arith, e)
get_elem?-reset (x ∷ ps) (suc m) p e = get_elem?-reset ps m p e

-- With the current time, and with less than 2^32 ticks since the start of the window: the window starts
-- anew exactly when WINDOW_SIZE ticks have gone by, also when the tick counter has wrapped since. Then
-- each process in use has used nothing and is not throttled, and an unused entry is as before;
-- otherwise nothing changes.
pub check_and_reset_quota_window_lem :
    (k : Kernel) (elapsed m : ℕ) (p : Proc)
    → k.quota_window_start < 2 ^ 32
    → elapsed < 2 ^ 32
    → k.ticks ≡ (k.quota_window_start + elapsed) % 2 ^ 32
    → get_elem? k.procs m ≡ some p
    → let k' = check_and_reset_quota_window k k.ticks in
      ((elapsed < window_size) × (k' ≡ k))
      ⊎ ((window_size ≤ elapsed)
          × (k'.quota_window_start ≡ k.ticks)
          × (get_elem? k'.procs m
              ≡ some (
                  if is_unused p.state
                  then p
                  else record p { cpu_used_in_window = 0; throttled = false })))
unfolding check_and_reset_quota_window
check_and_reset_quota_window_lem k elapsed m p hs he ht g =
    ground (arith, get_elem?-reset k.procs m p g)
