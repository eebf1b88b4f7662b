-- ===== src/Log/Ops.antt =====
-- begin_op, end_op and log_write of kernel/log.c, each as what it does under `log.lock`. A process
-- that has to sleep tries again when it is woken, so one try of begin_op is a function.
pub mod Absorb
pub mod Reserve
use group10os.Prelude.{
  ℕ, zero, suc, ◌+◌, ◌-◌, ◌*◌, Bool, true, false, Option, none, some, ltb, leb, ◌==◌, if◌then◌else◌,
}
use group10os.Prelude.Memory.{Mem, store}
use group10os.Log.{LogHeader, Machine, maxopblocks, logblocks, bpin, commit}

pub record Log : Type 0 where
  pub start : ℕ
  pub outstanding : ℕ
  pub committing : Bool
  pub lh : LogHeader

-- `none`: the caller sleeps on the log.
unfoldable pub begin_op : Log → Option Log
begin_op l =
    if l.committing
    then none
    else if ltb logblocks (l.lh.n + (l.outstanding + 1) * maxopblocks)
    then none
    else some (record l { outstanding = l.outstanding + 1 })

-- What end_op does before it releases the lock: it panics, wakes the waiting processes, or goes on
-- to commit.
pub data Ended : Type 0 where
  panics : Ended
  wakes commits : Log → Ended

-- An operation that ends is counted, so the decrement does not go below 0.
pub end_op : Log → Ended
end_op l =
    let l' = record l { outstanding = l.outstanding - 1 } in
    if l.committing
    then panics
    else if l'.outstanding == 0
    then commits (record l' { committing = true })
    else wakes l'

-- The rest of end_op where it commits; then it wakes the waiting processes.
pub finish_commit : {D : Type 0} → Log → Machine D → Log × Machine D
unfolding commit
finish_commit l m =
    let (lh', m') = commit l.start l.lh m in (record l { lh = lh'; committing = false }, m')

-- The index of the first entry for the block among the next `k`, or the index behind them.
find_entry : ℕ → ℕ → Mem ℕ → ℕ → ℕ
find_entry zero i block b = i
find_entry (suc k) i block b = if block i == b then i else find_entry k (i + 1) block b

-- `none` is a panic.
pub log_write : {D : Type 0} → Log → Machine D → ℕ → Option (Log × Machine D)
unfolding find_entry
log_write l m b =
    let i = find_entry l.lh.n 0 l.lh.block b in
    let block' = store l.lh.block i b in
    if leb logblocks l.lh.n
    then none
    else if ltb l.outstanding 1
    then none
    else if i == l.lh.n
    then some (record l { lh = record { n = l.lh.n + 1; block = block' } }, bpin b m)
    else some (record l { lh = record { n = l.lh.n; block = block' } }, m)
