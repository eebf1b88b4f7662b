-- ===== src/Log/Tests.antt =====
-- kernel/log.c on a small disk: the log stands at block 2, and a transaction changes blocks 50 and 60.
use group10os.Prelude.{
  ℕ, zero, suc, ◌+◌, ◌<◌, ◌≡◌, refl, ◌≢◌, inr, false, [], ◌∷◌, none, arith, All, get_or, ◌==◌,
  if◌then◌else◌,
}
use group10os.Prelude.Memory.{Mem}
use group10os.Log.{LogHeader, Disk, Machine, recover_from_log, commit}
use group10os.Log.Install.{IsHome, IsHeader, Committed}
use group10os.Log.Crash.{boot, restart, Shows, recover-restart}
use group10os.Log.Commit.{Ready, Atomic, commit-Atomic}
use group10os.Log.Ops.{Log, begin_op, end_op, panics, log_write}
use group10os.Log.Ops.Reserve.{System, begins, Reach, here, next, Reserved, Reach-no_panic}

abbrev entries : Mem ℕ
entries i = get_or (50 ∷ 60 ∷ []) i 0

abbrev header : LogHeader
header = record { n = 2; block = entries }

abbrev no_header : LogHeader
no_header = record { n = 0; block = λ _. 0 }

abbrev old_disk : Disk ℕ
old_disk = record { header = no_header; blocks = λ b. b }

abbrev changed : ℕ → ℕ
changed b = if b == 50 then 500 else if b == 60 then 600 else b

abbrev machine : Machine ℕ
machine = record { disk = old_disk; cache = changed; refcnt = λ _. 1; history = old_disk ∷ [] }

header-IsHome : (i : ℕ) → i < 2 → IsHome 2 (entries i)
header-IsHome zero h = inr (omega arith)
header-IsHome (suc zero) h = inr (omega arith)
header-IsHome (suc (suc i)) h = absurd (omega arith)

header-IsHeader : IsHeader 2 header
header-IsHeader = record { fits = omega arith; home = header-IsHome }

machine-Ready : Ready 2 header header-IsHeader machine
machine-Ready = record { empty = refl; clean = λ b hb free. ground (arith, free 0, free 1) }

commit-Atomic_example :
    All (Atomic 2 header header-IsHeader machine no_header) (commit 2 header machine).1.history
commit-Atomic_example = commit-Atomic 2 header header-IsHeader machine no_header machine-Ready refl

-- The disk just after the header was written.
abbrev committed_disk : Disk ℕ
committed_disk = record {
  header = header;
  blocks = λ b. if b == 3 then 500 else if b == 4 then 600 else b;
}

committed_logged : (i : ℕ) → i < 2 → committed_disk.blocks (2 + i + 1) ≡ changed (entries i)
committed_logged zero h = refl
committed_logged (suc zero) h = refl
committed_logged (suc (suc i)) h = absurd (omega arith)

committed_disk-Committed : Committed 2 header header-IsHeader changed 0 committed_disk
committed_disk-Committed = record {
  count = refl;
  named = λ i h. refl;
  logged = committed_logged;
  rest = λ b hb free. ground (arith, free 0, free 1);
}

recover-restart_example :
    All
      (λ e. Shows 2 changed (restart 2 no_header e))
      (recover_from_log 2 no_header (boot committed_disk)).1.history
recover-restart_example =
    recover-restart 2 header header-IsHeader changed no_header committed_disk
      committed_disk-Committed

abbrev idle_log : Log
idle_log = record { start = 2; outstanding = 0; committing = false; lh = no_header }

abbrev busy_log : Log
busy_log = record { start = 2; outstanding = 1; committing = false; lh = no_header }

abbrev idle : System ℕ
idle = record { log = idle_log; machine = machine; left = [] }

abbrev busy : System ℕ
busy = record { log = busy_log; machine = machine; left = 10 ∷ [] }

idle-Reserved : Reserved idle
idle-Reserved = record {
  counted = refl;
  fits = omega arith;
  allowance = tt;
  absorbed = λ i j p q. absurd (omega arith);
  quiet = λ h. refl;
}

idle-Reach-busy : Reach idle busy
unfolding begin_op
idle-Reach-busy = next here (begins refl refl refl)

Reach-no_panic_example :
    (end_op busy_log ≢ panics) × (0 < 10 → log_write busy_log machine 50 ≢ none)
Reach-no_panic_example = Reach-no_panic idle busy 10 50 [] [] idle-Reserved idle-Reach-busy refl
