-- ===== src/Proc/Signal/Wake.antt =====
-- Which processes wakeup of kernel/proc.c wakes.
use group10os.Prelude.{
  ℕ, zero, suc, ◌+◌, ◌≡◌, Bool, false, List, [], ◌∷◌, Option, none, some, arith, ◌==◌,
  if◌then◌else◌, get_elem?,
}
use group10os.Proc.{Proc, Chan}
use group10os.Proc.Signal.{wake, wakeup_from, wakeup}

-- The entry is the one of the calling process.
abbrev pub is_me : Option ℕ → ℕ → Bool
is_me none i = false
is_me (some j) i = i == j

wakeup_from_lem :
    (me : Option ℕ) (chan : Chan) (ps : List Proc) (i m : ℕ) (p : Proc)
    → get_elem? ps m ≡ some p
    → get_elem? (wakeup_from me chan ps i) m ≡ some (if is_me me (i + m) then p else wake chan p)
unfolding wakeup_from
wakeup_from_lem me chan [] i m p e = cc
wakeup_from_lem none chan (x ∷ ps) i zero p e = ground (arith, e)
wakeup_from_lem (some j) chan (x ∷ ps) i zero p e = ground (arith, e)
wakeup_from_lem none chan (x ∷ ps) i (suc m) p e =
    ground (arith, wakeup_from_lem none chan ps (i + 1) m p e)
wakeup_from_lem (some j) chan (x ∷ ps) i (suc m) p e =
    ground (arith, wakeup_from_lem (some j) chan ps (i + 1) m p e)

-- wakeup makes runnable exactly those processes other than the caller that sleep on the channel, and
-- changes nothing else of any entry.
wakeup_lem :
    (me : Option ℕ) (chan : Chan) (procs : List Proc) (m : ℕ) (p : Proc)
    → get_elem? procs m ≡ some p
    → get_elem? (wakeup me chan procs) m ≡ some (if is_me me m then p else wake chan p)
unfolding wakeup
wakeup_lem me chan procs m p e = ground (arith, wakeup_from_lem me chan procs 0 m p e)
