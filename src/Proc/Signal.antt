-- ===== src/Proc/Signal.antt =====
-- wakeup, kkill, setkilled, killed and the state change of sleep in kernel/proc.c.
pub mod Wake
pub mod Kill
use group10os.Prelude.{
  ℕ, zero, suc, ◌+◌, Bool, true, false, not, ◌&&◌, List, [], ◌∷◌, Option, none, some, ◌==◌,
  if◌then◌else◌, get_elem?,
}
use group10os.Prelude.Int.{ℤ, pos, negsuc}
use group10os.Proc.{
  Proc, ProcState, runnable, sleeping, is_sleeping, Chan, no_chan, same_chan, update_at,
}

abbrev pub wake : Chan → Proc → Proc
wake chan p =
    if is_sleeping p.state && same_chan p.chan chan then record p { state = runnable } else p

-- The loop of wakeup over the entries from index `i` on; `me` is the index of myproc(), or `none`.
wakeup_from : Option ℕ → Chan → List Proc → ℕ → List Proc
wakeup_from me chan [] i = []
wakeup_from me chan (p ∷ ps) i =
    (elim me [ none ↦ wake chan p | some j ↦ if i == j then p else wake chan p ])
    ∷ wakeup_from me chan ps (i + 1)

unfoldable pub wakeup : Option ℕ → Chan → List Proc → List Proc
unfolding wakeup_from
wakeup me chan procs = wakeup_from me chan procs 0

abbrev pub kill : Proc → Proc
kill p =
    if is_sleeping p.state
    then record p { killed = true; state = runnable }
    else record p { killed = true }

-- The result and the table.
unfoldable pub kkill : ℕ → List Proc → ℤ × List Proc
kkill pid [] = (negsuc 0, [])
kkill pid (p ∷ ps) =
    let rest = kkill pid ps in if p.pid == pid then (pos 0, kill p ∷ ps) else (rest.0, p ∷ rest.1)

pub setkilled : ℕ → List Proc → List Proc
setkilled i procs = update_at procs i (λ p. record p { killed = true })

-- What sleep does before it gives up the processor, and after it gets it back.
abbrev pub goes_to_sleep : Chan → Proc → Proc
goes_to_sleep chan p = record p { chan = chan; state = sleeping }

abbrev pub tidies_up : Proc → Proc
tidies_up p = record p { chan = no_chan }
