-- ===== src/Proc.antt =====
-- The process table of kernel/proc.c and kernel/proc.h. A `struct proc *` is an index into the table,
-- and a null one `none`; other pointers are numbers, with 0 for null. `killed` and `throttled` are
-- flags. The name is read as the bytes behind its pointer. A counter of type `int` is a number: its
-- overflow is undefined in C, and is not modelled. Each function runs under the locks that it takes.
pub mod Sched
pub mod Quota
pub mod Signal
pub mod Life
mod Tests
use group10os.Prelude.{
  ℕ, zero, suc, ◌+◌, ◌≡◌, refl, Bool, true, false, List, [], ◌∷◌, Option, none, some, ◌==◌,
  get_elem?, length,
}
use group10os.Prelude.Memory.{Mem}
use group10os.Prelude.Int.{ℤ}

pub data ProcState : Type 0 where
  unused used sleeping runnable running zombie : ProcState

abbrev pub is_unused : ProcState → Bool
is_unused unused = true
is_unused _ = false

abbrev pub is_sleeping : ProcState → Bool
is_sleeping sleeping = true
is_sleeping _ = false

abbrev pub is_runnable : ProcState → Bool
is_runnable runnable = true
is_runnable _ = false

abbrev pub is_running : ProcState → Bool
is_running running = true
is_running _ = false

abbrev pub is_zombie : ProcState → Bool
is_zombie zombie = true
is_zombie _ = false

-- A wait channel: null, the address of an entry of the table, or any other address.
pub data Chan : Type 0 where
  no_chan : Chan
  of_proc of_addr : ℕ → Chan

abbrev pub same_chan : Chan → Chan → Bool
same_chan no_chan no_chan = true
same_chan (of_proc a) (of_proc b) = a == b
same_chan (of_addr a) (of_addr b) = a == b
same_chan _ _ = false

pub record Proc : Type 0 where
  pub state : ProcState
  pub chan : Chan
  pub killed : Bool
  pub xstate : ℤ
  pub pid : ℕ
  pub waiting_tick : ℕ
  pub parent : Option ℕ
  pub sz : ℕ
  pub pagetable : ℕ
  pub trapframe : ℕ
  pub frame : Mem ℕ
  pub ofile : List ℕ
  pub cwd : ℕ
  pub name : ℕ → ℕ
  pub cpu_quota : ℕ
  pub cpu_used_in_window : ℕ
  pub throttled : Bool
  pub quota_violations : ℕ

pub record Kernel : Type 0 where
  pub procs : List Proc
  pub nextpid : ℕ
  pub initproc : ℕ
  pub ticks : ℕ
  pub quota_window_start : ℕ
  pub eco_mode : ℕ

-- The table with a change to the entry at an index.
abbrev pub update_at : List Proc → ℕ → (Proc → Proc) → List Proc
update_at [] i f = []
update_at (p ∷ ps) zero f = f p ∷ ps
update_at (p ∷ ps) (suc i) f = p ∷ update_at ps i f
