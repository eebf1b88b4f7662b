-- ===== src/Spin.antt =====
-- kernel/spinlock.c: push_off and pop_off on one hart, and acquire and release of one lock as the
-- steps of many harts, each of which makes at most one write to the lock. The atomic swap and the
-- fences are those of a sequentially consistent memory. The lock's name is left out.
pub mod Nesting
pub mod Exclusion
mod Tests
use group10os.Prelude.{
  ℕ, ◌+◌, ◌-◌, Bool, true, false, not, ◌&&◌, List, [], ◌∷◌, Option, none, some, ltb, ◌==◌,
  if◌then◌else◌,
}
use group10os.Prelude.Memory.{store}

-- `noff` and `intena` of `struct cpu`, and whether the hart takes interrupts.
pub record Cpu : Type 0 where
  pub noff : ℕ
  pub intena : Bool
  pub intr : Bool

pub push_off : Cpu → Cpu
push_off c = record {
  noff = c.noff + 1;
  intena = if c.noff == 0 then c.intr else c.intena;
  intr = false;
}

-- `none` is a panic.
pub pop_off : Cpu → Option Cpu
pop_off c =
    let n = c.noff - 1 in
    if c.intr
    then none
    else if ltb c.noff 1
    then none
    else some (record c { noff = n; intr = if n == 0 && c.intena then true else c.intr })

-- `cpu` is the number of the hart, or `none` for null.
pub record Spinlock : Type 0 where
  pub locked : Bool
  pub cpu : Option ℕ

abbrev pub initlock : Spinlock
initlock = record { locked = false; cpu = none }

abbrev pub is_cpu : ℕ → Option ℕ → Bool
is_cpu me none = false
is_cpu me (some c) = c == me

abbrev pub holding : ℕ → Spinlock → Bool
holding me lk = lk.locked && is_cpu me lk.cpu

-- Where a hart stands: before acquire, at the swap, behind the swap, in the critical section, behind
-- `lk->cpu = 0` of release, behind the release of the lock, or after a panic.
pub data Place : Type 0 where
  outside spinning taken critical leaving unlocked panicked : Place

abbrev pub Moved : Type 0
Moved = Place × Cpu × Spinlock

-- The last step of release.
abbrev popped : Option Cpu → Cpu → Spinlock → Moved
popped none c lk = (panicked, c, lk)
popped (some c') c lk = (outside, c', lk)

-- The next step of the hart `me`.
pub move : ℕ → Place → Cpu → Spinlock → Moved
unfolding push_off pop_off
move me outside c lk =
    let c' = push_off c in if holding me lk then (panicked, c', lk) else (spinning, c', lk)
move me spinning c lk =
    if lk.locked then (spinning, c, lk) else (taken, c, record lk { locked = true })
move me taken c lk = (critical, c, record lk { cpu = some me })
move me critical c lk =
    if not (holding me lk) then (panicked, c, lk) else (leaving, c, record lk { cpu = none })
move me leaving c lk = (unlocked, c, record lk { locked = false })
move me unlocked c lk = popped (pop_off c) c lk
move me panicked c lk = (panicked, c, lk)

pub record Machine : Type 0 where
  pub place : ℕ → Place
  pub hart : ℕ → Cpu
  pub lock : Spinlock

pub advance : Machine → ℕ → Machine
advance s me =
    let (p, c, lk) = move me (s.place me) (s.hart me) s.lock in
    record { place = store s.place me p; hart = store s.hart me c; lock = lk }

-- The harts after a schedule, which says who makes each step.
pub schedule : Machine → List ℕ → Machine
unfolding advance move
schedule s [] = s
schedule s (h ∷ hs) = schedule (advance s h) hs
