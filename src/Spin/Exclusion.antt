-- ===== src/Spin/Exclusion.antt =====
-- Mutual exclusion by acquire and release of kernel/spinlock.c.
use group10os.Prelude.{
  ℕ, ◌≡◌, refl, ap, ◌≢◌, Bool, true, false, List, [], ◌∷◌, arith, ◌==◌, Bool-cases, inl, inr,
  ==_iff, ==_refl,
}
use mathlib.Core.Path.{subst}
use group10os.Prelude.Memory.{store}
use group10os.Spin.{
  Cpu, Spinlock, initlock, is_cpu, holding, Place, outside, spinning, taken, critical, leaving,
  unlocked, panicked, Moved, move, Machine, advance, schedule,
}

-- The hart owns the lock.
abbrev inside : Place → Bool
inside taken = true
inside critical = true
inside leaving = true
inside _ = false

abbrev is_critical : Place → Bool
is_critical critical = true
is_critical _ = false

-- What holds of a hart at a place.
abbrev At : Place → Cpu → Type 0
At outside c = c.noff ≡ 0
At panicked c = ⊥
At _ c = (c.noff ≡ 1) × (c.intr ≡ false)

record Local (me : ℕ) (p : Place) (c : Cpu) (lk : Spinlock) : Type 0 where
  owns : inside p ≡ true → lk.locked ≡ true
  named : is_cpu me lk.cpu ≡ is_critical p
  at : At p c

abbrev Stepped : ℕ → Moved → Type 0
Stepped me r = Local me r.0 r.1 r.2

move-Local :
    (me : ℕ) (p : Place) (c : Cpu) (lk : Spinlock) → Local me p c lk → Stepped me (move me p c lk)
unfolding move
move-Local me outside c lk v = ground arith
move-Local me spinning c lk v = ground arith
move-Local me taken c lk v = ground arith
move-Local me critical c lk v = ground arith
move-Local me leaving c lk v = ground arith
move-Local me unlocked c lk v = ground arith
move-Local me panicked c lk v = ground arith

-- A step of another hart keeps what holds of this one, unless both own the lock.
move-other :
    (me g : ℕ) (p q : Place) (c d : Cpu) (lk : Spinlock)
    → g ≢ me
    → (inside q ≡ true → inside p ≡ false)
    → Local me p c lk
    → Local g q d lk
    → Local g q d (move me p c lk).2
unfolding move
move-other me g outside q c d lk n x v u = ground arith
move-other me g spinning q c d lk n x v u = ground arith
move-other me g taken q c d lk n x v u = record {
  owns = ground arith;
  named = ground arith;
  at = u.at;
}
move-other me g critical q c d lk n x v u = record {
  owns = ground arith;
  named = ground arith;
  at = u.at;
}
move-other me g leaving q c d lk n x v u = ground arith
move-other me g unlocked q c d lk n x v u = ground arith
move-other me g panicked q c d lk n x v u = ground arith

-- A hart does not come to own the lock while another one does.
move-alone :
    (me g : ℕ) (p q : Place) (c d : Cpu) (lk : Spinlock)
    → (inside q ≡ true → inside p ≡ false)
    → Local me p c lk
    → Local g q d lk
    → inside q ≡ true
    → inside (move me p c lk).0 ≡ false
unfolding move
move-alone me g outside q c d lk x v u h = ground arith
move-alone me g spinning q c d lk x v u h = ground arith
move-alone me g taken q c d lk x v u h = ground arith
move-alone me g critical q c d lk x v u h = ground arith
move-alone me g leaving q c d lk x v u h = ground arith
move-alone me g unlocked q c d lk x v u h = ground arith
move-alone me g panicked q c d lk x v u h = ground arith

record IsGuarded (s : Machine) : Type 0 where
  local : (h : ℕ) → Local h (s.place h) (s.hart h) s.lock
  alone : (g h : ℕ) → g ≢ h → inside (s.place g) ≡ true → inside (s.place h) ≡ false

advance-Local :
    (s : Machine) (me h : ℕ)
    → IsGuarded s
    → Local h ((advance s me).place h) ((advance s me).hart h) (advance s me).lock
unfolding advance
advance-Local s me h v =
    let new = move me (s.place me) (s.hart me) s.lock in
    let mine : Local me (store s.place me new.0 me) (store s.hart me new.1 me) new.2 =
      rw (==_refl me) (move-Local me (s.place me) (s.hart me) s.lock (v.local me)) in
    elim (Bool-cases (me == h)) [
      | inl e ↦
          subst (λ g. Local g (store s.place me new.0 g) (store s.hart me new.1 g) new.2)
            ((==_iff me h).0 e) mine
      | inr e ↦ rw e (
          move-other me h (s.place me) (s.place h) (s.hart me) (s.hart h) s.lock (λ w. ground arith)
            (v.alone h me (λ w. ground arith)) (v.local me) (v.local h))
    ]

advance-alone :
    (s : Machine) (me g : ℕ)
    → IsGuarded s
    → g ≢ me
    → inside (s.place g) ≡ true
    → inside (move me (s.place me) (s.hart me) s.lock).0 ≡ false
advance-alone s me g v n =
    move-alone me g (s.place me) (s.place g) (s.hart me) (s.hart g) s.lock (v.alone g me n)
      (v.local me) (v.local g)

advance-IsGuarded : (s : Machine) (me : ℕ) → IsGuarded s → IsGuarded (advance s me)
unfolding advance
advance-IsGuarded s me v = record {
  local = λ h. advance-Local s me h v;
  alone = λ g h n i. ground (arith, advance-alone s me g v, advance-alone s me h v, v.alone g h n);
}

schedule-IsGuarded : (s : Machine) (hs : List ℕ) → IsGuarded s → IsGuarded (schedule s hs)
unfolding schedule
schedule-IsGuarded s [] v = v
schedule-IsGuarded s (h ∷ hs) v = schedule-IsGuarded (advance s h) hs (advance-IsGuarded s h v)

-- The harts before any of them uses the lock, with interrupts on or off.
abbrev pub start : (ℕ → Cpu) → Machine
start harts = record { place = λ _. outside; hart = harts; lock = initlock }

start-IsGuarded : (harts : ℕ → Cpu) → ((h : ℕ) → (harts h).noff ≡ 0) → IsGuarded (start harts)
start-IsGuarded harts z = record {
  local = λ h. record { owns = λ e. ground arith; named = refl; at = z h };
  alone = λ g h n e. refl;
}

Local-holding :
    (h : ℕ) (p : Place) (c : Cpu) (lk : Spinlock)
    → Local h p c lk
    → p ≡ critical
    → (holding h lk ≡ true) × (c.intr ≡ false)
Local-holding h p c lk v e =
    let u : Local h critical c lk = subst (λ q. Local h q c lk) e v in ground arith

Local-no_panic : (h : ℕ) (p : Place) (c : Cpu) (lk : Spinlock) → Local h p c lk → p ≢ panicked
Local-no_panic h p c lk v e = (subst (λ q. Local h q c lk) e v).at

-- Harts that are not yet inside any push_off run acquire and release of one lock in any order of
-- their steps: a hart in the critical section is the only one there, holds the lock by the test of
-- `holding`, and has its interrupts off.
pub schedule-exclusive :
    (harts : ℕ → Cpu) (hs : List ℕ) (g h : ℕ)
    → ((k : ℕ) → (harts k).noff ≡ 0)
    → (schedule (start harts) hs).place g ≡ critical
    → (schedule (start harts) hs).place h ≡ critical
    → let s = schedule (start harts) hs in
      (g ≡ h) × (holding g s.lock ≡ true) × ((s.hart g).intr ≡ false)
schedule-exclusive harts hs g h z e f =
    let s = schedule (start harts) hs in
    let v = schedule-IsGuarded (start harts) hs (start-IsGuarded harts z) in
    let (held, off) = Local-holding g (s.place g) (s.hart g) s.lock (v.local g) e in
    (ground (arith, v.alone g h, ap inside e, ap inside f), held, off)

-- Harts that are not yet inside any push_off never come to a panic of acquire, release or pop_off,
-- in whatever order they make the steps of acquiring and releasing one lock.
pub schedule-no_panic :
    (harts : ℕ → Cpu) (hs : List ℕ) (h : ℕ)
    → ((k : ℕ) → (harts k).noff ≡ 0)
    → (schedule (start harts) hs).place h ≢ panicked
schedule-no_panic harts hs h z =
    let s = schedule (start harts) hs in
    let v = schedule-IsGuarded (start harts) hs (start-IsGuarded harts z) in
    Local-no_panic h (s.place h) (s.hart h) s.lock (v.local h)
