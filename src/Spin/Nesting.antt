-- ===== src/Spin/Nesting.antt =====
-- The nesting of push_off and pop_off in kernel/spinlock.c.
use group10os.Prelude.{◌<◌, ◌≡◌, refl, ◌∙◌, false, List, [], ◌∷◌, ◌++◌, Option, none, some, arith}
use group10os.Spin.{Cpu, push_off, pop_off}

pub data Call : Type 0 where
  push pop : Call

-- A matched sequence of calls, as the tree of its pairs: a pair with what stands inside it, and what
-- follows it.
pub data Nest : Type 0 where
  done : Nest
  nest : Nest → Nest → Nest

abbrev pub calls : Nest → List Call
calls done = []
calls (nest inner next) = push ∷ (calls inner ++ (pop ∷ calls next))

abbrev pub and_then : Option Cpu → (Cpu → Option Cpu) → Option Cpu
and_then none f = none
and_then (some c) f = f c

abbrev pub call : Call → Cpu → Option Cpu
unfolding push_off pop_off
call push c = some (push_off c)
call pop c = pop_off c

abbrev pub run : List Call → Cpu → Option Cpu
run [] c = some c
run (x ∷ xs) c = and_then (call x c) (run xs)

run-append_from :
    (xs ys : List Call) (o : Option Cpu)
    → ((c : Cpu) → run (xs ++ ys) c ≡ and_then (run xs c) (run ys))
    → and_then o (run (xs ++ ys)) ≡ and_then (and_then o (run xs)) (run ys)
run-append_from xs ys none h = refl
run-append_from xs ys (some c) h = h c

run-append : (xs ys : List Call) (c : Cpu) → run (xs ++ ys) c ≡ and_then (run xs c) (run ys)
run-append [] ys c = refl
run-append (x ∷ xs) ys c = run-append_from xs ys (call x c) (run-append xs ys)

-- Inside a pair interrupts are off.
abbrev pub IsOff : Cpu → Type 0
IsOff c = 0 < c.noff → c.intr ≡ false

abbrev pub Restored : Cpu → Cpu → Type 0
Restored c c' = (c'.noff ≡ c.noff) × (c'.intr ≡ c.intr) × (0 < c.noff → c'.intena ≡ c.intena)

-- What pop_off gives behind the inner calls.
abbrev Popped : Cpu → Cpu → Type 0
unfolding pop_off
Popped c d = (c' : Cpu) × (pop_off d ≡ some c') × Restored c c' × IsOff c'

push_off-pop_off : (c d : Cpu) → IsOff c → Restored (push_off c) d → Popped c d
unfolding push_off pop_off
push_off-pop_off c d v r =
    let c' : Cpu = record d { noff = c.noff; intr = c.intr } in
    (c', ground arith, (refl, refl, ground arith), v)

-- A matched sequence of push_off and pop_off does not panic and leaves interrupts as they were,
-- on or off, whatever pairs are nested in it.
pub calls-Restored :
    (t : Nest) (c : Cpu) → IsOff c → (c' : Cpu) × (run (calls t) c ≡ some c') × Restored c c'
unfolding push_off call Popped
calls-Restored done c v = (c, refl, (refl, refl, λ _. refl))
calls-Restored (nest inner next) c v =
    let (d, e, r) = calls-Restored inner (push_off c) (λ _. refl) in
    let (c1, f, r1, v1) = push_off-pop_off c d v r in
    let (c2, g, r2) = calls-Restored next c1 v1 in
    (
      c2,
      rw (run-append (calls inner) (pop ∷ calls next) (push_off c), e, f) g,
      (r2.0 ∙ r1.0, r2.1 ∙ r1.1, λ h. ground arith),
    )
