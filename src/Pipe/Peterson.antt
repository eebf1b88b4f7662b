-- ===== src/Pipe/Peterson.antt =====
-- peterson_enter and peterson_exit of kernel/pipe.c as the steps of two tasks on the shared
-- variables: each step makes at most one access to them. A task is given with the participant that
-- it acts for, false for the writer (id 0) and true for the reader (id 1). The `yield` of the waiting
-- loop leaves it to the schedule who goes on.
pub mod Exclusion
use group10os.Prelude.{Bool, true, false, not, List, [], ◌∷◌, if◌then◌else◌}

-- pi->want[0], pi->want[1] and pi->turn.
pub record Shared : Type 0 where
  pub want0 : Bool
  pub want1 : Bool
  pub turn : Bool

abbrev pub want : Bool → Shared → Bool
want false s = s.want0
want true s = s.want1

abbrev pub set_want : Bool → Bool → Shared → Shared
set_want false v s = record s { want0 = v }
set_want true v s = record s { want1 = v }

-- Where a task stands: before peterson_enter, behind `want[me] = 1`, at the first and at the second
-- test of the waiting loop, or in the critical section.
pub data Place : Type 0 where
  outside raised testing comparing critical : Place

abbrev pub same : Bool → Bool → Bool
same true b = b
same false b = not b

-- The next step of the task.
unfoldable pub move : Bool → Place → Shared → Place × Shared
move me outside s = (raised, set_want me true s)
move me raised s = (testing, record s { turn = not me })
move me testing s = if want (not me) s then (comparing, s) else (critical, s)
move me comparing s = if same s.turn (not me) then (testing, s) else (critical, s)
move me critical s = (outside, set_want me false s)

pub record Tasks : Type 0 where
  pub first : Place
  pub second : Place
  pub shared : Shared

-- pipealloc: nobody wants in.
abbrev pub initial : Tasks
initial = record {
  first = outside;
  second = outside;
  shared = record { want0 = false; want1 = false; turn = false };
}

-- One step of the first task (true) or of the second.
unfoldable pub advance : Bool → Bool → Tasks → Bool → Tasks
unfolding move
advance id1 id2 t true =
    let (p, s) = move id1 t.first t.shared in record t { first = p; shared = s }
advance id1 id2 t false =
    let (p, s) = move id2 t.second t.shared in record t { second = p; shared = s }

-- The tasks after a schedule, which says who makes each step.
unfoldable pub schedule : Bool → Bool → Tasks → List Bool → Tasks
unfolding advance
schedule id1 id2 t [] = t
schedule id1 id2 t (b ∷ bs) = schedule id1 id2 (advance id1 id2 t b) bs
