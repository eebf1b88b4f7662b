-- ===== src/Pipe/Turns.antt =====
-- kernel/pipe.c: one process that writes and one that reads, at the steps of Peterson's algorithm, and
-- what each has seen of the pipe.
use group10os.Prelude.{ℕ, Bool, true, false, List, [], ◌∷◌, ◌++◌}
use group10os.Pipe.{
  Pipe, WriteResult, no_reader, full, stored, ReadResult, eof, empty, got, write_cs, read_cs,
  pipeclose,
}
use group10os.Pipe.Peterson.{Place, critical, Tasks, initial, advance}

abbrev pub sent_by : ℕ → WriteResult → List ℕ
sent_by ch no_reader = []
sent_by ch full = []
sent_by ch stored = ch ∷ []

abbrev pub received_by : ReadResult → List ℕ
received_by eof = []
received_by empty = []
received_by (got ch) = ch ∷ []

-- The writer and the reader at their steps of Peterson's algorithm, the pipe, and what each of them has
-- seen of it; the bytes that went in and those that came out.
pub record System : Type 0 where
  pub tasks : Tasks
  pub pipe : Pipe
  pub seen0 : Pipe
  pub seen1 : Pipe
  pub sent : List ℕ
  pub received : List ℕ

-- A task that comes into its critical section takes the pipe as it finds it.
abbrev pub look : Place → Pipe → Pipe → Pipe
look critical p seen = p
look _ p seen = seen

-- A critical section is not one step: what a task does there it does to the pipe that it saw when it
-- came in, and it puts the outcome in the place of the pipe when it leaves, over all that has
-- happened in between.
unfoldable pub writer_from : Place → Tasks → ℕ → System → System
writer_from critical t ch s =
    let (r, p) = write_cs s.seen0 ch in
    record s { tasks = t; pipe = p; sent = s.sent ++ sent_by ch r }
writer_from _ t ch s = record s { tasks = t; seen0 = look t.first s.pipe s.seen0 }

unfoldable pub reader_from : Place → Tasks → System → System
reader_from critical t s =
    let (r, p) = read_cs s.seen1 in
    record s { tasks = t; pipe = p; received = s.received ++ received_by r }
reader_from _ t s = record s { tasks = t; seen1 = look t.second s.pipe s.seen1 }

-- One step of the writer, with the byte that it has to write; one of the reader; or a close of one end.
-- The two flags are words of their own, which no critical section writes, so a close is seen at once.
pub data Move : Type 0 where
  writer : ℕ → Move
  reader : Move
  closes : Bool → Move

unfoldable pub step : System → Move → System
unfolding writer_from reader_from
step s (writer ch) = writer_from s.tasks.first (advance false true s.tasks true) ch s
step s reader = reader_from s.tasks.second (advance false true s.tasks false) s
step s (closes writable) = record s {
  pipe = (pipeclose s.pipe writable).1;
  seen0 = (pipeclose s.seen0 writable).1;
  seen1 = (pipeclose s.seen1 writable).1;
}

unfoldable pub run : System → List Move → System
unfolding step
run s [] = s
run s (m ∷ ms) = run (step s m) ms

-- Nobody wants in, and nothing has gone in or out yet.
abbrev pub starting : Pipe → System
starting p = record { tasks = initial; pipe = p; seen0 = p; seen1 = p; sent = []; received = [] }
