-- ===== src/Pipe.antt =====
-- kernel/pipe.c: the ring of a pipe and what happens to it inside the critical section. `nread` and
-- `nwrite` are C `uint`s and wrap at 2^32. A byte is any number. The Peterson variables are in
-- Pipe/Peterson, and the loops of pipewrite and piperead in Pipe/Loops.
pub mod Ring
pub mod Event
pub mod Turns
pub mod Fifo
pub mod Loops
pub mod Peterson
mod Tests
use group10os.Prelude.{ℕ, ◌+◌, ◌%◌, ◌^◌, Bool, true, false, not, ◌&&◌, ◌==◌, if◌then◌else◌}
use group10os.Prelude.Memory.{Mem, store}

abbrev pub pipesize : ℕ
pipesize = 512

abbrev pub add_uint : ℕ → ℕ → ℕ
add_uint a b = (a + b) % 2 ^ 32

pub record Pipe : Type 0 where
  pub data_buf : Mem ℕ
  pub nread : ℕ
  pub nwrite : ℕ
  pub readopen : Bool
  pub writeopen : Bool

-- What pipealloc sets in the page that kalloc gave it; the bytes of the buffer are whatever they were.
pub fresh : Mem ℕ → Pipe
fresh buf = record { data_buf = buf; nread = 0; nwrite = 0; readopen = true; writeopen = true }

pub data WriteResult : Type 0 where
  no_reader full stored : WriteResult

pub data ReadResult : Type 0 where
  eof empty : ReadResult
  got : ℕ → ReadResult

-- `pi->data[pi->nwrite++ % PIPESIZE] = ch`
abbrev pub put : Pipe → ℕ → Pipe
put p ch = record p {
  data_buf = store p.data_buf (p.nwrite % pipesize) ch;
  nwrite = add_uint p.nwrite 1;
}

-- The critical section of pipewrite, from peterson_enter to peterson_exit, as what it makes of the pipe
-- that it finds. It is one step only where one process writes and one reads: every writer has id 0, so
-- that Peterson's algorithm does not keep two writers apart. Pipe/Turns does not take it as one step:
-- there the pipe is read at its start and put back at its end.
pub write_cs : Pipe → ℕ → WriteResult × Pipe
write_cs p ch =
    if not p.readopen
    then (no_reader, p)
    else if p.nwrite == add_uint p.nread pipesize
    then (full, p)
    else (stored, put p ch)

-- The critical section of piperead, likewise: every reader has id 1.
pub read_cs : Pipe → ReadResult × Pipe
read_cs p =
    if p.nread == p.nwrite
    then (if not p.writeopen then (eof, p) else (empty, p))
    else (got (p.data_buf (p.nread % pipesize)), record p { nread = add_uint p.nread 1 })

-- Whether pipeclose frees the page of the pipe, beside the pipe.
pub pipeclose : Pipe → Bool → Bool × Pipe
pipeclose p writable =
    let p' = if writable then record p { writeopen = false } else record p { readopen = false } in
    (not p'.readopen && not p'.writeopen, p')
