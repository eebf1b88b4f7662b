-- ===== src/Pipe/Event.antt =====
-- kernel/pipe.c: what other processes do to a pipe between the critical sections of one.
use group10os.Prelude.{ℕ, Bool, List, [], ◌∷◌}
use group10os.Pipe.{Pipe, write_cs, read_cs, pipeclose}

-- A critical section of the process at the other end, or a close of one end. Behind peterson_enter the
-- other participant is kept out, so that its section is wholly before or wholly behind this one.
pub data Event : Type 0 where
  writes : ℕ → Event
  reads : Event
  closes : Bool → Event

happens : Pipe → Event → Pipe
happens p (writes ch) = (write_cs p ch).1
happens p reads = (read_cs p).1
happens p (closes writable) = (pipeclose p writable).1

unfoldable pub meanwhile : Pipe → List Event → Pipe
unfolding happens
meanwhile p [] = p
meanwhile p (e ∷ es) = meanwhile (happens p e) es
