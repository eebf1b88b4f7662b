-- ===== src/Pipe/Tests.antt =====
-- kernel/pipe.c on concrete pipes.
use group10os.Prelude.{◌-◌, ◌^◌, ◌≡◌, refl, Bool, true, false, List, [], ◌∷◌, some, arith}
use group10os.Prelude.Int.{pos, negsuc}
use group10os.Pipe.{Pipe, write_cs, read_cs, pipeclose}
use group10os.Pipe.Ring.{IsValid, contents}
use group10os.Pipe.Turns.{
  Move, writer, reader, closes, writer_from, reader_from, step, starting, run,
}
use group10os.Pipe.Fifo.{Conserves, run-Conserves}
use group10os.Pipe.Loops.{
  pipewrite, piperead, alone, undisturbed, pipewrite-piperead, piperead_loses,
}
use group10os.Pipe.Peterson.{critical, initial, move, advance, schedule}
use group10os.Pipe.Peterson.Exclusion.{schedule-excludes}

-- The counters are about to wrap, and one byte is in the pipe.
abbrev about_to_wrap : Pipe
about_to_wrap = record {
  data_buf = λ _. 5;
  nread = 2 ^ 32 - 2;
  nwrite = 2 ^ 32 - 1;
  readopen = true;
  writeopen = true;
}

about_to_wrap-IsValid : IsValid about_to_wrap
about_to_wrap-IsValid = omega arith

abbrev blank : Pipe
blank = record { data_buf = λ _. 0; nread = 0; nwrite = 0; readopen = true; writeopen = true }

blank-IsValid : IsValid blank
blank-IsValid = omega arith

-- The writer goes in and out; the reader comes while the writer is in its section.
abbrev script : List Move
script =
    writer 9 ∷ writer 9 ∷ writer 9 ∷ reader ∷ reader ∷ writer 9 ∷ closes true ∷ reader ∷ reader ∷ []

run-Conserves_example :
    let s = run (starting about_to_wrap) script in Conserves about_to_wrap s.pipe s.sent s.received
run-Conserves_example = run-Conserves about_to_wrap script about_to_wrap-IsValid

script-moves :
    let s = run (starting about_to_wrap) script in (s.sent ≡ 9 ∷ []) × (s.received ≡ 5 ∷ [])
unfolding run step writer_from reader_from advance move write_cs read_cs pipeclose
script-moves = (refl, refl)

pipewrite-piperead_example :
    (p' p'' : Pipe) × (pipewrite (alone (1 ∷ 2 ∷ [])) blank 2 ≡ some (pos 2, p'))
    × (contents p' ≡ 1 ∷ 2 ∷ [])
    × (piperead (undisturbed 2) p' 2 ≡ some (pos 2, 1 ∷ 2 ∷ [], p''))
    × (contents p'' ≡ [])
pipewrite-piperead_example =
    pipewrite-piperead (1 ∷ 2 ∷ []) blank blank-IsValid refl refl (omega arith)

piperead_loses_example :
    (p' : Pipe) × (piperead
        (record { before = []; killed = false; inside = []; copied = false } ∷ [])
        about_to_wrap
        1
      ≡ some (negsuc 0, [], p'))
    × (contents p' ≡ [])
piperead_loses_example = piperead_loses about_to_wrap 5 0 [] [] about_to_wrap-IsValid refl

abbrev turns : List Bool
turns = true ∷ false ∷ true ∷ false ∷ true ∷ false ∷ true ∷ []

schedule-excludes_example :
    let t = schedule false true initial turns in ¬ ((t.first ≡ critical) × (t.second ≡ critical))
schedule-excludes_example = schedule-excludes turns
