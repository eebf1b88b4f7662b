-- ===== src/Console/Tests.antt =====
-- kernel/console.c on a concrete buffer.
use group10os.Prelude.{◌-◌, ◌^◌, ◌≡◌, refl, [], ◌∷◌, some, true, arith, ◌==◌, if◌then◌else◌}
use group10os.Prelude.Int.{pos}
use group10os.Console.{Cons, newline, ctrl_u, consoleintr, interrupts, consoleread, consolewrite}
use group10os.Console.Buffer.{IsValid, committed, pending}
use group10os.Console.Line.{view, edit, Edited, consoleintr-Edited}
use group10os.Console.Read.{undisturbed, consoleread-line}

-- The counters are about to wrap, and "h" is typed.
abbrev one_typed : Cons
one_typed = record { buf = λ _. b'h'; r = 2 ^ 32 - 1; w = 2 ^ 32 - 1; e = 0 }

one_typed-IsValid : IsValid one_typed
one_typed-IsValid = record {
  r_uint = omega arith;
  w_uint = omega arith;
  e_uint = omega arith;
  ordered = refl;
  fits = omega arith;
  open_line = ((λ e. omega arith), tt);
}

consoleintr-Edited_example :
    Edited (consoleintr one_typed newline).0 (edit (view one_typed) newline)
consoleintr-Edited_example = consoleintr-Edited one_typed newline one_typed-IsValid (omega arith)

-- "ok" and a newline.
abbrev one_line : Cons
one_line = record {
  buf = λ i. (if i == 0 then b'o' else if i == 1 then b'k' else newline);
  r = 0;
  w = 3;
  e = 3;
}

one_line-IsValid : IsValid one_line
one_line-IsValid = record {
  r_uint = omega arith;
  w_uint = omega arith;
  e_uint = omega arith;
  ordered = refl;
  fits = omega arith;
  open_line = tt;
}

consoleread-line_example :
    (s' : Cons) × (consoleread (undisturbed 5) one_line 5
      ≡ some (pos 3, b'o' ∷ b'k' ∷ newline ∷ [], s'))
    × (committed s' ≡ [])
    × (pending s' ≡ [])
    × IsValid s'
consoleread-line_example =
    consoleread-line (b'o' ∷ b'k' ∷ []) [] one_line 5 one_line-IsValid refl
      (((λ e. omega arith), (λ e. omega arith)), (((λ e. omega arith), (λ e. omega arith)), tt))
      (omega arith)

interrupts_erase : pending (interrupts one_typed (b'e' ∷ ctrl_u ∷ b'x' ∷ [])) ≡ b'x' ∷ []
unfolding interrupts
interrupts_erase = refl

consolewrite_batches : consolewrite (λ _. true) 70 ≡ some (70, 32 ∷ 32 ∷ 6 ∷ [])
unfolding consolewrite
consolewrite_batches = refl
