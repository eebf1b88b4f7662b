-- ===== src/Shell/Tests.antt =====
-- Runs of the parser of user/sh.c, and the theorems at concrete inputs.
use group10os.Prelude.{ℕ, ◌≡◌, refl, List, [], ◌∷◌, arith}
use group10os.Shell.{
  execcmd, redircmd, parsed, panic, gettoken, peek, parseredirs, parseargs, parsepipe, parsebacks,
  parseline, parsecmd,
}
use group10os.Shell.Token.{print, IsWord, name, rpar}
use group10os.Shell.Grammar.{
  input, output, Arg, Line, line, seq, one, pipe, simple, block, put_redirs, put_args, put_line,
  line_cmd, IsLine,
}
use group10os.Shell.RoundTrip.{parseline-print, parsecmd-print}
use group10os.Shell.Total.{IsEnded, parsecmd-IsEnded}
use group10os.Shell.TooMany.{parsecmd-panic_args}

-- "ls", "wc", "f".
abbrev ls : List ℕ
ls = 108 ∷ 115 ∷ []

abbrev count_prog : List ℕ
count_prog = 119 ∷ 99 ∷ []

abbrev f : List ℕ
f = 102 ∷ []

abbrev arg : List ℕ → Arg
arg w = record { text = w; redirs = [] }

-- "ls < f | ( wc ; ls ) > f &".
abbrev some_line : Line
some_line =
    line
      (pipe (simple [] (record { text = ls; redirs = input f ∷ [] } ∷ [])) (
        one (
          block
            (seq (one (simple [] (arg count_prog ∷ []))) 0 (line (one (simple [] (arg ls ∷ []))) 0))
            (output f ∷ []))))
      1

ls-IsWord : IsWord ls
ls-IsWord = ((refl, refl), ((refl, refl), tt))

count_prog-IsWord : IsWord count_prog
count_prog-IsWord = ((refl, refl), ((refl, refl), tt))

f-IsWord : IsWord f
f-IsWord = ((refl, refl), tt)

some_line-IsLine : IsLine some_line
unfolding IsLine
some_line-IsLine = (
  (tt, ((ls-IsWord, (f-IsWord, tt)), tt), omega arith),
  (
    ((tt, ((count_prog-IsWord, tt), tt), omega arith), (tt, ((ls-IsWord, tt), tt), omega arith)),
    (f-IsWord, tt),
  ),
)

parsecmd-print_example : parsecmd (print (put_line some_line [])) ≡ parsed (line_cmd some_line)
parsecmd-print_example = parsecmd-print some_line some_line-IsLine

parseline-print_example :
    parseline 100 (print (put_line some_line (rpar ∷ name f ∷ [])))
    ≡ parsed (line_cmd some_line, print (rpar ∷ name f ∷ []))
unfolding put_line
parseline-print_example =
    parseline-print 100 some_line (rpar ∷ name f ∷ []) some_line-IsLine (tt, (f-IsWord, tt))
      (omega arith) (omega arith)

abbrev ten : List Arg
ten = arg ls ∷ arg f ∷ arg f ∷ arg f ∷ arg f ∷ arg f ∷ arg f ∷ arg f ∷ arg f ∷ arg f ∷ []

parsecmd-panic_args_example : parsecmd (print (put_redirs [] (put_args ten []))) ≡ panic
parsecmd-panic_args_example =
    parsecmd-panic_args [] ten tt
      (
        (ls-IsWord, tt),
        (
          (f-IsWord, tt),
          (
            (f-IsWord, tt),
            (
              (f-IsWord, tt),
              (
                (f-IsWord, tt),
                (
                  (f-IsWord, tt),
                  ((f-IsWord, tt), ((f-IsWord, tt), ((f-IsWord, tt), ((f-IsWord, tt), tt)))),
                ),
              ),
            ),
          ),
        ),
      )
      (omega arith)

-- "ls&wc": what stands behind the "&" is left over.
background_then_more : parsecmd (108 ∷ 115 ∷ 38 ∷ 119 ∷ 99 ∷ []) ≡ panic
unfolding gettoken peek parseredirs parseargs parsepipe parsebacks parseline
background_then_more = refl

-- "ls>>f" without spaces.
tight :
    parsecmd (108 ∷ 115 ∷ 62 ∷ 62 ∷ 102 ∷ [])
    ≡ parsed (redircmd (execcmd (ls ∷ [])) (record { file = f; mode = 513; fd = 1 }))
unfolding gettoken peek parseredirs parseargs parsepipe parsebacks parseline
tight = refl

parsecmd-IsEnded_example : IsEnded (parsecmd (40 ∷ 108 ∷ 115 ∷ []))
parsecmd-IsEnded_example = parsecmd-IsEnded (40 ∷ 108 ∷ 115 ∷ [])
