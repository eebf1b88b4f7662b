-- ===== src/Shell/TooMany.antt =====
-- user/sh.c refuses a command with more arguments than it has room for.
use group10os.Prelude.{suc, ◌≤◌, ◌≡◌, refl, List, [], ◌∷◌, arith, All, length}
use group10os.Shell.{panic, maxargs, parsepipe, parseline, parsecmd}
use group10os.Shell.Token.{print, peek-print, length-print}
use group10os.Shell.Grammar.{
  Redirection, Arg, put_redirs, put_args, redirs_of, IsRedirection, IsArg, put_redirs-Grows,
  put_args-Grows,
}
use group10os.Shell.Redirs.{parseredirs-print}
use group10os.Shell.Args.{parseargs-panic, put_args-Ends}
use group10os.Shell.Phrases.{starts-simple}

-- A line that is one command panics where that has as many words as the array of arguments has places,
-- or more.
pub parsecmd-panic_args :
    (rs : List Redirection) (args : List Arg)
    → All IsRedirection rs
    → All IsArg args
    → maxargs ≤ length args
    → parsecmd (print (put_redirs rs (put_args args []))) ≡ panic
unfolding parseline parsepipe
parsecmd-panic_args rs args ir ia full =
    let us = put_args args [] in
    let (b, _) = put_args-Grows args [] [] ia (tt, omega arith) in
    let (c, _) = put_redirs-Grows rs us us ir (b, omega arith) in
    let fits = length-print (put_redirs rs us) in
    let fits' = length-print us in
    rw
      (
        peek-print (put_redirs rs us) (40 ∷ []) c,
        starts-simple rs args [] ia tt,
        parseredirs-print (suc (length (print (put_redirs rs us)))) [] rs us ir b
            (put_args-Ends args [] tt) (omega (arith, fits)),
        parseargs-panic (suc (length (print us))) [] (redirs_of rs) args [] ia tt tt (omega arith)
            (omega (arith, full)) (omega (arith, fits')),
      )
      refl
