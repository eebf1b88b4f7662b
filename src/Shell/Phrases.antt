-- ===== src/Shell/Phrases.antt =====
-- parseexec, parsepipe and the loop of parseline in user/sh.c read the phrases of the grammar, where
-- parseline does.
use group10os.Prelude.{ℕ, zero, suc, ◌<◌, ◌≡◌, refl, true, false, List, [], ◌∷◌, arith, All, length}
use group10os.Shell.{
  strchr, symbols, Cmd, backcmd, Parser, parsed, starts, parseexec, parsepipe, parsebacks,
}
use group10os.Shell.Token.{
  Token, bar, lpar, rpar, semi, amp, less, greater, twice, name, print, IsToken, IsWord,
  gettoken-print, peek-print, length-print,
}
use group10os.Shell.Grammar.{
  Redirection, input, output, append, Arg, Line, Pipeline, one, pipe, Exec, simple, block,
  put_redirs, put_args, put_amps, put_line, put_pipe, put_exec, redirs_of, backs, line_cmd,
  pipe_cmd, exec_cmd, IsArg, IsLine, IsPipe, IsExec, put_redirs-Grows, put_args-Grows,
  put_amps-Grows, put_line-Grows, put_pipe-Grows, put_exec-Grows,
}
use group10os.Shell.Redirs.{Ends, Ends-mono, parseredirs-print}
use group10os.Shell.Args.{parseargs-print, put_args-Ends}

starts-word :
    (w : List ℕ) (ts : List Token) (k : ℕ)
    → IsWord w
    → strchr symbols k ≡ true
    → starts (print (name w ∷ ts)) (k ∷ []) ≡ false
starts-word [] ts k i s = absurd i
starts-word (c ∷ w) ts k ((p, q), _) s = ground (arith, q, s)

-- A parser reads each line of fewer than `n` tokens, with what stands behind it.
abbrev pub ReadsLines : ℕ → Parser → Type 0
ReadsLines n p =
    (l : Line) (ts : List Token)
    → IsLine l
    → All IsToken ts
    → Ends 0 ts
    → length (put_line l ts) < n
    → p (print (put_line l ts)) ≡ parsed (line_cmd l, print ts)

-- No redirection or argument starts with a parenthesis, and what ends a command is no opening one.
starts-args :
    (args : List Arg) (ts : List Token)
    → All IsArg args
    → Ends 2 ts
    → starts (print (put_args args ts)) (40 ∷ []) ≡ false
starts-args (arg ∷ args) ts ((iw, _), _) e =
    starts-word arg.text (put_redirs arg.redirs (put_args args ts)) 40 iw refl
starts-args [] [] i e = refl
starts-args [] (bar ∷ ts) i e = refl
starts-args [] (rpar ∷ ts) i e = refl
starts-args [] (semi ∷ ts) i e = refl
starts-args [] (amp ∷ ts) i e = refl
starts-args [] (lpar ∷ ts) i e = absurd (omega (arith, e))
starts-args [] (less ∷ ts) i e = absurd (omega (arith, e))
starts-args [] (greater ∷ ts) i e = absurd (omega (arith, e))
starts-args [] (twice ∷ ts) i e = absurd (omega (arith, e))
starts-args [] (name w ∷ ts) i e = absurd (omega (arith, e))

pub starts-simple :
    (rs : List Redirection) (args : List Arg) (ts : List Token)
    → All IsArg args
    → Ends 2 ts
    → starts (print (put_redirs rs (put_args args ts))) (40 ∷ []) ≡ false
starts-simple [] args ts i e = starts-args args ts i e
starts-simple (input w ∷ rs) args ts i e = refl
starts-simple (output w ∷ rs) args ts i e = refl
starts-simple (append w ∷ rs) args ts i e = refl

starts-bar : (ts : List Token) → Ends 1 ts → starts (print ts) (124 ∷ []) ≡ false
starts-bar [] e = refl
starts-bar (bar ∷ ts) e = absurd (omega (arith, e))
starts-bar (rpar ∷ ts) e = refl
starts-bar (semi ∷ ts) e = refl
starts-bar (amp ∷ ts) e = refl
starts-bar (lpar ∷ ts) e = refl
starts-bar (less ∷ ts) e = refl
starts-bar (greater ∷ ts) e = refl
starts-bar (twice ∷ ts) e = refl
starts-bar (name w ∷ ts) e = absurd (omega (arith, e))

module _ (n : ℕ) (p : Parser) (reads : ReadsLines n p) where
  exec-simple :
      (rs : List Redirection) (args : List Arg) (ts : List Token)
      → IsExec (simple rs args)
      → All IsToken ts
      → Ends 2 ts
      → parseexec p (print (put_exec (simple rs args) ts))
        ≡ parsed (exec_cmd (simple rs args), print ts)
  unfolding IsExec put_exec exec_cmd
  exec-simple rs args ts (ir, ia, few) a e =
      let us = put_args args ts in
      let (b, _) = put_args-Grows args ts ts ia (a, omega arith) in
      let (c, _) = put_redirs-Grows rs us us ir (b, omega arith) in
      let fits = length-print (put_redirs rs us) in
      let fits' = length-print us in
      rw
        (
          peek-print (put_redirs rs us) (40 ∷ []) c,
          starts-simple rs args ts ia e,
          parseredirs-print (suc (length (print (put_redirs rs us)))) [] rs us ir b
              (put_args-Ends args ts e) (omega (arith, fits)),
        )
        (parseargs-print (suc (length (print us))) [] (redirs_of rs) args ts ia a e
          (omega (arith, few)) (omega (arith, fits')))

  exec-block :
      (l : Line) (rs : List Redirection) (ts : List Token)
      → IsExec (block l rs)
      → All IsToken ts
      → Ends 2 ts
      → length (put_exec (block l rs) ts) < suc n
      → parseexec p (print (put_exec (block l rs) ts)) ≡ parsed (exec_cmd (block l rs), print ts)
  unfolding IsExec put_exec exec_cmd
  exec-block l rs ts (il, ir) a e short =
      let us = put_redirs rs ts in
      let (b, _) = put_redirs-Grows rs ts ts ir (a, omega arith) in
      let (c, _) = put_line-Grows l (rpar ∷ us) (rpar ∷ us) il ((tt, b), omega arith) in
      let fits = length-print us in
      rw
        (
          peek-print (lpar ∷ put_line l (rpar ∷ us)) (40 ∷ []) (tt, c),
          peek-print (lpar ∷ put_line l (rpar ∷ us)) (40 ∷ []) (tt, c),
          gettoken-print lpar (put_line l (rpar ∷ us)) tt c,
          reads l (rpar ∷ us) il (tt, b) (omega arith) (omega (arith, short)),
          peek-print (rpar ∷ us) (41 ∷ []) (tt, b),
          gettoken-print rpar us tt b,
          parseredirs-print (suc (length (print us))) [] rs ts ir a
              (Ends-mono 2 3 ts (omega arith) e) (omega (arith, fits)),
        )
        refl

  exec-print :
      (x : Exec) (ts : List Token)
      → IsExec x
      → All IsToken ts
      → Ends 2 ts
      → length (put_exec x ts) < suc n
      → parseexec p (print (put_exec x ts)) ≡ parsed (exec_cmd x, print ts)
  exec-print (simple rs args) ts i a e short = exec-simple rs args ts i a e
  exec-print (block l rs) ts i a e short = exec-block l rs ts i a e short

  -- parsepipe, with a round for each token.
  pub pipe-print :
      (fuel : ℕ) (x : Pipeline) (ts : List Token)
      → IsPipe x
      → All IsToken ts
      → Ends 1 ts
      → length (put_pipe x ts) < suc n
      → length (put_pipe x ts) < fuel
      → parsepipe p fuel (print (put_pipe x ts)) ≡ parsed (pipe_cmd x, print ts)
  unfolding IsPipe put_pipe pipe_cmd parsepipe
  pipe-print zero x ts i a e short l = absurd (omega (arith, l))
  pipe-print (suc fuel) (one x) ts i a e short l =
      rw
        (
          exec-print x ts i a (Ends-mono 1 2 ts (omega arith) e) short,
          peek-print ts (124 ∷ []) a,
          starts-bar ts e,
        )
        refl
  pipe-print (suc fuel) (pipe x y) ts (ix, iy) a e short l =
      let us = put_pipe y ts in
      let (b, _) = put_pipe-Grows y ts ts iy (a, omega arith) in
      let (_, more) = put_exec-Grows x (bar ∷ us) (bar ∷ us) ix ((tt, b), omega arith) in
      rw
        (
          exec-print x (bar ∷ us) ix (tt, b) (omega arith) short,
          peek-print (bar ∷ us) (124 ∷ []) (tt, b),
          gettoken-print bar us tt b,
          pipe-print fuel y ts iy a e (omega (arith, short, more)) (omega (arith, l, more)),
        )
        refl

-- The loop of parseline over "&".
pub backs-print :
    (fuel n : ℕ) (cmd : Cmd) (ts : List Token)
    → All IsToken ts
    → starts (print ts) (38 ∷ []) ≡ false
    → n < fuel
    → parsebacks fuel cmd (print (put_amps n ts)) ≡ parsed (backs n cmd, print ts)
unfolding parsebacks
backs-print zero n cmd ts a s l = absurd (omega (arith, l))
backs-print (suc fuel) zero cmd ts a s l = rw (peek-print ts (38 ∷ []) a, s) refl
backs-print (suc fuel) (suc n) cmd ts a s l =
    let (b, _) = put_amps-Grows n ts ts (a, omega arith) in
    rw
      (
        peek-print (amp ∷ put_amps n ts) (38 ∷ []) (tt, b),
        gettoken-print amp (put_amps n ts) tt b,
        backs-print fuel n (backcmd cmd) ts a s (omega (arith, l)),
      )
      refl
