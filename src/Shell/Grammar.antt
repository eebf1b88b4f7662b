-- ===== src/Shell/Grammar.antt =====
-- The grammar that the parser of user/sh.c reads, as a data type for each of its levels, with the tokens
-- of a phrase in front of other tokens, and the command that a phrase stands for.
use group10os.Prelude.{ℕ, zero, suc, ◌+◌, ◌<◌, ◌≤◌, List, [], ◌∷◌, ◌++◌, arith, All, length}
use group10os.Shell.{Redir, Cmd, execcmd, pipecmd, listcmd, backcmd, redirect, maxargs}
use group10os.Shell.Token.{
  Token, bar, lpar, rpar, semi, amp, less, greater, twice, name, IsToken, IsWord,
}

pub data Redirection : Type 0 where
  input : List ℕ → Redirection
  output : List ℕ → Redirection
  append : List ℕ → Redirection

-- A word of a command, and the redirections behind it.
pub record Arg : Type 0 where
  pub text : List ℕ
  pub redirs : List Redirection

mutual
  pub data Line : Type 0 where
    line : Pipeline → ℕ → Line
    seq : Pipeline → ℕ → Line → Line

  pub data Pipeline : Type 0 where
    one : Exec → Pipeline
    pipe : Exec → Pipeline → Pipeline

  pub data Exec : Type 0 where
    simple : List Redirection → List Arg → Exec
    block : Line → List Redirection → Exec

abbrev pub put_redirs : List Redirection → List Token → List Token
put_redirs [] ts = ts
put_redirs (input w ∷ rs) ts = less ∷ name w ∷ put_redirs rs ts
put_redirs (output w ∷ rs) ts = greater ∷ name w ∷ put_redirs rs ts
put_redirs (append w ∷ rs) ts = twice ∷ name w ∷ put_redirs rs ts

abbrev pub put_args : List Arg → List Token → List Token
put_args [] ts = ts
put_args (a ∷ args) ts = name a.text ∷ put_redirs a.redirs (put_args args ts)

abbrev pub put_amps : ℕ → List Token → List Token
put_amps zero ts = ts
put_amps (suc n) ts = amp ∷ put_amps n ts

unfoldable mutual
  pub put_line : Line → List Token → List Token
  put_line (line p n) ts = put_pipe p (put_amps n ts)
  put_line (seq p n l) ts = put_pipe p (put_amps n (semi ∷ put_line l ts))

  pub put_pipe : Pipeline → List Token → List Token
  put_pipe (one e) ts = put_exec e ts
  put_pipe (pipe e p) ts = put_exec e (bar ∷ put_pipe p ts)

  pub put_exec : Exec → List Token → List Token
  put_exec (simple rs args) ts = put_redirs rs (put_args args ts)
  put_exec (block l rs) ts = lpar ∷ put_line l (rpar ∷ put_redirs rs ts)

abbrev pub redir : Redirection → Redir
redir (input w) = record { file = w; mode = 0; fd = 0 }
redir (output w) = record { file = w; mode = 1 + 512 + 1024; fd = 1 }
redir (append w) = record { file = w; mode = 1 + 512; fd = 1 }

abbrev pub redirs_of : List Redirection → List Redir
redirs_of [] = []
redirs_of (r ∷ rs) = redir r ∷ redirs_of rs

abbrev pub words : List Arg → List (List ℕ)
words [] = []
words (a ∷ args) = a.text ∷ words args

abbrev pub args_redirs : List Arg → List Redir
args_redirs [] = []
args_redirs (a ∷ args) = redirs_of a.redirs ++ args_redirs args

abbrev pub backs : ℕ → Cmd → Cmd
backs zero cmd = cmd
backs (suc n) cmd = backs n (backcmd cmd)

unfoldable mutual
  pub line_cmd : Line → Cmd
  line_cmd (line p n) = backs n (pipe_cmd p)
  line_cmd (seq p n l) = listcmd (backs n (pipe_cmd p)) (line_cmd l)

  pub pipe_cmd : Pipeline → Cmd
  pipe_cmd (one e) = exec_cmd e
  pipe_cmd (pipe e p) = pipecmd (exec_cmd e) (pipe_cmd p)

  pub exec_cmd : Exec → Cmd
  exec_cmd (simple rs args) = redirect (execcmd (words args)) (redirs_of rs ++ args_redirs args)
  exec_cmd (block l rs) = redirect (line_cmd l) (redirs_of rs)

abbrev pub IsRedirection : Redirection → Type 0
IsRedirection (input w) = IsWord w
IsRedirection (output w) = IsWord w
IsRedirection (append w) = IsWord w

abbrev pub IsArg : Arg → Type 0
IsArg a = IsWord a.text × All IsRedirection a.redirs

-- All words are words of the shell, and no command has more arguments than the shell takes.
unfoldable mutual
  pub IsLine : Line → Type 0
  IsLine (line p n) = IsPipe p
  IsLine (seq p n l) = IsPipe p × IsLine l

  pub IsPipe : Pipeline → Type 0
  IsPipe (one e) = IsExec e
  IsPipe (pipe e p) = IsExec e × IsPipe p

  pub IsExec : Exec → Type 0
  IsExec (simple rs args) = All IsRedirection rs × All IsArg args × (length args < maxargs)
  IsExec (block l rs) = IsLine l × All IsRedirection rs

-- The tokens of a phrase are tokens, and no fewer than those behind it.
abbrev pub Grows : List Token → List Token → Type 0
Grows ts us = All IsToken us × (length ts ≤ length us)

pub put_redirs-Grows :
    (rs : List Redirection) (ts us : List Token)
    → All IsRedirection rs
    → Grows us ts
    → Grows us (put_redirs rs ts)
put_redirs-Grows [] ts us i g = g
put_redirs-Grows (input w ∷ rs) ts us (i, j) g =
    let (a, l) = put_redirs-Grows rs ts us j g in ((tt, (i, a)), omega (arith, l))
put_redirs-Grows (output w ∷ rs) ts us (i, j) g =
    let (a, l) = put_redirs-Grows rs ts us j g in ((tt, (i, a)), omega (arith, l))
put_redirs-Grows (append w ∷ rs) ts us (i, j) g =
    let (a, l) = put_redirs-Grows rs ts us j g in ((tt, (i, a)), omega (arith, l))

pub put_args-Grows :
    (args : List Arg) (ts us : List Token)
    → All IsArg args
    → Grows us ts
    → Grows us (put_args args ts)
put_args-Grows [] ts us i g = g
put_args-Grows (b ∷ args) ts us ((w, r), j) g =
    let (a, l) =
      put_redirs-Grows b.redirs (put_args args ts) us r (put_args-Grows args ts us j g) in
    ((w, a), omega (arith, l))

pub put_amps-Grows : (n : ℕ) (ts us : List Token) → Grows us ts → Grows us (put_amps n ts)
put_amps-Grows zero ts us g = g
put_amps-Grows (suc n) ts us g =
    let (a, l) = put_amps-Grows n ts us g in ((tt, a), omega (arith, l))

pub Grows-cons : (t : Token) (ts us : List Token) → IsToken t → Grows us ts → Grows us (t ∷ ts)
Grows-cons t ts us i (a, l) = ((i, a), omega (arith, l))

mutual
  unfolding put_line put_pipe put_exec IsLine IsPipe IsExec

  pub put_line-Grows :
      (l : Line) (ts us : List Token) → IsLine l → Grows us ts → Grows us (put_line l ts)
  put_line-Grows (line p n) ts us i g =
      put_pipe-Grows p (put_amps n ts) us i (put_amps-Grows n ts us g)
  put_line-Grows (seq p n l) ts us (i, j) g =
      let rest = Grows-cons semi (put_line l ts) us tt (put_line-Grows l ts us j g) in
      put_pipe-Grows p (put_amps n (semi ∷ put_line l ts)) us i
        (put_amps-Grows n (semi ∷ put_line l ts) us rest)

  pub put_pipe-Grows :
      (p : Pipeline) (ts us : List Token) → IsPipe p → Grows us ts → Grows us (put_pipe p ts)
  put_pipe-Grows (one e) ts us i g = put_exec-Grows e ts us i g
  put_pipe-Grows (pipe e p) ts us (i, j) g =
      put_exec-Grows e (bar ∷ put_pipe p ts) us i
        (Grows-cons bar (put_pipe p ts) us tt (put_pipe-Grows p ts us j g))

  pub put_exec-Grows :
      (e : Exec) (ts us : List Token) → IsExec e → Grows us ts → Grows us (put_exec e ts)
  put_exec-Grows (simple rs args) ts us (i, j, _) g =
      put_redirs-Grows rs (put_args args ts) us i (put_args-Grows args ts us j g)
  put_exec-Grows (block l rs) ts us (i, j) g =
      Grows-cons lpar (put_line l (rpar ∷ put_redirs rs ts)) us tt (
        put_line-Grows l (rpar ∷ put_redirs rs ts) us i
          (Grows-cons rpar (put_redirs rs ts) us tt (put_redirs-Grows rs ts us j g)))
