-- ===== src/Shell/Args.antt =====
-- parseexec of user/sh.c reads the words of a command, with the redirections between them.
use mathlib.Core.List.{append_assoc, append-nil}
use group10os.Prelude.{
  ℕ, zero, suc, ◌+◌, ◌<◌, ◌≤◌, ◌≡◌, refl, ◌∙◌, true, false, List, [], ◌∷◌, ◌++◌, arith, All, length,
  length-append, ltb, lt→ltb, ltb→lt, le→ltb, Bool-cases, inl, inr,
}
use group10os.Shell.{
  Redir, execcmd, parsed, panic, starts, parseargs, redirect, maxargs, gettoken, peek,
}
use group10os.Shell.Token.{
  Token, bar, lpar, rpar, semi, amp, less, greater, twice, name, print, IsToken, IsWord,
  gettoken-print, peek-print, length-print,
}
use group10os.Shell.Grammar.{
  Arg, put_redirs, put_args, redirs_of, words, args_redirs, IsArg, put_redirs-Grows, put_args-Grows,
}
use group10os.Shell.Redirs.{Ends, Ends-mono, parseredirs-print}

-- Only the end of the text ends the arguments without a symbol.
abbrev Stop : List Token → Type 0
Stop [] = Unit {0}
Stop (t ∷ ts) = starts (print (t ∷ ts)) (124 ∷ 41 ∷ 38 ∷ 59 ∷ []) ≡ true

Ends-Stop : (ts : List Token) → Ends 2 ts → Stop ts
Ends-Stop [] e = tt
Ends-Stop (bar ∷ ts) e = refl
Ends-Stop (rpar ∷ ts) e = refl
Ends-Stop (semi ∷ ts) e = refl
Ends-Stop (amp ∷ ts) e = refl
Ends-Stop (lpar ∷ ts) e = absurd (omega (arith, e))
Ends-Stop (less ∷ ts) e = absurd (omega (arith, e))
Ends-Stop (greater ∷ ts) e = absurd (omega (arith, e))
Ends-Stop (twice ∷ ts) e = absurd (omega (arith, e))
Ends-Stop (name w ∷ ts) e = absurd (omega (arith, e))

args_end :
    (fuel : ℕ) (argv : List (List ℕ)) (rs : List Redir)
    → parseargs (suc fuel) argv rs [] ≡ parsed (redirect (execcmd argv) rs, [])
unfolding parseargs peek gettoken
args_end fuel argv rs = refl

args-Stop :
    (fuel : ℕ) (argv : List (List ℕ)) (rs : List Redir) (ts : List Token)
    → All IsToken ts
    → Stop ts
    → parseargs (suc fuel) argv rs (print ts) ≡ parsed (redirect (execcmd argv) rs, print ts)
unfolding parseargs
args-Stop fuel argv rs [] a q = args_end fuel argv rs
args-Stop fuel argv rs (t ∷ ts) a s = rw (peek-print (t ∷ ts) (124 ∷ 41 ∷ 38 ∷ 59 ∷ []) a, s) refl

starts-word :
    (w : List ℕ) (ts : List Token)
    → IsWord w
    → starts (print (name w ∷ ts)) (124 ∷ 41 ∷ 38 ∷ 59 ∷ []) ≡ false
starts-word [] ts i = absurd i
starts-word (c ∷ w) ts ((p, q), _) = ground (arith, q)

-- One round: a word, and the redirections behind it.
args_step :
    (fuel : ℕ) (argv : List (List ℕ)) (acc : List Redir) (arg : Arg) (ts : List Token)
    → IsArg arg
    → All IsToken ts
    → Ends 3 ts
    → length argv + 1 < maxargs
    → parseargs (suc fuel) argv acc (print (name arg.text ∷ put_redirs arg.redirs ts))
      ≡ parseargs fuel (argv ++ arg.text ∷ []) (acc ++ redirs_of arg.redirs) (print ts)
unfolding parseargs
args_step fuel argv acc arg ts (iw, ir) a e few =
    let us = put_redirs arg.redirs ts in
    let b = (put_redirs-Grows arg.redirs ts ts ir (a, omega arith)).0 in
    let n = length-append argv (arg.text ∷ []) in
    let room = lt→ltb (length (argv ++ arg.text ∷ [])) maxargs (omega (arith, n, few)) in
    let fits = length-print us in
    rw
      (
        peek-print (name arg.text ∷ us) (124 ∷ 41 ∷ 38 ∷ 59 ∷ []) (iw, b),
        starts-word arg.text us iw,
        gettoken-print (name arg.text) us iw b,
        room,
        parseredirs-print (suc (length (print us))) acc arg.redirs ts ir a e (omega (arith, fits)),
      )
      refl

pub put_args-Ends : (args : List Arg) (ts : List Token) → Ends 2 ts → Ends 3 (put_args args ts)
put_args-Ends [] ts e = Ends-mono 2 3 ts (omega arith) e
put_args-Ends (a ∷ args) ts e = omega arith

-- The loop of parseexec reads all arguments of a command, where these are not too many.
pub parseargs-print :
    (fuel : ℕ) (argv : List (List ℕ)) (acc : List Redir) (args : List Arg) (ts : List Token)
    → All IsArg args
    → All IsToken ts
    → Ends 2 ts
    → length argv + length args < maxargs
    → length (put_args args ts) < fuel
    → parseargs fuel argv acc (print (put_args args ts))
      ≡ parsed (redirect (execcmd (argv ++ words args)) (acc ++ args_redirs args), print ts)
parseargs-print zero argv acc args ts i a e few l = absurd (omega (arith, l))
parseargs-print (suc fuel) argv acc [] ts i a e few l =
    rw (append-nil argv, append-nil acc) (args-Stop fuel argv acc ts a (Ends-Stop ts e))
parseargs-print (suc fuel) argv acc (b ∷ args) ts (ib, i) a e few l =
    let us = put_args args ts in
    let (c, _) = put_args-Grows args ts ts i (a, omega arith) in
    let (_, shorter) = put_redirs-Grows b.redirs us us ib.1 (c, omega arith) in
    let n = length-append argv (b.text ∷ []) in
    args_step fuel argv acc b us ib c (put_args-Ends args ts e) (omega (arith, few))
    ∙ parseargs-print fuel (argv ++ b.text ∷ []) (acc ++ redirs_of b.redirs) args ts i a e
        (omega (arith, n, few)) (omega (arith, l, shorter))
    ∙ rw
        (
          append_assoc argv (b.text ∷ []) (words args),
          append_assoc acc (redirs_of b.redirs) (args_redirs args),
        )
        refl

-- One word more than there is room for.
args_full :
    (fuel : ℕ) (argv : List (List ℕ)) (acc : List Redir) (w : List ℕ) (ts : List Token)
    → IsWord w
    → All IsToken ts
    → maxargs ≤ length argv + 1
    → parseargs (suc fuel) argv acc (print (name w ∷ ts)) ≡ panic
unfolding parseargs
args_full fuel argv acc w ts i a full =
    let n = length-append argv (w ∷ []) in
    let room = le→ltb (length (argv ++ w ∷ [])) maxargs (omega (arith, n, full)) in
    rw
      (
        peek-print (name w ∷ ts) (124 ∷ 41 ∷ 38 ∷ 59 ∷ []) (i, a),
        starts-word w ts i,
        gettoken-print (name w) ts i a,
        room,
      )
      refl

-- The loop of parseexec panics at the first argument too many.
pub parseargs-panic :
    (fuel : ℕ) (argv : List (List ℕ)) (acc : List Redir) (args : List Arg) (ts : List Token)
    → All IsArg args
    → All IsToken ts
    → Ends 2 ts
    → length argv < maxargs
    → maxargs ≤ length argv + length args
    → length (put_args args ts) < fuel
    → parseargs fuel argv acc (print (put_args args ts)) ≡ panic
parseargs-panic zero argv acc args ts i a e low full l = absurd (omega (arith, l))
parseargs-panic (suc fuel) argv acc [] ts i a e low full l = absurd (omega (arith, low, full))
parseargs-panic (suc fuel) argv acc (b ∷ args) ts (ib, i) a e low full l =
    let us = put_args args ts in
    let (c, _) = put_args-Grows args ts ts i (a, omega arith) in
    let (d, shorter) = put_redirs-Grows b.redirs us us ib.1 (c, omega arith) in
    let n = length-append argv (b.text ∷ []) in
    elim (Bool-cases (ltb (length argv + 1) maxargs)) [
      | inl q ↦
          let few = ltb→lt (length argv + 1) maxargs q in
          args_step fuel argv acc b us ib c (put_args-Ends args ts e) few
          ∙ parseargs-panic fuel (argv ++ b.text ∷ []) (acc ++ redirs_of b.redirs) args ts i a e
              (omega (arith, n, few)) (omega (arith, n, full)) (omega (arith, l, shorter))
      | inr q ↦ args_full fuel argv acc b.text (put_redirs b.redirs us) ib.0 d (ground (arith, q))
    ]
