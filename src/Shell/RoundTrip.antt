-- ===== src/Shell/RoundTrip.antt =====
-- The parser of user/sh.c reads back each line of the grammar.
use group10os.Prelude.{
  ℕ, zero, suc, ◌+◌, ◌<◌, ◌≡◌, refl, ap, ◌∙◌, false, List, [], ◌∷◌, arith, All, length,
}
use group10os.Shell.{parsed, bind, parselist, peek, starts, parseline, parsecmd, no_leftovers}
use group10os.Shell.Token.{
  Token, bar, lpar, rpar, semi, amp, less, greater, twice, name, print, IsToken, gettoken-print,
  peek-print, length-print,
}
use group10os.Shell.Grammar.{
  Line, line, seq, Pipeline, put_amps, put_line, put_pipe, backs, line_cmd, pipe_cmd, IsLine,
  IsPipe, put_amps-Grows, put_line-Grows, put_pipe-Grows,
}
use group10os.Shell.Redirs.{Ends, Ends-mono}
use group10os.Shell.Phrases.{ReadsLines, pipe-print, backs-print}

starts-end :
    (ts : List Token)
    → Ends 0 ts
    → (starts (print ts) (38 ∷ []) ≡ false) × (starts (print ts) (59 ∷ []) ≡ false)
starts-end [] e = (refl, refl)
starts-end (bar ∷ ts) e = absurd (omega (arith, e))
starts-end (rpar ∷ ts) e = (refl, refl)
starts-end (semi ∷ ts) e = absurd (omega (arith, e))
starts-end (amp ∷ ts) e = absurd (omega (arith, e))
starts-end (lpar ∷ ts) e = absurd (omega (arith, e))
starts-end (less ∷ ts) e = absurd (omega (arith, e))
starts-end (greater ∷ ts) e = absurd (omega (arith, e))
starts-end (twice ∷ ts) e = absurd (omega (arith, e))
starts-end (name w ∷ ts) e = absurd (omega (arith, e))

length-put_amps : (n : ℕ) (ts : List Token) → length (put_amps n ts) ≡ n + length ts
length-put_amps zero ts = omega arith
length-put_amps (suc n) ts = let rest = length-put_amps n ts in omega (arith, rest)

put_amps-Ends : (n : ℕ) (ts : List Token) → Ends 1 ts → Ends 1 (put_amps n ts)
put_amps-Ends zero ts e = e
put_amps-Ends (suc n) ts e = omega arith

module _ (n : ℕ) (reads : ReadsLines n (parseline n)) where
  -- The pipe of a line and the "&" behind it.
  front-print :
      (p : Pipeline) (k : ℕ) (ts : List Token)
      → IsPipe p
      → All IsToken ts
      → Ends 1 ts
      → starts (print ts) (38 ∷ []) ≡ false
      → length (put_pipe p (put_amps k ts)) < suc n
      → parseline (suc n) (print (put_pipe p (put_amps k ts)))
        ≡ parselist (parseline n) (backs k (pipe_cmd p), print ts)
  unfolding parseline
  front-print p k ts i a e s short =
      let us = put_amps k ts in
      let (b, _) = put_amps-Grows k ts ts (a, omega arith) in
      let fits = length-print (put_pipe p us) in
      let fits' = length-print us in
      let count = length-put_amps k ts in
      rw
        (
          pipe-print n (parseline n) reads (suc (length (print (put_pipe p us)))) p us i b
              (put_amps-Ends k ts e) short (omega (arith, fits)),
          backs-print (suc (length (print us))) k (pipe_cmd p) ts a s (omega (arith, fits', count)),
        )
        refl

  line-print : ReadsLines (suc n) (parseline (suc n))
  unfolding IsLine put_line line_cmd
  line-print (line p k) ts i a e short =
      let (s, t) = starts-end ts e in
      front-print p k ts i a (Ends-mono 0 1 ts (omega arith) e) s short
      ∙ rw (peek-print ts (59 ∷ []) a, t) refl
  line-print (seq p k l) ts (i, j) a e short =
      let us = put_line l ts in
      let (b, _) = put_line-Grows l ts ts j (a, omega arith) in
      let (c, _) = put_amps-Grows k (semi ∷ us) (semi ∷ us) ((tt, b), omega arith) in
      let (_, more) =
        put_pipe-Grows p (put_amps k (semi ∷ us)) (semi ∷ us) i
          (put_amps-Grows k (semi ∷ us) (semi ∷ us) ((tt, b), omega arith)) in
      front-print p k (semi ∷ us) i (tt, b) (omega arith) refl short
      ∙ rw
          (
            peek-print (semi ∷ us) (59 ∷ []) (tt, b),
            gettoken-print semi us tt b,
            reads l ts j a e (omega (arith, short, more)),
          )
          refl

reads_lines : (n : ℕ) → ReadsLines n (parseline n)
reads_lines zero = λ l ts i a e short. absurd (omega (arith, short))
reads_lines (suc n) = line-print n (reads_lines n)

-- parseline reads each line of the grammar, written with a space behind each token, from the start of a
-- text, and leaves what stands behind it, where that is the end or a closing parenthesis; fuel for one
-- call of parseline more than the text has tokens is enough.
pub parseline-print :
    (n : ℕ) (l : Line) (ts : List Token)
    → IsLine l
    → All IsToken ts
    → Ends 0 ts
    → length (put_line l ts) < n
    → parseline n (print (put_line l ts)) ≡ parsed (line_cmd l, print ts)
parseline-print n = reads_lines n

-- parsecmd gives back each command of the grammar, with its pipes, lists, background commands, blocks
-- and redirections, from its text.
pub parsecmd-print : (l : Line) → IsLine l → parsecmd (print (put_line l [])) ≡ parsed (line_cmd l)
unfolding peek
parsecmd-print l i =
    let fits = length-print (put_line l []) in
    ap (λ r. bind r no_leftovers)
      (parseline-print (suc (length (print (put_line l [])))) l [] i tt tt (omega (arith, fits)))
