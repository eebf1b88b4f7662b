-- ===== src/Shell/Redirs.antt =====
-- parseredirs of user/sh.c reads the redirections of a phrase.
use mathlib.Core.List.{append_assoc, append-nil}
use group10os.Prelude.{
  ℕ, zero, suc, ◌<◌, ◌≤◌, ◌≡◌, refl, sym, ap, ◌∙◌, true, false, List, [], ◌∷◌, ◌++◌, arith, All,
  length,
}
use group10os.Shell.{Redir, parsed, starts, parseredirs, redir_of}
use group10os.Shell.Token.{
  Token, bar, lpar, rpar, semi, amp, less, greater, twice, name, code, print, IsToken, IsWord,
  gettoken-print, peek-print,
}
use group10os.Shell.Grammar.{
  Redirection, input, output, append, put_redirs, redir, redirs_of, IsRedirection, put_redirs-Grows,
}

-- The level at which a token ends what stands before it.
abbrev pub rank : Token → ℕ
rank bar = 2
rank lpar = 4
rank rpar = 0
rank semi = 1
rank amp = 1
rank less = 4
rank greater = 4
rank twice = 4
rank (name w) = 3

abbrev pub Ends : ℕ → List Token → Type 0
Ends k [] = Unit {0}
Ends k (t ∷ ts) = rank t ≤ k

pub Ends-mono : (j k : ℕ) (ts : List Token) → j ≤ k → Ends j ts → Ends k ts
Ends-mono j k [] l e = tt
Ends-mono j k (t ∷ ts) l e = omega (arith, l, e)

starts-redir :
    (ts : List Token) → All IsToken ts → Ends 3 ts → starts (print ts) (60 ∷ 62 ∷ []) ≡ false
starts-redir [] a e = refl
starts-redir (bar ∷ ts) a e = refl
starts-redir (lpar ∷ ts) a e = absurd (omega (arith, e))
starts-redir (rpar ∷ ts) a e = refl
starts-redir (semi ∷ ts) a e = refl
starts-redir (amp ∷ ts) a e = refl
starts-redir (less ∷ ts) a e = absurd (omega (arith, e))
starts-redir (greater ∷ ts) a e = absurd (omega (arith, e))
starts-redir (twice ∷ ts) a e = absurd (omega (arith, e))
starts-redir (name [] ∷ ts) a e = absurd a.0
starts-redir (name (c ∷ w) ∷ ts) (((p, q), _), _) e = ground (arith, q)

redirs_stop :
    (fuel : ℕ) (acc : List Redir) (ts : List Token)
    → All IsToken ts
    → Ends 3 ts
    → 0 < fuel
    → parseredirs fuel acc (print ts) ≡ parsed (acc, print ts)
unfolding parseredirs
redirs_stop zero acc ts a e l = absurd (omega (arith, l))
redirs_stop (suc fuel) acc ts a e l = rw (peek-print ts (60 ∷ 62 ∷ []) a, starts-redir ts a e) refl

redirs_step :
    (fuel : ℕ) (acc : List Redir) (t : Token) (w : List ℕ) (ts : List Token)
    → IsToken t
    → starts (print (t ∷ name w ∷ ts)) (60 ∷ 62 ∷ []) ≡ true
    → IsWord w
    → All IsToken ts
    → parseredirs (suc fuel) acc (print (t ∷ name w ∷ ts))
      ≡ parseredirs fuel (acc ++ redir_of (code t) w) (print ts)
unfolding parseredirs
redirs_step fuel acc t w ts it s iw a =
    rw
      (
        peek-print (t ∷ name w ∷ ts) (60 ∷ 62 ∷ []) (it, (iw, a)),
        s,
        gettoken-print t (name w ∷ ts) it (iw, a),
        gettoken-print (name w) ts iw a,
      )
      refl

-- The tokens behind a phrase are well-formed.
Grows-rest :
    (rs : List Redirection) (ts : List Token)
    → All IsRedirection rs
    → All IsToken ts
    → All IsToken (put_redirs rs ts)
Grows-rest rs ts i a = (put_redirs-Grows rs ts ts i (a, omega arith)).0

-- parseredirs reads all redirections at the start of a text, in order, up to a token that is none.
pub parseredirs-print :
    (fuel : ℕ) (acc : List Redir) (rs : List Redirection) (ts : List Token)
    → All IsRedirection rs
    → All IsToken ts
    → Ends 3 ts
    → length (put_redirs rs ts) < fuel
    → parseredirs fuel acc (print (put_redirs rs ts)) ≡ parsed (acc ++ redirs_of rs, print ts)
parseredirs-print fuel acc [] ts i a e l =
    redirs_stop fuel acc ts a e (omega (arith, l))
    ∙ ap (λ r. parsed (r, print ts)) (sym (append-nil acc))
parseredirs-print zero acc (r ∷ rs) ts i a e l = absurd (omega (arith, l))
parseredirs-print (suc fuel) acc (input w ∷ rs) ts (iw, i) a e l =
    redirs_step fuel acc less w (put_redirs rs ts) tt refl iw (Grows-rest rs ts i a)
    ∙ parseredirs-print fuel (acc ++ redir (input w) ∷ []) rs ts i a e (omega (arith, l))
    ∙ ap (λ r. parsed (r, print ts)) (append_assoc acc (redir (input w) ∷ []) (redirs_of rs))
parseredirs-print (suc fuel) acc (output w ∷ rs) ts (iw, i) a e l =
    redirs_step fuel acc greater w (put_redirs rs ts) tt refl iw (Grows-rest rs ts i a)
    ∙ parseredirs-print fuel (acc ++ redir (output w) ∷ []) rs ts i a e (omega (arith, l))
    ∙ ap (λ r. parsed (r, print ts)) (append_assoc acc (redir (output w) ∷ []) (redirs_of rs))
parseredirs-print (suc fuel) acc (append w ∷ rs) ts (iw, i) a e l =
    redirs_step fuel acc twice w (put_redirs rs ts) tt refl iw (Grows-rest rs ts i a)
    ∙ parseredirs-print fuel (acc ++ redir (append w) ∷ []) rs ts i a e (omega (arith, l))
    ∙ ap (λ r. parsed (r, print ts)) (append_assoc acc (redir (append w) ∷ []) (redirs_of rs))
