-- ===== src/Shell/Token.antt =====
-- gettoken and peek of user/sh.c on the tokens of a line, each with a space behind it.
use group10os.Prelude.{
  ℕ, ◌≤◌, ◌≡◌, refl, ◌∙◌, false, List, [], ◌∷◌, ◌++◌, arith, All, ◌==◌, length, length-append,
}
use group10os.Shell.{whitespace, symbols, strchr, skip, word, switch, starts, gettoken, peek}

pub data Token : Type 0 where
  bar : Token
  lpar : Token
  rpar : Token
  semi : Token
  amp : Token
  less : Token
  greater : Token
  twice : Token
  name : List ℕ → Token

-- What gettoken returns for the token.
abbrev pub code : Token → ℕ
code bar = 124
code lpar = 40
code rpar = 41
code semi = 59
code amp = 38
code less = 60
code greater = 62
code twice = 43
code (name w) = 97

abbrev pub text_of : Token → List ℕ
text_of bar = 124 ∷ []
text_of lpar = 40 ∷ []
text_of rpar = 41 ∷ []
text_of semi = 59 ∷ []
text_of amp = 38 ∷ []
text_of less = 60 ∷ []
text_of greater = 62 ∷ []
text_of twice = 62 ∷ 62 ∷ []
text_of (name w) = w

abbrev pub print : List Token → List ℕ
print [] = []
print (t ∷ ts) = text_of t ++ 32 ∷ print ts

-- A character of a word.
abbrev pub IsPlain : ℕ → Type 0
IsPlain c = (strchr whitespace c ≡ false) × (strchr symbols c ≡ false)

abbrev pub IsWord : List ℕ → Type 0
IsWord [] = ⊥
IsWord (c ∷ w) = IsPlain c × All IsPlain w

abbrev pub IsToken : Token → Type 0
IsToken bar = Unit {0}
IsToken lpar = Unit {0}
IsToken rpar = Unit {0}
IsToken semi = Unit {0}
IsToken amp = Unit {0}
IsToken less = Unit {0}
IsToken greater = Unit {0}
IsToken twice = Unit {0}
IsToken (name w) = IsWord w

skip-print : (ts : List Token) → All IsToken ts → skip (print ts) ≡ print ts
skip-print [] a = refl
skip-print (bar ∷ ts) a = refl
skip-print (lpar ∷ ts) a = refl
skip-print (rpar ∷ ts) a = refl
skip-print (semi ∷ ts) a = refl
skip-print (amp ∷ ts) a = refl
skip-print (less ∷ ts) a = refl
skip-print (greater ∷ ts) a = refl
skip-print (twice ∷ ts) a = refl
skip-print (name [] ∷ ts) a = absurd a.0
skip-print (name (c ∷ w) ∷ ts) ((p, _), _) = rw p.0 refl

word-print : (w s : List ℕ) → All IsPlain w → word (w ++ 32 ∷ s) ≡ (w, 32 ∷ s)
word-print [] s a = refl
word-print (c ∷ w) s ((p, q), a) = rw (p, q, word-print w s a) refl

switch-name :
    (c : ℕ) (w s : List ℕ)
    → IsPlain c
    → All IsPlain w
    → switch (c ∷ (w ++ 32 ∷ s)) ≡ record { ret = 97; text = c ∷ w; rest = skip s }
switch-name c w s (p, q) a =
    let one : strchr (124 ∷ 40 ∷ 41 ∷ 59 ∷ 38 ∷ 60 ∷ []) c ≡ false = ground (arith, q) in
    let two : (c == 62) ≡ false = ground (arith, q) in
    rw (one, two, word-print (c ∷ w) s ((p, q), a)) refl

-- gettoken takes one token.
pub gettoken-print :
    (t : Token) (ts : List Token)
    → IsToken t
    → All IsToken ts
    → gettoken (print (t ∷ ts)) ≡ record { ret = code t; text = text_of t; rest = print ts }
unfolding gettoken
gettoken-print bar ts i a = rw (skip-print ts a) refl
gettoken-print lpar ts i a = rw (skip-print ts a) refl
gettoken-print rpar ts i a = rw (skip-print ts a) refl
gettoken-print semi ts i a = rw (skip-print ts a) refl
gettoken-print amp ts i a = rw (skip-print ts a) refl
gettoken-print less ts i a = rw (skip-print ts a) refl
gettoken-print greater ts i a = rw (skip-print ts a) refl
gettoken-print twice ts i a = rw (skip-print ts a) refl
gettoken-print (name []) ts i a = absurd i
gettoken-print (name (c ∷ w)) ts (p, q) a =
    rw p.0 (switch-name c w (print ts) p q ∙ rw (skip-print ts a) refl)

pub peek-print :
    (ts : List Token) (toks : List ℕ)
    → All IsToken ts
    → peek (print ts) toks ≡ (starts (print ts) toks, print ts)
unfolding peek
peek-print ts toks a = rw (skip-print ts a) refl

pub length-print : (ts : List Token) → length ts ≤ length (print ts)
length-print [] = omega arith
length-print (t ∷ ts) =
    let e = length-append (text_of t) (32 ∷ print ts) in
    let rest = length-print ts in omega (arith, e, rest)
