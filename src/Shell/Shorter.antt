-- ===== src/Shell/Shorter.antt =====
-- What gettoken and peek of user/sh.c take off a text.
use group10os.Prelude.{
  ℕ, ◌<◌, ◌≤◌, ◌≡◌, refl, ◌⊎◌, inl, inr, true, false, not, ◌&&◌, List, [], ◌∷◌, arith, ◌==◌, length,
  Bool-cases,
}
use group10os.Shell.{
  whitespace, symbols, strchr, skip, word, greater_switch, switch, gettoken, starts, peek,
}

skip-shorter : (s : List ℕ) → length (skip s) ≤ length s
skip-shorter [] = omega arith
skip-shorter (c ∷ s) = elim (Bool-cases (strchr whitespace c)) [
  | inl e ↦ let rest = skip-shorter s in rw e (omega (arith, rest))
  | inr e ↦ rw e (omega arith)
]

word-shorter : (s : List ℕ) → length (word s).1 ≤ length s
word-shorter [] = omega arith
word-shorter (c ∷ s) = elim (Bool-cases (not (strchr whitespace c) && not (strchr symbols c))) [
  | inl e ↦ let rest = word-shorter s in rw e (omega (arith, rest))
  | inr e ↦ rw e (omega arith)
]

-- Behind white space stands a character, or nothing.
abbrev IsTrimmed : List ℕ → Type 0
IsTrimmed [] = Unit {0}
IsTrimmed (c ∷ s) = strchr whitespace c ≡ false

skip-IsTrimmed : (s : List ℕ) → IsTrimmed (skip s)
skip-IsTrimmed [] = tt
skip-IsTrimmed (c ∷ s) = elim (Bool-cases (strchr whitespace c)) [
  | inl e ↦ rw e (skip-IsTrimmed s)
  | inr e ↦ rw e e
]

greater_switch-shorter : (s : List ℕ) → length (greater_switch s).rest ≤ length s
greater_switch-shorter [] = omega arith
greater_switch-shorter (d ∷ s) = elim (Bool-cases (d == 62)) [
  | inl e ↦ let rest = skip-shorter s in rw e (omega (arith, rest))
  | inr e ↦ let rest = skip-shorter (d ∷ s) in rw e rest
]

-- A token takes a character at least.
switch-shorter :
    (c : ℕ) (s : List ℕ) → strchr whitespace c ≡ false → length (switch (c ∷ s)).rest ≤ length s
switch-shorter c s w = elim (Bool-cases (strchr (124 ∷ 40 ∷ 41 ∷ 59 ∷ 38 ∷ 60 ∷ []) c)) [
  | inl e ↦ rw e (skip-shorter s)
  | inr e ↦ elim (Bool-cases (c == 62)) [
    | inl g ↦ rw (e, g) (greater_switch-shorter s)
    | inr g ↦
        let plain : strchr symbols c ≡ false = ground (arith, e, g) in
        let a = skip-shorter (word s).1 in
        let b = word-shorter s in rw (e, g, w, plain) (omega (arith, a, b))
  ]
]

-- gettoken goes no further back; it goes on where there is a token.
trimmed-shorter :
    (u : List ℕ) → IsTrimmed u → ((switch u).ret ≡ 0) ⊎ (length (switch u).rest < length u)
trimmed-shorter [] t = inl refl
trimmed-shorter (c ∷ s) t = let h = switch-shorter c s t in inr (omega (arith, h))

trimmed-le : (u : List ℕ) → IsTrimmed u → length (switch u).rest ≤ length u
trimmed-le [] t = omega arith
trimmed-le (c ∷ s) t = let h = switch-shorter c s t in omega (arith, h)

pub gettoken-le : (s : List ℕ) → length (gettoken s).rest ≤ length s
unfolding gettoken
gettoken-le s =
    let a = trimmed-le (skip s) (skip-IsTrimmed s) in let b = skip-shorter s in omega (arith, a, b)

pub gettoken-lt : (s : List ℕ) → ((gettoken s).ret ≡ 0) ⊎ (length (gettoken s).rest < length s)
unfolding gettoken
gettoken-lt s = elim (trimmed-shorter (skip s) (skip-IsTrimmed s)) [
  | inl e ↦ inl e
  | inr l ↦ let b = skip-shorter s in inr (omega (arith, l, b))
]

pub peek-le : (s toks : List ℕ) → length (peek s toks).1 ≤ length s
unfolding peek
peek-le s toks = skip-shorter s

-- Where peek finds one of the characters, gettoken goes on.
skip_twice : (u : List ℕ) → IsTrimmed u → skip u ≡ u
skip_twice [] t = refl
skip_twice (c ∷ s) t = rw t refl

nonempty-lt :
    (u toks : List ℕ) → IsTrimmed u → starts u toks ≡ true → length (switch u).rest < length u
nonempty-lt [] toks t e = cc
nonempty-lt (c ∷ s) toks t e = let h = switch-shorter c s t in omega (arith, h)

pub peek-lt :
    (s toks : List ℕ) → (peek s toks).0 ≡ true → length (gettoken (peek s toks).1).rest < length s
unfolding peek gettoken
peek-lt s toks e =
    let a = nonempty-lt (skip s) toks (skip-IsTrimmed s) e in
    let b = skip-shorter s in rw (skip_twice (skip s) (skip-IsTrimmed s)) (omega (arith, a, b))
