-- ===== src/Grep/Language.antt =====
-- What a pattern of user/grep.c stands for, and that the matcher finds just that.
use mathlib.Core.Path.{subst}
use group10os.Prelude.{
  ℕ, ◌≡◌, refl, sym, ap, ◌≢◌, ◌⊎◌, ◌↔◌, inl, inr, Bool, true, false, ◌||◌, List, [], ◌∷◌, ◌++◌, All,
  ◌==◌, if◌then◌else◌, Bool-cases, ==_iff, arith,
}
use group10os.Grep.{
  caret, dot, star, dollar, at_end, matchstar, matchone, matchhere, match_from, match,
}

-- A character of a pattern stands for itself, and `.` for every byte.
abbrev pub Fits : ℕ → ℕ → Type 0
Fits c t = (c ≡ dot) ⊎ (c ≡ t)

-- A byte that fits, and then a text of the language `L`.
abbrev pub Single : (List ℕ → Type 0) → ℕ → List ℕ → Type 0
Single L c text = (t : ℕ) × (ts : List ℕ) × (text ≡ t ∷ ts) × Fits c t × L ts

-- Any number of bytes that fit, and then a text of the language `L`.
abbrev pub Many : (List ℕ → Type 0) → ℕ → List ℕ → Type 0
Many L c text = (xs ys : List ℕ) × (text ≡ xs ++ ys) × All (Fits c) xs × L ys

-- The texts that begin as the pattern says.
abbrev pub Begins : List ℕ → List ℕ → Type 0
Begins [] text = Unit
Begins (c ∷ []) text = ((c ≡ dollar) × (text ≡ [])) ⊎ ((c ≢ dollar) × Single (Begins []) c text)
Begins (c ∷ d ∷ re) text =
    ((d ≡ star) × Many (Begins re) c text) ⊎ ((d ≢ star) × Single (Begins (d ∷ re)) c text)

-- The texts with a place where the pattern begins.
abbrev pub Occurs : List ℕ → List ℕ → Type 0
Occurs re text = (xs ys : List ℕ) × (text ≡ xs ++ ys) × Begins re ys

-- What a test decides.
abbrev Decides : (List ℕ → Bool) → (List ℕ → Type 0) → Type 0
Decides f L = (text : List ℕ) → ((f text ≡ true) ↔ L text)

-- The tests of matchstar and of matchone on a byte.
star_test-Fits : (c t : ℕ) → ((t == c || c == dot) ≡ true) ↔ Fits c t
star_test-Fits c t = ground arith

one_test-Fits : (c t : ℕ) → ((c == dot || c == t) ≡ true) ↔ Fits c t
one_test-Fits c t = ground arith

both : (b x : Bool) → ((if b then x else false) ≡ true) ↔ ((b ≡ true) × (x ≡ true))
both true x = ((λ e. (refl, e)), λ p. p.1)
both false x = ((λ e. cc e), λ p. cc (p.0))

either : (b x : Bool) → ((if b then true else x) ≡ true) ↔ ((b ≡ true) ⊎ (x ≡ true))
either true x = ((λ e. inl refl), λ p. refl)
either false x = ((λ e. inr e), λ p. elim p [ inl e ↦ cc e | inr e ↦ e ])

matchone-Single :
    (f : List ℕ → Bool) (L : List ℕ → Type 0) (c : ℕ)
    → Decides f L
    → Decides (matchone f c) (Single L c)
unfolding matchone
matchone-Single f L c d [] = ((λ e. cc e), λ p. cc (p.2))
matchone-Single f L c d (t ∷ ts) = (sound, complete)
  where
    sound : matchone f c (t ∷ ts) ≡ true → Single L c (t ∷ ts)
    sound e =
        let (h, r) = (both (c == dot || c == t) (f ts)).0 e in
        (t, ts, refl, (one_test-Fits c t).0 h, (d ts).0 r)

    complete : Single L c (t ∷ ts) → matchone f c (t ∷ ts) ≡ true
    complete (t', ts', e, h, r) =
        let p : t' ≡ t = cc e in
        let q : ts' ≡ ts = cc e in
        (both (c == dot || c == t) (f ts)).1
          ((one_test-Fits c t).1 (subst (Fits c) p h), (d ts).1 (subst L q r))

matchstar-cons :
    (f : List ℕ → Bool) (L : List ℕ → Type 0) (c t : ℕ) (ts : List ℕ)
    → Decides f L
    → ((matchstar f c ts ≡ true) ↔ Many L c ts)
    → (matchstar f c (t ∷ ts) ≡ true) ↔ Many L c (t ∷ ts)
unfolding matchstar
matchstar-cons f L c t ts d ih = (sound, complete)
  where
    more : Bool
    more = if t == c || c == dot then matchstar f c ts else false

    sound : matchstar f c (t ∷ ts) ≡ true → Many L c (t ∷ ts)
    sound e = elim ((either (f (t ∷ ts)) more).0 e) [
      | inl g ↦ ([], t ∷ ts, refl, tt, (d (t ∷ ts)).0 g)
      | inr g ↦
          let (h, r) = (both (t == c || c == dot) (matchstar f c ts)).0 g in
          let (xs, ys, p, a, l) = ih.0 r in
          (t ∷ xs, ys, ap (λ z. t ∷ z) p, ((star_test-Fits c t).0 h, a), l)
    ]

    complete : Many L c (t ∷ ts) → matchstar f c (t ∷ ts) ≡ true
    complete ([], ys, e, h, r) =
        (either (f (t ∷ ts)) more).1 (inl ((d (t ∷ ts)).1 (subst L (sym e) r)))
    complete (x ∷ xs, ys, e, (h, a), r) =
        let p : x ≡ t = cc e in
        let q : ts ≡ xs ++ ys = cc e in
        (either (f (t ∷ ts)) more).1 (
          inr (
            (both (t == c || c == dot) (matchstar f c ts)).1
              ((star_test-Fits c t).1 (subst (Fits c) p h), ih.1 (xs, ys, q, a, r))))

matchstar-Many :
    (f : List ℕ → Bool) (L : List ℕ → Type 0) (c : ℕ)
    → Decides f L
    → Decides (matchstar f c) (Many L c)
unfolding matchstar
matchstar-Many f L c d [] = (sound, complete)
  where
    sound : f [] ≡ true → Many L c []
    sound e = ([], [], refl, tt, (d []).0 e)

    complete : Many L c [] → f [] ≡ true
    complete ([], ys, e, h, r) = (d []).1 (subst L (sym e) r)
    complete (x ∷ xs, ys, e, h, r) = cc e
matchstar-Many f L c d (t ∷ ts) = matchstar-cons f L c t ts d (matchstar-Many f L c d ts)

at_end_iff : (text : List ℕ) → (at_end text ≡ true) ↔ (text ≡ [])
at_end_iff [] = ((λ e. refl), λ e. refl)
at_end_iff (t ∷ ts) = ((λ e. cc e), λ e. cc e)

-- A test on a character of the pattern selects between two languages.
selects :
    (a b : ℕ) (f g : List ℕ → Bool) (L M : List ℕ → Type 0)
    → Decides f L
    → Decides g M
    → Decides
        (λ text. if a == b then f text else g text)
        (λ text. ((a ≡ b) × L text) ⊎ ((a ≢ b) × M text))
selects a b f g L M d d' text = elim (Bool-cases (a == b)) [
  | inl e ↦
      let same : a ≡ b = (==_iff a b).0 e in
      rw e (
        (λ x. inl (same, (d text).0 x)),
        λ p. elim p [ inl (q, l) ↦ (d text).1 l | inr (n, l) ↦ absurd (n same) ],
      )
  | inr e ↦
      let other : a ≢ b = λ z. ground (arith, e, z) in
      rw e (
        (λ x. inr (other, (d' text).0 x)),
        λ p. elim p [ inl (q, l) ↦ absurd (other q) | inr (n, l) ↦ (d' text).1 l ],
      )
]

matchhere-Begins : (re : List ℕ) → Decides (matchhere re) (Begins re)
unfolding matchhere
matchhere-Begins [] text = ((λ e. tt), λ e. refl)
matchhere-Begins (c ∷ []) text =
    selects c dollar at_end (matchone (matchhere []) c) (λ x. x ≡ []) (Single (Begins []) c)
      at_end_iff (matchone-Single (matchhere []) (Begins []) c (matchhere-Begins [])) text
matchhere-Begins (c ∷ d ∷ re) text =
    selects d star (matchstar (matchhere re) c) (matchone (matchhere (d ∷ re)) c)
      (Many (Begins re) c) (Single (Begins (d ∷ re)) c)
      (matchstar-Many (matchhere re) (Begins re) c (matchhere-Begins re))
      (matchone-Single (matchhere (d ∷ re)) (Begins (d ∷ re)) c (matchhere-Begins (d ∷ re))) text

match_from-cons :
    (re : List ℕ) (t : ℕ) (ts : List ℕ)
    → ((match_from re ts ≡ true) ↔ Occurs re ts)
    → (match_from re (t ∷ ts) ≡ true) ↔ Occurs re (t ∷ ts)
unfolding match_from
match_from-cons re t ts ih = (sound, complete)
  where
    test : (matchhere re (t ∷ ts) ≡ true) ↔ Begins re (t ∷ ts)
    test = matchhere-Begins re (t ∷ ts)

    sound : match_from re (t ∷ ts) ≡ true → Occurs re (t ∷ ts)
    sound e = elim ((either (matchhere re (t ∷ ts)) (match_from re ts)).0 e) [
      | inl g ↦ ([], t ∷ ts, refl, test.0 g)
      | inr g ↦ let (xs, ys, p, b) = ih.0 g in (t ∷ xs, ys, ap (λ z. t ∷ z) p, b)
    ]

    complete : Occurs re (t ∷ ts) → match_from re (t ∷ ts) ≡ true
    complete ([], ys, e, b) =
        (either (matchhere re (t ∷ ts)) (match_from re ts)).1
          (inl (test.1 (subst (Begins re) (sym e) b)))
    complete (x ∷ xs, ys, e, b) =
        let q : ts ≡ xs ++ ys = cc e in
        (either (matchhere re (t ∷ ts)) (match_from re ts)).1 (inr (ih.1 (xs, ys, q, b)))

match_from-Occurs : (re : List ℕ) → Decides (match_from re) (Occurs re)
unfolding match_from
match_from-Occurs re [] = (sound, complete)
  where
    sound : matchhere re [] ≡ true → Occurs re []
    sound e = ([], [], refl, (matchhere-Begins re []).0 e)

    complete : Occurs re [] → matchhere re [] ≡ true
    complete ([], ys, e, b) = (matchhere-Begins re []).1 (subst (Begins re) (sym e) b)
    complete (x ∷ xs, ys, e, b) = cc e
match_from-Occurs re (t ∷ ts) = match_from-cons re t ts (match_from-Occurs re ts)

-- Behind `^` a pattern stands at the beginning of the line, otherwise at any place of it.
abbrev pub Found : List ℕ → List ℕ → Type 0
Found [] text = Occurs [] text
Found (c ∷ re) text = ((c ≡ caret) × Begins re text) ⊎ ((c ≢ caret) × Occurs (c ∷ re) text)

-- match returns true for just the lines that the pattern stands for: `^` is the beginning of the
-- line, `$` its end, `.` one byte of any kind, `c*` any number of bytes that `c` stands for, and any
-- other character itself.
pub match-Found : (re text : List ℕ) → (match re text ≡ true) ↔ Found re text
unfolding match
match-Found [] text = match_from-Occurs [] text
match-Found (c ∷ re) text =
    selects c caret (matchhere re) (match_from (c ∷ re)) (Begins re) (Occurs (c ∷ re))
      (matchhere-Begins re) (match_from-Occurs (c ∷ re)) text
