-- ===== src/Grep/Lines/Buffer.antt =====
-- The loop of grep in user/grep.c over the lines in the buffer, against the lines of a text.
use mathlib.Core.Path.{subst}
use mathlib.Core.List.{append_assoc, append-nil}
use group10os.Prelude.{
  ℕ, zero, suc, ◌<◌, ◌≡◌, refl, sym, ap, ◌∙◌, inl, inr, false, List, [], ◌∷◌, ◌++◌, Option, none,
  some, arith, All, ◌==◌, if◌then◌else◌, length, ◌≤◌, ◌-◌, Bool-cases, Option-cases,
}
use group10os.Grep.{match}
use group10os.Grep.Lines.{add_char, split_line, Scan, write_matching, scan_buf, bufsize}

-- A text without NULs.
abbrev pub IsText : List ℕ → Type 0
IsText = All (λ c. (c == 0) ≡ false)

-- The lines of a text that a newline ends, and what stands behind them; `cur` is the start of the first.
abbrev pub lines : List ℕ → List ℕ → List (List ℕ) × List ℕ
lines cur [] = ([], cur)
lines cur (c ∷ s) =
    let next = lines [] s in
    let longer = lines (cur ++ c ∷ []) s in if c == 10 then (cur ∷ next.0, next.1) else longer

-- Those of the lines that match, each with its newline.
abbrev pub select : List ℕ → List (List ℕ) → List (List ℕ)
select re [] = []
select re (line ∷ ls) = let rest = select re ls in write_matching re line rest

-- Each line is shorter than the buffer without its last byte, and what no newline ends fits there.
abbrev pub Fit : List (List ℕ) × List ℕ → Type 0
Fit r = All (λ line. length line < bufsize - 1) r.0 × (length r.1 ≤ bufsize - 1)

after : List ℕ → List ℕ → Option (List ℕ × List ℕ) → List (List ℕ) × List ℕ
after cur s none = ([], cur ++ s)
after cur s (some (line, rest)) = ((cur ++ line) ∷ (lines [] rest).0, (lines [] rest).1)

after-add_char :
    (cur s : List ℕ) (c : ℕ) (o : Option (List ℕ × List ℕ))
    → after (cur ++ c ∷ []) s o ≡ after cur (c ∷ s) (add_char c o)
unfolding after
after-add_char cur s c none = ap (λ x. ([], x)) (append_assoc cur (c ∷ []) s)
after-add_char cur s c (some (line, rest)) =
    ap (λ x. (x ∷ (lines [] rest).0, (lines [] rest).1)) (append_assoc cur (c ∷ []) line)

lines-split_line : (cur s : List ℕ) → IsText s → lines cur s ≡ after cur s (split_line s)
unfolding after
lines-split_line cur [] t = ap (λ x. ([], x)) (sym (append-nil cur))
lines-split_line cur (c ∷ s) (n, t) = elim (Bool-cases (c == 10)) [
  | inl e ↦ rw (n, e) (ap (λ x. (x ∷ (lines [] s).0, (lines [] s).1)) (sym (append-nil cur)))
  | inr e ↦ rw (n, e) (lines-split_line (cur ++ c ∷ []) s t ∙ after-add_char cur s c (split_line s))
]

-- The text behind a line.
Behind : List ℕ → Option (List ℕ × List ℕ) → Type 0
Behind s none = Unit {0}
Behind s (some (line, rest)) = (length rest < length s) × IsText rest

add_char-Behind :
    (c : ℕ) (s : List ℕ) (o : Option (List ℕ × List ℕ)) → Behind s o → Behind (c ∷ s) (add_char c o)
unfolding Behind
add_char-Behind c s none b = tt
add_char-Behind c s (some (line, rest)) (l, t) = (omega (arith, l), t)

split_line-Behind : (s : List ℕ) → IsText s → Behind s (split_line s)
unfolding Behind
split_line-Behind [] t = tt
split_line-Behind (c ∷ s) (n, t) = elim (Bool-cases (c == 10)) [
  | inl e ↦ rw (n, e) (omega arith, t)
  | inr e ↦ rw (n, e) (add_char-Behind c s (split_line s) (split_line-Behind s t))
]

abbrev selected : List ℕ → List (List ℕ) × List ℕ → Scan
selected re r = (select re r.0, r.1)

scan_buf-lines :
    (fuel : ℕ) (re s : List ℕ)
    → IsText s
    → length s < fuel
    → scan_buf fuel re s ≡ selected re (lines [] s)
unfolding scan_buf after Behind
scan_buf-lines zero re s t l = absurd (omega (arith, l))
scan_buf-lines (suc fuel) re s t l = elim (Option-cases (split_line s)) [
  | inl e ↦ rw (scan_buf, e) (sym (ap (selected re) (lines-split_line [] s t ∙ ap (after [] s) e)))
  | inr ((line, rest), e) ↦
      let (shorter, t') = subst (Behind s) e (split_line-Behind s t) in
      rw (scan_buf, e)
        (ap (λ (r : Scan). (write_matching re line r.0, r.1))
            (scan_buf-lines fuel re rest t' (omega (arith, shorter, l)))
          ∙ sym (ap (selected re) (lines-split_line [] s t ∙ ap (after [] s) e)))
]

pub lines-append :
    (cur s t : List ℕ)
    → lines cur (s ++ t)
      ≡ ((lines cur s).0 ++ (lines (lines cur s).1 t).0, (lines (lines cur s).1 t).1)
lines-append cur [] t = refl
lines-append cur (c ∷ s) t = elim (Bool-cases (c == 10)) [
  | inl e ↦ rw e (ap (λ (r : List (List ℕ) × List ℕ). (cur ∷ r.0, r.1)) (lines-append [] s t))
  | inr e ↦ rw e (lines-append (cur ++ c ∷ []) s t)
]

-- A start of a line.
abbrev pub IsStart : List ℕ → Type 0
IsStart cur = lines [] cur ≡ ([], cur)

pub lines-IsStart : (cur s : List ℕ) → IsStart cur → IsStart (lines cur s).1
lines-IsStart cur [] i = i
lines-IsStart cur (c ∷ s) i = elim (Bool-cases (c == 10)) [
  | inl e ↦ rw e (lines-IsStart [] s refl)
  | inr e ↦ rw e (lines-IsStart (cur ++ c ∷ []) s (lines-append [] cur (c ∷ []) ∙ rw (i, e) refl))
]

IsText-append : (s t : List ℕ) → IsText s → IsText t → IsText (s ++ t)
IsText-append [] t i j = j
IsText-append (c ∷ s) t (n, i) j = (n, IsText-append s t i j)

pub lines-IsText : (cur s : List ℕ) → IsText cur → IsText s → IsText (lines cur s).1
lines-IsText cur [] i j = i
lines-IsText cur (c ∷ s) i (n, j) = elim (Bool-cases (c == 10)) [
  | inl e ↦ rw e (lines-IsText [] s tt j)
  | inr e ↦ rw e (lines-IsText (cur ++ c ∷ []) s (IsText-append cur (c ∷ []) i (n, tt)) j)
]

pub select-append :
    (re : List ℕ) (ls ms : List (List ℕ)) → select re (ls ++ ms) ≡ select re ls ++ select re ms
select-append re [] ms = refl
select-append re (line ∷ ls) ms = elim (Bool-cases (match re line)) [
  | inl e ↦ rw e (ap (λ x. (line ++ 10 ∷ []) ∷ x) (select-append re ls ms))
  | inr e ↦ rw e (select-append re ls ms)
]

-- A read behind the text that is kept from the one before.
pub scan_buf-kept :
    (re kept buf : List ℕ)
    → IsText kept
    → IsText buf
    → IsStart kept
    → scan_buf (suc (length (kept ++ buf))) re (kept ++ buf) ≡ selected re (lines kept buf)
scan_buf-kept re kept buf i j k =
    scan_buf-lines (suc (length (kept ++ buf))) re (kept ++ buf) (IsText-append kept buf i j)
      (omega arith)
    ∙ ap (selected re) (lines-append [] kept buf ∙ rw k refl)
