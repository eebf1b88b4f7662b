-- ===== src/Grep/Lines/Whole.antt =====
-- The lines that grep of user/grep.c writes are those of the whole text that match, however read cuts it.
use mathlib.Core.Path.{subst}
use group10os.Prelude.{
  ℕ, zero, suc, ◌<◌, ◌≡◌, refl, sym, ap, ◌∙◌, inl, inr, true, false, List, [], ◌∷◌, ◌++◌, arith,
  All, ◌==◌, length, length-append, ◌≤◌, ◌-◌, Bool-cases,
}
use group10os.Grep.Lines.{Scan, bufsize, take, drop, read_count, grep_from, grep}
use group10os.Grep.Lines.Buffer.{
  IsText, lines, select, Fit, lines-append, IsStart, lines-IsStart, lines-IsText, select-append,
  scan_buf-kept,
}

lines-newline :
    (cur s : List ℕ) (c : ℕ)
    → (c == 10) ≡ true
    → lines cur (c ∷ s) ≡ (cur ∷ (lines [] s).0, (lines [] s).1)
lines-newline cur s c e = rw e refl

lines-other :
    (cur s : List ℕ) (c : ℕ) → (c == 10) ≡ false → lines cur (c ∷ s) ≡ lines (cur ++ c ∷ []) s
lines-other cur s c e = rw e refl

-- There is room in the buffer while there is more of the text.
lines-room : (cur s : List ℕ) (c : ℕ) → Fit (lines cur (c ∷ s)) → length cur < bufsize - 1
lines-room cur [] c f = elim (Bool-cases (c == 10)) [
  | inl e ↦ (subst Fit (lines-newline cur [] c e) f).0.0
  | inr e ↦
      (let g = subst Fit (lines-other cur [] c e) f in
        omega (arith, g.1, length-append cur (c ∷ [])))
]
lines-room cur (d ∷ s) c f = elim (Bool-cases (c == 10)) [
  | inl e ↦ (subst Fit (lines-newline cur (d ∷ s) c e) f).0.0
  | inr e ↦
      (let g = lines-room (cur ++ c ∷ []) s d (subst Fit (lines-other cur (d ∷ s) c e) f) in
        omega (arith, g, length-append cur (c ∷ [])))
]

All-behind :
    (xs ys : List (List ℕ))
    → All (λ line. length line < bufsize - 1) (xs ++ ys)
    → All (λ line. length line < bufsize - 1) ys
All-behind [] ys a = a
All-behind (x ∷ xs) ys a = All-behind xs ys a.1

take-drop : (n : ℕ) (s : List ℕ) → take n s ++ drop n s ≡ s
take-drop zero s = refl
take-drop (suc n) [] = refl
take-drop (suc n) (c ∷ s) = ap (◌∷◌ c) (take-drop n s)

length-drop : (n : ℕ) (s : List ℕ) → length (drop n s) ≡ length s - n
length-drop zero s = omega arith
length-drop (suc n) [] = omega arith
length-drop (suc n) (c ∷ s) = omega (arith, length-drop n s)

IsText-take : (n : ℕ) (s : List ℕ) → IsText s → IsText (take n s)
IsText-take zero s t = tt
IsText-take (suc n) [] t = tt
IsText-take (suc n) (c ∷ s) t = (t.0, IsText-take n s t.1)

IsText-drop : (n : ℕ) (s : List ℕ) → IsText s → IsText (drop n s)
IsText-drop zero s t = t
IsText-drop (suc n) [] t = tt
IsText-drop (suc n) (c ∷ s) t = IsText-drop n s t.1

-- The lines of a text of which a part has been read.
lines-cut :
    (n : ℕ) (kept s : List ℕ)
    → let here = lines kept (take n s) in
      let rest = lines here.1 (drop n s) in lines kept s ≡ (here.0 ++ rest.0, rest.1)
lines-cut n kept s = ap (lines kept) (sym (take-drop n s)) ∙ lines-append kept (take n s) (drop n s)

-- Where there is room, a byte is ready and there is more of the text, read gives something.
read_count-some :
    (ready asked c : ℕ) (s : List ℕ) → 0 < ready → 0 < asked → 0 < read_count ready asked (c ∷ s)
read_count-some ready asked c s r a = ground arith

grep_from-lines :
    (re reads text kept : List ℕ)
    → All (λ ready. 0 < ready) reads
    → length text ≤ length reads
    → IsText kept
    → IsText text
    → IsStart kept
    → Fit (lines kept text)
    → (grep_from re reads text kept).0 ≡ select re (lines kept text).0
unfolding grep_from
grep_from-lines re [] [] kept r l i t k f = refl
grep_from-lines re [] (c ∷ s) kept r l i t k f = absurd (omega (arith, l))
grep_from-lines re (ready ∷ reads) [] kept r l i t k f =
    (let z : (read_count ready (bufsize - length kept - 1) [] == 0) ≡ true = ground arith in
      rw z refl)
grep_from-lines re (ready ∷ reads) (c ∷ s) kept r l i t k f =
    let text = c ∷ s in
    let n = read_count ready (bufsize - length kept - 1) text in
    let room = lines-room kept s c f in
    let some_read : 0 < n =
      read_count-some ready (bufsize - length kept - 1) c s r.0 (omega (arith, room)) in
    let more : (n == 0) ≡ false = ground (arith, some_read) in
    let here = lines kept (take n text) in
    let fit = subst Fit (lines-cut n kept text) f in
    let t' = IsText-take n text t in
    let ih =
      grep_from-lines re reads (drop n text) here.1 r.1
        (omega (arith, length-drop n text, some_read, l)) (lines-IsText kept (take n text) i t')
        (IsText-drop n text t) (lines-IsStart kept (take n text) k)
        (All-behind here.0 (lines here.1 (drop n text)).0 fit.0, fit.1) in
    rw more (
      ap (λ (x : Scan). x.0 ++ (grep_from re reads (drop n text) x.1).0)
        (scan_buf-kept re kept (take n text) i t' k)
      ∙ ap (λ y. select re here.0 ++ y) ih
      ∙ sym (select-append re here.0 (lines here.1 (drop n text)).0)
      ∙ sym (ap (λ (x : List (List ℕ) × List ℕ). select re x.0) (lines-cut n kept text)))

-- Of a text without NULs in which no line reaches 1023 bytes, and what stands behind the last newline
-- is no longer than that, grep writes the lines that match, in order, each with its newline, however
-- many bytes are ready for each call of read, one at least, and wherever the buffer cuts the text. A
-- call of read for each byte is enough. What no newline ends is not a line.
pub grep-lines :
    (re reads text : List ℕ)
    → All (λ ready. 0 < ready) reads
    → length text ≤ length reads
    → IsText text
    → Fit (lines [] text)
    → grep re reads text ≡ select re (lines [] text).0
unfolding grep
grep-lines re reads text r l t f = grep_from-lines re reads text [] r l tt t refl f
