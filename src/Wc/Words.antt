-- ===== src/Wc/Words.antt =====
-- What wc of user/wc.c counts: the lines, the words and the bytes of a text, however read cuts it up.
use group10os.Prelude.{
  ℕ, suc, ◌+◌, ◌≡◌, refl, sym, ◌∙◌, inl, inr, Bool, true, false, not, List, [], ◌∷◌, ◌++◌, some,
  arith, ◌==◌, if◌then◌else◌, length, Bool-cases,
}
use group10os.Wc.{Counts, newline, is_space, count_byte, count_buf, count_reads, wc}

abbrev pub text_of : List (List ℕ) → List ℕ
text_of [] = []
text_of (buf ∷ bufs) = buf ++ text_of bufs

-- The byte `b` in front of a text with the words `ws`, where it is no white space: it begins the first of
-- these if the text goes on with it, and is a word otherwise.
abbrev pub add_to : ℕ → List ℕ → List (List ℕ) → List (List ℕ)
add_to b [] ws = (b ∷ []) ∷ ws
add_to b (d ∷ s) [] = (b ∷ []) ∷ []
add_to b (d ∷ s) (w ∷ ws) = if is_space d then (b ∷ []) ∷ w ∷ ws else (b ∷ w) ∷ ws

-- The words of a text: the longest runs of bytes that are no white space.
abbrev pub words : List ℕ → List (List ℕ)
words [] = []
words (b ∷ s) = let rest = words s in if is_space b then rest else add_to b s rest

abbrev pub newlines : List ℕ → ℕ
newlines [] = 0
newlines (b ∷ s) = let rest = newlines s in if b == newline then suc rest else rest

-- Whether the text goes on with a word.
abbrev in_word : List ℕ → ℕ
in_word [] = 0
in_word (b ∷ s) = if is_space b then 0 else 1

length-add_to_space :
    (b d : ℕ) (s : List ℕ) (ws : List (List ℕ))
    → is_space d ≡ true
    → length (add_to b (d ∷ s) ws) ≡ suc (length ws)
length-add_to_space b d s [] e = refl
length-add_to_space b d s (w ∷ ws) e = rw e refl

length-add_to_word :
    (b d : ℕ) (s : List ℕ) (ws : List (List ℕ))
    → is_space d ≡ false
    → length (add_to b (d ∷ s) (add_to d s ws)) ≡ length (add_to d s ws)
length-add_to_word b d [] ws e = rw e refl
length-add_to_word b d (x ∷ s) [] e = rw e refl
length-add_to_word b d (x ∷ s) (w ∷ ws) e = elim (Bool-cases (is_space x)) [
  | inl g ↦ rw (g, e) refl
  | inr g ↦ rw (g, e) refl
]

length-add_to :
    (b : ℕ) (s : List ℕ) → length (add_to b s (words s)) + in_word s ≡ suc (length (words s))
length-add_to b [] = refl
length-add_to b (d ∷ s) = elim (Bool-cases (is_space d)) [
  | inl e ↦ let h = length-add_to_space b d s (words s) e in rw e (omega (arith, h))
  | inr e ↦ let h = length-add_to_word b d s (words s) e in rw e (omega (arith, h))
]

word-step :
    (x w b : ℕ) (s : List ℕ) (inword : Bool)
    → x + (if not (is_space b) then in_word s else 0)
      ≡ (if is_space b then w else if inword then w else w + 1) + length (words s)
    → x + (if inword then in_word (b ∷ s) else 0) ≡ w + length (words (b ∷ s))
word-step x w b s true h = elim (Bool-cases (is_space b)) [
  | inl e ↦ let g = rw e at h in rw e (omega (arith, g))
  | inr e ↦ let n = length-add_to b s in let g = rw e at h in rw e (omega (arith, g, n))
]
word-step x w b s false h = elim (Bool-cases (is_space b)) [
  | inl e ↦ let g = rw e at h in rw e (omega (arith, g))
  | inr e ↦ let n = length-add_to b s in let g = rw e at h in rw e (omega (arith, g, n))
]

-- A word that is counted already is not counted again.
words-count :
    (s : List ℕ) (k : Counts)
    → (count_buf s k).w + (if k.inword then in_word s else 0) ≡ k.w + length (words s)
words-count [] k = elim (Bool-cases k.inword) [
  | inl e ↦ rw e (omega arith)
  | inr e ↦ rw e (omega arith)
]
words-count (b ∷ s) k =
    word-step (count_buf (b ∷ s) k).w k.w b s k.inword (words-count s (count_byte b k))

line-step :
    (l b : ℕ) (s : List ℕ) → (if b == newline then l + 1 else l) + newlines s ≡ l + newlines (b ∷ s)
line-step l b s = elim (Bool-cases (b == newline)) [
  | inl e ↦ rw e (omega arith)
  | inr e ↦ rw e refl
]

lines-count : (s : List ℕ) (k : Counts) → (count_buf s k).l ≡ k.l + newlines s
lines-count [] k = omega arith
lines-count (b ∷ s) k = lines-count s (count_byte b k) ∙ line-step k.l b s

bytes-count : (s : List ℕ) (k : Counts) → (count_buf s k).c ≡ k.c + length s
bytes-count [] k = omega arith
bytes-count (b ∷ s) k = let h = bytes-count s (count_byte b k) in omega (arith, h)

count_buf-append : (s t : List ℕ) (k : Counts) → count_buf (s ++ t) k ≡ count_buf t (count_buf s k)
count_buf-append [] t k = refl
count_buf-append (b ∷ s) t k = count_buf-append s t (count_byte b k)

count_reads_lem :
    (bufs : List (List ℕ)) (k : Counts) → count_reads bufs k ≡ count_buf (text_of bufs) k
count_reads_lem [] k = refl
count_reads_lem (buf ∷ bufs) k =
    count_reads_lem bufs (count_buf buf k) ∙ sym (count_buf-append buf (text_of bufs) k)

-- Where no read fails, wc prints how many newlines, words and bytes the whole text has, wherever the
-- reads cut it, also inside a word.
pub wc-words :
    (bufs : List (List ℕ))
    → wc bufs false
      ≡ some (newlines (text_of bufs), length (words (text_of bufs)), length (text_of bufs))
unfolding wc
wc-words bufs =
    let s = text_of bufs in
    let k : Counts = record { l = 0; w = 0; c = 0; inword = false } in
    let a = lines-count s k in
    let b = words-count s k in
    let c = bytes-count s k in
    let x : (count_buf s k).l ≡ newlines s = omega (arith, a) in
    let y : (count_buf s k).w ≡ length (words s) = omega (arith, b) in
    let z : (count_buf s k).c ≡ length s = omega (arith, c) in
    rw (count_reads_lem bufs k, x, y, z) refl
