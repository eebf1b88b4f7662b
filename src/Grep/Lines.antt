-- ===== src/Grep/Lines.antt =====
-- The loop of grep in user/grep.c over its buffer of 1024 bytes: each call of read is asked for what has
-- room there, and what stands behind the last newline is kept for the next one.
pub mod Buffer
pub mod Whole
use group10os.Prelude.{
  ℕ, zero, suc, ◌-◌, Bool, true, false, List, [], ◌∷◌, ◌++◌, Option, none, some, ◌==◌,
  if◌then◌else◌, length, ltb,
}
use group10os.Grep.{match}

-- `strchr(p, '\n')`: the line up to the newline, and the text behind it. A NUL ends the search.
abbrev pub add_char : ℕ → Option (List ℕ × List ℕ) → Option (List ℕ × List ℕ)
add_char c none = none
add_char c (some (line, rest)) = some (c ∷ line, rest)

abbrev pub split_line : List ℕ → Option (List ℕ × List ℕ)
split_line [] = none
split_line (c ∷ s) =
    let rest = split_line s in
    if c == 0 then none else if c == 10 then some ([], s) else add_char c rest

-- The lines that are written, and what is left.
abbrev pub Scan : Type 0
Scan = List (List ℕ) × List ℕ

abbrev pub write_matching : List ℕ → List ℕ → List (List ℕ) → List (List ℕ)
write_matching re line out = if match re line then (line ++ 10 ∷ []) ∷ out else out

-- The loop over the lines in the buffer, each of which takes a byte at least.
unfoldable pub scan_buf : ℕ → List ℕ → List ℕ → Scan
scan_buf zero re s = ([], s)
scan_buf (suc fuel) re s = elim (split_line s) as (λ _. Scan) [
  | none ↦ ([], s)
  | some (line, rest) ↦ let next = scan_buf fuel re rest in (write_matching re line next.0, next.1)
]

-- sizeof(buf)
abbrev pub bufsize : ℕ
bufsize = 1024

abbrev pub take : ℕ → List ℕ → List ℕ
take zero s = []
take (suc n) [] = []
take (suc n) (c ∷ s) = c ∷ take n s

abbrev pub drop : ℕ → List ℕ → List ℕ
drop zero s = s
drop (suc n) [] = []
drop (suc n) (c ∷ s) = drop n s

abbrev pub min : ℕ → ℕ → ℕ
min m n = if ltb m n then m else n

-- What a call of read gives: no more than is ready, than the caller asks for, and than is left.
abbrev pub read_count : ℕ → ℕ → List ℕ → ℕ
read_count ready asked text = min (min ready asked) (length text)

-- The loop over the calls of read, each with the number of bytes that are ready for it; `kept` is what
-- stands in the buffer, of length `m`, and `text` is what is left of the file. A read that gives
-- nothing ends the loop.
unfoldable pub grep_from : List ℕ → List ℕ → List ℕ → List ℕ → Scan
grep_from re [] text kept = ([], kept)
grep_from re (ready ∷ reads) text kept =
    let n = read_count ready (bufsize - length kept - 1) text in
    let buf = kept ++ take n text in
    let here = scan_buf (suc (length buf)) re buf in
    let next = grep_from re reads (drop n text) here.1 in
    if n == 0 then ([], kept) else (here.0 ++ next.0, next.1)

unfoldable pub grep : List ℕ → List ℕ → List ℕ → List (List ℕ)
grep re reads text = (grep_from re reads text []).0
