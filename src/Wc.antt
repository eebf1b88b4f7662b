-- ===== src/Wc.antt =====
-- wc of user/wc.c. What the calls of read give is a list of buffers, each with a byte at least, and
-- whether the last call failed.
pub mod Words
mod Tests
use group10os.Prelude.{
  ℕ, suc, ◌+◌, Bool, true, false, not, ◌||◌, List, [], ◌∷◌, Option, none, some, ◌==◌, if◌then◌else◌,
}

pub record Counts : Type 0 where
  pub l : ℕ
  pub w : ℕ
  pub c : ℕ
  pub inword : Bool

abbrev pub newline : ℕ
newline = 10

-- " \r\t\n\v"; strchr does not find a NUL.
abbrev pub is_space : ℕ → Bool
is_space b = b == 32 || (b == 13 || (b == 9 || (b == 10 || b == 11)))

-- The body of the loop over the buffer.
abbrev pub count_byte : ℕ → Counts → Counts
count_byte b k = record {
  l = if b == newline then k.l + 1 else k.l;
  w = if is_space b then k.w else if k.inword then k.w else k.w + 1;
  c = k.c + 1;
  inword = not (is_space b);
}

abbrev pub count_buf : List ℕ → Counts → Counts
count_buf [] k = k
count_buf (b ∷ bs) k = count_buf bs (count_byte b k)

abbrev pub count_reads : List (List ℕ) → Counts → Counts
count_reads [] k = k
count_reads (buf ∷ bufs) k = count_reads bufs (count_buf buf k)

-- The numbers that wc prints; `none` is "wc: read error".
unfoldable pub wc : List (List ℕ) → Bool → Option (ℕ × ℕ × ℕ)
wc bufs failed =
    let k = count_reads bufs (record { l = 0; w = 0; c = 0; inword = false }) in
    if failed then none else some (k.l, k.w, k.c)
