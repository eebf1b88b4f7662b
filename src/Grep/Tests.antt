-- ===== src/Grep/Tests.antt =====
-- user/grep.c on short patterns.
use group10os.Prelude.{ℕ, ◌≡◌, refl, true, false, List, [], ◌∷◌, ◌↔◌, arith}
use group10os.Grep.{match, match_from, matchhere, matchstar, matchone}
use group10os.Grep.Lines.{scan_buf, grep_from, grep}
use group10os.Grep.Lines.Buffer.{lines, select}
use group10os.Grep.Lines.Whole.{grep-lines}
use group10os.Grep.Language.{Found, match-Found}

-- "^ab*c$"
abbrev pattern_ab : List ℕ
pattern_ab = b'^' ∷ b'a' ∷ b'b' ∷ b'*' ∷ b'c' ∷ b'$' ∷ []

match-Found_example :
    (match pattern_ab (b'a' ∷ b'b' ∷ b'b' ∷ b'c' ∷ []) ≡ true)
    ↔ Found pattern_ab (b'a' ∷ b'b' ∷ b'b' ∷ b'c' ∷ [])
match-Found_example = match-Found pattern_ab (b'a' ∷ b'b' ∷ b'b' ∷ b'c' ∷ [])

match-runs :
    (match pattern_ab (b'a' ∷ b'b' ∷ b'b' ∷ b'c' ∷ []) ≡ true)
    × (match pattern_ab (b'a' ∷ b'b' ∷ b'b' ∷ []) ≡ false)
    × (match (b'.' ∷ b'*' ∷ b'c' ∷ []) (b'a' ∷ b'b' ∷ b'c' ∷ b'a' ∷ []) ≡ true)
unfolding match match_from matchhere matchstar matchone
match-runs = (refl, refl, refl)

-- "abc\nx\nac", of which the first read gives five bytes, up to the x.
abbrev text : List ℕ
text = b'a' ∷ b'b' ∷ b'c' ∷ 10 ∷ b'x' ∷ 10 ∷ b'a' ∷ b'c' ∷ []

abbrev reads : List ℕ
reads = 5 ∷ 2 ∷ 9 ∷ 9 ∷ 9 ∷ 9 ∷ 9 ∷ 9 ∷ []

grep-lines_example : grep pattern_ab reads text ≡ select pattern_ab (lines [] text).0
grep-lines_example =
    grep-lines pattern_ab reads text (omega arith) (omega arith)
      (refl, (refl, (refl, (refl, (refl, (refl, (refl, (refl, tt)))))))) (omega arith)

one_line : grep pattern_ab reads text ≡ (b'a' ∷ b'b' ∷ b'c' ∷ 10 ∷ []) ∷ []
unfolding grep grep_from scan_buf match match_from matchhere matchstar matchone
one_line = refl
