-- ===== src/Grep.antt =====
-- user/grep.c: match, matchhere and matchstar, and the loop of grep in Grep/Lines. A string is the list of its bytes before
-- the NUL.
pub mod Language
pub mod Lines
mod Tests
use group10os.Prelude.{ℕ, Bool, true, false, ◌&&◌, ◌||◌, List, [], ◌∷◌, ◌==◌, if◌then◌else◌}

abbrev pub caret : ℕ
caret = b'^'

abbrev pub dot : ℕ
dot = b'.'

abbrev pub star : ℕ
star = b'*'

abbrev pub dollar : ℕ
dollar = b'$'

-- `*text == '\0'`
abbrev pub at_end : List ℕ → Bool
at_end [] = true
at_end (t ∷ ts) = false

-- "search for c*re at beginning of text", where `rest` is matchhere of `re`.
unfoldable pub matchstar : (List ℕ → Bool) → ℕ → List ℕ → Bool
matchstar rest c [] = rest []
matchstar rest c (t ∷ ts) =
    let more = matchstar rest c ts in
    if rest (t ∷ ts) then true else if t == c || c == dot then more else false

-- A byte of the text for a character of the pattern, and `rest` behind it.
unfoldable pub matchone : (List ℕ → Bool) → ℕ → List ℕ → Bool
matchone rest c [] = false
matchone rest c (t ∷ ts) = let more = rest ts in if c == dot || c == t then more else false

unfoldable pub matchhere : List ℕ → List ℕ → Bool
matchhere [] text = true
matchhere (c ∷ []) text = if c == dollar then at_end text else matchone (matchhere []) c text
matchhere (c ∷ d ∷ re) text =
    let many = matchstar (matchhere re) c text in
    let single = matchone (matchhere (d ∷ re)) c text in if d == star then many else single

-- The loop of match, which looks at the empty string too.
unfoldable pub match_from : List ℕ → List ℕ → Bool
match_from re [] = matchhere re []
match_from re (t ∷ ts) = let more = match_from re ts in if matchhere re (t ∷ ts) then true else more

unfoldable pub match : List ℕ → List ℕ → Bool
match [] text = match_from [] text
match (c ∷ re) text = if c == caret then matchhere re text else match_from (c ∷ re) text
