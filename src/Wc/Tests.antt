-- ===== src/Wc/Tests.antt =====
-- Runs of user/wc.c, and the theorem at a concrete input.
use group10os.Prelude.{ℕ, ◌≡◌, refl, true, false, List, [], ◌∷◌, none, some, length}
use group10os.Wc.{wc}
use group10os.Wc.Words.{text_of, words, newlines, wc-words}

-- "ab c\nd", cut inside the first word.
abbrev reads : List (List ℕ)
reads = (97 ∷ []) ∷ (98 ∷ 32 ∷ 99 ∷ 10 ∷ 100 ∷ []) ∷ []

wc-words_example :
    wc reads false
    ≡ some (newlines (text_of reads), length (words (text_of reads)), length (text_of reads))
wc-words_example = wc-words reads

three_words : wc reads false ≡ some (1, 3, 6)
unfolding wc
three_words = refl

after_an_error : wc reads true ≡ none
unfolding wc
after_an_error = refl
