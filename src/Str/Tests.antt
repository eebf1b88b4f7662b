-- ===== src/Str/Tests.antt =====
-- kernel/string.c on concrete memories.
use group10os.Prelude.{ℕ, zero, suc, ◌+◌, ◌-◌, ◌<◌, ◌≡◌, refl, ◌≢◌, [], ◌∷◌, arith, get_or}
use group10os.Prelude.Memory.{Mem}
use group10os.Prelude.Int.{negsuc}
use group10os.Str.{memcmp, memmove}
use group10os.Str.Copy.{memmove_lem}

-- Each byte is its address.
abbrev ident : Mem ℕ
ident a = a

-- "ab" at address 10.
abbrev text : Mem ℕ
text a = get_or (b'a' ∷ b'b' ∷ 0 ∷ b'x' ∷ []) (a - 10) 7

abbrev word_ab : ℕ → ℕ
word_ab i = get_or (b'a' ∷ b'b' ∷ []) i 0

abbrev word_ac : ℕ → ℕ
word_ac i = get_or (b'a' ∷ b'c' ∷ []) i 0

text-ne-zero : (i : ℕ) → i < 2 → text (10 + i) ≢ 0
text-ne-zero zero h = omega arith
text-ne-zero (suc zero) h = omega arith
text-ne-zero (suc (suc i)) h = absurd (omega arith)

word_ab-ne-zero : (i : ℕ) → i < 2 → word_ab i ≢ 0
word_ab-ne-zero zero h = omega arith
word_ab-ne-zero (suc zero) h = omega arith
word_ab-ne-zero (suc (suc i)) h = absurd (omega arith)

words_same : (j : ℕ) → j < 1 → (word_ab j ≢ 0) × (word_ab j ≡ word_ac j)
words_same zero h = omega arith
words_same (suc j) h = absurd (omega arith)

memcmp_test : memcmp ident 2 3 2 ≡ negsuc 0
unfolding memcmp
memcmp_test = refl

-- Byte 5 of the destination, which the source overlaps, is the third byte of the source.
memmove_lem_example : memmove ident 3 1 4 5 ≡ 3
memmove_lem_example = memmove_lem ident 3 1 4 5
