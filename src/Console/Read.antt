-- ===== src/Console/Read.antt =====
-- What consoleread of kernel/console.c takes from the input buffer.
use mathlib.Core.List.{append_assoc}
use group10os.Prelude.{
  ℕ, zero, suc, ◌-◌, ◌%◌, ◌≤◌, ◌<◌, ◌≡◌, refl, ap, ◌∙◌, ◌≢◌, true, false, List, [], ◌∷◌, ◌++◌, some,
  arith, length, All,
}
use group10os.Prelude.Int.{pos}
use group10os.Console.{
  Cons, input_buf_size, newline, ctrl_d, add_uint, sub_uint, Round, consoleread_from, consoleread,
}
use group10os.Console.Buffer.{IsValid, window, committed, pending}

abbrev pub advanced : Cons → Cons
advanced s = record s { r = add_uint s.r 1 }

-- The reader takes the first byte that is committed.
record Took (s : Cons) (x : ℕ) (xs : List ℕ) : Type 0 where
  some_left : s.r ≢ s.w
  first : s.buf (s.r % input_buf_size) ≡ x
  rest : committed (advanced s) ≡ xs
  valid : IsValid (advanced s)

head_of {ℓ} : {A : Type ℓ} → A → List A → A
head_of d [] = d
head_of d (x ∷ xs) = x

tail_of {ℓ} : {A : Type ℓ} → List A → List A
tail_of [] = []
tail_of (x ∷ xs) = xs

take_first_from :
    (k : ℕ) (s : Cons) (x : ℕ) (xs : List ℕ)
    → IsValid s
    → k ≡ sub_uint s.w s.r
    → window s.buf s.r k ≡ x ∷ xs
    → Took s x xs
unfolding head_of tail_of
take_first_from zero s x xs v e h = cc
take_first_from (suc k) s x xs v e h = record {
  some_left = λ f. omega arith;
  first = ap (head_of 0) h;
  rest =
      let n : sub_uint s.w (add_uint s.r 1) ≡ k = omega arith in
      ap (window s.buf (add_uint s.r 1)) n ∙ ap tail_of h;
  valid = record {
    r_uint = omega arith;
    w_uint = v.w_uint;
    e_uint = v.e_uint;
    ordered = omega arith;
    fits = omega arith;
    open_line = v.open_line;
  };
}

take_first : (s : Cons) (x : ℕ) (xs : List ℕ) → IsValid s → committed s ≡ x ∷ xs → Took s x xs
take_first s x xs v h = take_first_from (sub_uint s.w s.r) s x xs v refl h

-- Rounds in which the process is not killed and each byte reaches its destination.
abbrev pub undisturbed : ℕ → List Round
undisturbed zero = []
undisturbed (suc k) = record { killed = false; typed_in = []; copied = true } ∷ undisturbed k

abbrev pub IsPlain : ℕ → Type 0
IsPlain c = (c ≢ newline) × (c ≢ ctrl_d)

-- What a reader that gets the bytes leaves.
abbrev Left : Cons → List ℕ → Cons → Type 0
Left s rest s' = (committed s' ≡ rest) × (pending s' ≡ pending s) × IsValid s'

consoleread_from-line :
    (line rest : List ℕ) (s : Cons) (k target n : ℕ) (out : List ℕ)
    → IsValid s
    → committed s ≡ line ++ (newline ∷ rest)
    → All IsPlain line
    → length line < k
    → length line < n
    → n ≤ target
    → (s' : Cons) × (consoleread_from (undisturbed k) s target n out
        ≡ some (pos (target - (n - suc (length line))), out ++ (line ++ (newline ∷ [])), s'))
      × Left s rest s'
unfolding consoleread_from
consoleread_from-line [] rest s (suc k) target (suc n) out v h p hk hn ht =
    let t = take_first s newline rest v h in
    (advanced s, ground (arith, t.some_left, t.first), (t.rest, refl, t.valid))
consoleread_from-line (c ∷ line) rest s (suc k) target (suc n) out v h p hk hn ht =
    let t = take_first s c (line ++ (newline ∷ rest)) v h in
    let (s', e, l) =
      consoleread_from-line line rest (advanced s) k target n (out ++ (c ∷ [])) t.valid t.rest p.1
        (omega arith) (omega arith) (omega arith) in
    (
      s',
      ground (arith, e, t.some_left, t.first, append_assoc out (c ∷ []) (line ++ (newline ∷ []))),
      l,
    )
consoleread_from-line line rest s zero target n out v h p hk hn ht = absurd (omega arith)
consoleread_from-line line rest s (suc k) target zero out v h p hk hn ht = absurd (omega arith)

-- A reader that is neither killed nor kept from copying, with room for a committed line and its
-- newline, gets exactly that line; the rest of the input and the line that is typed stay.
pub consoleread-line :
    (line rest : List ℕ) (s : Cons) (n : ℕ)
    → IsValid s
    → committed s ≡ line ++ (newline ∷ rest)
    → All IsPlain line
    → length line < n
    → (s' : Cons) × (consoleread (undisturbed n) s n
        ≡ some (pos (suc (length line)), line ++ (newline ∷ []), s'))
      × (committed s' ≡ rest)
      × (pending s' ≡ pending s)
      × IsValid s'
unfolding consoleread
consoleread-line line rest s n v h p hn =
    let (s', e, l) = consoleread_from-line line rest s n n n [] v h p hn hn (omega arith) in
    let f : n - (n - suc (length line)) ≡ suc (length line) = omega arith in
    (s', e ∙ ap (λ j. some (pos j, line ++ (newline ∷ []), s')) f, l.0, l.1, l.2)
