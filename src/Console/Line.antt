-- ===== src/Console/Line.antt =====
-- What a typed character does in kernel/console.c, on the two sequences of Console/Buffer.
use mathlib.Core.Path.{subst}
use group10os.Prelude.{
  ℕ, ◌+◌, ◌%◌, ◌<◌, ◌≡◌, refl, sym, ap, ◌∙◌, ◌≢◌, Bool, not, ◌&&◌, ◌||◌, List, [], ◌∷◌, ◌++◌, arith,
  length, ltb, ◌==◌, if◌then◌else◌, length-append, Bool-cases, inl, inr, All,
}
use group10os.Console.{
  Cons, input_buf_size, newline, ctrl_p, ctrl_u, ctrl_h, ctrl_d, delete, sub_uint, put, step_back,
  typed, stored, rubbed_out, as_newline, ends_line, consoleintr,
}
use group10os.Console.Buffer.{
  IsValid, committed, pending, window, length-window, view-put, view-commit, view-step_back,
  step_back-IsValid, kill_line_lem, All-append, last_typed,
}

abbrev pub Lines : Type 0
Lines = List ℕ × List ℕ

abbrev pub view : Cons → Lines
view s = (committed s, pending s)

abbrev pub drop_last : List ℕ → List ℕ
drop_last [] = []
drop_last (x ∷ []) = []
drop_last (x ∷ y ∷ xs) = x ∷ drop_last (y ∷ xs)

abbrev pub room : Lines → ℕ
room (q, l) = length q + length l

-- The character at the end of the line; a newline, ^D or a full buffer hands the line to the readers.
abbrev pub append_char : Lines → ℕ → Lines
append_char (q, l) c =
    let l' = l ++ (c ∷ []) in
    if (c == newline || c == ctrl_d) || (length q + length l') == input_buf_size
    then (q ++ l', [])
    else (q, l')

-- What a typed character means: erase the line, erase a character, or append one while there is room.
pub edit : Lines → ℕ → Lines
edit (q, l) c =
    if c == ctrl_p
    then (q, l)
    else if c == ctrl_u
    then (q, [])
    else if c == ctrl_h || c == delete
    then (q, drop_last l)
    else if not (c == 0) && ltb (length q + length l) input_buf_size
    then append_char (q, l) (as_newline c)
    else (q, l)

drop_last-append : (xs : List ℕ) (x : ℕ) → drop_last (xs ++ (x ∷ [])) ≡ xs
drop_last-append [] x = refl
drop_last-append (y ∷ []) x = refl
drop_last-append (y ∷ z ∷ xs) x = ap (◌∷◌ y) (drop_last-append (z ∷ xs) x)

abbrev pub Edited : Cons → Lines → Type 0
Edited s l = IsValid s × (view s ≡ l)

room-view : (s : Cons) → IsValid s → length (committed s) + length (pending s) ≡ sub_uint s.e s.r
room-view s v = omega (
  arith,
  length-window s.buf s.r (sub_uint s.w s.r),
  length-window s.buf s.w (sub_uint s.e s.w),
  v.ordered,
)

put-Edited :
    (s : Cons) (c : ℕ)
    → IsValid s
    → c < 256
    → c ≢ newline
    → sub_uint s.e s.r < input_buf_size
    → Edited (put s c) (committed s, pending s ++ (c ∷ []))
put-Edited s c v h n b =
    let (q, l, u) = view-put s c v b in
    let m : c % 256 ≡ c = omega arith in
    let l' : pending (put s c) ≡ pending s ++ (c ∷ []) = l ∙ ap (λ x. pending s ++ (x ∷ [])) m in
    (
      record {
        r_uint = v.r_uint;
        w_uint = v.w_uint;
        e_uint = omega arith;
        ordered = omega arith;
        fits = omega arith;
        open_line =
            subst (All (λ x. x ≢ newline)) (sym l')
              (All-append (λ x. x ≢ newline) (pending s) (c ∷ []) v.open_line (n, tt));
      },
      λ i. (q i, l' i),
    )

commit-Edited :
    (s : Cons) (c : ℕ)
    → IsValid s
    → c < 256
    → sub_uint s.e s.r < input_buf_size
    → Edited (record (put s c) { w = (put s c).e }) (committed s ++ (pending s ++ (c ∷ [])), [])
commit-Edited s c v h b =
    let s1 = put s c in
    let (q, l, u) = view-put s c v b in
    let m : c % 256 ≡ c = omega arith in
    let done = view-commit s1 v.r_uint v.w_uint (omega arith) in
    let z : sub_uint s1.e s1.e ≡ 0 = omega arith in
    let empty : pending (record s1 { w = s1.e }) ≡ [] = ap (window s1.buf s1.e) z in
    let all : committed (record s1 { w = s1.e }) ≡ committed s ++ (pending s ++ (c ∷ [])) =
      done ∙ (λ i. q i ++ l i) ∙ ap (λ x. committed s ++ (pending s ++ (x ∷ []))) m in
    (
      record {
        r_uint = v.r_uint;
        w_uint = omega arith;
        e_uint = omega arith;
        ordered = omega arith;
        fits = omega arith;
        open_line = subst (All (λ x. x ≢ newline)) (sym empty) tt;
      },
      λ i. (all i, empty i),
    )

abbrev at_end : Cons → ℕ → Bool
at_end s c =
    (c == newline || c == ctrl_d)
    || (length (committed s) + length (pending s ++ (c ∷ []))) == input_buf_size

ends_line_lem :
    (s : Cons) (c : ℕ)
    → IsValid s
    → sub_uint s.e s.r < input_buf_size
    → ends_line (put s c) c ≡ at_end s c
ends_line_lem s c v b =
    ap (λ n. (c == newline || c == ctrl_d) || n == input_buf_size)
      (omega (arith, room-view s v, length-append (pending s) (c ∷ [])))

stored-Edited :
    (s : Cons) (c : ℕ)
    → IsValid s
    → c < 256
    → sub_uint s.e s.r < input_buf_size
    → Edited (stored s c).0 (append_char (view s) c)
stored-Edited s c v h b = elim (Bool-cases (at_end s c)) [
  | inl e ↦ rw (ends_line_lem s c v b, e) (commit-Edited s c v h b)
  | inr e ↦ rw (ends_line_lem s c v b, e) (put-Edited s c v h (ground arith) b)
]

erase-Edited : (s : Cons) → IsValid s → Edited (record s { e = s.w }) (committed s, [])
erase-Edited s v =
    let z : sub_uint s.w s.w ≡ 0 = omega arith in
    let empty : pending (record s { e = s.w }) ≡ [] = ap (window s.buf s.w) z in
    (
      record {
        r_uint = v.r_uint;
        w_uint = v.w_uint;
        e_uint = v.w_uint;
        ordered = omega arith;
        fits = omega arith;
        open_line = subst (All (λ x. x ≢ newline)) (sym empty) tt;
      },
      λ i. (committed s, empty i),
    )

back-Edited : (s : Cons) → IsValid s → Edited (rubbed_out s).0 (committed s, drop_last (pending s))
back-Edited s v = elim (Bool-cases (s.e == s.w)) [
  | inl e ↦
      let z : sub_uint s.e s.w ≡ 0 = ground arith in
      let empty : pending s ≡ [] = ap (window s.buf s.w) z in
      rw e (v, λ i. (committed s, (empty ∙ sym (ap drop_last empty)) i))
  | inr e ↦
      let n : s.e ≢ s.w = λ f. ground arith in
      let l = view-step_back s v n in
      rw e (
        step_back-IsValid s v n,
        λ i. (
          committed s,
          sym (ap drop_last l ∙ drop_last-append (pending (step_back s)) (last_typed s)) i,
        ),
      )
]

abbrev takes : Cons → ℕ → Bool
takes s c = not (c == 0) && ltb (sub_uint s.e s.r) input_buf_size

default-Edited :
    (s : Cons) (c : ℕ)
    → IsValid s
    → c < 256
    → Edited (typed s c).0 (
        if not (c == 0) && ltb (length (committed s) + length (pending s)) input_buf_size
        then append_char (view s) (as_newline c)
        else view s)
unfolding typed
default-Edited s c v h = rw (room-view s v) (elim (Bool-cases (takes s c)) [
  | inl e ↦ rw e (stored-Edited s (as_newline c) v (ground arith) (ground arith))
  | inr e ↦ rw e (v, refl)
])

-- A character that is typed edits the line as `edit` says, and keeps the buffer valid.
pub consoleintr-Edited :
    (s : Cons) (c : ℕ) → IsValid s → c < 256 → Edited (consoleintr s c).0 (edit (view s) c)
unfolding consoleintr edit
consoleintr-Edited s c v h = elim (Bool-cases (c == ctrl_p)) [
  | inl e ↦ rw e (v, refl)
  | inr e ↦ elim (Bool-cases (c == ctrl_u)) [
    | inl f ↦ rw (e, f) (rw (kill_line_lem (sub_uint s.e s.w) s v refl) (erase-Edited s v))
    | inr f ↦ elim (Bool-cases (c == ctrl_h || c == delete)) [
      | inl g ↦ rw (e, f, g) (back-Edited s v)
      | inr g ↦ rw (e, f, g) (default-Edited s c v h)
    ]
  ]
]
