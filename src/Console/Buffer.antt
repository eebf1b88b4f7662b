-- ===== src/Console/Buffer.antt =====
-- The input buffer of kernel/console.c as two sequences: what readers may take, and the line that is
-- still edited.
use mathlib.Core.Path.{subst}
use group10os.Prelude.{
  ℕ, zero, suc, ◌+◌, ◌%◌, ◌^◌, ◌≤◌, ◌<◌, ◌≡◌, refl, ap, ◌∙◌, ◌≢◌, List, [], ◌∷◌, ◌++◌, arith,
  length, All,
}
use group10os.Prelude.Memory.{Mem, store}
use group10os.Console.{Cons, input_buf_size, newline, add_uint, sub_uint, put, step_back, kill_line}

-- The `n` bytes from counter `i` on.
abbrev pub window : Mem ℕ → ℕ → ℕ → List ℕ
window buf i zero = []
window buf i (suc n) = buf (i % input_buf_size) ∷ window buf (add_uint i 1) n

-- What readers may take, and the line that is typed.
abbrev pub committed : Cons → List ℕ
committed s = window s.buf s.r (sub_uint s.w s.r)

abbrev pub pending : Cons → List ℕ
pending s = window s.buf s.w (sub_uint s.e s.w)

-- `r`, `w` and `e` stand in this order in at most INPUT_BUF_SIZE places, a full buffer is committed,
-- and the line that is typed has no newline.
pub record IsValid (s : Cons) : Type 0 where
  pub r_uint : s.r < 2 ^ 32
  pub w_uint : s.w < 2 ^ 32
  pub e_uint : s.e < 2 ^ 32
  pub ordered : sub_uint s.e s.r ≡ sub_uint s.w s.r + sub_uint s.e s.w
  pub fits : sub_uint s.e s.r ≤ input_buf_size
  pub open_line : All (λ c. c ≢ newline) (pending s)

pub length-window : (buf : Mem ℕ) (i n : ℕ) → length (window buf i n) ≡ n
length-window buf i zero = refl
length-window buf i (suc n) = ap suc (length-window buf (add_uint i 1) n)

-- A byte written outside the window changes nothing in it.
pub window-store_ne :
    (buf : Mem ℕ) (v n i j : ℕ)
    → i < 2 ^ 32
    → j < 2 ^ 32
    → n ≤ sub_uint j i
    → sub_uint j i < input_buf_size
    → window (store buf (j % input_buf_size) v) i n ≡ window buf i n
window-store_ne buf v zero i j hi hj h b = refl
window-store_ne buf v (suc n) i j hi hj h b =
    ground
      (arith, window-store_ne buf v n (add_uint i 1) j (omega arith) hj (omega arith) (omega arith))

-- A byte written just behind the window extends it.
pub window-store :
    (buf : Mem ℕ) (v n i j : ℕ)
    → i < 2 ^ 32
    → n < input_buf_size
    → j ≡ add_uint i n
    → window (store buf (j % input_buf_size) v) i (suc n) ≡ window buf i n ++ (v ∷ [])
window-store buf v zero i j hi hn e = ground arith
window-store buf v (suc n) i j hi hn e =
    ground (arith, window-store buf v n (add_uint i 1) j (omega arith) (omega arith) (omega arith))

-- A window is one window behind another.
pub window-append :
    (buf : Mem ℕ) (m n i : ℕ)
    → i < 2 ^ 32
    → window buf i (m + n) ≡ window buf i m ++ window buf (add_uint i m) n
window-append buf zero n i h =
    let e : add_uint i 0 ≡ i = omega arith in let f : 0 + n ≡ n = omega arith in rw (e, f)
window-append buf (suc m) n i h =
    let e : add_uint (add_uint i 1) m ≡ add_uint i (suc m) = omega arith in
    let f : suc m + n ≡ suc (m + n) = omega arith in
    rw f (
      ap (◌∷◌ (buf (i % input_buf_size))) (
        window-append buf m n (add_uint i 1) (omega arith)
        ∙ ap (λ j. window buf (add_uint i 1) m ++ window buf j n) e))

pub window_last :
    (buf : Mem ℕ) (n i : ℕ)
    → i < 2 ^ 32
    → window buf i (suc n) ≡ window buf i n ++ (buf (add_uint i n % input_buf_size) ∷ [])
window_last buf zero i h = let e : add_uint i 0 ≡ i = omega arith in rw e
window_last buf (suc n) i h =
    let e : add_uint (add_uint i 1) n ≡ add_uint i (suc n) = omega arith in
    ap (◌∷◌ (buf (i % input_buf_size))) (
      window_last buf n (add_uint i 1) (omega arith)
      ∙ ap (λ j. window buf (add_uint i 1) n ++ (buf (j % input_buf_size) ∷ [])) e)

pub All-append {ℓ κ} :
    {A : Type ℓ} (P : A → Type κ) (xs ys : List A) → All P xs → All P ys → All P (xs ++ ys)
All-append P [] ys h k = k
All-append P (x ∷ xs) ys h k = (h.0, All-append P xs ys h.1 k)

All-append_left {ℓ κ} : {A : Type ℓ} (P : A → Type κ) (xs ys : List A) → All P (xs ++ ys) → All P xs
All-append_left P [] ys h = tt
All-append_left P (x ∷ xs) ys h = (h.0, All-append_left P xs ys h.1)

All-append_right {ℓ κ} :
    {A : Type ℓ} (P : A → Type κ) (xs ys : List A) → All P (xs ++ ys) → All P ys
All-append_right P [] ys h = h
All-append_right P (x ∷ xs) ys h = All-append_right P xs ys h.1

-- A character that is typed joins the line.
pub view-put :
    (s : Cons) (c : ℕ)
    → IsValid s
    → sub_uint s.e s.r < input_buf_size
    → (committed (put s c) ≡ committed s)
      × (pending (put s c) ≡ pending s ++ ((c % 256) ∷ []))
      × (sub_uint (put s c).e s.w ≡ suc (sub_uint s.e s.w))
view-put s c v h =
    let u : sub_uint (put s c).e s.w ≡ suc (sub_uint s.e s.w) = omega arith in
    (
      window-store_ne s.buf (c % 256) (sub_uint s.w s.r) s.r s.e v.r_uint v.e_uint (omega arith) h,
      ap (window (put s c).buf s.w) u
          ∙ window-store s.buf (c % 256) (sub_uint s.e s.w) s.w s.e v.w_uint (omega arith)
              (omega arith),
      u,
    )

-- A line that is committed joins what readers may take.
pub view-commit :
    (s : Cons)
    → s.r < 2 ^ 32
    → s.w < 2 ^ 32
    → sub_uint s.e s.r ≡ sub_uint s.w s.r + sub_uint s.e s.w
    → committed (record s { w = s.e }) ≡ committed s ++ pending s
view-commit s hr hw o =
    let e : add_uint s.r (sub_uint s.w s.r) ≡ s.w = omega arith in
    ap (window s.buf s.r) o
    ∙ window-append s.buf (sub_uint s.w s.r) (sub_uint s.e s.w) s.r hr
    ∙ ap (λ j. committed s ++ window s.buf j (sub_uint s.e s.w)) e

abbrev pub last_typed : Cons → ℕ
last_typed s = s.buf (sub_uint s.e 1 % input_buf_size)

-- The line without its last character.
pub view-step_back :
    (s : Cons) → IsValid s → s.e ≢ s.w → pending s ≡ pending (step_back s) ++ (last_typed s ∷ [])
view-step_back s v n =
    let e : sub_uint s.e s.w ≡ suc (sub_uint (step_back s).e s.w) = omega arith in
    let f : add_uint s.w (sub_uint (step_back s).e s.w) ≡ sub_uint s.e 1 = omega arith in
    ap (window s.buf s.w) e
    ∙ window_last s.buf (sub_uint (step_back s).e s.w) s.w v.w_uint
    ∙ ap (λ j. pending (step_back s) ++ (s.buf (j % input_buf_size) ∷ [])) f

pub step_back-IsValid : (s : Cons) → IsValid s → s.e ≢ s.w → IsValid (step_back s)
step_back-IsValid s v n = record {
  r_uint = v.r_uint;
  w_uint = v.w_uint;
  e_uint = omega arith;
  ordered = omega arith;
  fits = omega arith;
  open_line =
      All-append_left (λ c. c ≢ newline) (pending (step_back s)) (last_typed s ∷ [])
        (subst (All (λ c. c ≢ newline)) (view-step_back s v n) v.open_line);
}

-- ^U takes the whole line back.
pub kill_line_lem :
    (k : ℕ) (s : Cons) → IsValid s → k ≡ sub_uint s.e s.w → kill_line k s ≡ record s { e = s.w }
unfolding kill_line
kill_line_lem zero s v e = let f : s.e ≡ s.w = omega arith in ap (λ x. record s { e = x }) f
kill_line_lem (suc k) s v e =
    let n : s.e ≢ s.w = λ f. omega arith in
    let open_last =
      All-append_right (λ c. c ≢ newline) (pending (step_back s)) (last_typed s ∷ [])
        (subst (All (λ c. c ≢ newline)) (view-step_back s v n) v.open_line) in
    ground (arith, open_last, kill_line_lem k (step_back s) (step_back-IsValid s v n) (omega arith))
