-- ===== src/Number.antt =====
-- Numbers as text: printint of kernel/printf.c and of user/printf.c, and atoi of user/ulib.c. A string is
-- the list of its bytes before the NUL. The two versions of printint differ in their table of digits.
pub mod Text
mod Tests
use group10os.Prelude.{
  ℕ, zero, suc, ◌+◌, ◌-◌, ◌*◌, ◌/◌, ◌%◌, ◌^◌, Bool, true, false, ◌&&◌, List, [], ◌∷◌, ◌++◌, Option,
  none, some, ltb, leb, ◌==◌, if◌then◌else◌,
}
use group10os.Prelude.Int.{ℤ, pos, negsuc}

-- "0123456789abcdef" of the kernel, and "0123456789ABCDEF" of user programs.
abbrev pub kernel_digit : ℕ → ℕ
kernel_digit d = if ltb d 10 then b'0' + d else b'a' + (d - 10)

abbrev pub user_digit : ℕ → ℕ
user_digit d = if ltb d 10 then b'0' + d else b'A' + (d - 10)

-- The loop that fills `buf`; a round makes `x` smaller, so more rounds than `x` are enough.
unfoldable pub fill : ℕ → (ℕ → ℕ) → ℕ → ℕ → List ℕ
fill zero digits base x = []
fill (suc fuel) digits base x =
    let rest = fill fuel digits base (x / base) in
    digits (x % base) ∷ (if x / base == 0 then [] else rest)

-- `xx < 0`, where the number is printed as a signed one.
abbrev pub is_negative : ℤ → Bool → Bool
is_negative (pos n) sign = false
is_negative (negsuc n) sign = sign

-- `x`, of 64 bits without a sign.
abbrev pub magnitude : ℤ → Bool → ℕ
magnitude (pos n) sign = n
magnitude (negsuc n) sign = if sign then n + 1 else 2 ^ 64 - (n + 1)

-- What stands in `buf` in the end.
unfoldable pub print_buf : (ℕ → ℕ) → ℤ → ℕ → Bool → List ℕ
print_buf digits xx base sign =
    let x = magnitude xx sign in
    fill (suc x) digits base x ++ (if is_negative xx sign then b'-' ∷ [] else [])

-- `while(--i >= 0)` over the buffer, in front of what is put out after it.
abbrev pub emit : List ℕ → List ℕ → List ℕ
emit [] out = out
emit (c ∷ buf) out = emit buf (c ∷ out)

unfoldable pub printint : (ℕ → ℕ) → ℤ → ℕ → Bool → List ℕ
printint digits xx base sign = emit (print_buf digits xx base sign) []

-- `none` where `n*10 + *s` does not fit into an `int`.
unfoldable pub atoi_from : ℕ → List ℕ → Option ℕ
atoi_from n [] = some n
atoi_from n (c ∷ s) =
    let more = atoi_from (n * 10 + c - b'0') s in
    if leb b'0' c && leb c b'9' then (if ltb (n * 10 + c) (2 ^ 31) then more else none) else some n

unfoldable pub atoi : List ℕ → Option ℕ
atoi s = atoi_from 0 s
