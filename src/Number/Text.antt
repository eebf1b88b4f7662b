-- ===== src/Number/Text.antt =====
-- Printed numbers of kernel/printf.c and user/printf.c fit into their buffer, and atoi of user/ulib.c reads
-- them again.
use mathlib.Core.List.{append-nil}
use group10os.Prelude.{
  ℕ, zero, suc, ◌+◌, ◌-◌, ◌*◌, ◌/◌, ◌%◌, ◌^◌, ◌≤◌, ◌<◌, ◌≡◌, refl, ap, ◌∙◌, inl, inr, Bool, true,
  false, List, [], ◌∷◌, ◌++◌, some, arith, ltb, leb, ◌==◌, length, length-append, Bool-cases, ◌&&◌,
}
use group10os.Prelude.Int.{ℤ, pos, negsuc}
use group10os.Number.{fill, print_buf, emit, printint, atoi_from, atoi, kernel_digit}

-- Digits below ten are those of the decimal system.
abbrev pub IsDecimal : (ℕ → ℕ) → Type 0
IsDecimal digits = (d : ℕ) → d < 10 → digits d ≡ b'0' + d

pub kernel_digit-IsDecimal : IsDecimal kernel_digit
kernel_digit-IsDecimal d l = ground (arith, l)

atoi_from-digit :
    (n d c x : ℕ) (s : List ℕ)
    → c ≡ 48 + d
    → d < 10
    → x ≡ n * 10 + d
    → x + 48 < 2 ^ 31
    → atoi_from n (c ∷ s) ≡ atoi_from x s
unfolding atoi_from
atoi_from-digit n d c x s ec ld ex lx =
    let a : (leb 48 c && leb c 57) ≡ true = ground (arith, ec, ld) in
    let b : ltb (n * 10 + c) 2147483648 ≡ true = ground (arith, ec, ex, lx) in
    let e : n * 10 + c - 48 ≡ x = omega (arith, ec, ex) in rw (atoi_from, a, b, e) refl

atoi_from-fill :
    (fuel : ℕ) (digits : ℕ → ℕ) (x : ℕ) (s : List ℕ)
    → IsDecimal digits
    → x < fuel
    → x + 48 < 2 ^ 31
    → atoi_from 0 (emit (fill fuel digits 10 x) s) ≡ atoi_from x s
unfolding fill
atoi_from-fill zero digits x s dec l lx = elim l [ ]
atoi_from-fill (suc fuel) digits x s dec l lx =
    let c = dec (x % 10) (omega arith) in
    elim (Bool-cases (x / 10 == 0)) [
      | inl e ↦
          rw (fill, e)
            (atoi_from-digit 0 (x % 10) (digits (x % 10)) x s c (omega arith) (ground (arith, e))
              lx)
      | inr e ↦
          rw (fill, e)
            (atoi_from-fill fuel digits (x / 10) (digits (x % 10) ∷ s) dec (ground (arith, e, l))
                (omega (arith, lx))
              ∙ atoi_from-digit (x / 10) (x % 10) (digits (x % 10)) x s c (omega arith)
                  (omega arith) lx)
    ]

-- 10 ^ k
abbrev power : ℕ → ℕ
power zero = 1
power (suc k) = 10 * power k

length-fill :
    (k fuel : ℕ) (digits : ℕ → ℕ) (x : ℕ)
    → x < power (suc k)
    → length (fill fuel digits 10 x) ≤ suc k
unfolding fill
length-fill k zero digits x l = omega arith
length-fill zero (suc fuel) digits x l =
    let e : (x / 10 == 0) ≡ true = ground (arith, l) in rw (fill, e) (omega arith)
length-fill (suc k) (suc fuel) digits x l = elim (Bool-cases (x / 10 == 0)) [
  | inl e ↦ rw (fill, e) (omega arith)
  | inr e ↦
      let h = length-fill k fuel digits (x / 10) (omega (arith, l)) in
      rw (fill, e) (omega (arith, h))
]

emit-last : (buf : List ℕ) (c : ℕ) (out : List ℕ) → emit (buf ++ c ∷ []) out ≡ c ∷ emit buf out
emit-last [] c out = refl
emit-last (b ∷ buf) c out = emit-last buf c (b ∷ out)

atoi-minus : (s : List ℕ) → atoi (b'-' ∷ s) ≡ some 0
unfolding atoi atoi_from
atoi-minus s = refl

-- What printint prints in decimal of a number that is not negative, whether it is told to print a sign
-- or not and with either table of digits, atoi reads as that number, up to 2^31 - 49, where the next
-- digit still fits into an `int` before '0' is taken off. Of a negative number that is printed with
-- its sign atoi reads nothing, and gives 0.
pub atoi-printint :
    (digits : ℕ → ℕ) (n : ℕ) (sign : Bool)
    → IsDecimal digits
    → n + 48 < 2 ^ 31
    → (atoi (printint digits (pos n) 10 sign) ≡ some n)
      × ((m : ℕ) → atoi (printint digits (negsuc m) 10 true) ≡ some 0)
unfolding atoi atoi_from printint print_buf
atoi-printint digits n sign dec l = (
  ap (λ b. atoi_from 0 (emit b [])) (append-nil (fill (suc n) digits 10 n))
      ∙ atoi_from-fill (suc n) digits n [] dec (omega arith) l,
  λ m.
      ap atoi (emit-last (fill (suc (m + 1)) digits 10 (m + 1)) b'-' [])
      ∙ atoi-minus (emit (fill (suc (m + 1)) digits 10 (m + 1)) []),
)

-- A number of 64 bits, between -2^63 and 2^63 if it is printed with a sign.
abbrev pub Is64 : ℤ → Bool → Type 0
Is64 (pos n) true = n < 2 ^ 63
Is64 (pos n) false = n < 2 ^ 64
Is64 (negsuc n) sign = n < 2 ^ 63

-- A number of 64 bits that is printed in decimal, with a sign or without one, takes no more than the
-- 20 bytes of the buffer of printint.
pub length-print_buf :
    (digits : ℕ → ℕ) (xx : ℤ) (sign : Bool)
    → Is64 xx sign
    → length (print_buf digits xx 10 sign) ≤ 20
unfolding print_buf
length-print_buf digits (pos n) true h =
    let b = length-fill 18 (suc n) digits n (omega (arith, h)) in
    rw (length-append (fill (suc n) digits 10 n) []) (omega (arith, b))
length-print_buf digits (pos n) false h =
    let b = length-fill 19 (suc n) digits n (omega (arith, h)) in
    rw (length-append (fill (suc n) digits 10 n) []) (omega (arith, b))
length-print_buf digits (negsuc n) true h =
    let b = length-fill 18 (suc (n + 1)) digits (n + 1) (omega (arith, h)) in
    rw (length-append (fill (suc (n + 1)) digits 10 (n + 1)) (b'-' ∷ [])) (omega (arith, b))
length-print_buf digits (negsuc n) false h =
    let x = 2 ^ 64 - (n + 1) in
    let b = length-fill 19 (suc x) digits x (omega arith) in
    rw (length-append (fill (suc x) digits 10 x) []) (omega (arith, b))
