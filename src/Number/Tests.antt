-- ===== src/Number/Tests.antt =====
-- Printed numbers of kernel/printf.c, and atoi of user/ulib.c.
use group10os.Prelude.{ℕ, ◌≡◌, refl, arith, true, false, [], ◌∷◌, some, none}
use group10os.Prelude.Int.{pos, negsuc}
use group10os.Number.{kernel_digit, user_digit, fill, print_buf, printint, atoi, atoi_from}
use group10os.Number.Text.{kernel_digit-IsDecimal, atoi-printint}

atoi-printint_example :
    (atoi (printint kernel_digit (pos 3313) 10 true) ≡ some 3313)
    × ((m : ℕ) → atoi (printint kernel_digit (negsuc m) 10 true) ≡ some 0)
atoi-printint_example = atoi-printint kernel_digit 3313 true kernel_digit-IsDecimal (omega arith)

printint-negative : printint kernel_digit (negsuc 41) 10 true ≡ b'-' ∷ b'4' ∷ b'2' ∷ []
unfolding printint print_buf fill
printint-negative = refl

printint-hex : printint user_digit (pos 255) 16 false ≡ b'F' ∷ b'F' ∷ []
unfolding printint print_buf fill
printint-hex = refl

-- The largest `int` does not fit before '0' is taken off its last digit.
atoi-largest :
    atoi (b'2' ∷ b'1' ∷ b'4' ∷ b'7' ∷ b'4' ∷ b'8' ∷ b'3' ∷ b'6' ∷ b'4' ∷ b'7' ∷ []) ≡ none
unfolding atoi atoi_from
atoi-largest = refl
