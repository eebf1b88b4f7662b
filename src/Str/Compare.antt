-- ===== src/Str/Compare.antt =====
-- strncmp and strlen of kernel/string.c against what they mean.
use group10os.Prelude.{ℕ, zero, suc, ◌+◌, ◌<◌, ◌≡◌, refl, ◌≢◌, ◌↔◌, some, arith}
use group10os.Prelude.Int.{pos, sub_ℕ}
use group10os.Str.{strncmp_from, strncmp, strlen_from, strlen}

-- The strings agree from byte `i` on: in each of the next `n` bytes up to the end of the first.
abbrev Agree : (ℕ → ℕ) → (ℕ → ℕ) → ℕ → ℕ → Type 0
Agree p q i n = (j : ℕ) → j < n → ((l : ℕ) → l < j → p (i + l) ≢ 0) → p (i + j) ≡ q (i + j)

unended-cons :
    (p : ℕ → ℕ) (i j : ℕ)
    → p i ≢ 0
    → ((l : ℕ) → l < j → p (i + 1 + l) ≢ 0)
    → (l : ℕ) → l < suc j
    → p (i + l) ≢ 0
unended-cons p i j nz before zero lt = ground arith
unended-cons p i j nz before (suc l) lt = ground (arith, before l)

Agree-tail : (p q : ℕ → ℕ) (i n : ℕ) → p i ≢ 0 → Agree p q i (suc n) → Agree p q (i + 1) n
Agree-tail p q i n nz h j lt before =
    ground (arith, h (suc j) (omega arith) (unended-cons p i j nz before))

strncmp_from-zero : (p q : ℕ → ℕ) (i n : ℕ) → Agree p q i n → strncmp_from p q i n ≡ pos 0
unfolding strncmp_from
strncmp_from-zero p q i zero h = refl
strncmp_from-zero p q i (suc n) h = ground (
  arith,
  h 0 (omega arith) (λ l lt. absurd (omega arith)),
  λ (nz : p i ≢ 0). strncmp_from-zero p q (i + 1) n (Agree-tail p q i n nz h),
)

strncmp_from-Agree : (p q : ℕ → ℕ) (i n : ℕ) → strncmp_from p q i n ≡ pos 0 → Agree p q i n
unfolding strncmp_from
strncmp_from-Agree p q i zero e j lt before = absurd (omega arith)
strncmp_from-Agree p q i (suc n) e zero lt before = ground arith
strncmp_from-Agree p q i (suc n) e (suc j) lt before = ground (
  arith,
  before 0,
  λ (e' : strncmp_from p q (i + 1) n ≡ pos 0).
      strncmp_from-Agree p q (i + 1) n e' j (omega arith) (λ l h. ground (arith, before (suc l))),
)

-- strncmp returns 0 exactly when the strings agree in each of the first `n` bytes that does not
-- stand behind the end of the first string.
strncmp-zero_iff : (p q : ℕ → ℕ) (n : ℕ) → (strncmp p q n ≡ pos 0) ↔ Agree p q 0 n
unfolding strncmp
strncmp-zero_iff p q n = (strncmp_from-Agree p q 0 n, strncmp_from-zero p q 0 n)

-- The first byte in which two strings differ decides, up to the end of the first.
strncmp_from-first :
    (n k i : ℕ) (p q : ℕ → ℕ)
    → k < n
    → ((j : ℕ) → j < k → (p (i + j) ≢ 0) × (p (i + j) ≡ q (i + j)))
    → p (i + k) ≢ q (i + k)
    → strncmp_from p q i n ≡ sub_ℕ (p (i + k)) (q (i + k))
unfolding strncmp_from
strncmp_from-first zero k i p q lt same ne = absurd (omega arith)
strncmp_from-first (suc n) zero i p q lt same ne = ground arith
strncmp_from-first (suc n) (suc k) i p q lt same ne = ground (
  arith,
  same 0,
  strncmp_from-first n k (i + 1) p q (omega arith) (λ j h. ground (arith, same (suc j))),
)

strlen_from_lem :
    (fuel k n : ℕ) (s : ℕ → ℕ)
    → k < fuel
    → ((i : ℕ) → i < k → s (n + i) ≢ 0)
    → s (n + k) ≡ 0
    → strlen_from fuel s n ≡ some (n + k)
unfolding strlen_from
strlen_from_lem zero k n s h nz e = absurd (omega arith)
strlen_from_lem (suc fuel) zero n s h nz e = ground arith
strlen_from_lem (suc fuel) (suc k) n s h nz e = ground (
  arith,
  nz 0,
  strlen_from_lem fuel k (n + 1) s (omega arith) (λ i p. ground (arith, nz (suc i))),
)

-- strlen ends at the first NUL and returns its index, for any fuel above that index.
strlen_lem :
    (fuel k : ℕ) (s : ℕ → ℕ)
    → k < fuel
    → ((i : ℕ) → i < k → s i ≢ 0)
    → s k ≡ 0
    → strlen fuel s ≡ some k
unfolding strlen
strlen_lem fuel k s h nz e =
    ground (arith, strlen_from_lem fuel k 0 s h (λ i p. ground (arith, nz i)))

-- Where the strings first differ before either count or string ends, strncmp returns the difference
-- of the two bytes.
strncmp-first :
    (n k : ℕ) (p q : ℕ → ℕ)
    → k < n
    → ((j : ℕ) → j < k → (p j ≢ 0) × (p j ≡ q j))
    → p k ≢ q k
    → strncmp p q n ≡ sub_ℕ (p k) (q k)
unfolding strncmp
strncmp-first n k p q lt same ne =
    ground (arith, strncmp_from-first n k 0 p q lt (λ j h. ground (arith, same j)))
