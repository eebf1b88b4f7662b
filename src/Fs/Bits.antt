-- ===== src/Fs/Bits.antt =====
-- `data[k / 8] & (1 << (k % 8))` and its changes in kernel/fs.c: single bits of a byte, and of the
-- bytes of a block.
use group10os.Prelude.{ℕ, zero, suc, ◌+◌, ◌*◌, ◌/◌, ◌%◌, ◌≡◌, arith, ap, ◌==◌, if◌then◌else◌}
use group10os.Prelude.Memory.{Mem, store}

-- `(x >> k) & 1`
unfoldable pub bit : ℕ → ℕ → ℕ
bit x zero = x % 2
bit x (suc k) = bit (x / 2) k

-- `x | (1 << k)`
unfoldable pub set_bit : ℕ → ℕ → ℕ
set_bit x zero = x / 2 * 2 + 1
set_bit x (suc k) = set_bit (x / 2) k * 2 + x % 2

-- `x & ~(1 << k)`
unfoldable pub clear_bit : ℕ → ℕ → ℕ
clear_bit x zero = x / 2 * 2
clear_bit x (suc k) = clear_bit (x / 2) k * 2 + x % 2

abbrev pub bit_of : Mem ℕ → ℕ → ℕ
bit_of bytes k = bit (bytes (k / 8)) (k % 8)

abbrev pub set_bit_of : Mem ℕ → ℕ → Mem ℕ
set_bit_of bytes k = store bytes (k / 8) (set_bit (bytes (k / 8)) (k % 8))

abbrev pub clear_bit_of : Mem ℕ → ℕ → Mem ℕ
clear_bit_of bytes k = store bytes (k / 8) (clear_bit (bytes (k / 8)) (k % 8))

half : (y r : ℕ) → ((y * 2 + r % 2) / 2 ≡ y) × ((y * 2 + r % 2) % 2 ≡ r % 2)
half y r = omega arith

bit-set_bit : (x k j : ℕ) → bit (set_bit x k) j ≡ (if k == j then 1 else bit x j)
unfolding bit set_bit
bit-set_bit x zero zero = omega arith
bit-set_bit x zero (suc j) =
    let e : (x / 2 * 2 + 1) / 2 ≡ x / 2 = omega arith in ground (arith, ap (λ y. bit y j) e)
bit-set_bit x (suc k) zero = ground (arith, half (set_bit (x / 2) k) x)
bit-set_bit x (suc k) (suc j) =
    ground (arith, ap (λ y. bit y j) (half (set_bit (x / 2) k) x).0, bit-set_bit (x / 2) k j)

bit-clear_bit : (x k j : ℕ) → bit (clear_bit x k) j ≡ (if k == j then 0 else bit x j)
unfolding bit clear_bit
bit-clear_bit x zero zero = omega arith
bit-clear_bit x zero (suc j) =
    let e : x / 2 * 2 / 2 ≡ x / 2 = omega arith in ground (arith, ap (λ y. bit y j) e)
bit-clear_bit x (suc k) zero = ground (arith, half (clear_bit (x / 2) k) x)
bit-clear_bit x (suc k) (suc j) =
    ground (arith, ap (λ y. bit y j) (half (clear_bit (x / 2) k) x).0, bit-clear_bit (x / 2) k j)

-- Setting a bit of a block changes that bit only.
pub bit_of-set_bit_of :
    (bytes : Mem ℕ) (k j : ℕ)
    → bit_of (set_bit_of bytes k) j ≡ (if k == j then 1 else bit_of bytes j)
bit_of-set_bit_of bytes k j = ground (arith, bit-set_bit (bytes (k / 8)) (k % 8) (j % 8))

pub bit_of-clear_bit_of :
    (bytes : Mem ℕ) (k j : ℕ)
    → bit_of (clear_bit_of bytes k) j ≡ (if k == j then 0 else bit_of bytes j)
bit_of-clear_bit_of bytes k j = ground (arith, bit-clear_bit (bytes (k / 8)) (k % 8) (j % 8))
