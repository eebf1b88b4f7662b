-- ===== src/Str.antt =====
-- kernel/string.c. A pointer is an address of one memory of bytes; `strncmp`, which only reads,
-- takes each string as the bytes behind its pointer. A count of `uint` or of non-negative `int` is a
-- number; a loop recurs on the rounds that are left. Each function returns the memory, or its value.
pub mod Copy
pub mod Compare
mod Tests
use group10os.Prelude.{
  ℕ, zero, suc, ◌+◌, ◌-◌, ◌%◌, Bool, true, false, not, ◌&&◌, Option, none, some, ltb, ◌==◌,
  if◌then◌else◌,
}
use group10os.Prelude.Memory.{Mem, store}
use group10os.Prelude.Int.{ℤ, pos, sub_ℕ}

-- `cdst[i] = c`, for the `k` rounds left from `i` on; a `char` keeps the low eight bits of `c`.
memset_from : ℕ → ℕ → ℕ → ℕ → Mem ℕ → Mem ℕ
memset_from zero dst i c m = m
memset_from (suc k) dst i c m = memset_from k dst (i + 1) c (store m (dst + i) (c % 256))

unfoldable pub memset : Mem ℕ → ℕ → ℕ → ℕ → Mem ℕ
unfolding memset_from
memset m dst c n = memset_from n dst 0 c m

memcmp : Mem ℕ → ℕ → ℕ → ℕ → ℤ
memcmp m s1 s2 zero = pos 0
memcmp m s1 s2 (suc n) =
    let rest = memcmp m (s1 + 1) (s2 + 1) n in if m s1 == m s2 then rest else sub_ℕ (m s1) (m s2)

-- `while(n-- > 0) *d++ = *s++`
copy_up : ℕ → ℕ → ℕ → Mem ℕ → Mem ℕ
copy_up zero d s m = m
copy_up (suc n) d s m = copy_up n (d + 1) (s + 1) (store m d (m s))

-- `while(n-- > 0) *--d = *--s`
copy_down : ℕ → ℕ → ℕ → Mem ℕ → Mem ℕ
copy_down zero d s m = m
copy_down (suc n) d s m = copy_down n (d - 1) (s - 1) (store m (d - 1) (m (s - 1)))

pub memmove : Mem ℕ → ℕ → ℕ → ℕ → Mem ℕ
unfolding copy_up copy_down
memmove m dst src n =
    if n == 0
    then m
    else if ltb src dst && ltb dst (src + n)
    then copy_down n (dst + n) (src + n) m
    else copy_up n dst src m

pub memcpy : Mem ℕ → ℕ → ℕ → ℕ → Mem ℕ
unfolding memmove
memcpy m dst src n = memmove m dst src n

-- The two pointers advance together: `i` counts the steps, and `n` those that are left.
strncmp_from : (ℕ → ℕ) → (ℕ → ℕ) → ℕ → ℕ → ℤ
strncmp_from p q i zero = pos 0
strncmp_from p q i (suc n) =
    let rest = strncmp_from p q (i + 1) n in
    if not (p i == 0) && p i == q i then rest else sub_ℕ (p i) (q i)

unfoldable pub strncmp : (ℕ → ℕ) → (ℕ → ℕ) → ℕ → ℤ
unfolding strncmp_from
strncmp p q n = strncmp_from p q 0 n

-- `while(n-- > 0) *s++ = 0`
zero_fill : ℕ → ℕ → Mem ℕ → Mem ℕ
zero_fill zero s m = m
zero_fill (suc n) s m = zero_fill n (s + 1) (store m s 0)

pub strncpy : Mem ℕ → ℕ → ℕ → ℕ → Mem ℕ
unfolding zero_fill
strncpy m s t zero = m
strncpy m s t (suc n) =
    let m' = store m s (m t) in
    let rest = strncpy m' (s + 1) (t + 1) n in if m t == 0 then zero_fill n (s + 1) m' else rest

-- `while(--n > 0 && (*s++ = *t++) != 0) ; *s = 0`, with the value of `n` after the decrement.
safe_copy : ℕ → ℕ → ℕ → Mem ℕ → Mem ℕ
safe_copy zero s t m = store m s 0
safe_copy (suc n) s t m =
    let m' = store m s (m t) in
    let rest = safe_copy n (s + 1) (t + 1) m' in if m t == 0 then store m' (s + 1) 0 else rest

pub safestrcpy : Mem ℕ → ℕ → ℕ → ℕ → Mem ℕ
unfolding safe_copy
safestrcpy m s t zero = m
safestrcpy m s t (suc n) = safe_copy n s t m

-- `none` means that the fuel ran out before a NUL was met.
strlen_from : ℕ → (ℕ → ℕ) → ℕ → Option ℕ
strlen_from zero s n = none
strlen_from (suc fuel) s n =
    let rest = strlen_from fuel s (n + 1) in if s n == 0 then some n else rest

pub strlen : ℕ → (ℕ → ℕ) → Option ℕ
unfolding strlen_from
strlen fuel s = strlen_from fuel s 0
