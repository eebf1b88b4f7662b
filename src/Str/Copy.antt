-- ===== src/Str/Copy.antt =====
-- What memset, memmove, strncpy and safestrcpy of kernel/string.c leave in memory.
use group10os.Prelude.{
  ℕ, zero, suc, ◌+◌, ◌-◌, ◌%◌, ◌≤◌, ◌<◌, ◌≡◌, ◌⊎◌, ◌≢◌, ◌&&◌, arith, ltb, leb, ◌==◌, if◌then◌else◌,
}
use group10os.Prelude.Memory.{Mem, store}
use group10os.Str.{
  memset_from, memset, copy_up, copy_down, memmove, zero_fill, strncpy, safe_copy, safestrcpy,
}

memset_from_lem :
    (k dst i c : ℕ) (m : Mem ℕ) (a : ℕ)
    → memset_from k dst i c m a ≡ (if leb (dst + i) a && ltb a (dst + i + k) then c % 256 else m a)
unfolding memset_from
memset_from_lem zero dst i c m a = ground arith
memset_from_lem (suc k) dst i c m a =
    ground (arith, memset_from_lem k dst (i + 1) c (store m (dst + i) (c % 256)) a)

-- memset gives the `n` bytes from `dst` on the low byte of `c`, and changes no other byte.
memset_lem :
    (m : Mem ℕ) (dst c n a : ℕ)
    → memset m dst c n a ≡ (if leb dst a && ltb a (dst + n) then c % 256 else m a)
unfolding memset
memset_lem m dst c n a = ground (arith, memset_from_lem n dst 0 c m a)

copy_up_lem :
    (n d s : ℕ) (m : Mem ℕ) (a : ℕ)
    → (d ≤ s) ⊎ (s + n ≤ d)
    → copy_up n d s m a ≡ (if leb d a && ltb a (d + n) then m (s + (a - d)) else m a)
unfolding copy_up
copy_up_lem zero d s m a h = ground arith
copy_up_lem (suc n) d s m a h = ground (arith, copy_up_lem n (d + 1) (s + 1) (store m d (m s)) a)

-- The pointers start behind the last byte.
copy_down_lem :
    (n d s d0 s0 : ℕ) (m : Mem ℕ) (a : ℕ)
    → d ≡ d0 + n
    → s ≡ s0 + n
    → s0 ≤ d0
    → copy_down n d s m a ≡ (if leb d0 a && ltb a (d0 + n) then m (s0 + (a - d0)) else m a)
unfolding copy_down
copy_down_lem zero d s d0 s0 m a hd hs h = ground arith
copy_down_lem (suc n) d s d0 s0 m a hd hs h =
    ground (arith, copy_down_lem n (d - 1) (s - 1) d0 s0 (store m (d - 1) (m (s - 1))) a)

-- memmove copies the `n` bytes as they were before the call, also where source and destination
-- overlap, and changes no other byte.
pub memmove_lem :
    (m : Mem ℕ) (dst src n a : ℕ)
    → memmove m dst src n a ≡ (if leb dst a && ltb a (dst + n) then m (src + (a - dst)) else m a)
unfolding memmove
memmove_lem m dst src n a =
    ground (arith, copy_up_lem n dst src m a, copy_down_lem n (dst + n) (src + n) dst src m a)

zero_fill_lem :
    (n s : ℕ) (m : Mem ℕ) (a : ℕ)
    → zero_fill n s m a ≡ (if leb s a && ltb a (s + n) then 0 else m a)
unfolding zero_fill
zero_fill_lem zero s m a = ground arith
zero_fill_lem (suc n) s m a = ground (arith, zero_fill_lem n (s + 1) (store m s 0) a)

-- The string at `t` has `k` bytes before its NUL, or at least `k` where the count is used up.
abbrev pub Holds : Mem ℕ → ℕ → ℕ → ℕ → Type 0
Holds m t k n = ((i : ℕ) → i < k → m (t + i) ≢ 0) × ((k ≡ n) ⊎ (m (t + k) ≡ 0))

-- The bytes from `t` to `t + k` lie outside the `n` bytes of the destination.
abbrev pub Apart : ℕ → ℕ → ℕ → ℕ → Type 0
Apart s n t k = (t + k < s) ⊎ (s + n ≤ t)

Holds-tail :
    (m : Mem ℕ) (s t k n l v : ℕ)
    → Apart s l t (suc k)
    → 0 < l
    → Holds m t (suc k) (suc n)
    → Holds (store m s v) (t + 1) k n
Holds-tail m s t k n l v ap pl (nz, stop) = (λ i p. ground (arith, nz (suc i)), ground arith)

-- With a source that the destination does not overlap, strncpy copies the `k` bytes of the string
-- that fit, fills up with NUL to `n` bytes, and changes no other byte.
strncpy_lem :
    (n k s t : ℕ) (m : Mem ℕ) (a : ℕ)
    → k ≤ n
    → Holds m t k n
    → Apart s n t k
    → strncpy m s t n a ≡ (
        if leb s a && ltb a (s + k)
        then m (t + (a - s))
        else if leb s a && ltb a (s + n)
        then 0
        else m a)
unfolding strncpy
strncpy_lem zero k s t m a h hs ap = ground arith
strncpy_lem (suc n) zero s t m a h (nz, stop) ap =
    ground (arith, zero_fill_lem n (s + 1) (store m s (m t)) a)
strncpy_lem (suc n) (suc k) s t m a h hs ap = ground (
  arith,
  hs.0 0,
  strncpy_lem n k (s + 1) (t + 1) (store m s (m t)) a (omega arith)
      (Holds-tail m s t k n (suc n) (m t) ap (omega arith) hs),
)

-- What the loop leaves, with `n` one less than the size: a NUL behind the string, and a second one
-- where the source ended by its own.
abbrev pub safe_byte : Mem ℕ → ℕ → ℕ → ℕ → ℕ → ℕ → ℕ
safe_byte m s t n k a =
    if leb s a && ltb a (s + k)
    then m (t + (a - s))
    else if a == s + k
    then 0
    else if a == s + k + 1 && ltb k n
    then 0
    else m a

safe_copy_lem :
    (n k s t : ℕ) (m : Mem ℕ) (a : ℕ)
    → k ≤ n
    → Holds m t k n
    → Apart s (suc n) t k
    → safe_copy n s t m a ≡ safe_byte m s t n k a
unfolding safe_copy
safe_copy_lem zero k s t m a h hs ap = ground arith
safe_copy_lem (suc n) zero s t m a h (nz, stop) ap = ground arith
safe_copy_lem (suc n) (suc k) s t m a h hs ap = ground (
  arith,
  hs.0 0,
  safe_copy_lem n k (s + 1) (t + 1) (store m s (m t)) a (omega arith)
      (Holds-tail m s t k n (suc (suc n)) (m t) ap (omega arith) hs),
)

-- With a source apart from the destination, and room for at least one byte, safestrcpy copies the
-- `k` bytes of the string that fit beside a NUL, ends them by a NUL, writes one NUL more where the
-- source ended first, and changes no byte outside the destination.
safestrcpy_lem :
    (m : Mem ℕ) (s t n k a : ℕ)
    → k ≤ n
    → Holds m t k n
    → Apart s (suc n) t k
    → (safestrcpy m s t (suc n) a ≡ safe_byte m s t n k a) × (safestrcpy m s t (suc n) (s + k) ≡ 0)
unfolding safestrcpy
safestrcpy_lem m s t n k a h hs ap =
    (safe_copy_lem n k s t m a h hs ap, ground (arith, safe_copy_lem n k s t m (s + k) h hs ap))
