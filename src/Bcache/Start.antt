-- ===== src/Bcache/Start.antt =====
-- binit of kernel/bio.c: the list that it builds.
use group10os.Prelude.{
  ℕ, zero, suc, ◌+◌, ◌<◌, ◌≡◌, refl, ◌∙◌, inl, List, [], ◌∷◌, arith, All, Fresh, length,
}
use group10os.Prelude.Memory.{store, store_self}
use group10os.Bcache.{
  Buf, Bcache, head, nbuf, initsleeplock, set_buf, insert_front, init_from, binit,
}
use group10os.Bcache.Ring.{IsRing, insert_front-IsRing}
use group10os.Bcache.Cached.{same_field}
use group10os.Bcache.Use.{IsCache}

-- The buffers in front of `bs` when `k` buffers from `b` on have been put there, one by one.
abbrev pub in_front : ℕ → ℕ → List ℕ → List ℕ
in_front zero b bs = bs
in_front (suc k) b bs = in_front k (b + 1) (b ∷ bs)

Below : ℕ → List ℕ → Type 0
Below b = All (λ x. x < b)

Below-suc : (b : ℕ) (bs : List ℕ) → Below b bs → Below (b + 1) bs
unfolding Below
Below-suc b [] l = tt
Below-suc b (x ∷ xs) (p, l) = (omega (arith, p), Below-suc b xs l)

Below-Fresh : (b : ℕ) (bs : List ℕ) → Below b bs → Fresh b bs
unfolding Below
Below-Fresh b [] l = tt
Below-Fresh b (x ∷ xs) (p, l) = ((λ e. omega (arith, p, e)), Below-Fresh b xs l)

-- The device of a buffer, with new links and free locks.
Unbound : Bcache → Type 0
Unbound c = (x : ℕ) → (c.buf x).dev ≡ 0

init_from-IsRing :
    (k b : ℕ) (c : Bcache) (bs : List ℕ)
    → 0 < b
    → Below b bs
    → IsRing c bs
    → IsRing (init_from k b c) (in_front k b bs)
unfolding init_from Below
init_from-IsRing zero b c bs p l r = r
init_from-IsRing (suc k) b c bs p l r =
    let v = record (c.buf b) { lock = initsleeplock } in
    init_from-IsRing k (b + 1) (insert_front b (set_buf b v c)) (b ∷ bs) (omega arith)
      (omega arith, Below-suc b bs l)
      (insert_front-IsRing (set_buf b v c) b bs r ((λ e. omega (arith, p, e)), Below-Fresh b bs l))

init_from-Unbound : (k b : ℕ) (c : Bcache) → Unbound c → Unbound (init_from k b c)
unfolding init_from Unbound insert_front
init_from-Unbound zero b c u = u
init_from-Unbound (suc k) b c u =
    let v = record (c.buf b) { lock = initsleeplock } in
    init_from-Unbound k (b + 1) (insert_front b (set_buf b v c))
      (λ x. same_field (λ (w : Buf). w.dev) c.buf b v x refl ∙ u x)

length-in_front : (k b : ℕ) (bs : List ℕ) → length (in_front k b bs) ≡ k + length bs
length-in_front zero b bs = omega arith
length-in_front (suc k) b bs = let rest = length-in_front k (b + 1) (b ∷ bs) in omega (arith, rest)

-- Where no buffer has a block yet, binit links all NBUF buffers, the last one in front, and no block
-- is in two of them.
pub binit-IsCache :
    (c : Bcache) → ((x : ℕ) → (c.buf x).dev ≡ 0) → IsCache (binit c) (in_front nbuf 1 [])
unfolding binit Unbound Below
binit-IsCache c zeroed =
    let c0 = record c { next = store c.next head head; prev = store c.prev head head } in
    (
      init_from-IsRing nbuf 1 c0 [] (omega arith) tt
          ((store_self c.next head head, store_self c.prev head head), (tt, tt)),
      length-in_front nbuf 1 [],
      (λ x y ix iy n. inl (init_from-Unbound nbuf 1 c0 zeroed x)),
    )
