-- ===== src/Bcache/Use.antt =====
-- The scan of bget and brelse in kernel/bio.c on the list of buffers: a block has one buffer, and the
-- buffer that is recycled is the one that was released longest ago.
use mathlib.Core.Path.{subst}
use group10os.Prelude.{
  ℕ, suc, ◌+◌, ◌≡◌, refl, sym, ap, ◌∙◌, ◌≢◌, ◌⊎◌, inl, inr, true, false, List, [], ◌∷◌, Option,
  none, some, arith, length, ==_ne,
}
use group10os.Prelude.Memory.{Mem, store_self, store_ne}
use group10os.Bcache.{Bcache, head, nbuf, is_block, is_unused, search, taken, recycled, find}
use group10os.Bcache.Ring.{Chain, IsRing, last_or}
use group10os.Bcache.Search.{first_with, last_with, search-forward, search-backward, search-head}
use group10os.Bcache.Cached.{
  In, In-ne, In-middle, IsUnique, store-IsUnique_same, store-IsUnique_new, Fails, first_with-cases,
  IsLast, last_with-cases,
}

-- The NBUF buffers stand in the list, in order of use, and no block is in two of them.
abbrev pub IsCache : Bcache → List ℕ → Type 0
IsCache c bs = IsRing c bs × (length bs ≡ nbuf) × IsUnique c.buf bs

-- The buffer had the block, and counts one more user; nothing else of it changes.
abbrev pub Hit : ℕ → ℕ → Bcache → ℕ → Bcache → Type 0
Hit dev blockno c b c' =
    (is_block dev blockno (c.buf b) ≡ true)
    × (c'.buf b ≡ record (c.buf b) { refcnt = (c.buf b).refcnt + 1 })

-- No buffer had it; the one that is recycled had no user, and all behind it in the list have one. It
-- is for the block now, has one user, and is to be read from the disk.
abbrev pub Recycled : ℕ → ℕ → Bcache → List ℕ → ℕ → Bcache → Type 0
Recycled dev blockno c bs b c' =
    Fails (is_block dev blockno) c.buf bs
    × IsLast is_unused c.buf bs b
    × (c'.buf b ≡ record (c.buf b) { dev = dev; blockno = blockno; valid = false; refcnt = 1 })

abbrev pub Found : ℕ → ℕ → Bcache → List ℕ → Option (ℕ × Bcache) → Type 0
Found dev blockno c bs none = Fails (is_block dev blockno) c.buf bs × Fails is_unused c.buf bs
Found dev blockno c bs (some (b, c')) =
    In b bs
    × IsCache c' bs
    × ((x : ℕ) → x ≢ b → c'.buf x ≡ c.buf x)
    × (Hit dev blockno c b c' ⊎ Recycled dev blockno c bs b c')

Chain-last :
    (next prev : Mem ℕ) (a e : ℕ) (xs : List ℕ) → Chain next prev a xs e → prev e ≡ last_or a xs
Chain-last next prev a e [] c = c.1
Chain-last next prev a e (x ∷ xs) c = Chain-last next prev x e xs c.2

module _ (dev blockno : ℕ) (c : Bcache) (bs : List ℕ) (cache : IsCache c bs) where
  forward :
      search (suc nbuf) (is_block dev blockno) c.buf c.next (c.next head)
      ≡ some (first_with (is_block dev blockno) c.buf bs)
  forward =
      search-forward (is_block dev blockno) c.buf c.next c.prev (suc nbuf) head bs cache.0.0
        cache.0.1.0 (omega (arith, cache.1))

  backward :
      search (suc nbuf) is_unused c.buf c.prev (c.prev head)
      ≡ some (last_with is_unused c.buf bs head)
  backward =
      let e : suc nbuf ≡ length bs + 1 = omega (arith, cache.1) in
      ap (search (suc nbuf) is_unused c.buf c.prev)
        (Chain-last c.next c.prev head head bs cache.0.0)
      ∙ ap (λ k. search k is_unused c.buf c.prev (last_or head bs)) e
      ∙ search-backward is_unused c.buf c.next c.prev 1 head head bs head cache.0.0 cache.0.1.0
          (search-head 0 is_unused c.buf c.prev)

  hit :
      (b : ℕ)
      → search (suc nbuf) (is_block dev blockno) c.buf c.next (c.next head) ≡ some b
      → In b bs
      → is_block dev blockno (c.buf b) ≡ true
      → Found dev blockno c bs (find dev blockno c)
  unfolding find
  hit b s i t =
      let n = In-ne head b bs cache.0.1.0 i in
      rw (find, s, ==_ne b head (λ z. n (sym z)))
        (
          i,
          (cache.0, cache.1, store-IsUnique_same c.buf bs b (taken (c.buf b)) refl refl cache.2),
          (λ x ne. store_ne c.buf b x (taken (c.buf b)) (λ z. ne (sym z))),
          inl (t, store_self c.buf b (taken (c.buf b))),
        )

  recycle :
      (b : ℕ)
      → search (suc nbuf) (is_block dev blockno) c.buf c.next (c.next head) ≡ some head
      → search (suc nbuf) is_unused c.buf c.prev (c.prev head) ≡ some b
      → Fails (is_block dev blockno) c.buf bs
      → IsLast is_unused c.buf bs b
      → Found dev blockno c bs (find dev blockno c)
  unfolding find
  recycle b s s' f l =
      let i = subst (In b) (sym l.2) (In-middle b l.0 l.1) in
      let n = In-ne head b bs cache.0.1.0 i in
      let v = recycled dev blockno (c.buf b) in
      rw (find, s, s', ==_ne b head (λ z. n (sym z)))
        (
          i,
          (cache.0, cache.1, store-IsUnique_new c.buf bs b v f cache.2),
          (λ x ne. store_ne c.buf b x v (λ z. ne (sym z))),
          inr (f, l, store_self c.buf b v),
        )

  full :
      search (suc nbuf) (is_block dev blockno) c.buf c.next (c.next head) ≡ some head
      → search (suc nbuf) is_unused c.buf c.prev (c.prev head) ≡ some head
      → Fails (is_block dev blockno) c.buf bs
      → Fails is_unused c.buf bs
      → Found dev blockno c bs (find dev blockno c)
  unfolding find
  full s s' f g = rw (find, s, s') (f, g)

  -- The scan of bget either takes the buffer that has the block, or recycles one that no process uses
  -- where no buffer has it: the last such buffer of the list. It panics only where every buffer is in
  -- use. A buffer that it takes has one user more, and one that it recycles is for the block, is not
  -- valid and has one user. Whichever, the list stays as it is, and no block is in two buffers.
  pub find-Found : Found dev blockno c bs (find dev blockno c)
  find-Found = elim (first_with-cases (is_block dev blockno) c.buf bs) [
    | inr (i, t) ↦ hit (first_with (is_block dev blockno) c.buf bs) forward i t
    | inl (p, f) ↦ elim (last_with-cases is_unused c.buf bs head) [
      | inl (q, g) ↦ full (forward ∙ ap some p) (backward ∙ ap some q) f g
      | inr l ↦ recycle (last_with is_unused c.buf bs head) (forward ∙ ap some p) backward f l
    ]
  ]
