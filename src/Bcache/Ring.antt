-- ===== src/Bcache/Ring.antt =====
-- The links of kernel/bio.c as a list: what insert_front and unlink do to it.
use mathlib.Core.Path.{subst}
use group10os.Prelude.{ℕ, ◌≡◌, refl, sym, ◌∙◌, ◌≢◌, List, [], ◌∷◌, ◌++◌, All, Fresh, Distinct}
use group10os.Prelude.Memory.{Mem, store, store_self, store_ne}
use group10os.Bcache.{Bcache, head, insert_front, unlink}

-- From `a` the links lead through the buffers of the list to `e`, and back.
abbrev pub Chain : Mem ℕ → Mem ℕ → ℕ → List ℕ → ℕ → Type 0
Chain next prev a [] e = (next a ≡ e) × (prev e ≡ a)
Chain next prev a (x ∷ xs) e = (next a ≡ x) × (prev x ≡ a) × Chain next prev x xs e

-- The circular list with its head, which holds each buffer once.
abbrev pub IsRing : Bcache → List ℕ → Type 0
IsRing c bs = Chain c.next c.prev head bs head × Distinct (head ∷ bs)

-- Changes of links that do not belong to the chain.
Chain-frame :
    (next next' prev prev' : Mem ℕ) (a e : ℕ) (xs : List ℕ)
    → next' a ≡ next a
    → prev' e ≡ prev e
    → All (λ x. (next' x ≡ next x) × (prev' x ≡ prev x)) xs
    → Chain next prev a xs e
    → Chain next' prev' a xs e
Chain-frame next next' prev prev' a e [] sa se same (n, p) = (sa ∙ n, se ∙ p)
Chain-frame next next' prev prev' a e (x ∷ xs) sa se ((sn, sp), same) (n, p, c) =
    (sa ∙ n, sp ∙ p, Chain-frame next next' prev prev' x e xs sn se same c)

-- Stores at two places that the chain does not have.
Fresh-same :
    (next prev : Mem ℕ) (i j u v : ℕ) (xs : List ℕ)
    → Fresh i xs
    → Fresh j xs
    → All (λ x. (store next i u x ≡ next x) × (store prev j v x ≡ prev x)) xs
Fresh-same next prev i j u v [] f g = tt
Fresh-same next prev i j u v (x ∷ xs) (n, f) (o, g) =
    ((store_ne next i x u n, store_ne prev j x v o), Fresh-same next prev i j u v xs f g)

-- The last of the list, or `a`; the first of it, or `e`.
abbrev pub last_or : ℕ → List ℕ → ℕ
last_or a [] = a
last_or a (x ∷ xs) = last_or x xs

abbrev pub first_or : List ℕ → ℕ → ℕ
first_or [] e = e
first_or (x ∷ xs) e = x

-- The neighbours of a buffer in the list.
Chain-neighbours :
    (next prev : Mem ℕ) (a b e : ℕ) (xs ys : List ℕ)
    → Chain next prev a (xs ++ b ∷ ys) e
    → (prev b ≡ last_or a xs) × (next b ≡ first_or ys e)
Chain-neighbours next prev a b e [] [] (n, p, c) = (p, c.0)
Chain-neighbours next prev a b e [] (y ∷ ys) (n, p, c) = (p, c.0)
Chain-neighbours next prev a b e (x ∷ xs) ys (n, p, c) = Chain-neighbours next prev x b e xs ys c

Fresh-last_or : (z a : ℕ) (xs : List ℕ) → Fresh z (a ∷ xs) → z ≢ last_or a xs
Fresh-last_or z a [] (n, f) = n
Fresh-last_or z a (x ∷ xs) (n, f) = Fresh-last_or z x xs f

Fresh-left : (z : ℕ) (xs ys : List ℕ) → Fresh z (xs ++ ys) → Fresh z xs
Fresh-left z [] ys f = tt
Fresh-left z (x ∷ xs) ys (n, f) = (n, Fresh-left z xs ys f)

Fresh-first_or : (z e b : ℕ) (xs ys : List ℕ) → Fresh z (xs ++ b ∷ ys) → z ≢ e → z ≢ first_or ys e
Fresh-first_or z e b [] [] f n = n
Fresh-first_or z e b [] (y ∷ ys) f n = f.1.0
Fresh-first_or z e b (x ∷ xs) ys f n = Fresh-first_or z e b xs ys f.1 n

-- Without `b`, between its neighbours.
without-Chain :
    (next prev : Mem ℕ) (a b e : ℕ) (xs ys : List ℕ)
    → Chain next prev a (xs ++ b ∷ ys) e
    → Distinct (a ∷ (xs ++ b ∷ ys))
    → Fresh e (xs ++ b ∷ ys)
    → Chain
        (store next (last_or a xs) (first_or ys e))
        (store prev (first_or ys e) (last_or a xs))
        a
        (xs ++ ys)
        e
without-Chain next prev a b e [] [] c d f = (store_self next a e, store_self prev e a)
without-Chain next prev a b e [] (y ∷ ys) (n, p, (m, q, c)) ((_, fa), (_, d)) f = (
  store_self next a y,
  store_self prev y a,
  Chain-frame next (store next a y) prev (store prev y a) y e ys (store_ne next a y y fa.0)
      (store_ne prev y e a (λ z. f.1.0 (sym z))) (Fresh-same next prev a y y a ys fa.1 d.0) c,
)
without-Chain next prev a b e (x ∷ xs) ys (n, p, c) (fa, d) (ne, f) = (
  store_ne next (last_or x xs) a (first_or ys e)
        (λ z. Fresh-last_or a x xs (Fresh-left a (x ∷ xs) (b ∷ ys) fa) (sym z))
      ∙ n,
  store_ne prev (first_or ys e) x (last_or x xs)
        (λ z. Fresh-first_or x e b xs ys d.0 (λ w. ne (sym w)) (sym z))
      ∙ p,
  without-Chain next prev x b e xs ys c d f,
)

other : (m : Mem ℕ) (b a v : ℕ) → b ≢ a → store m a v b ≡ m b
other m b a v n = store_ne m a b v (λ z. n (sym z))

-- With `b` in front.
with-Chain :
    (next prev : Mem ℕ) (b : ℕ) (xs : List ℕ)
    → Chain next prev head xs head
    → Distinct (head ∷ xs)
    → Fresh b (head ∷ xs)
    → Chain
        (store (store next b (first_or xs head)) head b)
        (store (store prev b head) (first_or xs head) b)
        head
        (b ∷ xs)
        head
with-Chain next prev b [] c d (n, f) = (
  refl,
  other (store prev b head) b head b n ∙ store_self prev b head,
  (other (store next b head) b head b n ∙ store_self next b head, refl),
)
with-Chain next prev b (x ∷ xs) (n, p, c) ((hx, hf), (xf, d)) (bh, (bx, f)) = (
  refl,
  other (store prev b head) b x b bx ∙ store_self prev b head,
  (
    other (store next b x) b head b bh ∙ store_self next b x,
    store_self (store prev b head) x b,
    Chain-frame (store next b x) (store (store next b x) head b) (store prev b head)
        (store (store prev b head) x b) x head xs (store_ne (store next b x) head x b hx)
        (store_ne (store prev b head) x head b (λ z. hx (sym z)))
        (Fresh-same (store next b x) (store prev b head) head x b b xs hf xf)
        (Chain-frame next (store next b x) prev (store prev b head) x head xs
          (store_ne next b x x bx) (store_ne prev b head head bh)
          (Fresh-same next prev b b x head xs f f) c),
  ),
)

first_or-ne : (z e : ℕ) (ys : List ℕ) → Fresh z ys → z ≢ e → z ≢ first_or ys e
first_or-ne z e [] f n = n
first_or-ne z e (y ∷ ys) f n = f.0

pub Fresh-middle : (z b : ℕ) (xs ys : List ℕ) → Fresh z (xs ++ b ∷ ys) → z ≢ b
Fresh-middle z b [] ys f = f.0
Fresh-middle z b (x ∷ xs) ys f = Fresh-middle z b xs ys f.1

Distinct-middle : (b : ℕ) (xs ys : List ℕ) → Distinct (xs ++ b ∷ ys) → Fresh b ys
Distinct-middle b [] ys d = d.0
Distinct-middle b (x ∷ xs) ys d = Distinct-middle b xs ys d.1

Chain-first :
    (next prev : Mem ℕ) (a e : ℕ) (xs : List ℕ) → Chain next prev a xs e → next a ≡ first_or xs e
Chain-first next prev a e [] c = c.0
Chain-first next prev a e (x ∷ xs) c = c.0

-- unlink takes a buffer out of the list, from any place.
pub unlink-Chain :
    (c : Bcache) (b : ℕ) (xs ys : List ℕ)
    → IsRing c (xs ++ b ∷ ys)
    → Chain (unlink b c).next (unlink b c).prev head (xs ++ ys) head
unfolding unlink
unlink-Chain c b xs ys (r, d) =
    let (p, n) = Chain-neighbours c.next c.prev head b head xs ys r in
    let apart =
      first_or-ne b head ys (Distinct-middle b xs ys d.1)
        (λ z. Fresh-middle head b xs ys d.0 (sym z)) in
    let same : store c.prev (c.next b) (c.prev b) b ≡ c.prev b =
      other c.prev b (c.next b) (c.prev b) (λ z. apart (z ∙ n)) in
    rw (same, p, n) (without-Chain c.next c.prev head b head xs ys r d d.0)

-- insert_front puts a buffer that is not in the list in front of it.
pub insert_front-IsRing :
    (c : Bcache) (b : ℕ) (bs : List ℕ)
    → IsRing c bs
    → Fresh b (head ∷ bs)
    → IsRing (insert_front b c) (b ∷ bs)
unfolding insert_front
insert_front-IsRing c b bs (r, d) f =
    let first = other c.next head b (c.next head) (λ z. f.0 (sym z)) in
    let n = Chain-first c.next c.prev head head bs r in
    (
      subst
          (λ y.
            Chain (store (store c.next b (c.next head)) head b) (store (store c.prev b head) y b)
              head (b ∷ bs) head)
          (sym (first ∙ n))
          (subst
            (λ x.
              Chain (store (store c.next b x) head b)
                (store (store c.prev b head) (first_or bs head) b) head (b ∷ bs) head)
            (sym n) (with-Chain c.next c.prev b bs r d f)),
      ((λ z. f.0 (sym z), d.0), (f.1, d.1)),
    )
