-- ===== src/Bcache/Release.antt =====
-- brelse of kernel/bio.c on the list of buffers.
use group10os.Prelude.{
  ℕ, ◌-◌, ◌^◌, ◌<◌, ◌≡◌, refl, sym, ap, ◌∙◌, ◌≢◌, inl, inr, Bool, true, false, List, [], ◌∷◌, ◌++◌,
  some, arith, Fresh, Distinct, ◌==◌, if◌then◌else◌, length,
}
use group10os.Prelude.Memory.{store_self, store_ne}
use group10os.Bcache.{
  Buf, Bcache, head, holdingsleep, releasesleep, brelse, minus_one, insert_front, unlink, set_buf,
}
use group10os.Bcache.Ring.{IsRing, unlink-Chain, insert_front-IsRing, Fresh-middle}
use group10os.Bcache.Cached.{In, store-IsUnique_same}
use group10os.Bcache.Use.{IsCache}

Fresh-without : (z b : ℕ) (xs ys : List ℕ) → Fresh z (xs ++ b ∷ ys) → Fresh z (xs ++ ys)
Fresh-without z b [] ys f = f.1
Fresh-without z b (x ∷ xs) ys (n, f) = (n, Fresh-without z b xs ys f)

-- A list without one of its elements, which it does not have any more.
Distinct-without :
    (b : ℕ) (xs ys : List ℕ) → Distinct (xs ++ b ∷ ys) → Distinct (xs ++ ys) × Fresh b (xs ++ ys)
Distinct-without b [] ys (f, d) = (d, f)
Distinct-without b (x ∷ xs) ys (f, d) =
    let (d', f') = Distinct-without b xs ys d in
    ((Fresh-without x b xs ys f, d'), ((λ z. Fresh-middle x b xs ys f (sym z)), f'))

length-without : (b : ℕ) (xs ys : List ℕ) → length (b ∷ (xs ++ ys)) ≡ length (xs ++ b ∷ ys)
length-without b [] ys = refl
length-without b (x ∷ xs) ys = let rest = length-without b xs ys in omega (arith, rest)

In-without : (z b : ℕ) (xs ys : List ℕ) → In z (b ∷ (xs ++ ys)) → In z (xs ++ b ∷ ys)
In-without z b [] ys i = i
In-without z b (x ∷ xs) ys (inl e) = inr (In-without z b xs ys (inl e))
In-without z b (x ∷ xs) ys (inr (inl e)) = inl e
In-without z b (x ∷ xs) ys (inr (inr i)) = inr (In-without z b xs ys (inr i))

to_front-IsRing :
    (c : Bcache) (b : ℕ) (xs ys : List ℕ)
    → IsRing c (xs ++ b ∷ ys)
    → IsRing (insert_front b (unlink b c)) (b ∷ (xs ++ ys))
to_front-IsRing c b xs ys ring =
    let (d, f) = Distinct-without b xs ys ring.1.1 in
    insert_front-IsRing (unlink b c) b (xs ++ ys)
      (unlink-Chain c b xs ys ring, (Fresh-without head b xs ys ring.1.0, d))
      ((λ z. Fresh-middle head b xs ys ring.1.0 (sym z)), f)

to_front-buf : (c : Bcache) (b : ℕ) → (insert_front b (unlink b c)).buf ≡ c.buf
unfolding insert_front unlink
to_front-buf c b = refl

minus_one-pos : (n : ℕ) → 0 < n → n < 2 ^ 32 → minus_one n ≡ n - 1
minus_one-pos n p q = omega (arith, p, q)

-- One user fewer, and the sleep lock is free.
abbrev pub released : Buf → Buf
released v = record v { lock = releasesleep v.lock; refcnt = v.refcnt - 1 }

abbrev pub Changed : Bcache → ℕ → Bcache → List ℕ → Type 0
Changed c b c' bs =
    IsCache c' bs × (c'.buf b ≡ released (c.buf b)) × ((x : ℕ) → x ≢ b → c'.buf x ≡ c.buf x)

shared-Changed :
    (c : Bcache) (b : ℕ) (v : Buf) (bs : List ℕ)
    → v ≡ released (c.buf b)
    → IsCache c bs
    → Changed c b (set_buf b v c) bs
shared-Changed c b v bs e cache = (
  (
    cache.0,
    cache.1,
    store-IsUnique_same c.buf bs b v (ap (λ (w : Buf). w.dev) e) (ap (λ (w : Buf). w.blockno) e)
        cache.2,
  ),
  store_self c.buf b v ∙ e,
  (λ x ne. store_ne c.buf b x v (λ z. ne (sym z))),
)

front-Changed :
    (c c' : Bcache) (b : ℕ) (xs ys : List ℕ)
    → Changed c b c' (xs ++ b ∷ ys)
    → Changed c b (insert_front b (unlink b c')) (b ∷ (xs ++ ys))
unfolding insert_front unlink
front-Changed c c' b xs ys (cache, same, others) = (
  (
    to_front-IsRing c' b xs ys cache.0,
    length-without b xs ys ∙ cache.1,
    (λ x y ix iy n. cache.2 x y (In-without x b xs ys ix) (In-without y b xs ys iy) n),
  ),
  same,
  others,
)

either-Changed :
    (c c0 c1 : Bcache) (b : ℕ) (bs bs1 : List ℕ) (t : Bool)
    → Changed c b c0 bs
    → Changed c b c1 bs1
    → Changed c b (if t then c1 else c0) (if t then bs1 else bs)
either-Changed c c0 c1 b bs bs1 true p q = q
either-Changed c c0 c1 b bs bs1 false p q = p

last_user : (n : ℕ) → 0 < n → n < 2 ^ 32 → (minus_one n == 0) ≡ (n == 1)
last_user n p q = let e = minus_one-pos n p q in rw e (ground (arith, p))

-- Where process `pid` holds the buffer's sleep lock and the buffer counts it as a user, brelse gives
-- both back; the buffer moves to the front of the list if it has no other user, and otherwise stays
-- where it is. No other buffer changes, and no block is in two.
pub brelse-Changed :
    (pid : ℕ) (c : Bcache) (b : ℕ) (xs ys : List ℕ)
    → IsCache c (xs ++ b ∷ ys)
    → holdingsleep pid (c.buf b).lock ≡ true
    → 0 < (c.buf b).refcnt
    → (c.buf b).refcnt < 2 ^ 32
    → (c' : Bcache) × (brelse pid b c ≡ some c')
      × Changed c b c' (if (c.buf b).refcnt == 1 then b ∷ (xs ++ ys) else xs ++ b ∷ ys)
unfolding brelse
brelse-Changed pid c b xs ys cache held pos low =
    let v = record (c.buf b) {
      lock = releasesleep (c.buf b).lock;
      refcnt = minus_one (c.buf b).refcnt;
    } in
    let c0 = set_buf b v c in
    let t = (c.buf b).refcnt == 1 in
    let e : v ≡ released (c.buf b) =
      ap (λ n. record (released (c.buf b)) { refcnt = n })
        (minus_one-pos (c.buf b).refcnt pos low) in
    let keep = shared-Changed c b v (xs ++ b ∷ ys) e cache in
    (
      (if t then insert_front b (unlink b c0) else c0),
      rw (held, last_user (c.buf b).refcnt pos low) refl,
      either-Changed c c0 (insert_front b (unlink b c0)) b (xs ++ b ∷ ys) (b ∷ (xs ++ ys)) t keep
          (front-Changed c c0 b xs ys keep),
    )
