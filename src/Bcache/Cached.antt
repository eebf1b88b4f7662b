-- ===== src/Bcache/Cached.antt =====
-- Which blocks the buffers of kernel/bio.c hold, and what the loops of bget find among them.
use mathlib.Core.Path.{subst}
use group10os.Prelude.{
  ℕ, ◌≡◌, refl, sym, ap, ◌∙◌, ◌≢◌, ◌⊎◌, inl, inr, Bool, true, false, List, [], ◌∷◌, ◌++◌, arith,
  All, Fresh, ◌==◌, Bool-cases, ==_iff,
}
use group10os.Prelude.Memory.{Mem, store, store_ne}
use group10os.Bcache.{Buf, head, is_block}
use group10os.Bcache.Search.{first_with, last_with}

-- The buffer stands in the list.
abbrev pub In : ℕ → List ℕ → Type 0
In x [] = ⊥
In x (y ∷ ys) = (x ≡ y) ⊎ In x ys

pub All-In : (P : ℕ → Type 0) (x : ℕ) (xs : List ℕ) → All P xs → In x xs → P x
All-In P x [] a i = absurd i
All-In P x (y ∷ ys) (p, a) (inl e) = subst P (sym e) p
All-In P x (y ∷ ys) (p, a) (inr i) = All-In P x ys a i

pub In-ne : (z x : ℕ) (xs : List ℕ) → Fresh z xs → In x xs → z ≢ x
In-ne z x xs f i = All-In (λ y. z ≢ y) x xs f i

pub In-middle : (b : ℕ) (xs ys : List ℕ) → In b (xs ++ b ∷ ys)
In-middle b [] ys = inl refl
In-middle b (x ∷ xs) ys = inr (In-middle b xs ys)

-- Different blocks; a buffer that has never had a block is of device 0.
abbrev pub Apart : Buf → Buf → Type 0
Apart v w = (v.dev ≡ 0) ⊎ (is_block v.dev v.blockno w ≡ false)

-- No two buffers hold the same block.
abbrev pub IsUnique : Mem Buf → List ℕ → Type 0
IsUnique buf bs = (x y : ℕ) → In x bs → In y bs → x ≢ y → Apart (buf x) (buf y)

Apart-same :
    (v v' w w' : Buf)
    → v'.dev ≡ v.dev
    → v'.blockno ≡ v.blockno
    → w'.dev ≡ w.dev
    → w'.blockno ≡ w.blockno
    → Apart v w
    → Apart v' w'
Apart-same v v' w w' p q r s (inl e) = inl (p ∙ e)
Apart-same v v' w w' p q r s (inr e) = inr (rw (p, q, r, s) e)

pub same_field :
    (f : Buf → ℕ) (buf : Mem Buf) (b : ℕ) (v : Buf) (x : ℕ)
    → f v ≡ f (buf b)
    → f (store buf b v x) ≡ f (buf x)
same_field f buf b v x e = elim (Bool-cases (b == x)) [
  | inl h ↦ rw h (e ∙ ap (λ z. f (buf z)) ((==_iff b x).0 h))
  | inr h ↦ rw h refl
]

-- A new value for a buffer, with the block it has.
pub store-IsUnique_same :
    (buf : Mem Buf) (bs : List ℕ) (b : ℕ) (v : Buf)
    → v.dev ≡ (buf b).dev
    → v.blockno ≡ (buf b).blockno
    → IsUnique buf bs
    → IsUnique (store buf b v) bs
store-IsUnique_same buf bs b v ed en u x y ix iy n =
    Apart-same (buf x) (store buf b v x) (buf y) (store buf b v y)
      (same_field (λ (w : Buf). w.dev) buf b v x ed)
      (same_field (λ (w : Buf). w.blockno) buf b v x en)
      (same_field (λ (w : Buf). w.dev) buf b v y ed)
      (same_field (λ (w : Buf). w.blockno) buf b v y en) (u x y ix iy n)

is_block-swap :
    (v w : Buf) → is_block w.dev w.blockno v ≡ false → is_block v.dev v.blockno w ≡ false
is_block-swap v w e = ground (arith, e)

-- A new block that no buffer has.
pub store-IsUnique_new :
    (buf : Mem Buf) (bs : List ℕ) (b : ℕ) (v : Buf)
    → All (λ x. is_block v.dev v.blockno (buf x) ≡ false) bs
    → IsUnique buf bs
    → IsUnique (store buf b v) bs
store-IsUnique_new buf bs b v a u x y ix iy n = elim (Bool-cases (b == x)) [
  | inl h ↦
      let other = store_ne buf b y v (λ z. n (sym ((==_iff b x).0 h) ∙ z)) in
      rw (h, other) (inr (All-In (λ z. is_block v.dev v.blockno (buf z) ≡ false) y bs a iy))
  | inr h ↦ elim (Bool-cases (b == y)) [
    | inl k ↦
        let apart = All-In (λ z. is_block v.dev v.blockno (buf z) ≡ false) x bs a ix in
        rw (h, k) (inr (is_block-swap (buf x) v apart))
    | inr k ↦ rw (h, k) (u x y ix iy n)
  ]
]

abbrev pub Fails : (Buf → Bool) → Mem Buf → List ℕ → Type 0
Fails test buf = All (λ x. test (buf x) ≡ false)

pub first_with-cases :
    (test : Buf → Bool) (buf : Mem Buf) (xs : List ℕ)
    → ((first_with test buf xs ≡ head) × Fails test buf xs)
      ⊎ (In (first_with test buf xs) xs × (test (buf (first_with test buf xs)) ≡ true))
first_with-cases test buf [] = inl (refl, tt)
first_with-cases test buf (x ∷ xs) = elim (Bool-cases (test (buf x))) [
  | inl e ↦ rw e (inr (inl refl, e))
  | inr e ↦
      let q : first_with test buf (x ∷ xs) ≡ first_with test buf xs = rw e refl in
      elim (first_with-cases test buf xs) [
        | inl (p, f) ↦ inl (q ∙ p, (e, f))
        | inr (i, t) ↦ inr (inr (subst (λ z. In z xs) (sym q) i), ap (λ z. test (buf z)) q ∙ t)
      ]
]

-- Behind the last one that passes, no other does.
abbrev pub IsLast : (Buf → Bool) → Mem Buf → List ℕ → ℕ → Type 0
IsLast test buf xs b =
    (ys zs : List ℕ) × (xs ≡ ys ++ b ∷ zs) × (test (buf b) ≡ true) × Fails test buf zs

pub last_with-cases :
    (test : Buf → Bool) (buf : Mem Buf) (xs : List ℕ) (other : ℕ)
    → ((last_with test buf xs other ≡ other) × Fails test buf xs)
      ⊎ IsLast test buf xs (last_with test buf xs other)
last_with-cases test buf [] other = inl (refl, tt)
last_with-cases test buf (x ∷ xs) other = elim (Bool-cases (test (buf x))) [
  | inl e ↦ rw e (elim (last_with-cases test buf xs x) [
    | inl (p, f) ↦ inr (subst (IsLast test buf (x ∷ xs)) (sym p) ([], xs, refl, e, f))
    | inr (ys, zs, q, t, f) ↦ inr (x ∷ ys, zs, ap (λ z. x ∷ z) q, t, f)
  ])
  | inr e ↦ rw e (elim (last_with-cases test buf xs other) [
    | inl (p, f) ↦ inl (p, (refl, f))
    | inr (ys, zs, q, t, f) ↦ inr (x ∷ ys, zs, ap (λ z. x ∷ z) q, t, f)
  ])
]
