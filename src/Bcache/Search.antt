-- ===== src/Bcache/Search.antt =====
-- The two loops of bget in kernel/bio.c, on the list of buffers.
use group10os.Prelude.{
  ℕ, zero, suc, ◌+◌, ◌<◌, ◌≡◌, refl, sym, ap, ◌∙◌, ◌≢◌, inl, inr, Bool, List, [], ◌∷◌, some, arith,
  Fresh, if◌then◌else◌, Bool-cases, ==_ne, length,
}
use group10os.Prelude.Memory.{Mem}
use group10os.Bcache.{Buf, head, search}
use group10os.Bcache.Ring.{Chain, last_or}

-- The first buffer of the list that passes a test, and the last one; the head where there is none.
abbrev pub first_with : (Buf → Bool) → Mem Buf → List ℕ → ℕ
first_with test buf [] = head
first_with test buf (x ∷ xs) = if test (buf x) then x else first_with test buf xs

-- The last one, or `other`.
abbrev pub last_with : (Buf → Bool) → Mem Buf → List ℕ → ℕ → ℕ
last_with test buf [] other = other
last_with test buf (x ∷ xs) other = last_with test buf xs (if test (buf x) then x else other)

pub search-head :
    (fuel : ℕ) (test : Buf → Bool) (buf : Mem Buf) (link : Mem ℕ)
    → search (suc fuel) test buf link head ≡ some head
unfolding search
search-head fuel test buf link = refl

-- A round at a buffer.
search-suc :
    (test : Buf → Bool) (buf : Mem Buf) (link : Mem ℕ) (fuel x y : ℕ) (r : ℕ)
    → x ≢ head
    → link x ≡ y
    → search fuel test buf link y ≡ some r
    → search (suc fuel) test buf link x ≡ some (if test (buf x) then x else r)
unfolding search
search-suc test buf link fuel x y r n e s = elim (Bool-cases (test (buf x))) [
  | inl t ↦ rw (search, ==_ne x head n, t) refl
  | inr t ↦ rw (search, ==_ne x head n, t, e) s
]

pub search-forward :
    (test : Buf → Bool) (buf : Mem Buf) (next prev : Mem ℕ) (fuel a : ℕ) (xs : List ℕ)
    → Chain next prev a xs head
    → Fresh head xs
    → length xs < fuel
    → search fuel test buf next (next a) ≡ some (first_with test buf xs)
search-forward test buf next prev zero a xs c f l = elim l [ ]
search-forward test buf next prev (suc fuel) a [] c f l =
    ap (search (suc fuel) test buf next) c.0 ∙ search-head fuel test buf next
search-forward test buf next prev (suc fuel) a (x ∷ xs) (n, p, c) (h, f) l =
    ap (search (suc fuel) test buf next) n
    ∙ search-suc test buf next fuel x (next x) (first_with test buf xs) (λ z. h (sym z)) refl
        (search-forward test buf next prev fuel x xs c f (omega (arith, l)))

-- Back from the last of the list, and then on from its start.
pub search-backward :
    (test : Buf → Bool) (buf : Mem Buf) (next prev : Mem ℕ) (fuel a e' : ℕ) (xs : List ℕ)
    (other : ℕ)
    → Chain next prev a xs e'
    → Fresh head xs
    → search fuel test buf prev a ≡ some other
    → search (length xs + fuel) test buf prev (last_or a xs) ≡ some (last_with test buf xs other)
search-backward test buf next prev fuel a e' [] other c f s =
    let e : 0 + fuel ≡ fuel = omega arith in ap (λ k. search k test buf prev a) e ∙ s
search-backward test buf next prev fuel a e' (x ∷ xs) other (n, p, c) (h, f) s =
    let here = search-suc test buf prev fuel x a other (λ z. h (sym z)) p s in
    let e : suc (length xs) + fuel ≡ length xs + suc fuel = omega arith in
    ap (λ k. search k test buf prev (last_or x xs)) e
    ∙ search-backward test buf next prev (suc fuel) x e' xs (if test (buf x) then x else other) c f
        here
