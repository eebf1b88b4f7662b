-- ===== src/Virtio/Alloc.antt =====
-- alloc_desc, free_desc and alloc3_desc of kernel/virtio_disk.c.
use mathlib.Core.Path.{subst}
use group10os.Prelude.{
  ℕ, zero, suc, ◌+◌, ◌<◌, ◌≤◌, ◌≡◌, refl, sym, ap, ◌∙◌, ◌≢◌, ◌⊎◌, inl, inr, Bool, true, false,
  Option, none, some, arith, ◌==◌, ltb, if◌then◌else◌, Bool-cases, ==_iff,
}
use group10os.Prelude.Memory.{Mem, store, store_ne}
use group10os.Virtio.{
  VirtioDisk, num, mark_used, first_round, second_round, third_round, alloc_desc_from, alloc_desc,
  free_desc, alloc3_desc,
}

-- The descriptor is there to be taken.
abbrev pub IsFree : VirtioDisk → ℕ → Type 0
IsFree d i = (i < num) × (d.free i ≡ true)

-- A free descriptor has been taken, and nothing else has changed; or there is none.
abbrev pub Taken : VirtioDisk → Option (ℕ × VirtioDisk) → Type 0
Taken d none = (x : ℕ) → x < num → d.free x ≡ false
Taken d (some (i, d')) = IsFree d i × (d' ≡ mark_used i d)

Found : ℕ → ℕ → VirtioDisk → Option (ℕ × VirtioDisk) → Type 0
Found k i d none = (x : ℕ) → i ≤ x → x < i + k → d.free x ≡ false
Found k i d (some (j, d')) = (j < i + k) × (d.free j ≡ true) × (d' ≡ mark_used j d)

Found-cons :
    (k i : ℕ) (d : VirtioDisk) (r : Option (ℕ × VirtioDisk))
    → d.free i ≡ false
    → Found k (i + 1) d r
    → Found (suc k) i d r
unfolding Found
Found-cons k i d none e f = λ x l h. elim (Bool-cases (i == x)) [
  | inl q ↦ sym (ap d.free ((==_iff i x).0 q)) ∙ e
  | inr q ↦ f x (ground (arith, l, q)) (omega (arith, h))
]
Found-cons k i d (some (j, d')) e (h, f, g) = (omega (arith, h), f, g)

alloc_desc_from-Found : (k i : ℕ) (d : VirtioDisk) → Found k i d (alloc_desc_from k i d)
unfolding Found alloc_desc_from
alloc_desc_from-Found zero i d = λ x l h. absurd (omega (arith, l, h))
alloc_desc_from-Found (suc k) i d = elim (Bool-cases (d.free i)) [
  | inl e ↦ rw e (omega arith, e, refl)
  | inr e ↦
      rw (if◌then◌else◌, e)
        (Found-cons k i d (alloc_desc_from k (i + 1) d) e (alloc_desc_from-Found k (i + 1) d))
]

Found-Taken : (d : VirtioDisk) (r : Option (ℕ × VirtioDisk)) → Found num 0 d r → Taken d r
unfolding Found
Found-Taken d none f = λ x l. f x (omega arith) (omega (arith, l))
Found-Taken d (some (j, d')) (h, f, g) = ((omega (arith, h), f), g)

alloc_desc-Taken : (d : VirtioDisk) → Taken d (alloc_desc d)
alloc_desc-Taken d = Found-Taken d (alloc_desc d) (alloc_desc_from-Found num 0 d)

-- free_desc of a descriptor that is in use.
abbrev pub freed : ℕ → VirtioDisk → VirtioDisk
freed i d = record d {
  desc = store d.desc i (record { addr = 0; len = 0; flags = 0; next = 0 });
  free = store d.free i true;
}

pub free_desc-used :
    (i : ℕ) (d : VirtioDisk) → i < num → d.free i ≡ false → free_desc i d ≡ some (freed i d)
unfolding free_desc
free_desc-used i d l e = let t : ltb i num ≡ true = ground (arith, l) in rw (t, e) refl

-- The descriptors are different, and there are so many.
abbrev pub Three : ℕ → ℕ → ℕ → Type 0
Three a b c = (a ≢ b) × (a ≢ c) × (b ≢ c)

-- Three free descriptors are taken, and all else is as it was; or the free ones, which are two at
-- most, are free as before.
abbrev pub Outcome : VirtioDisk → Option (ℕ × ℕ × ℕ) × VirtioDisk → Type 0
Outcome d (some (a, b, c), d') =
    Three a b c
    × IsFree d a
    × IsFree d b
    × IsFree d c
    × (d' ≡ mark_used c (mark_used b (mark_used a d)))
Outcome d (none, d') =
    ((x : ℕ) → d'.free x ≡ d.free x)
    × ((a b c : ℕ) → Three a b c → IsFree d a → IsFree d b → IsFree d c → ⊥)

Returns : VirtioDisk → Option (Option (ℕ × ℕ × ℕ) × VirtioDisk) → Type 0
Returns d o = (r : Option (ℕ × ℕ × ℕ) × VirtioDisk) × (o ≡ some r) × Outcome d r

mark_used-IsFree : (d : VirtioDisk) (a b : ℕ) → IsFree (mark_used a d) b → IsFree d b × a ≢ b
mark_used-IsFree d a b (l, f) = elim (Bool-cases (a == b)) [
  | inl e ↦ let bad : false ≡ true = rw e at f in absurd (ground (arith, bad))
  | inr e ↦ ((l, ground (arith, f, e)), (λ q. ground (arith, e, q)))
]

mark_used-used :
    (d : VirtioDisk) (a x : ℕ) → (mark_used a d).free x ≡ false → d.free x ≡ true → x ≡ a
mark_used-used d a x u f = elim (Bool-cases (a == x)) [
  | inl e ↦ sym ((==_iff a x).0 e)
  | inr e ↦ let same : d.free x ≡ false = rw e at u in absurd (ground (arith, same, f))
]

two_used :
    (d : VirtioDisk) (a b x : ℕ)
    → (mark_used b (mark_used a d)).free x ≡ false
    → d.free x ≡ true
    → (x ≡ a) ⊎ (x ≡ b)
two_used d a b x u f = elim (Bool-cases (a == x)) [
  | inl e ↦ inl (sym ((==_iff a x).0 e))
  | inr e ↦
      let kept : (mark_used a d).free x ≡ true = rw e f in
      inr (mark_used-used (mark_used a d) b x u kept)
]

two_places :
    (a b x y z : ℕ) → Three x y z → (x ≡ a) ⊎ (x ≡ b) → (y ≡ a) ⊎ (y ≡ b) → (z ≡ a) ⊎ (z ≡ b) → ⊥
two_places a b x y z (xy, xz, yz) (inl p) (inl q) r = xy (p ∙ sym q)
two_places a b x y z (xy, xz, yz) (inl p) (inr q) (inl r) = xz (p ∙ sym r)
two_places a b x y z (xy, xz, yz) (inl p) (inr q) (inr r) = yz (q ∙ sym r)
two_places a b x y z (xy, xz, yz) (inr p) (inr q) r = xy (p ∙ sym q)
two_places a b x y z (xy, xz, yz) (inr p) (inl q) (inl r) = yz (q ∙ sym r)
two_places a b x y z (xy, xz, yz) (inr p) (inl q) (inr r) = xz (p ∙ sym r)

-- What free_desc frees again is as before.
restored : (m : Mem Bool) (a x : ℕ) → m a ≡ true → store (store m a false) a true x ≡ m x
restored m a x t = elim (Bool-cases (a == x)) [
  | inl e ↦ rw e (sym t ∙ ap m ((==_iff a x).0 e))
  | inr e ↦ rw e refl
]

restored_two :
    (m : Mem Bool) (a b x : ℕ)
    → m a ≡ true
    → m b ≡ true
    → store (store (store (store m a false) b false) a true) b true x ≡ m x
restored_two m a b x p q = elim (Bool-cases (b == x)) [
  | inl e ↦ rw e (sym q ∙ ap m ((==_iff b x).0 e))
  | inr e ↦ elim (Bool-cases (a == x)) [
    | inl h ↦ rw (e, h) (sym p ∙ ap m ((==_iff a x).0 h))
    | inr h ↦ rw (e, h) refl
  ]
]

third-Returns :
    (d : VirtioDisk) (a b : ℕ) (r : Option (ℕ × VirtioDisk))
    → IsFree d a
    → IsFree (mark_used a d) b
    → Taken (mark_used b (mark_used a d)) r
    → Returns d (third_round a b (mark_used b (mark_used a d)) r)
unfolding Returns
third-Returns d a b none fa fb t =
    let (fb', ab) = mark_used-IsFree d a b fb in
    let d2 = mark_used b (mark_used a d) in
    let one = free_desc-used a d2 fa.0 (t a fa.0) in
    let kept = store_ne d2.free a b true ab ∙ t b fb'.0 in
    let two = free_desc-used b (freed a d2) fb'.0 kept in
    (
      (none, freed b (freed a d2)),
      rw (one, two) refl,
      (
        (λ x. restored_two d.free a b x fa.1 fb'.1),
        (λ x y z n fx fy fz.
            let used : (w : ℕ) → IsFree d w → (w ≡ a) ⊎ (w ≡ b) =
              λ w f. two_used d a b w (t w f.0) f.1 in
            two_places a b x y z n (used x fx) (used y fy) (used z fz)),
      ),
    )
third-Returns d a b (some (c, d')) fa fb (fc, e) =
    let (fb', ab) = mark_used-IsFree d a b fb in
    let (fc', bc) = mark_used-IsFree (mark_used a d) b c fc in
    let (fc'', ac) = mark_used-IsFree d a c fc' in
    ((some (a, b, c), d'), refl, ((ab, ac, bc), fa, fb', fc'', e))

second-Returns :
    (d : VirtioDisk) (a : ℕ) (r : Option (ℕ × VirtioDisk))
    → IsFree d a
    → Taken (mark_used a d) r
    → Returns d (second_round a (mark_used a d) r)
unfolding Returns
second-Returns d a none fa t = (
  (none, freed a (mark_used a d)),
  rw (free_desc-used a (mark_used a d) fa.0 (t a fa.0)) refl,
  (
    (λ x. restored d.free a x fa.1),
    (λ x y z n fx fy fz.
        n.0 (mark_used-used d a x (t x fx.0) fx.1 ∙ sym (mark_used-used d a y (t y fy.0) fy.1))),
  ),
)
second-Returns d a (some (b, d')) fa (fb, e) =
    subst (λ w. Returns d (third_round a b w (alloc_desc w))) (sym e)
      (third-Returns d a b (alloc_desc (mark_used b (mark_used a d))) fa fb
        (alloc_desc-Taken (mark_used b (mark_used a d))))

first-Returns :
    (d : VirtioDisk) (r : Option (ℕ × VirtioDisk)) → Taken d r → Returns d (first_round d r)
unfolding Returns
first-Returns d none t = (
  (none, d),
  refl,
  (
    (λ x. refl),
    (λ x y z n fx fy fz. let bad = sym fx.1 ∙ t x fx.0 in absurd (ground (arith, bad))),
  ),
)
first-Returns d (some (a, d')) (fa, e) =
    subst (λ w. Returns d (second_round a w (alloc_desc w))) (sym e)
      (second-Returns d a (alloc_desc (mark_used a d)) fa (alloc_desc-Taken (mark_used a d)))

-- alloc3_desc never panics; it takes three different free descriptors, or gives back what it took
-- where there are no three.
pub alloc3_desc-Outcome :
    (d : VirtioDisk)
    → (r : Option (ℕ × ℕ × ℕ) × VirtioDisk) × (alloc3_desc d ≡ some r) × Outcome d r
unfolding alloc3_desc Returns
alloc3_desc-Outcome d = first-Returns d (alloc_desc d) (alloc_desc-Taken d)
