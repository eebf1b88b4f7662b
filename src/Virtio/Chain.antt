-- ===== src/Virtio/Chain.antt =====
-- The chain of three descriptors that virtio_disk_rw of kernel/virtio_disk.c forms, and free_chain on it.
use mathlib.Core.Path.{subst}
use group10os.Prelude.{
  [], ◌∷◌, All, ℕ, suc, ◌+◌, ◌%◌, ◌<◌, ◌≡◌, refl, sym, ap, ◌∙◌, ◌≢◌, Bool, true, false, Option,
  none, some, ◌==◌, if◌then◌else◌, ==_ne, ==_refl,
}
use group10os.Prelude.Memory.{store, store_self}
use group10os.Virtio.{
  VirtioDisk, mark_used, Layout, num, vring_desc_f_next, vring_desc_f_write, free_chain, submit,
  finish_rw, alloc3_desc, start_rw,
}
use group10os.Virtio.Alloc.{IsFree, Three, Outcome, freed, free_desc-used, alloc3_desc-Outcome}

-- The descriptors are in use, and the flags and links lead from `a` over `b` to `c`, and no further.
abbrev pub IsChain : ℕ × ℕ × ℕ → VirtioDisk → Type 0
IsChain (a, b, c) d =
    Three a b c
    × ((a < num) × (d.free a ≡ false) × ((d.desc a).flags % 2 ≡ 1) × ((d.desc a).next ≡ b))
    × ((b < num) × (d.free b ≡ false) × ((d.desc b).flags % 2 ≡ 1) × ((d.desc b).next ≡ c))
    × ((c < num) × (d.free c ≡ false) × ((d.desc c).flags % 2 ≡ 0))

step_on :
    (fuel i nxt : ℕ) (d : VirtioDisk)
    → i < num
    → d.free i ≡ false
    → (d.desc i).flags % 2 ≡ 1
    → (d.desc i).next ≡ nxt
    → free_chain (suc fuel) i d ≡ free_chain fuel nxt (freed i d)
unfolding free_chain
step_on fuel i nxt d l f g n = rw (free_desc-used i d l f, g, n) refl

step_off :
    (fuel i : ℕ) (d : VirtioDisk)
    → i < num
    → d.free i ≡ false
    → (d.desc i).flags % 2 ≡ 0
    → free_chain (suc fuel) i d ≡ some (freed i d)
unfolding free_chain
step_off fuel i d l f g = rw (free_desc-used i d l f, g) refl

Three-tests :
    (a b c : ℕ)
    → Three a b c
    → ((a == b) ≡ false)
      × ((a == c) ≡ false)
      × ((b == c) ≡ false)
      × ((b == a) ≡ false)
      × ((c == a) ≡ false)
      × ((c == b) ≡ false)
Three-tests a b c (ab, ac, bc) = (
  ==_ne a b ab,
  ==_ne a c ac,
  ==_ne b c bc,
  ==_ne b a (λ z. ab (sym z)),
  ==_ne c a (λ z. ac (sym z)),
  ==_ne c b (λ z. bc (sym z)),
)

-- free_chain frees the three descriptors of a chain.
free_chain-three :
    (a b c : ℕ) (d : VirtioDisk)
    → IsChain (a, b, c) d
    → free_chain num a d ≡ some (freed c (freed b (freed a d)))
free_chain-three a b c d ((ab, ac, bc), (la, fa, ga, na), (lb, fb, gb, nb), (lc, fc, gc)) =
    let (eab, eac, ebc, eba, eca, ecb) = Three-tests a b c (ab, ac, bc) in
    step_on 7 a b d la fa ga na
    ∙ step_on 6 b c (freed a d) lb (rw eab fb) (rw eab gb) (rw eab nb)
    ∙ step_off 5 c (freed b (freed a d)) lc (rw (ebc, eac) fc) (rw (ebc, eac) gc)

-- The three descriptors have become free, and the others are as they were.
abbrev pub Given : ℕ × ℕ × ℕ → VirtioDisk → VirtioDisk → Type 0
Given (a, b, c) d d' =
    (d'.free a ≡ true)
    × (d'.free b ≡ true)
    × (d'.free c ≡ true)
    × ((x : ℕ) → a ≢ x → b ≢ x → c ≢ x → (d'.free x ≡ d.free x) × (d'.desc x ≡ d.desc x))

finish_rw-Given :
    (a b c : ℕ) (d : VirtioDisk)
    → IsChain (a, b, c) d
    → (d' : VirtioDisk) × (finish_rw a d ≡ some d') × Given (a, b, c) d d'
unfolding finish_rw free_chain
finish_rw-Given a b c d chain =
    let d0 = record d { info = store d.info a (record (d.info a) { b = 0 }) } in
    let (eab, eac, ebc, eba, eca, ecb) = Three-tests a b c chain.0 in
    (
      freed c (freed b (freed a d0)),
      free_chain-three a b c d0 chain,
      (
        rw (eca, eba, ==_refl a) refl,
        rw (ecb, ==_refl b) refl,
        rw (==_refl c) refl,
        (λ x na nb nc. (
          rw (==_ne a x na, ==_ne b x nb, ==_ne c x nc) refl,
          rw (==_ne a x na, ==_ne b x nb, ==_ne c x nc) refl,
        )),
      ),
    )

-- A request of buffer `b` stands in the queue: its descriptors were free, and are a chain now, whose
-- head is the newest entry of the ring.
abbrev pub Started : ℕ → VirtioDisk → Option (ℕ × ℕ × ℕ) × VirtioDisk → Type 0
Started b d (none, d') = (x : ℕ) → d'.free x ≡ d.free x
Started b d (some (i0, i1, i2), d') =
    IsChain (i0, i1, i2) d'
    × (IsFree d i0 × IsFree d i1 × IsFree d i2)
    × ((x : ℕ) → i0 ≢ x → i1 ≢ x → i2 ≢ x → (d'.free x ≡ d.free x) × (d'.desc x ≡ d.desc x))
    × (d'.avail_ring (d.avail_idx % num) ≡ i0)
    × ((d'.info i0).b ≡ b)
    × (d'.busy b ≡ 1)

odd_flags : (write : Bool) → ((if write then 0 else vring_desc_f_write) + vring_desc_f_next) % 2 ≡ 1
odd_flags true = refl
odd_flags false = refl

submit-Started :
    (at : Layout) (b blockno : ℕ) (write : Bool) (i0 i1 i2 : ℕ) (d : VirtioDisk)
    → Three i0 i1 i2
    → IsFree d i0
    → IsFree d i1
    → IsFree d i2
    → Started b d (
      some (i0, i1, i2),
      submit at b blockno write (i0, i1, i2) (mark_used i2 (mark_used i1 (mark_used i0 d))),
    )
submit-Started at b blockno write i0 i1 i2 d (ab, ac, bc) f0 f1 f2 =
    let (eab, eac, ebc, eba, eca, ecb) = Three-tests i0 i1 i2 (ab, ac, bc) in
    (
      (
        (ab, ac, bc),
        (
          f0.0,
          rw (eca, eba, ==_refl i0) refl,
          rw (eca, eba, ==_refl i0) refl,
          rw (eca, eba, ==_refl i0) refl,
        ),
        (
          f1.0,
          rw (ecb, ==_refl i1) refl,
          rw (ecb, ==_refl i1) (odd_flags write),
          rw (ecb, ==_refl i1) refl,
        ),
        (f2.0, rw (==_refl i2) refl, rw (==_refl i2) refl),
      ),
      (f0, f1, f2),
      (λ x na nb nc. (
        rw (==_ne i0 x na, ==_ne i1 x nb, ==_ne i2 x nc) refl,
        rw (==_ne i0 x na, ==_ne i1 x nb, ==_ne i2 x nc) refl,
      )),
      store_self d.avail_ring (d.avail_idx % num) i0,
      rw (==_refl i0) refl,
      store_self d.busy b 1,
    )

start_rw-from :
    (at : Layout) (b blockno : ℕ) (write : Bool) (d : VirtioDisk)
    (r : Option (ℕ × ℕ × ℕ) × VirtioDisk)
    → alloc3_desc d ≡ some r
    → Outcome d r
    → (r' : Option (ℕ × ℕ × ℕ) × VirtioDisk) × (start_rw at b blockno write d ≡ some r')
      × Started b d r'
unfolding start_rw
start_rw-from at b blockno write d (none, d') e o = ((none, d'), rw e refl, o.0)
start_rw-from at b blockno write d (some (i0, i1, i2), d') e (t, f0, f1, f2, m) = (
  (some (i0, i1, i2), submit at b blockno write (i0, i1, i2) d'),
  rw e refl,
  rw m (submit-Started at b blockno write i0 i1 i2 d t f0 f1 f2),
)

-- virtio_disk_rw never panics before it first sleeps: it waits for descriptors with the free ones as
-- they were, or the request stands in the ring, as a chain of three that were free.
pub start_rw-Started :
    (at : Layout) (b blockno : ℕ) (write : Bool) (d : VirtioDisk)
    → (r : Option (ℕ × ℕ × ℕ) × VirtioDisk) × (start_rw at b blockno write d ≡ some r)
      × Started b d r
start_rw-Started at b blockno write d =
    let (r, e, o) = alloc3_desc-Outcome d in start_rw-from at b blockno write d r e o

some_inj {ℓ} : {A : Type ℓ} (u v : A) → some u ≡ some v → u ≡ v
some_inj u v e = ap (λ o. elim o [ none ↦ u | some w ↦ w ]) e

-- A chain keeps its descriptors while other requests come and go.
abbrev pub Keeps : ℕ × ℕ × ℕ → VirtioDisk → VirtioDisk → Type 0
Keeps (a, b, c) d d' = All (λ x. (d'.free x ≡ d.free x) × (d'.desc x ≡ d.desc x)) (a ∷ b ∷ c ∷ [])

Keeps-IsChain :
    (a b c : ℕ) (d d' : VirtioDisk)
    → Keeps (a, b, c) d d'
    → IsChain (a, b, c) d
    → IsChain (a, b, c) d'
Keeps-IsChain a b c d d' ((fa, da), ((fb, db), ((fc, dc), _))) chain =
    rw (fa, fb, fc, da, db, dc) chain

-- Once virtio_disk_rw has its request in the ring and the device is done, whatever happened to other
-- descriptors since, it gives back the three of the request, and only these, without a panic.
pub finish_rw-start_rw :
    (at : Layout) (b blockno : ℕ) (write : Bool) (d d1 d2 : VirtioDisk) (x y z : ℕ)
    → start_rw at b blockno write d ≡ some (some (x, y, z), d1)
    → Keeps (x, y, z) d1 d2
    → (d' : VirtioDisk) × (finish_rw x d2 ≡ some d') × Given (x, y, z) d2 d'
finish_rw-start_rw at b blockno write d d1 d2 x y z e keeps =
    let (r, q, o) = start_rw-Started at b blockno write d in
    let same : r ≡ (some (x, y, z), d1) = some_inj r (some (x, y, z), d1) (sym q ∙ e) in
    let chain = (subst (Started b d) same o).0 in
    finish_rw-Given x y z d2 (Keeps-IsChain x y z d1 d2 keeps chain)
