-- ===== src/Virtio/Interrupt.antt =====
-- The loop of virtio_disk_intr in kernel/virtio_disk.c over the entries of the used ring.
use group10os.Prelude.{
  ℕ, zero, suc, ◌+◌, ◌%◌, ◌^◌, ◌<◌, ◌≤◌, ◌≡◌, refl, sym, ap, ◌∙◌, ◌≢◌, false, some, arith, ◌==◌,
  ==_ne, ==_refl,
}
use group10os.Prelude.Memory.{store, store_self, store_ne}
use group10os.Virtio.{VirtioDisk, Info, num, virtio_disk_intr}

-- The `j`-th entry that virtio_disk_intr has not seen yet.
abbrev pub pending : VirtioDisk → ℕ → Info
pending d j = d.info (d.used_ring ((d.used_idx + j) % 2 ^ 16 % num))

-- The device has put `k` entries into the ring that virtio_disk_intr has not seen. The counters are 16
-- bits wide.
abbrev pub IsPending : ℕ → VirtioDisk → Type 0
IsPending k d = (d.used_idx < 2 ^ 16) × (k < 2 ^ 16) × (d.used_ring_idx ≡ (d.used_idx + k) % 2 ^ 16)

-- The buffers of the entries wait no more, and no other buffer is touched.
abbrev pub Completed : ℕ → VirtioDisk → VirtioDisk → Type 0
Completed k d d' =
    (d'.used_idx ≡ d.used_ring_idx)
    × ((j : ℕ) → j < k → d'.busy (pending d j).b ≡ 0)
    × ((x : ℕ) → ((j : ℕ) → j < k → (pending d j).b ≢ x) → d'.busy x ≡ d.busy x)

-- And a buffer that does not wait does not start to.
Settled : VirtioDisk → VirtioDisk → Type 0
Settled d d' = (x : ℕ) → d.busy x ≡ 0 → d'.busy x ≡ 0

abbrev finished : VirtioDisk → VirtioDisk
finished d = record d {
  busy = store d.busy (d.info (d.used_ring (d.used_idx % num))).b 0;
  used_idx = (d.used_idx + 1) % 2 ^ 16;
}

pending-next : (d : VirtioDisk) (j : ℕ) → pending (finished d) j ≡ pending d (suc j)
pending-next d j =
    let e : ((d.used_idx + 1) % 2 ^ 16 + j) % 2 ^ 16 ≡ (d.used_idx + suc j) % 2 ^ 16 =
      omega arith in
    ap (λ n. d.info (d.used_ring (n % num))) e

pending-first :
    (d : VirtioDisk) → d.used_idx < 2 ^ 16 → pending d 0 ≡ d.info (d.used_ring (d.used_idx % num))
pending-first d l =
    let e : (d.used_idx + 0) % 2 ^ 16 ≡ d.used_idx = omega (arith, l) in
    ap (λ n. d.info (d.used_ring (n % num))) e

finished-Pending : (k : ℕ) (d : VirtioDisk) → IsPending (suc k) d → IsPending k (finished d)
finished-Pending k d (u, l, e) = (omega arith, omega (arith, l), omega (arith, e))

Completed-suc :
    (k : ℕ) (d d' : VirtioDisk)
    → d.used_idx < 2 ^ 16
    → Completed k (finished d) d'
    → Settled (finished d) d'
    → Completed (suc k) d d'
unfolding Settled
Completed-suc k d d' l (at, done, kept) settled =
    let id = d.used_ring (d.used_idx % num) in
    let b = (d.info id).b in
    let first = pending-first d l in
    (
      at,
      (λ j. elim j as (λ n. n < suc k → d'.busy (pending d n).b ≡ 0) [
        | zero ↦ λ h. ap (λ (i : Info). d'.busy i.b) first ∙ settled b (store_self d.busy b 0)
        | suc m ↦
            λ h. ap (λ (i : Info). d'.busy i.b) (sym (pending-next d m)) ∙ done m (omega (arith, h))
      ]),
      (λ x o.
          kept x (λ j h z.
            o (suc j) (omega (arith, h)) (ap (λ (i : Info). i.b) (sym (pending-next d j)) ∙ z))
          ∙ store_ne d.busy b x 0 (λ z. o 0 (omega arith) (ap (λ (i : Info). i.b) first ∙ z))),
    )

Settled-suc : (d d' : VirtioDisk) → Settled (finished d) d' → Settled d d'
unfolding Settled
Settled-suc d d' settled x z =
    let b = (d.info (d.used_ring (d.used_idx % num))).b in settled x (ground (arith, z))

intr-all :
    (k fuel : ℕ) (d : VirtioDisk)
    → IsPending k d
    → ((j : ℕ) → j < k → (pending d j).status ≡ 0)
    → k ≤ fuel
    → (d' : VirtioDisk) × (virtio_disk_intr fuel d ≡ some d') × Completed k d d' × Settled d d'
unfolding virtio_disk_intr Settled
intr-all zero zero d (u, l, e) good f =
    let q : d.used_idx ≡ d.used_ring_idx = omega (arith, u, e) in
    (
      d,
      rw (q, ==_refl d.used_ring_idx) refl,
      (q, (λ j h. absurd (omega (arith, h))), (λ x o. refl)),
      (λ x z. z),
    )
intr-all zero (suc fuel) d (u, l, e) good f =
    let q : d.used_idx ≡ d.used_ring_idx = omega (arith, u, e) in
    (
      d,
      rw (q, ==_refl d.used_ring_idx) refl,
      (q, (λ j h. absurd (omega (arith, h))), (λ x o. refl)),
      (λ x z. z),
    )
intr-all (suc k) zero d p good f = absurd (omega (arith, f))
intr-all (suc k) (suc fuel) d p good f =
    let (d', e, c, settled) =
      intr-all k fuel (finished d) (finished-Pending k d p)
        (λ j l. ap (λ (i : Info). i.status) (pending-next d j) ∙ good (suc j) (omega (arith, l)))
        (omega (arith, f)) in
    let more : (d.used_idx == d.used_ring_idx) ≡ false =
      ==_ne d.used_idx d.used_ring_idx (λ z. omega (arith, z, p)) in
    let first = pending-first d p.0 in
    let ok = ap (λ (i : Info). i.status) (sym first) ∙ good 0 (omega arith) in
    (d', rw (more, ok) e, Completed-suc k d d' p.0 c settled, Settled-suc d d' settled)

-- virtio_disk_intr sees all entries that the device has added, whatever their number, and then no
-- buffer of these waits; it does not panic where the device has reported success for each.
pub virtio_disk_intr-Completed :
    (k fuel : ℕ) (d : VirtioDisk)
    → IsPending k d
    → ((j : ℕ) → j < k → (pending d j).status ≡ 0)
    → k ≤ fuel
    → (d' : VirtioDisk) × (virtio_disk_intr fuel d ≡ some d') × Completed k d d'
virtio_disk_intr-Completed k fuel d p good f =
    let (d', e, c, s) = intr-all k fuel d p good f in (d', e, c)
