-- ===== src/Virtio.antt =====
-- kernel/virtio_disk.c, its descriptors and requests, with the queue of kernel/virtio.h: from
-- virtio_disk_rw to the device and back by virtio_disk_intr. The device fills the used ring and the
-- status bytes. The registers and virtio_disk_init are left out, and the fences are; each region under
-- vdisk_lock, from one sleep to the next, is a step.
pub mod Alloc
pub mod Chain
pub mod Interrupt
mod Tests
use group10os.Prelude.{
  ℕ, zero, suc, ◌+◌, ◌*◌, ◌%◌, ◌^◌, Bool, true, false, not, Option, none, some, ◌==◌, ltb,
  if◌then◌else◌,
}
use group10os.Prelude.Memory.{Mem, store}
use group10os.Fs.{bsize}

abbrev pub num : ℕ
num = 8

abbrev pub vring_desc_f_next : ℕ
vring_desc_f_next = 1

abbrev pub vring_desc_f_write : ℕ
vring_desc_f_write = 2

pub record VirtqDesc : Type 0 where
  pub addr : ℕ
  pub len : ℕ
  pub flags : ℕ
  pub next : ℕ

pub record VirtioBlkReq : Type 0 where
  pub type : ℕ
  pub reserved : ℕ
  pub sector : ℕ

pub record Info : Type 0 where
  pub b : ℕ
  pub status : ℕ

-- `busy` is the field `disk` of each buffer.
pub record VirtioDisk : Type 0 where
  pub desc : Mem VirtqDesc
  pub avail_ring : Mem ℕ
  pub avail_idx : ℕ
  pub used_ring : Mem ℕ
  pub used_ring_idx : ℕ
  pub free : Mem Bool
  pub used_idx : ℕ
  pub info : Mem Info
  pub ops : Mem VirtioBlkReq
  pub busy : Mem ℕ

-- Where the linker puts the headers, the status bytes and the data of the buffers.
pub record Layout : Type 0 where
  pub op : ℕ → ℕ
  pub status : ℕ → ℕ
  pub contents : ℕ → ℕ

abbrev pub mark_used : ℕ → VirtioDisk → VirtioDisk
mark_used i d = record d { free = store d.free i false }

-- The loop of alloc_desc with `k` descriptors left, from `i` on; `none` is -1.
unfoldable pub alloc_desc_from : ℕ → ℕ → VirtioDisk → Option (ℕ × VirtioDisk)
alloc_desc_from zero i d = none
alloc_desc_from (suc k) i d =
    let rest = alloc_desc_from k (i + 1) d in if d.free i then some (i, mark_used i d) else rest

abbrev pub alloc_desc : VirtioDisk → Option (ℕ × VirtioDisk)
alloc_desc d = alloc_desc_from num 0 d

-- `none` is a panic.
unfoldable pub free_desc : ℕ → VirtioDisk → Option VirtioDisk
free_desc i d =
    if not (ltb i num)
    then none
    else if d.free i
    then none
    else some (record d {
      desc = store d.desc i (record { addr = 0; len = 0; flags = 0; next = 0 });
      free = store d.free i true;
    })

abbrev and_then {ℓ κ} : {A : Type ℓ} {B : Type κ} → Option A → (A → Option B) → Option B
and_then none f = none
and_then (some a) f = f a

-- `none` is a panic. A descriptor that is freed twice is one, so NUM rounds are all there can be.
unfoldable pub free_chain : ℕ → ℕ → VirtioDisk → Option VirtioDisk
free_chain zero i d = none
free_chain (suc fuel) i d =
    let flag = (d.desc i).flags in
    let nxt = (d.desc i).next in
    and_then (free_desc i d) (λ (d' : VirtioDisk).
      let rest = free_chain fuel nxt d' in if flag % 2 == vring_desc_f_next then rest else some d')

-- The rounds of alloc3_desc, behind the alloc_desc of each; where that has no descriptor, those of the
-- rounds before are freed. `none` inside is -1, outside a panic.
abbrev pub third_round :
    ℕ → ℕ → VirtioDisk → Option (ℕ × VirtioDisk) → Option (Option (ℕ × ℕ × ℕ) × VirtioDisk)
third_round a b d none =
    and_then (free_desc a d)
      (λ (e : VirtioDisk). and_then (free_desc b e) (λ (e' : VirtioDisk). some (none, e')))
third_round a b d (some (c, d')) = some (some (a, b, c), d')

abbrev pub second_round :
    ℕ → VirtioDisk → Option (ℕ × VirtioDisk) → Option (Option (ℕ × ℕ × ℕ) × VirtioDisk)
second_round a d none = and_then (free_desc a d) (λ (e : VirtioDisk). some (none, e))
second_round a d (some (b, d')) = third_round a b d' (alloc_desc d')

abbrev pub first_round :
    VirtioDisk → Option (ℕ × VirtioDisk) → Option (Option (ℕ × ℕ × ℕ) × VirtioDisk)
first_round d none = some (none, d)
first_round d (some (a, d')) = second_round a d' (alloc_desc d')

unfoldable pub alloc3_desc : VirtioDisk → Option (Option (ℕ × ℕ × ℕ) × VirtioDisk)
alloc3_desc d = first_round d (alloc_desc d)

-- virtio_disk_rw of buffer `b` from the descriptors `idx` to the first sleep on the buffer.
abbrev pub submit : Layout → ℕ → ℕ → Bool → ℕ × ℕ × ℕ → VirtioDisk → VirtioDisk
submit at b blockno write (i0, i1, i2) d =
    let req : VirtioBlkReq = record {
      type = if write then 1 else 0;
      reserved = 0;
      sector = blockno * 2 % 2 ^ 32;
    } in
    let desc0 =
      store d.desc i0
        (record { addr = at.op i0; len = 16; flags = vring_desc_f_next; next = i1 }) in
    let desc1 = store desc0 i1 (record {
      addr = at.contents b;
      len = bsize;
      flags = (if write then 0 else vring_desc_f_write) + vring_desc_f_next;
      next = i2;
    }) in
    let desc2 =
      store desc1 i2
        (record { addr = at.status i0; len = 1; flags = vring_desc_f_write; next = 0 }) in
    record d {
      ops = store d.ops i0 req;
      desc = desc2;
      busy = store d.busy b 1;
      info = store d.info i0 (record { b = b; status = 255 });
      avail_ring = store d.avail_ring (d.avail_idx % num) i0;
      avail_idx = (d.avail_idx + 1) % 2 ^ 16;
    }

-- virtio_disk_rw up to the first sleep: on the descriptors, which is `none` inside, or on the buffer.
pub start_rw : Layout → ℕ → ℕ → Bool → VirtioDisk → Option (Option (ℕ × ℕ × ℕ) × VirtioDisk)
start_rw at b blockno write d = and_then (alloc3_desc d) (λ (r : Option (ℕ × ℕ × ℕ) × VirtioDisk).
    elim (r.0) [
      | none ↦ some (none, r.1)
      | some idx ↦ some (some idx, submit at b blockno write idx r.1)
    ])

-- virtio_disk_rw behind the wait for the device.
pub finish_rw : ℕ → VirtioDisk → Option VirtioDisk
finish_rw i0 d =
    free_chain num i0 (record d { info = store d.info i0 (record (d.info i0) { b = 0 }) })

-- A round of virtio_disk_intr; `none` is the panic.
abbrev pub complete_request : VirtioDisk → Option VirtioDisk
complete_request d =
    let id = d.used_ring (d.used_idx % num) in
    if not ((d.info id).status == 0)
    then none
    else some
        (record d { busy = store d.busy (d.info id).b 0; used_idx = (d.used_idx + 1) % 2 ^ 16 })

-- The loop of virtio_disk_intr; `none` is the panic, or the end of the fuel.
unfoldable pub virtio_disk_intr : ℕ → VirtioDisk → Option VirtioDisk
virtio_disk_intr zero d = if d.used_idx == d.used_ring_idx then some d else none
virtio_disk_intr (suc fuel) d =
    let rest = and_then (complete_request d) (virtio_disk_intr fuel) in
    if d.used_idx == d.used_ring_idx then some d else rest
