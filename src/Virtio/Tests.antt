-- ===== src/Virtio/Tests.antt =====
-- Runs of kernel/virtio_disk.c, and the theorems at concrete inputs.
use group10os.Prelude.{ℕ, ◌+◌, ◌*◌, ◌≡◌, refl, true, false, Option, none, some, arith, ltb}
use group10os.Virtio.{
  VirtioDisk, Layout, mark_used, alloc_desc_from, alloc3_desc, free_desc, start_rw, finish_rw,
  submit, virtio_disk_intr,
}
use group10os.Virtio.Alloc.{Outcome, alloc3_desc-Outcome}
use group10os.Virtio.Chain.{Given, finish_rw-start_rw}
use group10os.Virtio.Interrupt.{Completed, virtio_disk_intr-Completed}

abbrev at : Layout
at = record { op = λ i. 1000 + i * 16; status = λ i. 2000 + i; contents = λ b. 4096 * b }

-- The disk behind virtio_disk_init.
abbrev idle : VirtioDisk
idle = record {
  desc = λ i. record { addr = 0; len = 0; flags = 0; next = 0 };
  avail_ring = λ i. 0;
  avail_idx = 0;
  used_ring = λ i. 0;
  used_ring_idx = 0;
  free = λ i. true;
  used_idx = 0;
  info = λ i. record { b = 0; status = 0 };
  ops = λ i. record { type = 0; reserved = 0; sector = 0 };
  busy = λ b. 0;
}

-- The disk with the read of block 46 into buffer 7 in the queue.
abbrev reading : VirtioDisk
reading = submit at 7 46 false (0, 1, 2) (mark_used 2 (mark_used 1 (mark_used 0 idle)))

alloc3_desc-Outcome_example :
    (r : Option (ℕ × ℕ × ℕ) × VirtioDisk) × (alloc3_desc idle ≡ some r) × Outcome idle r
alloc3_desc-Outcome_example = alloc3_desc-Outcome idle

-- Two requests take six descriptors; the third waits.
abbrev indices : Option (Option (ℕ × ℕ × ℕ) × VirtioDisk) → Option (Option (ℕ × ℕ × ℕ))
indices none = none
indices (some (r, d)) = some r

third_request_waits :
    indices (start_rw at 9 5 true (record idle { free = λ i. ltb 5 i })) ≡ some none
unfolding start_rw alloc3_desc alloc_desc_from free_desc
third_request_waits = refl

in_the_queue : start_rw at 7 46 false idle ≡ some (some (0, 1, 2), reading)
unfolding start_rw alloc3_desc alloc_desc_from free_desc
in_the_queue = refl

finish_rw-start_rw_example :
    (d' : VirtioDisk) × (finish_rw 0 reading ≡ some d') × Given (0, 1, 2) reading d'
finish_rw-start_rw_example =
    finish_rw-start_rw at 7 46 false idle reading reading 0 1 2 in_the_queue
      ((refl, refl), ((refl, refl), ((refl, refl), tt)))

-- The device has read the block and says so.
abbrev answered : VirtioDisk
answered = record reading { used_ring_idx = 1; info = λ i. record { b = 7; status = 0 } }

virtio_disk_intr-Completed_example :
    (d' : VirtioDisk) × (virtio_disk_intr 8 answered ≡ some d') × Completed 1 answered d'
virtio_disk_intr-Completed_example =
    virtio_disk_intr-Completed 1 8 answered (omega arith, omega arith, refl) (λ j l. refl)
      (omega arith)
