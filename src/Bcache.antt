-- ===== src/Bcache.antt =====
-- kernel/bio.c, with the sleep locks of kernel/sleeplock.c that its buffers hold. A pointer to a buffer
-- is 1 to NBUF, and 0 is `bcache.head`; `next` and `prev` are the links of the list, which is sorted by
-- how recently a buffer was used. The data of a buffer is left out: Log has what is done with it. The
-- spin locks are left out: each region under one is a step.
pub mod Ring
pub mod Search
pub mod Cached
pub mod Use
pub mod Release
pub mod Start
mod Tests
use group10os.Prelude.{
  ℕ, zero, suc, ◌+◌, ◌-◌, ◌%◌, ◌^◌, Bool, true, false, not, ◌&&◌, Option, none, some, ◌==◌,
  if◌then◌else◌,
}
use group10os.Prelude.Memory.{Mem, store}

pub record Sleeplock : Type 0 where
  pub locked : Bool
  pub pid : ℕ

abbrev pub initsleeplock : Sleeplock
initsleeplock = record { locked = false; pid = 0 }

-- acquiresleep of process `pid`; `none` is waiting.
unfoldable pub acquiresleep : ℕ → Sleeplock → Option Sleeplock
acquiresleep pid lk = if lk.locked then none else some (record { locked = true; pid = pid })

abbrev pub releasesleep : Sleeplock → Sleeplock
releasesleep lk = record { locked = false; pid = 0 }

abbrev pub holdingsleep : ℕ → Sleeplock → Bool
holdingsleep pid lk = lk.locked && lk.pid == pid

pub record Buf : Type 0 where
  pub dev : ℕ
  pub blockno : ℕ
  pub refcnt : ℕ
  pub valid : Bool
  pub lock : Sleeplock

pub record Bcache : Type 0 where
  pub buf : Mem Buf
  pub next : Mem ℕ
  pub prev : Mem ℕ

abbrev pub nbuf : ℕ
nbuf = 30

abbrev pub head : ℕ
head = 0

-- The four assignments that put a buffer behind the head, in binit and in brelse.
unfoldable pub insert_front : ℕ → Bcache → Bcache
insert_front b c =
    let next = store c.next b (c.next head) in
    let prev = store (store c.prev b head) (next head) b in
    record c { next = store next head b; prev = prev }

-- The two assignments that take a buffer out of the list.
unfoldable pub unlink : ℕ → Bcache → Bcache
unlink b c =
    let prev = store c.prev (c.next b) (c.prev b) in
    record c { next = store c.next (prev b) (c.next b); prev = prev }

abbrev pub set_buf : ℕ → Buf → Bcache → Bcache
set_buf b v c = record c { buf = store c.buf b v }

-- The loop of binit with `k` buffers left, from buffer `b` on.
unfoldable pub init_from : ℕ → ℕ → Bcache → Bcache
init_from zero b c = c
init_from (suc k) b c =
    init_from k (b + 1) (insert_front b (set_buf b (record (c.buf b) { lock = initsleeplock }) c))

unfoldable pub binit : Bcache → Bcache
unfolding init_from
binit c =
    init_from nbuf 1 (record c { next = store c.next head head; prev = store c.prev head head })

abbrev pub is_block : ℕ → ℕ → Buf → Bool
is_block dev blockno v = v.dev == dev && v.blockno == blockno

abbrev pub is_unused : Buf → Bool
is_unused v = v.refcnt == 0

-- The two loops of bget: along `next` to a buffer with the block, and along `prev` to an unused one.
-- They end at the head where there is none. `none` is the end of the fuel.
unfoldable pub search : ℕ → (Buf → Bool) → Mem Buf → Mem ℕ → ℕ → Option ℕ
search zero test buf link b = none
search (suc fuel) test buf link b =
    let rest = search fuel test buf link (link b) in
    if b == head then some head else if test (buf b) then some b else rest

abbrev pub taken : Buf → Buf
taken v = record v { refcnt = v.refcnt + 1 }

abbrev pub recycled : ℕ → ℕ → Buf → Buf
recycled dev blockno v = record v { dev = dev; blockno = blockno; valid = false; refcnt = 1 }

abbrev and_then {ℓ κ} : {A : Type ℓ} {B : Type κ} → Option A → (A → Option B) → Option B
and_then none f = none
and_then (some a) f = f a

-- The scan of bget under bcache.lock: the buffer, whose sleep lock is still to be taken. `none` is the
-- panic "no buffers". The list has NBUF buffers, so a loop has one round more at most.
unfoldable pub find : ℕ → ℕ → Bcache → Option (ℕ × Bcache)
find dev blockno c =
    let recycle = and_then (search (suc nbuf) is_unused c.buf c.prev (c.prev head)) (λ (b : ℕ).
      if b == head then none else some (b, set_buf b (recycled dev blockno (c.buf b)) c)) in
    and_then (search (suc nbuf) (is_block dev blockno) c.buf c.next (c.next head))
      (λ (b : ℕ). if b == head then recycle else some (b, set_buf b (taken (c.buf b)) c))

-- bget of process `pid` where no one holds the buffer's sleep lock; `none` is the panic, or waiting
-- for that lock behind the scan.
unfoldable pub bget : ℕ → ℕ → ℕ → Bcache → Option (ℕ × Bcache)
unfolding acquiresleep
bget pid dev blockno c = and_then (find dev blockno c) (λ (r : ℕ × Bcache).
    and_then (acquiresleep pid (r.1.buf r.0).lock)
      (λ (lk : Sleeplock). some (r.0, set_buf r.0 (record (r.1.buf r.0) { lock = lk }) r.1)))

-- bread; whether virtio_disk_rw reads the block from the disk.
unfoldable pub bread : ℕ → ℕ → ℕ → Bcache → Option (ℕ × Bool × Bcache)
unfolding bget
bread pid dev blockno c = and_then (bget pid dev blockno c) (λ (r : ℕ × Bcache).
    some (r.0, not (r.1.buf r.0).valid, set_buf r.0 (record (r.1.buf r.0) { valid = true }) r.1))

abbrev pub minus_one : ℕ → ℕ
minus_one n = (n + 2 ^ 32 - 1) % 2 ^ 32

-- `none` is a panic.
unfoldable pub brelse : ℕ → ℕ → Bcache → Option Bcache
brelse pid b c =
    let v = c.buf b in
    let c' = set_buf b (record v { lock = releasesleep v.lock; refcnt = minus_one v.refcnt }) c in
    if not (holdingsleep pid v.lock)
    then none
    else some (if minus_one v.refcnt == 0 then insert_front b (unlink b c') else c')
