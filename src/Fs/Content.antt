-- ===== src/Fs/Content.antt =====
-- The contents of an inode in kernel/fs.c: bmap, itrunc, iupdate, readi and writei, and iput, which
-- frees them. The inode is the entry that the caller has locked.
pub mod Reading
use group10os.Prelude.{
  ℕ, zero, suc, ◌+◌, ◌-◌, ◌*◌, ◌/◌, ◌%◌, ◌^◌, Bool, true, false, not, ◌&&◌, ◌||◌, List, [], ◌∷◌,
  ◌++◌, Option, none, some, ltb, leb, ◌==◌, if◌then◌else◌,
}
use group10os.Prelude.Memory.{Mem, store}
use group10os.Prelude.Int.{ℤ, pos, negsuc}
use group10os.Fs.{
  Disk, Dinode, Superblock, bsize, ndirect, nindirect, maxfile, iblock, log_write, put_block,
  uint_at, put_uint,
}
use group10os.Fs.Blocks.{balloc, bfree}
use group10os.Fs.Table.{Inode}

abbrev pub and_then {ℓ κ} : {A : Type ℓ} {B : Type κ} → Option A → (A → Option B) → Option B
and_then none f = none
and_then (some a) f = f a

abbrev pub set_addr : ℕ → ℕ → Inode → Inode
set_addr i b p = record p { addrs = store p.addrs i b }

-- `min(n - tot, BSIZE - off % BSIZE)`
abbrev pub chunk : ℕ → ℕ → ℕ
chunk left off = if ltb left (bsize - off % bsize) then left else bsize - off % bsize

-- The `n` bytes of a block from offset `i` on.
abbrev pub slice : Mem ℕ → ℕ → ℕ → List ℕ
slice m i zero = []
slice m i (suc n) = m i ∷ slice m (i + 1) n

-- The bytes written into a block from offset `i` on.
abbrev pub put_bytes : Mem ℕ → ℕ → List ℕ → Mem ℕ
put_bytes m i [] = m
put_bytes m i (x ∷ xs) = put_bytes (store m i x) (i + 1) xs

-- What a read or a write has done: the bytes so far, or a failure, with the offset it has come to.
pub record Progress : Type 0 where
  pub inode : Inode
  pub disk : Disk
  pub off : ℕ
  pub tot : ℕ
  pub failed : Bool
  pub bytes : List ℕ

module _ (sb : Superblock) where
  abbrev pub iupdate : Inode → Disk → Disk
  iupdate p d = log_write (iblock p.inum sb) (record d {
    dinode = store d.dinode p.inum (record {
      type = p.type;
      major = p.major;
      minor = p.minor;
      nlink = p.nlink;
      size = p.size;
      addrs = p.addrs;
    });
  })

  -- An entry of `addrs`, which a block is allocated for if there is none.
  pub direct : Inode → ℕ → Disk → Option (ℕ × Inode × Disk)
  direct p i d =
      if p.addrs i == 0
      then and_then (balloc sb d)
          (λ (r : ℕ × Disk). some (r.0, (if r.0 == 0 then p else set_addr i r.0 p), r.1))
      else some (p.addrs i, p, d)

  -- The entry `i` of the indirect block `b`.
  pub indirect : ℕ → ℕ → Disk → Option (ℕ × Disk)
  indirect b i d =
      let a = uint_at (d.block b) i in
      if a == 0
      then and_then (balloc sb d) (λ (r : ℕ × Disk).
        some (r.0, (if r.0 == 0 then r.1 else put_block b (put_uint (r.1.block b) i r.0) r.1)))
      else some (a, d)

  -- The block number, or 0 if the disk is full; `none` is a panic.
  pub bmap : Inode → ℕ → Disk → Option (ℕ × Inode × Disk)
  bmap p bn d =
      if ltb bn ndirect
      then direct p bn d
      else if ltb (bn - ndirect) nindirect
      then and_then (direct p ndirect d) (λ (r : ℕ × Inode × Disk).
        if r.0 == 0
        then some r
        else and_then (indirect r.0 (bn - ndirect) r.2) (λ (s : ℕ × Disk). some (s.0, r.1, s.1)))
      else none

  -- The loops of itrunc over the direct blocks and over the entries of the indirect block, with `k`
  -- rounds left.
  free_direct : ℕ → ℕ → Inode → Disk → Option (Inode × Disk)
  free_direct zero i p d = some (p, d)
  free_direct (suc k) i p d =
      let next = λ (e : Disk). free_direct k (i + 1) (set_addr i 0 p) e in
      let skip = free_direct k (i + 1) p d in
      if p.addrs i == 0 then skip else and_then (bfree sb (p.addrs i) d) next

  free_indirect : ℕ → ℕ → Mem ℕ → Disk → Option Disk
  free_indirect zero j a d = some d
  free_indirect (suc k) j a d =
      let skip = free_indirect k (j + 1) a d in
      let next = λ (e : Disk). free_indirect k (j + 1) a e in
      if uint_at a j == 0 then skip else and_then (bfree sb (uint_at a j) d) next

  free_table : Inode → Disk → Option (Inode × Disk)
  unfolding free_indirect
  free_table p d =
      let b = p.addrs ndirect in
      if b == 0
      then some (p, d)
      else and_then (free_indirect nindirect 0 (d.block b) d)
          (λ (e : Disk). and_then (bfree sb b e) (λ (e' : Disk). some (set_addr ndirect 0 p, e')))

  pub itrunc : Inode → Disk → Option (Inode × Disk)
  unfolding free_direct free_table
  itrunc p d = and_then (free_direct ndirect 0 p d) (λ (r : Inode × Disk).
      and_then (free_table r.0 r.1)
        (λ (s : Inode × Disk). let q = record (s.0) { size = 0 } in some (q, iupdate q s.1)))

  -- iput: an inode that has one reference left and no links is freed.
  pub iput : Inode → Disk → Option (Inode × Disk)
  unfolding itrunc
  iput p d =
      if p.ref == 1 && (p.valid && p.nlink == 0)
      then and_then (itrunc p d) (λ (r : Inode × Disk).
        let q = record (r.0) { type = 0 } in
        some (record q { valid = false; ref = q.ref - 1 }, iupdate q r.1))
      else some (record p { ref = p.ref - 1 }, d)

  -- The loop of readi, with the bytes that are left; `copied` says whether either_copyout succeeds for
  -- the bytes at an offset. `none` is a panic, or the end of the fuel.
  readi_from : ℕ → (ℕ → Bool) → ℕ → Progress → Option Progress
  readi_from zero copied left s = none
  readi_from (suc fuel) copied left s =
      let m = chunk left s.off in
      let next = λ (r : ℕ × Inode × Disk). readi_from fuel copied (left - m) (record {
        inode = r.1;
        disk = r.2;
        off = s.off + m;
        tot = s.tot + m;
        failed = false;
        bytes = s.bytes ++ slice (r.2.block r.0) (s.off % bsize) m;
      }) in
      let stop = λ (r : ℕ × Inode × Disk) (b : Bool).
        some (record s { inode = r.1; disk = r.2; failed = b }) in
      if left == 0
      then some s
      else and_then (bmap s.inode (s.off / bsize) s.disk) (λ (r : ℕ × Inode × Disk).
        if r.0 == 0 then stop r false else if copied s.off then next r else stop r true)

  -- The result, the inode, the disk, and the bytes that were copied out. A chunk is not empty, so
  -- `n + 1` rounds are enough.
  pub readi : (ℕ → Bool) → Inode → ℕ → ℕ → Disk → Option (ℤ × Inode × Disk × List ℕ)
  readi copied p off n d =
      let end_off = (off + n) % 2 ^ 32 in
      let left = if ltb p.size end_off then p.size - off else n in
      let start : Progress = record {
        inode = p;
        disk = d;
        off = off;
        tot = 0;
        failed = false;
        bytes = [];
      } in
      if ltb p.size off || ltb end_off off
      then some (pos 0, p, d, [])
      else and_then (readi_from (suc left) copied left start) (λ (s : Progress).
        some ((if s.failed then negsuc 0 else pos s.tot), s.inode, s.disk, s.bytes))

  -- The loop of writei; `src` is what either_copyin gives for the bytes at an offset of the file.
  writei_from : ℕ → (ℕ → Bool) → (ℕ → ℕ) → ℕ → Progress → Option Progress
  writei_from zero copied src left s = none
  writei_from (suc fuel) copied src left s =
      let m = chunk left s.off in
      let next = λ (r : ℕ × Inode × Disk). writei_from fuel copied src (left - m) (record {
        inode = r.1;
        disk = put_block r.0 (put_bytes (r.2.block r.0) (s.off % bsize) (slice src s.off m)) r.2;
        off = s.off + m;
        tot = s.tot + m;
        failed = false;
        bytes = s.bytes;
      }) in
      let stop = λ (r : ℕ × Inode × Disk). some (record s { inode = r.1; disk = r.2 }) in
      if left == 0
      then some s
      else and_then (bmap s.inode (s.off / bsize) s.disk) (λ (r : ℕ × Inode × Disk).
        if r.0 == 0 then stop r else if copied s.off then next r else stop r)

  -- "write the i-node back to disk even if the size didn't change".
  abbrev pub grown : Progress → Inode
  grown s = if ltb s.inode.size s.off then record (s.inode) { size = s.off } else s.inode

  pub writei : (ℕ → Bool) → (ℕ → ℕ) → Inode → ℕ → ℕ → Disk → Option (ℤ × Inode × Disk)
  writei copied src p off n d =
      let end_off = (off + n) % 2 ^ 32 in
      let start : Progress = record {
        inode = p;
        disk = d;
        off = off;
        tot = 0;
        failed = false;
        bytes = [];
      } in
      if ltb p.size off || ltb end_off off
      then some (negsuc 0, p, d)
      else if ltb (maxfile * bsize) end_off
      then some (negsuc 0, p, d)
      else and_then (writei_from (suc n) copied src n start)
          (λ (s : Progress). some (pos s.tot, grown s, iupdate (grown s) s.disk))
