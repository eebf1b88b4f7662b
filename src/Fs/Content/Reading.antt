-- ===== src/Fs/Content/Reading.antt =====
-- What readi of kernel/fs.c reads.
use mathlib.Core.Path.{subst}
use group10os.Prelude.{
  ℕ, zero, suc, ◌+◌, ◌-◌, ◌*◌, ◌/◌, ◌%◌, ◌^◌, ◌≤◌, ◌<◌, ◌≡◌, refl, sym, ap, ◌∙◌, ◌≢◌, true, false,
  ◌||◌, List, [], ◌∷◌, ◌++◌, some, arith, ltb, leb, ◌==◌, ==_ne, if◌then◌else◌, Bool-cases, inl,
  inr,
}
use mathlib.Core.List.{append_assoc, append-nil}
use group10os.Prelude.Int.{pos}
use group10os.Fs.{Disk, Superblock, bsize, ndirect, nindirect, maxfile, uint_at}
use group10os.Fs.Table.{Inode}
use group10os.Fs.Content.{chunk, slice, direct, indirect, bmap, Progress, readi_from, readi}

-- The block that holds block `bn` of the file, or 0.
abbrev pub mapped : Inode → Disk → ℕ → ℕ
mapped p d bn =
    if ltb bn ndirect then p.addrs bn else uint_at (d.block (p.addrs ndirect)) (bn - ndirect)

-- Every block of the file up to its size has a block of the disk.
pub record IsMapped (p : Inode) (d : Disk) : Type 0 where
  pub fits : p.size ≤ maxfile * bsize
  pub present : (bn : ℕ) → bn * bsize < p.size → mapped p d bn ≢ 0
  pub table : ndirect * bsize < p.size → p.addrs ndirect ≢ 0

abbrev pub file_byte : Inode → Disk → ℕ → ℕ
file_byte p d i = d.block (mapped p d (i / bsize)) (i % bsize)

-- The `n` bytes of the file from offset `off` on.
abbrev pub file_bytes : Inode → Disk → ℕ → ℕ → List ℕ
file_bytes p d off zero = []
file_bytes p d off (suc n) = file_byte p d off ∷ file_bytes p d (off + 1) n

-- What readi copies: nothing from behind the end of the file, or where the end of what is asked for
-- is at 2^32 or above; otherwise `n` bytes, or those up to the end of the file.
abbrev pub read_length : Inode → ℕ → ℕ → ℕ
read_length p off n =
    let inside = if ltb p.size (off + n) then p.size - off else n in
    if ltb p.size off || leb (2 ^ 32) (off + n) then 0 else inside

file_bytes-append :
    (p : Inode) (d : Disk) (off m n : ℕ)
    → file_bytes p d off (m + n) ≡ file_bytes p d off m ++ file_bytes p d (off + m) n
file_bytes-append p d off zero n =
    let e : 0 + n ≡ n = omega arith in let f : off + 0 ≡ off = omega arith in rw (e, f)
file_bytes-append p d off (suc m) n =
    let e : suc m + n ≡ suc (m + n) = omega arith in
    let f : off + 1 + m ≡ off + suc m = omega arith in
    rw e (
      ap (◌∷◌ (file_byte p d off)) (
        file_bytes-append p d (off + 1) m n
        ∙ ap (λ o. file_bytes p d (off + 1) m ++ file_bytes p d o n) f))

-- Bytes of one block are bytes of the file.
slice-file_bytes :
    (p : Inode) (d : Disk) (bn i n : ℕ)
    → i + n ≤ bsize
    → slice (d.block (mapped p d bn)) i n ≡ file_bytes p d (bn * bsize + i) n
slice-file_bytes p d bn i zero h = refl
slice-file_bytes p d bn i (suc n) h =
    let e : bn ≡ (bn * bsize + i) / bsize = omega arith in
    let f : i ≡ (bn * bsize + i) % bsize = omega arith in
    let g : bn * bsize + (i + 1) ≡ bn * bsize + i + 1 = omega arith in
    λ k.
      d.block (mapped p d (e k)) (f k)
      ∷ (slice-file_bytes p d bn (i + 1) n (omega arith) ∙ ap (λ o. file_bytes p d o n) g) k

module _ (sb : Superblock) where
  direct-mapped :
      (p : Inode) (d : Disk) (i : ℕ) → p.addrs i ≢ 0 → direct sb p i d ≡ some (p.addrs i, p, d)
  unfolding direct
  direct-mapped p d i n = let e : (p.addrs i == 0) ≡ false = ground arith in rw e

  indirect-mapped :
      (d : Disk) (b i : ℕ)
      → uint_at (d.block b) i ≢ 0
      → indirect sb b i d ≡ some (uint_at (d.block b) i, d)
  unfolding indirect
  indirect-mapped d b i n = let e : (uint_at (d.block b) i == 0) ≡ false = ==_ne _ 0 n in rw e

  -- bmap of a block that is there allocates nothing.
  pub bmap-mapped :
      (p : Inode) (d : Disk) (bn : ℕ)
      → bn < ndirect + nindirect
      → mapped p d bn ≢ 0
      → (ndirect ≤ bn → p.addrs ndirect ≢ 0)
      → bmap sb p bn d ≡ some (mapped p d bn, p, d)
  unfolding bmap
  bmap-mapped p d bn lt n t = elim (Bool-cases (ltb bn ndirect)) [
    | inl e ↦ rw e (
        direct-mapped p d bn (
          subst
            (λ b.
              (if b then p.addrs bn else uint_at (d.block (p.addrs ndirect)) (bn - ndirect)) ≢ 0)
            e n))
    | inr e ↦
        let far : p.addrs ndirect ≢ 0 = t (ground arith) in
        let room : ltb (bn - ndirect) nindirect ≡ true = ground arith in
        let zero_no : (p.addrs ndirect == 0) ≡ false = ==_ne _ 0 far in
        let there : uint_at (d.block (p.addrs ndirect)) (bn - ndirect) ≢ 0 =
          subst
            (λ b.
              (if b then p.addrs bn else uint_at (d.block (p.addrs ndirect)) (bn - ndirect)) ≢ 0)
            e n in
        rw
          (
            e,
            room,
            direct-mapped p d ndirect far,
            zero_no,
            indirect-mapped d (p.addrs ndirect) (bn - ndirect) there,
          )
          refl
  ]

  abbrev reached : Inode → Disk → ℕ → ℕ → List ℕ → Progress
  reached p d off tot out = record {
    inode = p;
    disk = d;
    off = off;
    tot = tot;
    failed = false;
    bytes = out;
  }

  -- The bytes of one chunk, and those behind it.
  chunk-file_bytes :
      (p : Inode) (d : Disk) (off left : ℕ) (out : List ℕ)
      → let m = chunk left off in
        (out ++ slice (d.block (mapped p d (off / bsize))) (off % bsize) m)
          ++ file_bytes p d (off + m) (left - m)
        ≡ out ++ file_bytes p d off left
  chunk-file_bytes p d off left out =
      let m = chunk left off in
      let small : off % bsize + m ≤ bsize = ground arith in
      let here : off / bsize * bsize + off % bsize ≡ off = omega arith in
      let sum : m + (left - m) ≡ left = ground arith in
      append_assoc out _ _
      ∙ ap (λ bs. out ++ (bs ++ file_bytes p d (off + m) (left - m)))
          (slice-file_bytes p d (off / bsize) (off % bsize) m small
            ∙ ap (λ o. file_bytes p d o m) here)
      ∙ ap (λ bs. out ++ bs)
          (sym (file_bytes-append p d off m (left - m)) ∙ ap (file_bytes p d off) sum)

  readi_from-bytes :
      (fuel left : ℕ) (p : Inode) (d : Disk) (off tot : ℕ) (out : List ℕ)
      → IsMapped p d
      → left < fuel
      → off + left ≤ p.size
      → readi_from sb fuel (λ _. true) left (reached p d off tot out)
        ≡ some (reached p d (off + left) (tot + left) (out ++ file_bytes p d off left))
  unfolding readi_from
  readi_from-bytes zero left p d off tot out v l h = absurd (omega arith)
  readi_from-bytes (suc fuel) zero p d off tot out v l h =
      let a : off ≡ off + 0 = omega arith in
      let b : tot ≡ tot + 0 = omega arith in
      λ i. some (reached p d (a i) (b i) (sym (append-nil out) i))
  readi_from-bytes (suc fuel) (suc left) p d off tot out v l h =
      let m = chunk (suc left) off in
      let more : (suc left == 0) ≡ false = ground arith in
      let there = v.present (off / bsize) (omega arith) in
      let one =
        bmap-mapped p d (off / bsize) (omega (arith, v.fits)) there (λ g. v.table (omega arith)) in
      let some_block : (mapped p d (off / bsize) == 0) ≡ false = ==_ne _ 0 there in
      let ih =
        readi_from-bytes fuel (suc left - m) p d (off + m) (tot + m)
          (out ++ slice (d.block (mapped p d (off / bsize))) (off % bsize) m) v (ground arith)
          (ground arith) in
      let a : off + m + (suc left - m) ≡ off + suc left = ground arith in
      let b : tot + m + (suc left - m) ≡ tot + suc left = ground arith in
      rw (more, one, some_block)
        (ih ∙ (λ i. some (reached p d (a i) (b i) (chunk-file_bytes p d off (suc left) out i))))

  pub readi-inside :
      (p : Inode) (d : Disk) (off n : ℕ)
      → IsMapped p d
      → off ≤ p.size
      → off + n < 2 ^ 32
      → let count = if ltb p.size (off + n) then p.size - off else n in
        readi sb (λ _. true) p off n d ≡ some (pos count, p, d, file_bytes p d off count)
  unfolding readi
  readi-inside p d off n v h w =
      let e : (off + n) % 2 ^ 32 ≡ off + n = omega arith in
      let inside : ltb p.size off || ltb (off + n) off ≡ false = ground arith in
      let count = if ltb p.size (off + n) then p.size - off else n in
      rw (e, inside)
        (let r = readi_from-bytes (suc count) count p d off 0 [] v (omega arith) (ground arith) in
          let z : 0 + count ≡ count = omega arith in
          rw r (λ i. some (pos (z i), p, d, file_bytes p d off count)))

  readi-outside :
      (p : Inode) (d : Disk) (off n : ℕ)
      → off < 2 ^ 32
      → n < 2 ^ 32
      → ltb p.size off || leb (2 ^ 32) (off + n) ≡ true
      → readi sb (λ _. true) p off n d ≡ some (pos 0, p, d, [])
  unfolding readi
  readi-outside p d off n l m e =
      let out : ltb p.size off || ltb ((off + n) % 2 ^ 32) off ≡ true = ground (arith, e) in
      rw out refl

  -- readi of a file whose blocks are all there, at any offset and for any count that fit into a `uint`,
  -- where every copy to the destination succeeds: it ends, and it copies out exactly the bytes of the
  -- file from the offset on, up to `n` and not beyond the size, or none where the offset is beyond the
  -- size or the sum of the two is 2^32 or more. It changes neither the inode nor the disk.
  pub readi-bytes :
      (p : Inode) (d : Disk) (off n : ℕ)
      → IsMapped p d
      → off < 2 ^ 32
      → n < 2 ^ 32
      → let count = read_length p off n in
        readi sb (λ _. true) p off n d ≡ some (pos count, p, d, file_bytes p d off count)
  readi-bytes p d off n v l m = elim (Bool-cases (ltb p.size off || leb (2 ^ 32) (off + n))) [
    | inl e ↦ rw e (readi-outside p d off n l m e)
    | inr e ↦ rw e (readi-inside p d off n v (ground (arith, e)) (ground (arith, e)))
  ]
