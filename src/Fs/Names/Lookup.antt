-- ===== src/Fs/Names/Lookup.antt =====
-- dirlookup of kernel/fs.c on a directory as the sequence of its entries.
use group10os.Prelude.{
  ℕ, zero, suc, ◌+◌, ◌-◌, ◌*◌, ◌≤◌, ◌<◌, ◌≡◌, refl, ◌∙◌, Bool, true, false, List, Option, none,
  some, arith, ltb, ◌==◌, if◌then◌else◌,
}
use group10os.Prelude.Int.{pos}
use group10os.Fs.{Disk, Superblock, t_dir}
use group10os.Fs.Table.{Inode}
use group10os.Fs.Content.Reading.{IsMapped, file_bytes, readi-inside}
use group10os.Fs.Names.{
  dirent_size, namecmp, de_inum, de_name, read_dirent, kernel_read, lookup_from, find_dirent,
}

-- The first entry in use that has the name, among the next `n` from offset `off` on: its inode number
-- and its offset.
abbrev pub first_match : List ℕ → Inode → Disk → ℕ → ℕ → Option (ℕ × ℕ)
first_match name p d off zero = none
first_match name p d off (suc n) =
    let de = file_bytes p d off dirent_size in
    let rest = first_match name p d (off + dirent_size) n in
    if de_inum de == 0
    then rest
    else if namecmp name (de_name de)
    then some (de_inum de, off)
    else rest

push_if {ℓ κ} :
    {A : Type ℓ} {B : Type κ} (b c : Bool) (x y : A) (f : A → B)
    → (if b then f x else if c then f y else f x) ≡ f (if b then x else if c then y else x)
push_if true c x y f = refl
push_if false true x y f = refl
push_if false false x y f = refl

module _ (sb : Superblock) where
  read_dirent_lem :
      (p : Inode) (d : Disk) (off : ℕ)
      → IsMapped p d
      → off + dirent_size ≤ p.size
      → read_dirent sb p off d ≡ some (p, d, file_bytes p d off dirent_size)
  read_dirent_lem p d off v h =
      let e : (if ltb p.size (off + dirent_size) then p.size - off else dirent_size) ≡ dirent_size =
        ground arith in
      let r = readi-inside sb p d off dirent_size v (omega arith) (omega (arith, v.fits)) in
      let r' : kernel_read sb p off d
          ≡ some (pos dirent_size, p, d, file_bytes p d off dirent_size) =
        r ∙ (λ i. some (pos (e i), p, d, file_bytes p d off (e i))) in
      rw r' refl

  lookup_from_lem :
      (fuel n off : ℕ) (name : List ℕ) (p : Inode) (d : Disk)
      → IsMapped p d
      → p.size ≡ off + dirent_size * n
      → n < fuel
      → lookup_from sb fuel name p off d ≡ some (first_match name p d off n, p, d)
  unfolding lookup_from
  lookup_from_lem zero n off name p d v h f = absurd (omega arith)
  lookup_from_lem (suc fuel) zero off name p d v h f =
      let e : ltb off p.size ≡ false = ground arith in rw e
  lookup_from_lem (suc fuel) (suc n) off name p d v h f =
      let e : ltb off p.size ≡ true = ground arith in
      let ih = lookup_from_lem fuel n (off + dirent_size) name p d v (omega arith) (omega arith) in
      rw (e, read_dirent_lem p d off v (omega arith), ih)
        (let de = file_bytes p d off dirent_size in
          push_if (de_inum de == 0) (namecmp name (de_name de))
            (first_match name p d (off + dirent_size) n) (some (de_inum de, off))
            (λ o. some (o, p, d)))

  -- In a directory whose blocks are all there and whose size is a number of entries, the scan of
  -- dirlookup ends without a panic, finds the first entry in use with the name, compared as namecmp
  -- does, and changes nothing.
  pub find_dirent-first_match :
      (n : ℕ) (name : List ℕ) (p : Inode) (d : Disk)
      → p.type ≡ t_dir
      → IsMapped p d
      → p.size ≡ dirent_size * n
      → find_dirent sb name p d ≡ some (first_match name p d 0 n, p, d)
  unfolding find_dirent
  find_dirent-first_match n name p d t v h =
      let e : (p.type == t_dir) ≡ true = ground arith in
      rw e (lookup_from_lem (suc p.size) n 0 name p d v (omega arith) (omega arith))
