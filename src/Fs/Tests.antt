-- ===== src/Fs/Tests.antt =====
-- kernel/fs.c on a small disk: blocks 0 to 5 are in use, block 3 holds the map, and inode 7 has block 5.
use mathlib.Core.Path.{subst}
use group10os.Prelude.{
  ℕ, zero, suc, get_elem?, ◌∙◌, ◌<◌, ◌≡◌, refl, ◌≢◌, sym, [], ◌∷◌, some, true, arith, ◌==◌,
  if◌then◌else◌,
}
use group10os.Prelude.Int.{pos}
use group10os.Fs.{Superblock, Disk, Dinode, bblock, t_dir}
use group10os.Fs.Bits.{bit}
use group10os.Fs.Blocks.{balloc}
use group10os.Fs.Blocks.Map.{used}
use group10os.Fs.Blocks.Alloc.{MapUsed, Balloc, balloc-Balloc}
use group10os.Fs.Table.{Inode, iget}
use group10os.Fs.Table.Unique.{IsUnique, Iget, iget-Iget}
use group10os.Fs.Content.{readi}
use group10os.Fs.Content.Reading.{IsMapped, mapped, file_bytes, readi-bytes}
use group10os.Fs.Entries.{ialloc}
use group10os.Fs.Entries.Free.{Allocated, ialloc-Allocated}
use group10os.Fs.Names.{find_dirent}
use group10os.Fs.Names.Paths.{slashes, path_of, elements, elements-path_of}
use group10os.Fs.Names.Lookup.{first_match, find_dirent-first_match}

abbrev sb : Superblock
sb = record { size = 20; ninodes = 16; inodestart = 2; bmapstart = 3 }

abbrev blank : Dinode
blank = record { type = 0; major = 0; minor = 0; nlink = 0; size = 0; addrs = λ _. 0 }

abbrev disk : Disk
disk = record {
  block = λ b a. (if b == 3 then (if a == 0 then 63 else 0) else if b == 5 then a else 0);
  dinode = λ _. blank;
  written = [];
}

disk-MapUsed : MapUsed sb disk
unfolding bit
disk-MapUsed j l =
    let e : bblock j sb ≡ 3 = omega arith in
    subst (λ b. used sb disk b ≢ 0) (sym e) (λ z. omega arith)

balloc-Balloc_example : (r : ℕ × Disk) × (balloc sb disk ≡ some r) × Balloc sb disk r
balloc-Balloc_example = balloc-Balloc sb disk disk-MapUsed

abbrev directory : Inode
directory = record {
  dev = 1;
  inum = 7;
  ref = 1;
  valid = true;
  type = t_dir;
  major = 0;
  minor = 0;
  nlink = 1;
  size = 32;
  addrs = λ _. 5;
}

abbrev unused : Inode
unused = record directory { ref = 0 }

only_first :
    (i : ℕ) (p : Inode) → get_elem? (directory ∷ unused ∷ []) i ≡ some p → 0 < p.ref → i ≡ 0
only_first zero p e r = refl
only_first (suc zero) p e r =
    let f : unused ≡ p = cc e in
    let z : 0 < unused.ref = subst (λ (x : Inode). 0 < x.ref) (sym f) r in absurd (omega arith)
only_first (suc (suc i)) p e r = cc

table-IsUnique : IsUnique (directory ∷ unused ∷ [])
table-IsUnique i j p q e f u v d n = only_first i p e u ∙ sym (only_first j q f v)

iget-Iget_example : Iget 1 7 (directory ∷ unused ∷ []) (iget 1 7 (directory ∷ unused ∷ []))
iget-Iget_example = iget-Iget 1 7 (directory ∷ unused ∷ []) table-IsUnique

directory-IsMapped : IsMapped directory disk
directory-IsMapped = record {
  fits = omega arith;
  present = λ bn h.
      (let e : bn ≡ 0 = omega arith in
        subst (λ b. mapped directory disk b ≢ 0) (sym e) (λ z. omega arith));
  table = λ h. absurd (omega arith);
}

readi-bytes_example :
    readi sb (λ _. true) directory 30 9 disk
    ≡ some (pos 2, directory, disk, file_bytes directory disk 30 2)
readi-bytes_example =
    readi-bytes sb directory disk 30 9 directory-IsMapped (omega arith) (omega arith)

find_dirent-first_match_example :
    find_dirent sb (18 ∷ 19 ∷ []) directory disk
    ≡ some (first_match (18 ∷ 19 ∷ []) directory disk 0 2, directory, disk)
find_dirent-first_match_example =
    find_dirent-first_match sb 2 (18 ∷ 19 ∷ []) directory disk refl directory-IsMapped refl

-- "a/bb/c", as in the comment of skipelem, with more slashes.
elements-path_of_example :
    elements 4 (slashes 0 (b'a' ∷ path_of 1 ((0, b'b' ∷ b'b' ∷ []) ∷ (2, b'c' ∷ []) ∷ [])))
    ≡ (b'a' ∷ []) ∷ (b'b' ∷ b'b' ∷ []) ∷ (b'c' ∷ []) ∷ []
elements-path_of_example =
    elements-path_of 0 1 (b'a' ∷ []) ((0, b'b' ∷ b'b' ∷ []) ∷ (2, b'c' ∷ []) ∷ [])
      ((λ e. omega arith), tt)
      (((λ e. omega arith), ((λ e. omega arith), tt)), (((λ e. omega arith), tt), tt))

ialloc-Allocated_example :
    Allocated sb 1 2
      (record { table = directory ∷ unused ∷ []; disk = disk })
      (ialloc sb 1 2 (record { table = directory ∷ unused ∷ []; disk = disk }))
ialloc-Allocated_example =
    ialloc-Allocated sb 1 2 (record { table = directory ∷ unused ∷ []; disk = disk })
