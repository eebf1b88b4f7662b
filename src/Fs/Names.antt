-- ===== src/Fs/Names.antt =====
-- Directories and paths in kernel/fs.c. A string is the list of its bytes before the NUL; a name of
-- DIRSIZ bytes or fewer is the list of those bytes.
pub mod Paths
pub mod Lookup
use group10os.Prelude.{
  ℕ, zero, suc, ◌+◌, ◌-◌, ◌*◌, ◌/◌, ◌%◌, Bool, true, false, not, ◌&&◌, ◌||◌, List, [], ◌∷◌, ◌++◌,
  Option, none, some, ltb, ◌==◌, if◌then◌else◌, get_or, get_elem?, set, length,
}
use group10os.Prelude.Memory.{Mem, store}
use group10os.Prelude.Int.{ℤ, pos, negsuc, is_zero}
use group10os.Str.{strncmp}
use group10os.Fs.{Disk, Superblock, t_dir}
use group10os.Fs.Table.{Inode, iget, idup, ilock}
use group10os.Fs.Content.{and_then, readi, writei, iput}

abbrev pub dirsiz : ℕ
dirsiz = 14

-- sizeof(struct dirent)
abbrev pub dirent_size : ℕ
dirent_size = 16

abbrev pub take : ℕ → List ℕ → List ℕ
take zero xs = []
take (suc n) [] = []
take (suc n) (x ∷ xs) = x ∷ take n xs

abbrev pub slash : ℕ
slash = b'/'

-- `while(*path == '/') path++`
abbrev pub skip_slashes : List ℕ → List ℕ
skip_slashes [] = []
skip_slashes (c ∷ cs) = let rest = skip_slashes cs in if c == slash then rest else c ∷ cs

-- `while(*path != '/' && *path != 0) path++`: what it goes over, and what is left.
abbrev pub element : List ℕ → List ℕ
element [] = []
element (c ∷ cs) = let rest = element cs in if c == slash then [] else c ∷ rest

abbrev pub behind_element : List ℕ → List ℕ
behind_element [] = []
behind_element (c ∷ cs) = let rest = behind_element cs in if c == slash then c ∷ cs else rest

abbrev pub elem_and_rest : List ℕ → Option (List ℕ × List ℕ)
elem_and_rest [] = none
elem_and_rest (c ∷ cs) =
    some (take dirsiz (element (c ∷ cs)), skip_slashes (behind_element (c ∷ cs)))

-- The name and the path behind it; `none` where there is no name to remove.
unfoldable pub skipelem : List ℕ → Option (List ℕ × List ℕ)
skipelem path = elem_and_rest (skip_slashes path)

-- The bytes of a string or of a field, with NUL behind them.
abbrev pub chars : List ℕ → ℕ → ℕ
chars xs i = get_or xs i 0

abbrev pub namecmp : List ℕ → (ℕ → ℕ) → Bool
namecmp name entry = is_zero (strncmp (chars name) entry dirsiz)

-- `de.inum` and `de.name` of the bytes of a `struct dirent`.
abbrev pub de_inum : List ℕ → ℕ
de_inum de = chars de 0 + 256 * chars de 1

abbrev pub de_name : List ℕ → ℕ → ℕ
de_name de i = chars de (i + 2)

-- strncpy of a name into the field, and `de.inum`.
abbrev padded : ℕ → List ℕ → List ℕ
padded zero xs = []
padded (suc n) [] = 0 ∷ padded n []
padded (suc n) (x ∷ xs) = x ∷ padded n xs

abbrev pub dirent : List ℕ → ℕ → List ℕ
dirent name inum = inum % 256 ∷ inum / 256 % 256 ∷ padded dirsiz name

pub record State : Type 0 where
  pub table : List Inode
  pub disk : Disk

abbrev pub at_index : State → ℕ → Option Inode
at_index s i = get_elem? s.table i

module _ (sb : Superblock) where
  abbrev pub kernel_read : Inode → ℕ → Disk → Option (ℤ × Inode × Disk × List ℕ)
  kernel_read p off d = readi sb (λ _. true) p off dirent_size d

  -- `readi(...) != sizeof(de)` is a panic.
  abbrev pub whole : ℤ → Bool
  whole (pos n) = n == dirent_size
  whole (negsuc n) = false

  abbrev pub read_dirent : Inode → ℕ → Disk → Option (Inode × Disk × List ℕ)
  read_dirent p off d =
      and_then (kernel_read p off d)
        (λ (r : ℤ × Inode × Disk × List ℕ). if whole r.0 then some (r.1, r.2, r.3) else none)

  -- What a scan of a directory gives, with the inode and the disk, which readi may change.
  abbrev pub Scanned : Type 0 → Type 0
  Scanned A = Option (A × Inode × Disk)

  -- The loop of dirlookup from offset `off` on: the inode number and the offset of the entry.
  -- `none` is a panic, or the end of the fuel.
  lookup_from : ℕ → List ℕ → Inode → ℕ → Disk → Scanned (Option (ℕ × ℕ))
  lookup_from zero name p off d = none
  lookup_from (suc fuel) name p off d =
      let test = λ (r : Inode × Disk × List ℕ).
        (let rest = lookup_from fuel name r.0 (off + dirent_size) r.1 in
          if de_inum r.2 == 0
          then rest
          else if namecmp name (de_name r.2)
          then some (some (de_inum r.2, off), r.0, r.1)
          else rest) in
      if ltb off p.size then and_then (read_dirent p off d) test else some (none, p, d)

  -- dirlookup up to its call of iget. An entry takes bytes, so more rounds than bytes are enough.
  pub find_dirent : List ℕ → Inode → Disk → Scanned (Option (ℕ × ℕ))
  find_dirent name p d =
      let found = lookup_from (suc p.size) name p 0 d in if p.type == t_dir then found else none

  abbrev pub put_inode : ℕ → Inode → Disk → State → State
  put_inode i p d s = record { table = set s.table i p; disk = d }

  -- dirlookup in the directory at index `i`: the index of the inode and the offset of its entry.
  pub dirlookup : List ℕ → ℕ → State → Option (Option (ℕ × ℕ) × State)
  unfolding find_dirent
  dirlookup name i s = and_then (at_index s i) (λ (p : Inode).
      and_then (find_dirent name p s.disk) (λ (r : Option (ℕ × ℕ) × Inode × Disk).
        let s1 = put_inode i r.1 r.2 s in
        elim r.0 as (λ _. Option (Option (ℕ × ℕ) × State)) [
          | none ↦ some (none, s1)
          | some (inum, off) ↦
              and_then (iget p.dev inum s1.table)
                (λ (g : ℕ × List Inode). some (some (g.0, off), record s1 { table = g.1 }))
        ]))

  -- The second loop of dirlink: the offset of the first free entry, or the end of the directory.
  free_from : ℕ → Inode → ℕ → Disk → Scanned ℕ
  free_from zero p off d = none
  free_from (suc fuel) p off d =
      let test = λ (r : Inode × Disk × List ℕ).
        (let rest = free_from fuel r.0 (off + dirent_size) r.1 in
          if de_inum r.2 == 0 then some (off, r.0, r.1) else rest) in
      if ltb off p.size then and_then (read_dirent p off d) test else some (off, p, d)

  -- iput and ilock of an entry of the table; iunlockput is iput here.
  pub iput_at : ℕ → State → Option State
  iput_at i s = and_then (at_index s i) (λ (p : Inode).
      and_then (iput sb p s.disk) (λ (r : Inode × Disk). some (put_inode i r.0 r.1 s)))

  pub ilock_at : ℕ → State → Option (Inode × State)
  ilock_at i s = and_then (ilock i s.table s.disk) (λ (t : List Inode).
      and_then (get_elem? t i) (λ (p : Inode). some (p, record s { table = t })))

  -- dirlink behind its check that the name is not present.
  link_free : List ℕ → ℕ → ℕ → State → Option (ℤ × State)
  unfolding free_from
  link_free name inum i s = and_then (at_index s i) (λ (p : Inode).
      and_then (free_from (suc p.size) p 0 s.disk) (λ (r : ℕ × Inode × Disk).
        and_then
          (writei sb (λ _. true) (λ k. chars (dirent name inum) (k - r.0)) r.1 r.0 dirent_size r.2)
          (λ (w : ℤ × Inode × Disk).
            some ((if whole w.0 then pos 0 else negsuc 0), put_inode i w.1 w.2 s))))

  -- dirlink into the locked directory at index `i`: 0, or -1.
  pub dirlink : List ℕ → ℕ → ℕ → State → Option (ℤ × State)
  unfolding dirlookup link_free iput_at
  dirlink name inum i s = and_then (dirlookup name i s) (λ (r : Option (ℕ × ℕ) × State).
      elim r.0 as (λ _. Option (ℤ × State)) [
        | some (j, off) ↦ and_then (iput_at j r.1) (λ (s' : State). some (negsuc 0, s'))
        | none ↦ link_free name inum i r.1
      ])

  -- What namex returns: a null pointer, or an inode and the last element of the path.
  abbrev pub Named : Type 0
  Named = Option (ℕ × List ℕ)

  -- The loop of namex at inode `i`; `name` is the last element so far.
  namex_from : ℕ → Bool → ℕ → List ℕ → List ℕ → State → Option (Named × State)
  namex_from zero parent i path name s = none
  namex_from (suc fuel) parent i path name s =
      let go_on = λ (rest elem : List ℕ) (s1 : State).
        and_then (dirlookup elem i s1) (λ (r : Option (ℕ × ℕ) × State).
          elim r.0 as (λ _. Option (Named × State)) [
            | none ↦ and_then (iput_at i r.1) (λ (s2 : State). some (none, s2))
            | some (j, off) ↦
                and_then (iput_at i r.1) (λ (s2 : State). namex_from fuel parent j rest elem s2)
          ]) in
      elim (skipelem path) as (λ _. Option (Named × State)) [
        | none ↦
            if parent
            then and_then (iput_at i s) (λ (s' : State). some (none, s'))
            else some (some (i, name), s)
        | some (elem, rest) ↦ and_then (ilock_at i s) (λ (r : Inode × State).
            if not (r.0.type == t_dir)
            then and_then (iput_at i r.1) (λ (s' : State). some (none, s'))
            else if parent && length rest == 0
            then some (some (i, elem), r.1)
            else go_on rest elem r.1)
      ]

  -- namex; `cwd` is the current directory. Each element takes bytes off the path, so more rounds than
  -- bytes are enough.
  pub namex : List ℕ → Bool → ℕ → State → Option (Named × State)
  unfolding namex_from
  namex path parent cwd s =
      let fuel = suc (length path) in
      if get_or path 0 0 == slash
      then and_then (iget 1 1 s.table)
          (λ (r : ℕ × List Inode). namex_from fuel parent r.0 path [] (record s { table = r.1 }))
      else namex_from fuel parent cwd path [] (record s { table = idup cwd s.table })

  pub namei : List ℕ → ℕ → State → Option (Named × State)
  unfolding namex
  namei path cwd s = namex path false cwd s

  pub nameiparent : List ℕ → ℕ → State → Option (Named × State)
  unfolding namex
  nameiparent path cwd s = namex path true cwd s
