-- ===== src/Fs/Table.antt =====
-- The table of inodes in memory of kernel/fs.c: iget, idup, the loading of ilock, and the reference
-- that iput gives back. A pointer into the table is an index.
pub mod Unique
use group10os.Prelude.{
  ℕ, zero, suc, ◌+◌, ◌-◌, Bool, true, false, not, ◌&&◌, ◌||◌, List, [], ◌∷◌, Option, none, some,
  ltb, ◌==◌, if◌then◌else◌, get_elem?, set, modify,
}
use group10os.Prelude.Memory.{Mem}
use group10os.Fs.{Disk, Dinode}

pub record Inode : Type 0 where
  pub dev : ℕ
  pub inum : ℕ
  pub ref : ℕ
  pub valid : Bool
  pub type : ℕ
  pub major : ℕ
  pub minor : ℕ
  pub nlink : ℕ
  pub size : ℕ
  pub addrs : Mem ℕ

-- How the loop of iget ends: at the inode, at an entry to recycle, or with neither.
pub data Slot : Type 0 where
  found recycle : ℕ → Slot
  no_inodes : Slot

abbrev pub is_inode : ℕ → ℕ → Inode → Bool
is_inode dev inum p = ltb 0 p.ref && (p.dev == dev && p.inum == inum)

abbrev slot_of : Option ℕ → Slot
slot_of none = no_inodes
slot_of (some j) = recycle j

-- "Remember empty slot."
abbrev pub remember : Option ℕ → Inode → ℕ → Option ℕ
remember none p i = if p.ref == 0 then some i else none
remember (some j) p i = some j

-- The loop of iget over the entries from index `i` on.
scan : ℕ → ℕ → List Inode → ℕ → Option ℕ → Slot
scan dev inum [] i empty = slot_of empty
scan dev inum (p ∷ ps) i empty =
    let rest = scan dev inum ps (i + 1) (remember empty p i) in
    if is_inode dev inum p then found i else rest

abbrev pub add_ref : Inode → Inode
add_ref p = record p { ref = p.ref + 1 }

abbrev pub drop_ref : Inode → Inode
drop_ref p = record p { ref = p.ref - 1 }

abbrev pub renewed : ℕ → ℕ → Inode → Inode
renewed dev inum p = record p { dev = dev; inum = inum; ref = 1; valid = false }

-- `none` is the panic "iget: no inodes".
unfoldable pub iget : ℕ → ℕ → List Inode → Option (ℕ × List Inode)
unfolding scan
iget dev inum t = elim (scan dev inum t 0 none) as (λ _. Option (ℕ × List Inode)) [
  | found i ↦ some (i, modify t i add_ref)
  | recycle i ↦ some (i, modify t i (renewed dev inum))
  | no_inodes ↦ none
]

unfoldable pub idup : ℕ → List Inode → List Inode
idup i t = modify t i add_ref

-- "Reads the inode from disk if necessary."
abbrev pub loaded : Inode → Dinode → Inode
loaded p di = if p.valid then p else record p {
  type = di.type;
  major = di.major;
  minor = di.minor;
  nlink = di.nlink;
  size = di.size;
  addrs = di.addrs;
  valid = true;
}

-- `none` is a panic, also for a null inode, which is an index outside the table.
pub ilock : ℕ → List Inode → Disk → Option (List Inode)
ilock i t d = elim (get_elem? t i) as (λ _. Option (List Inode)) [
  | none ↦ none
  | some p ↦
      let q = loaded p (d.dinode p.inum) in
      if ltb p.ref 1 then none else if not p.valid && q.type == 0 then none else some (set t i q)
]
