-- ===== src/Fs/Entries.antt =====
-- The making, linking and unlinking of files: ialloc of kernel/fs.c, and isdirempty, sys_link
-- and sys_unlink of kernel/sysfile.c. A path is what argstr
-- gives, `none` where that fails, and `cwd` is the current directory. `nlink` is a `short`.
pub mod Free
pub mod Create
use group10os.Prelude.{
  ℕ, zero, suc, ◌+◌, ◌-◌, ◌*◌, ◌%◌, ◌^◌, Bool, true, false, not, ◌&&◌, ◌||◌, List, [], ◌∷◌, Option,
  none, some, ltb, ◌==◌, if◌then◌else◌, set,
}
use group10os.Prelude.Memory.{store}
use group10os.Prelude.Int.{ℤ, pos, negsuc}
use group10os.Fs.{Superblock, Dinode, Disk, t_dir, iblock, log_write}
use group10os.Fs.Table.{Inode, iget}
use group10os.Fs.Content.{and_then, iupdate, writei}
use group10os.Fs.Names.{
  State, at_index, dirent_size, de_inum, read_dirent, whole, Scanned, Named, put_inode, iput_at,
  ilock_at, dirlookup, dirlink, namei, nameiparent, namecmp, chars,
}

abbrev pub t_file : ℕ
t_file = 2

abbrev pub t_device : ℕ
t_device = 3

-- nlink++, nlink--, and `nlink < 1`.
abbrev pub link_up : Inode → Inode
link_up p = record p { nlink = (p.nlink + 1) % 2 ^ 16 }

abbrev pub link_down : Inode → Inode
link_down p = record p { nlink = (p.nlink + (2 ^ 16 - 1)) % 2 ^ 16 }

abbrev pub no_links : Inode → Bool
no_links p = p.nlink == 0 || not (ltb p.nlink (2 ^ 15))

-- `memset(dip, 0, sizeof(*dip)); dip->type = type`
abbrev pub fresh_dinode : ℕ → Dinode
fresh_dinode type = record {
  type = type;
  major = 0;
  minor = 0;
  nlink = 0;
  size = 0;
  addrs = λ _. 0;
}

abbrev pub is_error : ℤ → Bool
is_error (pos n) = false
is_error (negsuc n) = true

module _ (sb : Superblock) where
  -- The loop of ialloc with `k` inodes left, from `inum` on; `none` is a null pointer.
  unfoldable pub free_inode : ℕ → ℕ → Disk → Option ℕ
  free_inode zero inum d = none
  free_inode (suc k) inum d =
      let rest = free_inode k (inum + 1) d in if (d.dinode inum).type == 0 then some inum else rest

  abbrev pub mark_allocated : ℕ → ℕ → Disk → Disk
  mark_allocated type inum d =
      log_write (iblock inum sb) (record d { dinode = store d.dinode inum (fresh_dinode type) })

  -- The index of the inode, or a null pointer; `none` is the panic of iget.
  unfoldable pub ialloc : ℕ → ℕ → State → Option (Option ℕ × State)
  ialloc dev type s = elim (free_inode (sb.ninodes - 1) 1 s.disk) [
    | none ↦ some (none, s)
    | some inum ↦ and_then (iget dev inum s.table) (λ (g : ℕ × List Inode).
        some (some g.0, record { table = g.1; disk = mark_allocated type inum s.disk }))
  ]

  -- A change of the inode at index `i`, and iupdate.
  abbrev pub update_inode : (Inode → Inode) → ℕ → State → Option State
  update_inode f i s =
      and_then (at_index s i)
        (λ (p : Inode). some (put_inode sb i (f p) (iupdate sb (f p) s.disk) s))

  abbrev pub Result : Type 0
  Result = Option (ℤ × State)

  -- The end of a call, with what it returns.
  abbrev pub returns : ℤ → Option State → Result
  returns r o = and_then o (λ (s : State). some (r, s))

  -- The loop of isdirempty from offset `off` on.
  unfoldable pub empty_from : ℕ → Inode → ℕ → Disk → Scanned sb Bool
  empty_from zero p off d = none
  empty_from (suc fuel) p off d =
      let test = λ (r : Inode × Disk × List ℕ).
        (let rest = empty_from fuel r.0 (off + dirent_size) r.1 in
          if not (de_inum r.2 == 0) then some (false, r.0, r.1) else rest) in
      if ltb off p.size then and_then (read_dirent sb p off d) test else some (true, p, d)

  unfoldable pub isdirempty : ℕ → State → Option (Bool × State)
  isdirempty i s = and_then (at_index s i) (λ (p : Inode).
      and_then (empty_from (suc p.size) p (2 * dirent_size) s.disk)
        (λ (r : Bool × Inode × Disk). some (r.0, put_inode sb i r.1 r.2 s)))

  -- `bad` of sys_link.
  unfoldable pub unlink_again : ℕ → State → Result
  unlink_again i s = and_then (ilock_at sb i s) (λ (l : Inode × State).
      and_then (update_inode link_down i l.1)
        (λ (s1 : State). returns (negsuc 0) (iput_at sb i s1)))

  -- sys_link behind the nlink++ of the inode at index `i`.
  unfoldable pub link_into : ℕ → Named sb → State → Result
  link_into i none s = unlink_again i s
  link_into i (some (j, name)) s = and_then (ilock_at sb j s) (λ (l : Inode × State).
      and_then (at_index l.1 i) (λ (p : Inode).
        let bad = λ (s2 : State). and_then (iput_at sb j s2) (unlink_again i) in
        if not (l.0.dev == p.dev)
        then bad l.1
        else and_then (dirlink sb name p.inum j l.1) (λ (r : ℤ × State).
          if is_error r.0
          then bad r.1
          else and_then (iput_at sb j r.1) (λ (s3 : State). returns (pos 0) (iput_at sb i s3)))))

  unfoldable pub link_from : ℕ → List ℕ → Named sb → State → Result
  link_from cwd new none s = some (negsuc 0, s)
  link_from cwd new (some (i, _)) s = and_then (ilock_at sb i s) (λ (l : Inode × State).
      if l.0.type == t_dir
      then returns (negsuc 0) (iput_at sb i l.1)
      else and_then (update_inode link_up i l.1) (λ (s1 : State).
        and_then (nameiparent sb new cwd s1) (λ (r : Named sb × State). link_into i r.0 r.1)))

  unfoldable pub sys_link : Option (List ℕ) → Option (List ℕ) → ℕ → State → Result
  sys_link none new cwd s = some (negsuc 0, s)
  sys_link (some old) none cwd s = some (negsuc 0, s)
  sys_link (some old) (some new) cwd s =
      and_then (namei sb old cwd s) (λ (r : Named sb × State). link_from cwd new r.0 r.1)

  -- sys_unlink at the entry at `off` of the directory at index `j` for the inode at index `i`.
  unfoldable pub erase_entry : ℕ → ℕ → ℕ → Bool → State → Result
  erase_entry j i off dir s = and_then (at_index s j) (λ (dp : Inode).
      and_then (writei sb (λ _. true) (λ _. 0) dp off dirent_size s.disk) (λ (w : ℤ × Inode × Disk).
        let s1 = put_inode sb j w.1 w.2 s in
        if not (whole sb w.0)
        then none
        else and_then (if dir then update_inode link_down j s1 else some s1) (λ (s2 : State).
          and_then (iput_at sb j s2) (λ (s3 : State).
            and_then (update_inode link_down i s3)
              (λ (s4 : State). returns (pos 0) (iput_at sb i s4))))))

  unfoldable pub unlink_found : ℕ → ℕ → ℕ → State → Result
  unlink_found j i off s = and_then (ilock_at sb i s) (λ (l : Inode × State).
      let dir = l.0.type == t_dir in
      let bad = λ (s2 : State).
        and_then (iput_at sb i s2) (λ (s3 : State). returns (negsuc 0) (iput_at sb j s3)) in
      if no_links l.0
      then none
      else if not dir
      then erase_entry j i off dir l.1
      else and_then (isdirempty i l.1)
          (λ (e : Bool × State). if e.0 then erase_entry j i off dir e.1 else bad e.1))

  unfoldable pub unlink_from : Named sb → State → Result
  unlink_from none s = some (negsuc 0, s)
  unlink_from (some (j, name)) s = and_then (ilock_at sb j s) (λ (l : Inode × State).
      if namecmp name (chars (b'.' ∷ [])) || namecmp name (chars (b'.' ∷ b'.' ∷ []))
      then returns (negsuc 0) (iput_at sb j l.1)
      else and_then (dirlookup sb name j l.1) (λ (r : Option (ℕ × ℕ) × State).
        elim r.0 as (λ _. Result) [
          | none ↦ returns (negsuc 0) (iput_at sb j r.1)
          | some (i, off) ↦ unlink_found j i off r.1
        ]))

  unfoldable pub sys_unlink : Option (List ℕ) → ℕ → State → Result
  sys_unlink none cwd s = some (negsuc 0, s)
  sys_unlink (some path) cwd s =
      and_then (nameiparent sb path cwd s) (λ (r : Named sb × State). unlink_from r.0 r.1)
