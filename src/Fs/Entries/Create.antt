-- ===== src/Fs/Entries/Create.antt =====
-- create, sys_mkdir, sys_mknod and sys_chdir of kernel/sysfile.c.
use group10os.Prelude.{
  ℕ, ◌%◌, ◌^◌, Bool, false, not, ◌&&◌, ◌||◌, List, [], ◌∷◌, Option, none, some, ◌==◌, if◌then◌else◌,
}
use group10os.Prelude.Int.{ℤ, pos, negsuc}
use group10os.Fs.{Superblock, t_dir}
use group10os.Fs.Table.{Inode}
use group10os.Fs.Content.{and_then}
use group10os.Fs.Names.{
  State, at_index, Named, iput_at, ilock_at, dirlookup, dirlink, namei, nameiparent,
}
use group10os.Fs.Entries.{
  t_file, t_device, link_up, ialloc, update_inode, Result, returns, is_error,
}

module _ (sb : Superblock) where
  -- The index of a locked inode, or a null pointer.
  abbrev pub Made : Type 0
  Made = Option (Option ℕ × State)

  abbrev pub null : Option State → Made
  null o = and_then o (λ (s : State). some (none, s))

  -- create where the name is there already, as the inode at index `i`.
  unfoldable pub opened : ℕ → ℕ → State → Made
  opened type i s = and_then (ilock_at sb i s) (λ (l : Inode × State).
      if type == t_file && (l.0.type == t_file || l.0.type == t_device)
      then some (some i, l.1)
      else null (iput_at sb i l.1))

  -- `fail` of create.
  unfoldable pub deallocated : ℕ → ℕ → State → Made
  deallocated i j s =
      and_then (update_inode sb (λ p. record p { nlink = 0 }) i s)
        (λ (s1 : State). and_then (iput_at sb i s1) (λ (s2 : State). null (iput_at sb j s2)))

  -- The entries "." and ".." of a new directory; whether both could be made.
  unfoldable pub dots : ℕ → ℕ → State → Option (Bool × State)
  dots i j s = and_then (at_index s i) (λ (p : Inode). and_then (at_index s j) (λ (dp : Inode).
      and_then (dirlink sb (b'.' ∷ []) p.inum i s) (λ (r : ℤ × State).
        if is_error r.0
        then some (false, r.1)
        else and_then (dirlink sb (b'.' ∷ b'.' ∷ []) dp.inum i r.1)
            (λ (q : ℤ × State). some (not (is_error q.0), q.1)))))

  -- create behind the entries of a new directory.
  unfoldable pub entered : ℕ → List ℕ → ℕ → ℕ → State → Made
  entered type name i j s = and_then (at_index s i) (λ (p : Inode).
      and_then (dirlink sb name p.inum j s) (λ (r : ℤ × State).
        if is_error r.0
        then deallocated i j r.1
        else and_then (if type == t_dir then update_inode sb link_up j r.1 else some r.1)
            (λ (s1 : State). and_then (iput_at sb j s1) (λ (s2 : State). some (some i, s2)))))

  -- create with its new inode at index `i`, in the locked directory at index `j`.
  unfoldable pub filled : ℕ → ℕ → ℕ → List ℕ → ℕ → ℕ → State → Made
  filled type major minor name i j s = and_then (ilock_at sb i s) (λ (l : Inode × State).
      and_then
        (update_inode sb
          (λ p. record p { major = major % 2 ^ 16; minor = minor % 2 ^ 16; nlink = 1 }) i l.1)
        (λ (s1 : State).
          if type == t_dir
          then and_then (dots i j s1)
              (λ (d : Bool × State). if d.0 then entered type name i j d.1 else deallocated i j d.1)
          else entered type name i j s1))

  unfoldable pub create_in : ℕ → ℕ → ℕ → Named sb → State → Made
  create_in type major minor none s = some (none, s)
  create_in type major minor (some (j, name)) s = and_then (ilock_at sb j s) (λ (l : Inode × State).
      and_then (dirlookup sb name j l.1) (λ (r : Option (ℕ × ℕ) × State). elim r.0 as (λ _. Made) [
        | some (i, off) ↦ and_then (iput_at sb j r.1) (opened type i)
        | none ↦ and_then (ialloc sb l.0.dev type r.1) (λ (a : Option ℕ × State).
            elim a.0 as (λ _. Made) [
              | none ↦ null (iput_at sb j a.1)
              | some i ↦ filled type major minor name i j a.1
            ])
      ]))

  unfoldable pub create : List ℕ → ℕ → ℕ → ℕ → ℕ → State → Made
  create path type major minor cwd s =
      and_then (nameiparent sb path cwd s)
        (λ (r : Named sb × State). create_in type major minor r.0 r.1)

  -- What sys_mkdir and sys_mknod do with what create gives.
  unfoldable pub made_result : Option ℕ × State → Result sb
  made_result (none, s) = some (negsuc 0, s)
  made_result (some i, s) = returns sb (pos 0) (iput_at sb i s)

  unfoldable pub sys_mkdir : Option (List ℕ) → ℕ → State → Result sb
  sys_mkdir none cwd s = some (negsuc 0, s)
  sys_mkdir (some path) cwd s = and_then (create path t_dir 0 0 cwd s) made_result

  unfoldable pub sys_mknod : Option (List ℕ) → ℕ → ℕ → ℕ → State → Result sb
  sys_mknod none major minor cwd s = some (negsuc 0, s)
  sys_mknod (some path) major minor cwd s =
      and_then (create path t_device major minor cwd s) made_result

  -- The result, the current directory, and the state.
  abbrev pub Moved : Type 0
  Moved = Option (ℤ × ℕ × State)

  unfoldable pub chdir_to : ℕ → Named sb → State → Moved
  chdir_to cwd none s = some (negsuc 0, cwd, s)
  chdir_to cwd (some (i, _)) s = and_then (ilock_at sb i s) (λ (l : Inode × State).
      if not (l.0.type == t_dir)
      then and_then (iput_at sb i l.1) (λ (s1 : State). some (negsuc 0, cwd, s1))
      else and_then (iput_at sb cwd l.1) (λ (s1 : State). some (pos 0, i, s1)))

  unfoldable pub sys_chdir : Option (List ℕ) → ℕ → State → Moved
  sys_chdir none cwd s = some (negsuc 0, cwd, s)
  sys_chdir (some path) cwd s =
      and_then (namei sb path cwd s) (λ (r : Named sb × State). chdir_to cwd r.0 r.1)
