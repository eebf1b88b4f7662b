-- ===== src/Log/Commit.antt =====
-- Crashes during `commit` of kernel/log.c.
use mathlib.Core.Path.{subst}
use group10os.Prelude.{
  ℕ, zero, suc, ◌+◌, ◌<◌, ◌≡◌, refl, sym, ◌∙◌, ◌≢◌, ◌⊎◌, inl, inr, Bool, true, false, List, [], ◌∷◌,
  arith, All, ltb,
}
use group10os.Log.{
  LogHeader, Disk, Machine, install_trans, write_head, log_one, write_log_from, write_log, commit,
}
use group10os.Log.Install.{
  IsHome, IsHeader, Committed, Installing, install_from-Installing, copy_blocks-below,
}
use group10os.Log.Crash.{restart, Shows, Cleared, restart-Cleared, restart-Committed}

module _ {D : Type 0} (start : ℕ) (lh : LogHeader) (ok : IsHeader start lh) (m0 : Machine D) where
  -- The machine when the last operation has ended: the log on the disk is empty, and a home block
  -- that was not logged has the contents of the disk.
  pub record Ready : Type 0 where
    pub empty : m0.disk.header.n ≡ 0
    pub clean :
        (b : ℕ)
        → IsHome start b
        → ((i : ℕ) → i < lh.n → lh.block i ≢ b)
        → m0.cache b ≡ m0.disk.blocks b

  -- What a crash may leave: the old contents and an empty log, the new contents behind a committed
  -- log, or the new contents and an empty log.
  abbrev Settled : Disk D → Type 0
  Settled d =
      Cleared start m0.disk.blocks d
      ⊎ (Committed start lh ok m0.cache 0 d ⊎ Cleared start m0.cache d)

  -- A machine in the middle of write_log, with the log blocks below `tail` written.
  record Logging (tail : ℕ) (m : Machine D) : Type 0 where
    old : Cleared start m0.disk.blocks m.disk
    kept : (b : ℕ) → IsHome start b → m.cache b ≡ m0.cache b
    buffers : (i : ℕ) → i < tail → m.cache (start + i + 1) ≡ m0.cache (lh.block i)
    logged : (i : ℕ) → i < tail → m.disk.blocks (start + i + 1) ≡ m0.cache (lh.block i)
    history : All Settled m.history

  log_one-Logging :
      (tail : ℕ) (m : Machine D)
      → tail < lh.n
      → Logging tail m
      → Logging (tail + 1) (log_one start lh tail m)
  log_one-Logging tail m lt v = record {
    old = old';
    kept = λ b h. ground (arith, v.kept b h, ok.fits);
    buffers = λ i h. ground (arith, v.buffers i, v.kept (lh.block tail) (ok.home tail lt));
    logged = λ i h. ground (arith, v.logged i, v.kept (lh.block tail) (ok.home tail lt));
    history = (inl old', v.history);
  }
    where
      old' : Cleared start m0.disk.blocks (log_one start lh tail m).disk
      old' = (v.old.0, λ b h. ground (arith, v.old.1 b h, ok.fits))

  write_log_from-Logging :
      (k tail : ℕ) (m : Machine D)
      → k + tail ≡ lh.n
      → Logging tail m
      → Logging lh.n (write_log_from k start lh tail m)
  unfolding write_log_from
  write_log_from-Logging zero tail m e v = subst (λ t. Logging t m) (omega (arith, e)) v
  write_log_from-Logging (suc k) tail m e v =
      write_log_from-Logging k (tail + 1) (log_one start lh tail m) (omega arith)
        (log_one-Logging tail m (omega arith) v)

  -- The header written behind a full log commits the transaction.
  write_head-Committed :
      (m : Machine D)
      → Ready
      → Logging lh.n m
      → Committed start lh ok m0.cache 0 (write_head lh m).disk
  unfolding write_head
  write_head-Committed m r v = record {
    count = refl;
    named = λ i h. copy_blocks-below lh.n lh.block m.disk.header.block i h;
    logged = λ i h. v.logged i h;
    rest = λ b hb free. v.old.1 b hb ∙ sym (r.clean b hb (λ i h. free i (omega arith) h));
  }

  logged_machine : Ready → All Settled m0.history → Logging lh.n (write_log start lh m0)
  unfolding write_log
  logged_machine r h = write_log_from-Logging lh.n 0 m0 (omega arith) (record {
    old = (r.empty, λ b hb. refl);
    kept = λ b hb. refl;
    buffers = λ i p. absurd (omega arith);
    logged = λ i p. absurd (omega arith);
    history = h;
  })

  installed_machine :
      Ready
      → All Settled m0.history
      → Installing start lh ok m0.cache Settled lh.n
          (install_trans false start lh (write_head lh (write_log start lh m0)))
  unfolding install_trans write_head
  installed_machine r h =
      let v = logged_machine r h in
      let c = write_head-Committed (write_log start lh m0) r v in
      install_from-Installing start lh ok m0.cache Settled lh.n false 0
        (write_head lh (write_log start lh m0)) (λ d e. inr (inl e)) (omega arith)
        (record { disk = c; buffers = v.buffers; history = (inr (inl c), v.history) })

  commit-Settled :
      (b : Bool)
      → ltb 0 lh.n ≡ b
      → Ready
      → m0.history ≡ m0.disk ∷ []
      → Cleared start m0.cache (commit start lh m0).1.disk
        × ((commit start lh m0).0.n ≡ 0)
        × All Settled (commit start lh m0).1.history
  unfolding commit
  commit-Settled true e r h =
      let all : All Settled m0.history =
        subst (All Settled) (sym h) (inl (r.empty, λ b hb. refl), tt) in
      let v = installed_machine r all in
      let shown : Shows start m0.cache
          (install_trans false start lh (write_head lh (write_log start lh m0))).disk =
        λ b hb. v.disk.rest b hb (λ i p q. absurd (omega arith)) in
      rw e ((refl, shown), refl, (inr (inr (refl, shown)), v.history))
  commit-Settled false e r h =
      let none_logged : lh.n ≡ 0 = ground arith in
      rw e (
        (r.empty, λ b hb. sym (r.clean b hb (λ i p q. absurd (omega arith)))),
        none_logged,
        subst (All Settled) (sym h) (inl (r.empty, λ b hb. refl), tt),
      )

  -- A commit of a transaction that fits in the log and names home blocks only, on a disk with an empty
  -- log where every home block outside the transaction is as in the cache, ends with every home block
  -- at its new contents on the disk, and an empty log in memory and on the disk.
  pub commit_lem :
      Ready
      → m0.history ≡ m0.disk ∷ []
      → Cleared start m0.cache (commit start lh m0).1.disk × ((commit start lh m0).0.n ≡ 0)
  commit_lem r h = let v = commit-Settled (ltb 0 lh.n) refl r h in (v.0, v.1)

  abbrev pub Atomic : LogHeader → Disk D → Type 0
  Atomic lh0 d =
      Shows start m0.disk.blocks (restart start lh0 d) ⊎ Shows start m0.cache (restart start lh0 d)

  Settled-Atomic : (lh0 : LogHeader) (d : Disk D) → Settled d → Atomic lh0 d
  Settled-Atomic lh0 d (inl c) = inl (restart-Cleared start lh0 m0.disk.blocks d c).1
  Settled-Atomic lh0 d (inr (inl c)) = inr (restart-Committed start lh ok m0.cache lh0 d c).1
  Settled-Atomic lh0 d (inr (inr c)) = inr (restart-Cleared start lh0 m0.cache d c).1

  All-Atomic : (lh0 : LogHeader) (ds : List (Disk D)) → All Settled ds → All (Atomic lh0) ds
  All-Atomic lh0 [] a = tt
  All-Atomic lh0 (d ∷ ds) a = (Settled-Atomic lh0 d a.0, All-Atomic lh0 ds a.1)

  -- A transaction that fits in the log and names home blocks only is committed on a disk with an
  -- empty log, where every home block outside the transaction is as in the cache. Then a crash between
  -- any two disk writes loses no atomicity: after the restart either every home block has its contents
  -- from before the transaction, or every one has its new contents.
  pub commit-Atomic :
      (lh0 : LogHeader)
      → Ready
      → m0.history ≡ m0.disk ∷ []
      → All (Atomic lh0) (commit start lh m0).1.history
  commit-Atomic lh0 r h =
      All-Atomic lh0 (commit start lh m0).1.history (commit-Settled (ltb 0 lh.n) refl r h).2
