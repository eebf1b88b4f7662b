-- ===== src/Log/Crash.antt =====
-- Crashes: what kernel/log.c finds on the disk after a crash, and what recovery makes of it.
use group10os.Prelude.{ℕ, zero, suc, ◌<◌, ◌≡◌, refl, sym, ◌∙◌, ap, true, [], ◌∷◌, arith, All}
use group10os.Log.{LogHeader, Disk, Machine, install_from, read_head, recover_from_log}
use group10os.Log.Install.{
  IsHome, IsHeader, Committed, Installing, install_from-Installing, copy_blocks-below,
}

module _ {D : Type 0} where
  -- The machine after a start: no buffer is in use, and `bread` reads the disk.
  unfoldable pub boot : Disk D → Machine D
  boot d = record { disk = d; cache = d.blocks; refcnt = λ _. 0; history = d ∷ [] }

  -- The disk that recovery leaves, whatever the header in memory held before.
  unfoldable pub restart : ℕ → LogHeader → Disk D → Disk D
  unfolding boot recover_from_log
  restart start lh d = (recover_from_log start lh (boot d)).1.disk

  -- The home blocks of the disk hold these contents.
  abbrev pub Shows : ℕ → (ℕ → D) → Disk D → Type 0
  Shows start f d = (b : ℕ) → IsHome start b → d.blocks b ≡ f b

  abbrev pub Cleared : ℕ → (ℕ → D) → Disk D → Type 0
  Cleared start f d = (d.header.n ≡ 0) × Shows start f d

  install_from-none :
      (k start : ℕ) (lh : LogHeader) (m : Machine D)
      → k ≡ 0
      → (install_from k true start lh 0 m).disk.blocks ≡ m.disk.blocks
  unfolding install_from
  install_from-none zero start lh m e = refl
  install_from-none (suc k) start lh m e = absurd (omega arith)

  -- With an empty log recovery leaves every block.
  pub restart-Cleared :
      (start : ℕ) (lh : LogHeader) (f : ℕ → D) (d : Disk D)
      → Cleared start f d
      → Cleared start f (restart start lh d)
  unfolding restart
  restart-Cleared start lh f d (e, same) = (
    refl,
    λ b h. ap (λ (g : ℕ → D). g b) (install_from-none d.header.n start _ (boot d) e) ∙ same b h,
  )

module _ {D : Type 0} (start : ℕ) (lh : LogHeader) (ok : IsHeader start lh) (new : ℕ → D)
    (lh0 : LogHeader) where
  -- The header that recovery reads from a disk with the transaction in its log.
  found : (d : Disk D) → Committed start lh ok new 0 d → LogHeader
  unfolding boot read_head
  found d c = read_head lh0 (boot d)

  found-block :
      (d : Disk D) (c : Committed start lh ok new 0 d) (i : ℕ)
      → i < lh.n
      → (found d c).block i ≡ lh.block i
  unfolding found
  found-block d c i h =
      copy_blocks-below d.header.n d.header.block lh0.block i (omega (arith, c.count)) ∙ c.named i h

  found-IsHeader : (d : Disk D) (c : Committed start lh ok new 0 d) → IsHeader start (found d c)
  unfolding found
  found-IsHeader d c = record {
    fits = omega (arith, ok.fits, c.count);
    home = λ i h. ground (arith, found-block d c i (omega (arith, c.count)), ok.home i, c.count);
  }

  found-Committed :
      (d : Disk D) (c : Committed start lh ok new 0 d)
      → Committed start (found d c) (found-IsHeader d c) new 0 d
  unfolding found
  found-Committed d c = record {
    count = refl;
    named = λ i h. sym (copy_blocks-below d.header.n d.header.block lh0.block i h);
    logged = λ i h.
        c.logged i (omega (arith, c.count))
        ∙ sym (ap new (found-block d c i (omega (arith, c.count))));
    rest = λ b hb free.
        c.rest b hb (λ i p q e. free i p (omega (arith, c.count)) (found-block d c i q ∙ e));
  }

  recovering :
      (P : Disk D → Type 0) (d : Disk D) (c : Committed start lh ok new 0 d)
      → ((e : Disk D) → Committed start (found d c) (found-IsHeader d c) new 0 e → P e)
      → P d
      → Installing start
          (found d c)
          (found-IsHeader d c)
          new
          P
          (found d c).n
          (install_from (found d c).n true start (found d c) 0 (boot d))
  unfolding boot
  recovering P d c weak pd =
      install_from-Installing start (found d c) (found-IsHeader d c) new P (found d c).n true 0
        (boot d) weak (omega arith)
        (record {
          disk = found-Committed d c;
          buffers = (found-Committed d c).logged;
          history = (pd, tt);
        })

  -- Recovery brings every home block of a committed transaction to its new contents, and clears the
  -- log.
  pub restart-Committed :
      (d : Disk D) → Committed start lh ok new 0 d → Cleared start new (restart start lh0 d)
  unfolding restart found
  restart-Committed d c = (
    refl,
    λ b hb.
        (recovering (λ _. Unit {0}) d c (λ _ _. tt) tt).disk.rest b hb
          (λ i p q. absurd (omega arith)),
  )

restart-twice :
    {D : Type 0} (start : ℕ) (lh : LogHeader) (ok : IsHeader start lh) (new : ℕ → D)
    (lh0 : LogHeader) (d : Disk D)
    → Committed start lh ok new 0 d
    → Shows start new (restart start lh0 (restart start lh0 d))
restart-twice start lh ok new lh0 d c =
    (restart-Cleared start lh0 new (restart start lh0 d)
      (restart-Committed start lh ok new lh0 d c)).1

-- Each state of the disk that recovery itself goes through, from a disk with a committed
-- transaction in its log, is again one that a restart brings to the new contents.
pub recover-restart :
    {D : Type 0} (start : ℕ) (lh : LogHeader) (ok : IsHeader start lh) (new : ℕ → D)
    (lh0 : LogHeader) (d : Disk D)
    → Committed start lh ok new 0 d
    → All
        (λ e. Shows start new (restart start lh0 e))
        (recover_from_log start lh0 (boot d)).1.history
unfolding recover_from_log found restart
recover-restart start lh ok new lh0 d c = (
  restart-twice start lh ok new lh0 d c,
  (recovering start lh ok new lh0 (λ e. Shows start new (restart start lh0 e)) d c
      (λ e ce.
        (restart-Committed start (found start lh ok new lh0 d c)
          (found-IsHeader start lh ok new lh0 d c) new lh0 e ce).1)
      (restart-Committed start lh ok new lh0 d c).1).history,
)
