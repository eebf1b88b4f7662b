-- ===== src/Log/Install.antt =====
-- What the loops of kernel/log.c do to the disk and to the buffers.
use native.Mathlib.Decide.{ℕ_discrete}
use mathlib.Core.Path.{subst}
use group10os.Prelude.{
  ℕ, zero, suc, ◌+◌, ◌≤◌, ◌<◌, ◌≡◌, refl, sym, ◌∙◌, ap, ◌≢◌, ◌⊎◌, Bool, true, false, arith, All,
}
use group10os.Prelude.Memory.{Mem, store}
use group10os.Log.{LogHeader, Disk, Machine, logblocks, copy_blocks, install_one, install_from}

-- The loop copies the entries from `i` on, and keeps those below.
copy_blocks_lem :
    (k i : ℕ) (from to : Mem ℕ) (j : ℕ)
    → (i ≤ j → j < i + k → copy_blocks k i from to j ≡ from j)
      × (j < i → copy_blocks k i from to j ≡ to j)
copy_blocks_lem zero i from to j = (λ p q. absurd (omega arith), λ p. refl)
copy_blocks_lem (suc k) i from to j =
    ground (arith, copy_blocks_lem k (i + 1) from (store to i (from i)) j)

pub copy_blocks-below :
    (n : ℕ) (from to : Mem ℕ) (j : ℕ) → j < n → copy_blocks n 0 from to j ≡ from j
copy_blocks-below n from to j h = (copy_blocks_lem n 0 from to j).0 (omega arith) (omega arith)

-- A block outside the log: its header and its data blocks stand at `start` to `start + LOGBLOCKS`.
abbrev pub IsHome : ℕ → ℕ → Type 0
IsHome start b = (b < start) ⊎ (start + logblocks < b)

-- The header names home blocks only, and not more than the log holds.
pub record IsHeader (start : ℕ) (lh : LogHeader) : Type 0 where
  pub fits : lh.n ≤ logblocks
  pub home : (i : ℕ) → i < lh.n → IsHome start (lh.block i)

module _ {D : Type 0} (start : ℕ) (lh : LogHeader) (ok : IsHeader start lh) (new : ℕ → D) where
  -- The disk holds the transaction in its log, and `new` in each home block that no entry from
  -- `tail` on names.
  pub record Committed (tail : ℕ) (d : Disk D) : Type 0 where
    pub count : d.header.n ≡ lh.n
    pub named : (i : ℕ) → i < lh.n → d.header.block i ≡ lh.block i
    pub logged : (i : ℕ) → i < lh.n → d.blocks (start + i + 1) ≡ new (lh.block i)
    pub rest :
        (b : ℕ)
        → IsHome start b
        → ((i : ℕ) → tail ≤ i → i < lh.n → lh.block i ≢ b)
        → d.blocks b ≡ new b

  abbrev pub Buffered : Machine D → Type 0
  Buffered m = (i : ℕ) → i < lh.n → m.cache (start + i + 1) ≡ new (lh.block i)

  unnamed :
      (tail b : ℕ)
      → lh.block tail ≢ b
      → ((i : ℕ) → tail + 1 ≤ i → i < lh.n → lh.block i ≢ b)
      → (i : ℕ) → tail ≤ i
      → i < lh.n
      → lh.block i ≢ b
  unnamed tail b ne free i p q = elim (ℕ_discrete i tail) [
    | yes e ↦ (λ h. ne (ap lh.block (sym e) ∙ h))
    | no d ↦ free i (omega arith) q
  ]

  Committed-write :
      (tail : ℕ) (d : Disk D) (v : D)
      → v ≡ new (lh.block tail)
      → tail < lh.n
      → Committed tail d
      → Committed (tail + 1) (record d { blocks = store d.blocks (lh.block tail) v })
  Committed-write tail d v e lt c = record {
    count = c.count;
    named = c.named;
    logged = λ i h. ground (arith, c.logged i h, ok.home tail lt, ok.fits);
    rest = λ b hb free.
        ground (arith, λ (ne : lh.block tail ≢ b). c.rest b hb (unnamed tail b ne free));
  }

  Committed-weaken : (tail : ℕ) (d : Disk D) → Committed tail d → Committed 0 d
  Committed-weaken tail d c = record {
    count = c.count;
    named = c.named;
    logged = c.logged;
    rest = λ b hb free. c.rest b hb (λ i p q. free i (omega arith) q);
  }

  -- A machine in the middle of install_trans: each disk that it has been through since `past` holds
  -- the transaction in its log.
  pub record Installing (P : Disk D → Type 0) (tail : ℕ) (m : Machine D) : Type 0 where
    pub disk : Committed tail m.disk
    pub buffers : Buffered m
    pub history : All P m.history

  -- The state after the round at `tail`.
  install_one-Installing :
      (P : Disk D → Type 0) (recovering : Bool) (tail : ℕ) (m : Machine D)
      → ((d : Disk D) → Committed 0 d → P d)
      → tail < lh.n
      → Installing P tail m
      → Installing P (tail + 1) (install_one recovering start lh tail m)
  install_one-Installing P recovering tail m weak lt v =
      elim recovering as (λ r. Installing P (tail + 1) (install_one r start lh tail m)) [
        | true ↦ written
        | false ↦ record {
          disk = written.disk;
          buffers = written.buffers;
          history = written.history;
        }
      ]
    where
      m' : Machine D
      m' = install_one true start lh tail m

      disk' : Committed (tail + 1) m'.disk
      disk' = Committed-write tail m.disk _ (ground (arith, v.buffers tail lt)) lt v.disk

      written : Installing P (tail + 1) m'
      written = record {
        disk = disk';
        buffers = λ i h. ground (arith, v.buffers i h, ok.home tail lt, ok.fits);
        history = (weak m'.disk (Committed-weaken (tail + 1) m'.disk disk'), v.history);
      }

  -- install_trans brings every home block to its new contents, and every disk on the way holds the
  -- whole transaction in its log.
  pub install_from-Installing :
      (P : Disk D → Type 0) (k : ℕ) (recovering : Bool) (tail : ℕ) (m : Machine D)
      → ((d : Disk D) → Committed 0 d → P d)
      → k + tail ≡ lh.n
      → Installing P tail m
      → Installing P lh.n (install_from k recovering start lh tail m)
  unfolding install_from
  install_from-Installing P zero recovering tail m weak e v =
      subst (λ t. Installing P t m) (omega (arith, e)) v
  install_from-Installing P (suc k) recovering tail m weak e v =
      install_from-Installing P k recovering (tail + 1) (install_one recovering start lh tail m)
        weak (omega arith) (install_one-Installing P recovering tail m weak (omega arith) v)
