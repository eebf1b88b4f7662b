-- ===== src/Log/Ops/Absorb.antt =====
-- What log_write of kernel/log.c records.
use group10os.Prelude.{
  ℕ, zero, suc, ◌+◌, ◌≤◌, ◌<◌, ◌≡◌, refl, ◌≢◌, ◌⊎◌, inl, inr, some, arith, ◌==◌, Bool-cases,
}
use group10os.Prelude.Memory.{Mem, store}
use group10os.Log.{LogHeader, Machine, logblocks, bpin}
use group10os.Log.Ops.{Log, find_entry, log_write}

-- The block is among the first `n` entries.
abbrev pub Logged : LogHeader → ℕ → Type 0
Logged lh b = (i : ℕ) × (i < lh.n) × (lh.block i ≡ b)

-- No block has two entries.
abbrev pub IsAbsorbed : LogHeader → Type 0
IsAbsorbed lh = (i j : ℕ) → i < lh.n → j < lh.n → lh.block i ≡ lh.block j → i ≡ j

find_entry_bounds :
    (k i : ℕ) (block : Mem ℕ) (b : ℕ)
    → (i ≤ find_entry k i block b) × (find_entry k i block b ≤ i + k)
unfolding find_entry
find_entry_bounds zero i block b = omega arith
find_entry_bounds (suc k) i block b = ground (arith, find_entry_bounds k (i + 1) block b)

find_entry_hit :
    (k i : ℕ) (block : Mem ℕ) (b : ℕ)
    → find_entry k i block b < i + k
    → block (find_entry k i block b) ≡ b
unfolding find_entry
find_entry_hit zero i block b h = absurd (omega arith)
find_entry_hit (suc k) i block b h = ground (arith, find_entry_hit k (i + 1) block b)

find_entry_miss :
    (k i : ℕ) (block : Mem ℕ) (b j : ℕ) → i ≤ j → j < find_entry k i block b → block j ≢ b
unfolding find_entry
find_entry_miss zero i block b j p q = absurd (omega arith)
find_entry_miss (suc k) i block b j p q =
    ground (arith, find_entry_miss k (i + 1) block b j, find_entry_bounds k (i + 1) block b)

-- What a call that does not panic leaves: the block is logged, the entries that were there are kept,
-- no block has two entries, and the block is pinned once more exactly when it got a new entry.
pub record Recorded {D : Type 0} (l : Log) (m : Machine D) (b : ℕ) (l' : Log) (m' : Machine D)
    : Type 0 where
  pub logged : Logged l'.lh b
  pub kept : (i : ℕ) → i < l.lh.n → l'.lh.block i ≡ l.lh.block i
  pub absorbed : IsAbsorbed l'.lh
  pub counted :
      ((l'.lh.n ≡ l.lh.n) × Logged l.lh b × (m' ≡ m))
      ⊎ ((l'.lh.n ≡ l.lh.n + 1) × (¬ Logged l.lh b) × (m' ≡ bpin b m))
  pub same :
      (l'.start ≡ l.start) × (l'.outstanding ≡ l.outstanding) × (l'.committing ≡ l.committing)

-- Within an operation, and in a log that is not full and names no block twice, log_write absorbs a
-- block that is logged already, and appends an entry for any other.
pub log_write-Recorded :
    {D : Type 0} (l : Log) (m : Machine D) (b : ℕ)
    → IsAbsorbed l.lh
    → l.lh.n < logblocks
    → 0 < l.outstanding
    → (r : Log × Machine D) × (log_write l m b ≡ some r) × Recorded l m b r.0 r.1
unfolding log_write
log_write-Recorded l m b abs lt pos = elim (Bool-cases (i == l.lh.n)) [
  | inl e ↦ (
    (record l { lh = record { n = l.lh.n + 1; block = block' } }, bpin b m),
    ground arith,
    record {
      logged = (l.lh.n, omega arith, ground arith);
      kept = λ j h. ground arith;
      absorbed = λ j k hj hk eq. ground (
        arith,
        abs j k,
        find_entry_miss l.lh.n 0 l.lh.block b j,
        find_entry_miss l.lh.n 0 l.lh.block b k,
      );
      counted =
          inr (refl, (λ (j, h, eq). ground (arith, find_entry_miss l.lh.n 0 l.lh.block b j)), refl);
      same = (refl, refl, refl);
    },
  )
  | inr e ↦ (
    (record l { lh = record { n = l.lh.n; block = block' } }, m),
    ground arith,
    record {
      logged = (i, ground (arith, bounds), ground arith);
      kept = λ j h. ground (arith, hit);
      absorbed = λ j k hj hk eq. ground (arith, abs j k, hit);
      counted = inl (refl, (i, ground (arith, bounds), ground (arith, hit, bounds)), refl);
      same = (refl, refl, refl);
    },
  )
]
  where
    i : ℕ
    i = find_entry l.lh.n 0 l.lh.block b

    block' : Mem ℕ
    block' = store l.lh.block i b

    bounds : (0 ≤ i) × (i ≤ 0 + l.lh.n)
    bounds = find_entry_bounds l.lh.n 0 l.lh.block b

    hit : i < 0 + l.lh.n → l.lh.block i ≡ b
    hit = find_entry_hit l.lh.n 0 l.lh.block b
