-- ===== src/Prelude/Memory.antt =====
-- A memory as a function of the address: what C code reads and writes through pointers.
use Prim.Native.Nat.{ℕ}
use mathlib.Core.Path.{◌≡◌}
use mathlib.Core.Logic.{◌≢◌}
use native.Mathlib.Omega.{arith}
use group10os.Prelude.Tests.{◌==◌, if◌then◌else◌}

abbrev pub Mem : Type 0 → Type 0
Mem A = ℕ → A

-- `m[a] = v`.
abbrev pub store {ℓ} : {A : Type ℓ} → (ℕ → A) → ℕ → A → ℕ → A
store m a v b = if a == b then v else m b

pub store_self {ℓ} : {A : Type ℓ} (m : ℕ → A) (a : ℕ) (v : A) → store m a v a ≡ v
store_self m a v = ground arith

pub store_ne {ℓ} : {A : Type ℓ} (m : ℕ → A) (a b : ℕ) (v : A) → a ≢ b → store m a v b ≡ m b
store_ne m a b v h = ground arith
