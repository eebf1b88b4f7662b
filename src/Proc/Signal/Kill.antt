-- ===== src/Proc/Signal/Kill.antt =====
-- Whom kkill of kernel/proc.c kills.
use group10os.Prelude.{
  ℕ, ◌≡◌, refl, ap, ◌≢◌, inl, inr, List, [], ◌∷◌, ◌++◌, arith, ◌==◌, All, Bool-cases,
}
use group10os.Prelude.Int.{ℤ, pos, negsuc}
use group10os.Proc.{Proc}
use group10os.Proc.Signal.{kill, kkill}

-- What a call of kkill may end in: with no such pid it fails and leaves the table; otherwise it
-- succeeds, and changes the first entry with that pid.
pub data Killed (pid : ℕ) (ps : List Proc) (out : ℤ × List Proc) : Type 0 where
  missing : All (λ p. p.pid ≢ pid) ps → out ≡ (negsuc 0, ps) → Killed pid ps out
  hit :
      (before : List Proc) (p : Proc) (after : List Proc)
      → ps ≡ before ++ (p ∷ after)
      → All (λ q. q.pid ≢ pid) before
      → p.pid ≡ pid
      → out ≡ (pos 0, before ++ (kill p ∷ after))
      → Killed pid ps out

Killed-cons :
    (pid : ℕ) (x : Proc) (ps : List Proc) (r : ℤ × List Proc)
    → x.pid ≢ pid
    → Killed pid ps r
    → Killed pid (x ∷ ps) (r.0, x ∷ r.1)
Killed-cons pid x ps r ne (missing all e) =
    missing (ne, all) (ap (λ (q : ℤ × List Proc). (q.0, x ∷ q.1)) e)
Killed-cons pid x ps r ne (hit before p after e all h o) =
    hit (x ∷ before) p after (ap (λ xs. x ∷ xs) e) (ne, all) h
      (ap (λ (q : ℤ × List Proc). (q.0, x ∷ q.1)) o)

-- kkill kills the first process with the pid, which it also wakes if it sleeps, and nobody else; it
-- fails exactly when no entry has the pid.
pub kkill-Killed : (pid : ℕ) (ps : List Proc) → Killed pid ps (kkill pid ps)
unfolding kkill
kkill-Killed pid [] = missing tt refl
kkill-Killed pid (x ∷ ps) = elim (Bool-cases (x.pid == pid)) [
  | inl t ↦ rw t (hit [] x ps refl tt (ground arith) refl)
  | inr f ↦ rw f (Killed-cons pid x ps (kkill pid ps) (ground arith) (kkill-Killed pid ps))
]
