-- ===== src/Spin/Tests.antt =====
-- kernel/spinlock.c on two harts.
use group10os.Prelude.{ℕ, ◌≡◌, refl, true, false, [], ◌∷◌}
use group10os.Spin.{Cpu, holding, schedule}
use group10os.Spin.Exclusion.{start, schedule-exclusive}

abbrev me : ℕ
me = 0

abbrev ready : Cpu
ready = record { noff = 0; intena = false; intr = true }

-- Hart 1 waits for the lock that hart 0 has.
schedule-exclusive_example :
    let s = schedule (start (λ _. ready)) (0 ∷ 1 ∷ 0 ∷ 1 ∷ 0 ∷ 1 ∷ []) in
    (me ≡ me) × (holding me s.lock ≡ true) × ((s.hart me).intr ≡ false)
unfolding schedule
schedule-exclusive_example =
    schedule-exclusive (λ _. ready) (0 ∷ 1 ∷ 0 ∷ 1 ∷ 0 ∷ 1 ∷ []) me me (λ _. refl) refl refl
