-- ===== src/Vm/Walk.antt =====
-- walk and walkaddr of kernel/vm.c read page table entries only.
use group10os.Prelude.{
  ℕ, zero, suc, ◌≡◌, refl, sym, ap, ◌∙◌, inl, inr, false, leb, if◌then◌else◌, Bool-cases,
}
use group10os.Prelude.Memory.{Mem}
use group10os.Vm.{Machine, maxva, user_page, is_valid, slot_of, pte2pa, walk_from, walk, walkaddr}

walk_from-byte :
    (level table va : ℕ) (m : Machine) (b : Mem ℕ)
    → (walk_from level table va false (record m { byte = b })).0
      ≡ (walk_from level table va false m).0
unfolding walk_from
walk_from-byte zero table va m b = refl
walk_from-byte (suc level) table va m b =
    elim (Bool-cases (is_valid (m.pte (slot_of table (suc level) va)))) [
      | inl e ↦
          rw (walk_from, e)
            (walk_from-byte level (pte2pa (m.pte (slot_of table (suc level) va))) va m b)
      | inr e ↦ rw (walk_from, e) refl
    ]

walkaddr_lem :
    (table va : ℕ) (m : Machine)
    → walkaddr table va m
      ≡ (if leb maxva va then 0 else user_page (walk_from 2 table va false m).0 m)
unfolding walkaddr walk
walkaddr_lem table va m = elim (Bool-cases (leb maxva va)) [
  | inl e ↦ rw (walkaddr, walk, e) refl
  | inr e ↦ rw (walkaddr, walk, e) refl
]

-- Page tables are not bytes that a copy changes.
pub walkaddr-byte :
    (table va : ℕ) (m : Machine) (b : Mem ℕ)
    → walkaddr table va (record m { byte = b }) ≡ walkaddr table va m
walkaddr-byte table va m b =
    walkaddr_lem table va (record m { byte = b })
    ∙ ap (λ s. if leb maxva va then 0 else user_page s m) (walk_from-byte 2 table va m b)
    ∙ sym (walkaddr_lem table va m)
