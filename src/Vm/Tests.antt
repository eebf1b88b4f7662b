-- ===== src/Vm/Tests.antt =====
-- kernel/vm.c on a page table at 0x1000 that maps the first two pages of a process, to 0x4000 and
-- 0x8000. The string "abc" begins two bytes before the end of the first.
use group10os.Prelude.{ℕ, zero, suc, ◌+◌, ◌≡◌, refl, arith, some, ◌==◌, if◌then◌else◌}
use group10os.Prelude.Int.{pos}
use group10os.Kalloc.{Kmem}
use group10os.Vm.{Machine, walk, walk_from, walkaddr}
use group10os.Vm.User.{copyin, copyinstr}
use group10os.Vm.User.Strings.{bytewise, copyinstr-bytewise}
use group10os.Vm.User.Reading.{IsMapped, IsApart, copied, copyin-bytes}
use group10os.Prelude.Memory.{Mem}
use group10os.Fs.Bits.{bit}

abbrev no_pages : Kmem
no_pages = record { freelist = 0; link = λ _. 0 }

-- PTE_R | PTE_U in the entries of the last level.
abbrev machine : Machine
machine = record {
  kmem = no_pages;
  pte = λ a.
      (if a == 0x1000
        then 0x801
        else if a == 0x2000
        then 0xC01
        else if a == 0x3000
        then 0x1013
        else if a == 0x3008
        then 0x2013
        else 0);
  byte = λ a.
      (if a == 0x4FFE then b'a' else if a == 0x4FFF then b'b' else if a == 0x8000 then b'c' else 0);
}

copyinstr-bytewise_example :
    copyinstr 0x1000 0x100 0xFFE 8 machine ≡ some (bytewise 8 0x1000 0x100 0xFFE machine)
copyinstr-bytewise_example = copyinstr-bytewise 0x1000 0x100 0xFFE 8 machine

string-IsMapped : IsMapped 0x1000 machine 0xFFE 3
unfolding walkaddr walk walk_from bit
string-IsMapped zero h e = let z : 0x4000 ≡ 0 = e in omega (arith, z)
string-IsMapped (suc zero) h e = let z : 0x4000 ≡ 0 = e in omega (arith, z)
string-IsMapped (suc (suc zero)) h e = let z : 0x8000 ≡ 0 = e in omega (arith, z)
string-IsMapped (suc (suc (suc i))) h e = omega (arith, h)

string-IsApart : IsApart 0x1000 machine 0x100 0xFFE 3
unfolding walkaddr walk walk_from bit
string-IsApart zero j h l e = let z : 0x4FFE ≡ 0x100 + j = e in omega (arith, z, l)
string-IsApart (suc zero) j h l e = let z : 0x4FFF ≡ 0x100 + j = e in omega (arith, z, l)
string-IsApart (suc (suc zero)) j h l e = let z : 0x8000 ≡ 0x100 + j = e in omega (arith, z, l)
string-IsApart (suc (suc (suc i))) j h l e = omega (arith, h)

copyin-bytes_example :
    (b : Mem ℕ) × (copyin 0x80000000 0x2000 0x1000 0x1000 0x100 0xFFE 3 machine
      ≡ some (pos 0, record machine { byte = b }))
    × ((a : ℕ) → b a ≡ copied 0x1000 machine 0x100 0xFFE 3 a)
copyin-bytes_example =
    copyin-bytes 0x80000000 0x2000 0x1000 0x1000 0x100 0xFFE 3 machine string-IsMapped
      string-IsApart

-- The whole string is copied across the page boundary.
string-bytes :
    ((bytewise 8 0x1000 0x100 0xFFE machine).0 ≡ pos 0)
    × ((bytewise 8 0x1000 0x100 0xFFE machine).1.byte 0x102 ≡ b'c')
unfolding bytewise walkaddr walk walk_from bit
string-bytes = (refl, refl)

-- The third page is not mapped.
walkaddr-outside : (walkaddr 0x1000 0x1000 machine ≡ 0x8000) × (walkaddr 0x1000 0x2000 machine ≡ 0)
unfolding walkaddr walk walk_from bit
walkaddr-outside = (refl, refl)
