-- ===== src/Bcache/Tests.antt =====
-- Runs of kernel/bio.c, and the theorems at concrete inputs.
use group10os.Prelude.{ℕ, ◌≡◌, refl, Bool, true, false, [], ◌∷◌, Option, none, some, arith}
use group10os.Bcache.{
  Buf, Bcache, nbuf, acquiresleep, bget, search, init_from, insert_front, initsleeplock, set_buf,
  binit, find, bread, brelse,
}
use group10os.Bcache.Cached.{store-IsUnique_same}
use group10os.Bcache.Use.{IsCache, Found, find-Found}
use group10os.Bcache.Release.{Changed, brelse-Changed}
use group10os.Bcache.Start.{in_front, binit-IsCache}

abbrev zeroed : Bcache
zeroed = record {
  buf = λ x. record { dev = 0; blockno = 0; refcnt = 0; valid = false; lock = initsleeplock };
  next = λ x. 0;
  prev = λ x. 0;
}

find-Found_example : Found 1 46 (binit zeroed) (in_front nbuf 1 []) (find 1 46 (binit zeroed))
find-Found_example =
    find-Found 1 46 (binit zeroed) (in_front nbuf 1 []) (binit-IsCache zeroed (λ x. refl))

-- The second buffer of the list, with one user: process 5, which has its sleep lock.
abbrev held_buf : Buf
held_buf = record ((binit zeroed).buf 29) { refcnt = 1; lock = record { locked = true; pid = 5 } }

in_use-IsCache : IsCache (set_buf 29 held_buf (binit zeroed)) (in_front nbuf 1 [])
in_use-IsCache =
    let cache = binit-IsCache zeroed (λ x. refl) in
    (
      cache.0,
      cache.1,
      store-IsUnique_same (binit zeroed).buf (in_front nbuf 1 []) 29 held_buf refl refl cache.2,
    )

brelse-Changed_example :
    (c' : Bcache) × (brelse 5 29 (set_buf 29 held_buf (binit zeroed)) ≡ some c')
    × Changed (set_buf 29 held_buf (binit zeroed)) 29 c' (29 ∷ 30 ∷ in_front 28 1 [])
brelse-Changed_example =
    brelse-Changed 5 (set_buf 29 held_buf (binit zeroed)) 29 (30 ∷ []) (in_front 28 1 [])
      in_use-IsCache refl (omega arith) (omega arith)

-- The block that bread reads is read once: a second bread of it finds it in the same buffer.
run_bread : Option (ℕ × Bool × Bcache) → Option (ℕ × Bool)
run_bread none = none
run_bread (some (b, disk, c)) = some (b, disk)

first_bread : run_bread (bread 5 1 46 (binit zeroed)) ≡ some (1, true)
unfolding run_bread bread bget acquiresleep find search binit init_from insert_front
first_bread = refl

panics_without_lock : brelse 5 29 (binit zeroed) ≡ none
unfolding brelse binit init_from insert_front
panics_without_lock = refl
