-- ===== src/Pipe/Peterson/Exclusion.antt =====
-- Who can be in the critical section of kernel/pipe.c at once.
use group10os.Prelude.{◌≡◌, ◌≢◌, refl, Bool, true, false, List, [], ◌∷◌, arith}
use group10os.Pipe.Peterson.{
  Shared, Place, outside, raised, testing, comparing, critical, Tasks, advance, initial, schedule,
}

abbrev wants : Place → Bool
wants outside = false
wants _ = true

abbrev competes : Place → Bool
competes outside = false
competes raised = false
competes _ = true

-- Each participant's flag says whether it is past its first step, and while one is in the critical
-- section, the other, once it has given way, finds the turn against it.
pub record IsGuarded (t : Tasks) : Type 0 where
  pub flag0 : t.shared.want0 ≡ wants t.first
  pub flag1 : t.shared.want1 ≡ wants t.second
  pub held0 : t.first ≡ critical → competes t.second ≡ true → t.shared.turn ≡ false
  pub held1 : t.second ≡ critical → competes t.first ≡ true → t.shared.turn ≡ true

move0-IsGuarded :
    (p q : Place) (s : Shared)
    → IsGuarded (record { first = p; second = q; shared = s })
    → IsGuarded (advance false true (record { first = p; second = q; shared = s }) true)
unfolding advance
move0-IsGuarded outside q s v = ground arith
move0-IsGuarded raised q s v = ground arith
move0-IsGuarded testing q s v = ground arith
move0-IsGuarded comparing q s v = ground arith
move0-IsGuarded critical q s v = ground arith

move1-IsGuarded :
    (p q : Place) (s : Shared)
    → IsGuarded (record { first = p; second = q; shared = s })
    → IsGuarded (advance false true (record { first = p; second = q; shared = s }) false)
unfolding advance
move1-IsGuarded p outside s v = ground arith
move1-IsGuarded p raised s v = ground arith
move1-IsGuarded p testing s v = ground arith
move1-IsGuarded p comparing s v = ground arith
move1-IsGuarded p critical s v = ground arith

pub advance-IsGuarded : (t : Tasks) (b : Bool) → IsGuarded t → IsGuarded (advance false true t b)
advance-IsGuarded t true v = move0-IsGuarded t.first t.second t.shared v
advance-IsGuarded t false v = move1-IsGuarded t.first t.second t.shared v

schedule-IsGuarded :
    (t : Tasks) (bs : List Bool) → IsGuarded t → IsGuarded (schedule false true t bs)
unfolding schedule
schedule-IsGuarded t [] v = v
schedule-IsGuarded t (b ∷ bs) v =
    schedule-IsGuarded (advance false true t b) bs (advance-IsGuarded t b v)

pub initial-IsGuarded : IsGuarded initial
initial-IsGuarded = record { flag0 = refl; flag1 = refl; held0 = λ h k. cc; held1 = λ h k. cc }

pub excludes : (t : Tasks) → IsGuarded t → t.first ≡ critical → t.second ≡ critical → ⊥
excludes t v e f = ground (arith, v.held0 e, v.held1 f)

-- A task that leaves is outside, and a step of one task does not move the other.
pub advance-leaves0 :
    (t : Tasks) → t.first ≡ critical → (advance false true t true).first ≢ critical
unfolding advance
advance-leaves0 t e = ground (arith, e)

pub advance-leaves1 :
    (t : Tasks) → t.second ≡ critical → (advance false true t false).second ≢ critical
unfolding advance
advance-leaves1 t e = ground (arith, e)

pub advance-keeps0 : (t : Tasks) → (advance false true t true).second ≡ t.second
unfolding advance
advance-keeps0 t = refl

pub advance-keeps1 : (t : Tasks) → (advance false true t false).first ≡ t.first
unfolding advance
advance-keeps1 t = refl

-- A writer and a reader, scheduled in any order, are never both in the critical section.
pub schedule-excludes :
    (bs : List Bool)
    → let t = schedule false true initial bs in ¬ ((t.first ≡ critical) × (t.second ≡ critical))
schedule-excludes bs (e, f) =
    excludes (schedule false true initial bs) (schedule-IsGuarded initial bs initial-IsGuarded) e f
