-- ===== src/Pipe/Loops.antt =====
-- The loops of pipewrite and piperead in kernel/pipe.c. A round of a loop is given with what the
-- process meets in it: what the process at the other end does to the pipe, and what is closed, at its
-- start and just before its critical section (the waits in peterson_enter and `yield` fall there), whether the process has been killed, and how
-- copyin or copyout of its byte ends. Running out of rounds, `none`, means that the process still
-- waits.
use mathlib.Core.List.{append_assoc, append-nil}
use group10os.Prelude.{
  ℕ, zero, suc, ◌+◌, ◌≤◌, ◌≡◌, refl, sym, ◌∙◌, ap, Bool, true, false, not, ◌||◌, List, [], ◌∷◌,
  ◌++◌, Option, none, some, arith, length, ltb, ◌==◌, if◌then◌else◌,
}
use group10os.Prelude.Int.{ℤ, pos, negsuc}
use group10os.Pipe.{
  Pipe, pipesize, put, no_reader, full, stored, eof, empty, got, write_cs, read_cs,
}
use group10os.Pipe.Ring.{
  IsValid, contents, length-contents, used, used-put, write_cs-stored, got_one, read_cs-got,
  put-IsValid, contents-put,
}
use group10os.Pipe.Event.{Event, meanwhile}

pub record WriteRound : Type 0 where
  pub before : List Event
  pub killed : Bool
  pub copied : Option ℕ
  pub inside : List Event

pipewrite_from : List WriteRound → Pipe → ℕ → ℕ → Option (ℤ × Pipe)
pipewrite_from [] p n i = if ltb i n then none else some (pos i, p)
pipewrite_from (r ∷ rs) p n i =
    let p1 = meanwhile p r.before in
    let p2 = meanwhile p1 r.inside in
    let go = λ (ch : ℕ).
      (let (res, p3) = write_cs p2 ch in
        elim res as (λ _. Option (ℤ × Pipe)) [
          | no_reader ↦ some (negsuc 0, p3)
          | full ↦ pipewrite_from rs p3 n i
          | stored ↦ pipewrite_from rs p3 n (i + 1)
        ]) in
    let round = elim r.copied as (λ _. Option (ℤ × Pipe)) [
      | none ↦ some (pos i, p1)
      | some ch ↦ go ch
    ] in
    if ltb i n
    then (if not p1.readopen || r.killed then some (negsuc 0, p1) else round)
    else some (pos i, p)

pub pipewrite : List WriteRound → Pipe → ℕ → Option (ℤ × Pipe)
unfolding pipewrite_from
pipewrite rs p n = pipewrite_from rs p n 0

pub record ReadRound : Type 0 where
  pub before : List Event
  pub killed : Bool
  pub inside : List Event
  pub copied : Bool

-- The result, the bytes that reached the user's memory, and the pipe.
abbrev pub ReadOutcome : Type 0
ReadOutcome = ℤ × List ℕ × Pipe

piperead_from : List ReadRound → Pipe → ℕ → ℕ → List ℕ → Option ReadOutcome
piperead_from [] p n i out = if ltb i n then none else some (pos i, out, p)
piperead_from (r ∷ rs) p n i out =
    let p1 = meanwhile p r.before in
    let p2 = meanwhile p1 r.inside in
    let (res, p3) = read_cs p2 in
    let round = elim res as (λ _. Option ReadOutcome) [
      | eof ↦ some (pos i, out, p3)
      | empty ↦ piperead_from rs p3 n i out
      | got ch ↦
          let rest = piperead_from rs p3 n (i + 1) (out ++ (ch ∷ [])) in
          if r.copied then rest else some (if i == 0 then negsuc 0 else pos i, out, p3)
    ] in
    if ltb i n then (if r.killed then some (negsuc 0, out, p1) else round) else some (pos i, out, p)

pub piperead : List ReadRound → Pipe → ℕ → Option ReadOutcome
unfolding piperead_from
piperead rs p n = piperead_from rs p n 0 []

-- Rounds in which nobody interferes and the byte is copied.
abbrev pub alone : List ℕ → List WriteRound
alone [] = []
alone (b ∷ bs) = record { before = []; killed = false; copied = some b; inside = [] } ∷ alone bs

abbrev pub undisturbed : ℕ → List ReadRound
undisturbed zero = []
undisturbed (suc n) =
    record { before = []; killed = false; inside = []; copied = true } ∷ undisturbed n

pipewrite_from-alone :
    (bs : List ℕ) (p : Pipe) (n i : ℕ)
    → IsValid p
    → p.readopen ≡ true
    → n ≡ i + length bs
    → used p + length bs ≤ pipesize
    → (p' : Pipe) × (pipewrite_from (alone bs) p n i ≡ some (pos n, p'))
      × IsValid p'
      × (contents p' ≡ contents p ++ bs)
      × (p'.readopen ≡ true)
      × (p'.writeopen ≡ p.writeopen)
unfolding pipewrite_from meanwhile
pipewrite_from-alone [] p n i v o e h = (p, ground arith, v, sym (append-nil (contents p)), o, refl)
pipewrite_from-alone (b ∷ bs) p n i v o e h =
    let w = write_cs-stored p b v o (omega arith) in
    let (p', eq, v', c, o', w') =
      pipewrite_from-alone bs (put p b) n (i + 1) (put-IsValid p b v (omega arith)) o (omega arith)
        (omega (arith, used-put p b v (omega arith))) in
    (
      p',
      ground (arith, w, eq),
      v',
      c
          ∙ ap (λ xs. xs ++ bs) (contents-put p b v (omega arith))
          ∙ append_assoc (contents p) (b ∷ []) bs,
      o',
      w',
    )

piperead_from-undisturbed :
    (q bs rest : List ℕ) (p : Pipe) (n i : ℕ)
    → IsValid p
    → n ≡ i + length bs
    → contents p ≡ bs ++ rest
    → (p' : Pipe) × (piperead_from (undisturbed (length bs)) p n i q ≡ some (pos n, q ++ bs, p'))
      × IsValid p'
      × (contents p' ≡ rest)
unfolding piperead_from meanwhile
piperead_from-undisturbed q [] rest p n i v e h = (p, rw (append-nil q) (ground arith), v, h)
piperead_from-undisturbed q (b ∷ bs) rest p n i v e h =
    let (r, v1, c1) = read_cs-got p b (bs ++ rest) v h in
    let (p', eq, v', c') =
      piperead_from-undisturbed (q ++ (b ∷ [])) bs rest (got_one p) n (i + 1) v1 (omega arith) c1 in
    (p', ground (arith, r, eq, append_assoc q (b ∷ []) bs), v', c')

-- Bytes that fit are written at once by a writer that nobody disturbs, and a reader then gets the
-- same bytes in the same order; both report the full count, and the pipe is empty again.
pub pipewrite-piperead :
    (bs : List ℕ) (p : Pipe)
    → IsValid p
    → p.readopen ≡ true
    → contents p ≡ []
    → length bs ≤ pipesize
    → (p' p'' : Pipe) × (pipewrite (alone bs) p (length bs) ≡ some (pos (length bs), p'))
      × (contents p' ≡ bs)
      × (piperead (undisturbed (length bs)) p' (length bs) ≡ some (pos (length bs), bs, p''))
      × (contents p'' ≡ [])
unfolding pipewrite piperead
pipewrite-piperead bs p v o e h =
    let u : used p ≡ 0 = omega (arith, length-contents p, ap length e) in
    let (p', eq, v', c, o', w') =
      pipewrite_from-alone bs p (length bs) 0 v o (omega arith) (omega arith) in
    let full_of : contents p' ≡ bs = c ∙ ap (λ xs. xs ++ bs) e in
    let (p'', eq', v'', c') =
      piperead_from-undisturbed [] bs [] p' (length bs) 0 v' (omega arith)
        (full_of ∙ sym (append-nil bs)) in
    (p', p'', eq, full_of, eq', c')

-- A read whose first byte cannot be copied to the user fails, and the byte is gone from the pipe.
pub piperead_loses :
    (p : Pipe) (ch n : ℕ) (q : List ℕ) (rs : List ReadRound)
    → IsValid p
    → contents p ≡ ch ∷ q
    → (p' : Pipe) × (piperead
          (record { before = []; killed = false; inside = []; copied = false } ∷ rs)
          p
          (suc n)
        ≡ some (negsuc 0, [], p'))
      × (contents p' ≡ q)
unfolding piperead meanwhile
piperead_loses p ch n q rs v e =
    let (r, v1, c1) = read_cs-got p ch q v e in (got_one p, ground (arith, r), c1)
