-- ===== src/Pipe/Ring.antt =====
-- The ring of kernel/pipe.c as a queue of bytes.
use group10os.Prelude.{
  ℕ, zero, suc, ◌+◌, ◌-◌, ◌%◌, ◌^◌, ◌≤◌, ◌<◌, ◌≡◌, refl, ap, ◌∙◌, ◌≢◌, ◌⊎◌, inl, inr, true, false,
  List, [], ◌∷◌, ◌++◌, arith, length, ◌==◌, Bool-cases,
}
use group10os.Prelude.Memory.{Mem, store}
use group10os.Pipe.{
  Pipe, pipesize, add_uint, put, fresh, WriteResult, no_reader, full, stored, ReadResult, eof,
  empty, got, write_cs, read_cs,
}

-- The number of bytes in the ring: `nwrite - nread` as a `uint`.
abbrev pub used : Pipe → ℕ
used p = (p.nwrite + 2 ^ 32 - p.nread) % 2 ^ 32

pub record IsValid (p : Pipe) : Type 0 where
  pub nread_uint : p.nread < 2 ^ 32
  pub nwrite_uint : p.nwrite < 2 ^ 32
  pub fits : used p ≤ pipesize

-- The `n` bytes from counter `r` on.
abbrev pub window : Mem ℕ → ℕ → ℕ → List ℕ
window buf r zero = []
window buf r (suc n) = buf (r % pipesize) ∷ window buf (add_uint r 1) n

abbrev pub contents : Pipe → List ℕ
contents p = window p.data_buf p.nread (used p)

length-window : (buf : Mem ℕ) (r n : ℕ) → length (window buf r n) ≡ n
length-window buf r zero = refl
length-window buf r (suc n) = ap suc (length-window buf (add_uint r 1) n)

pub length-contents : (p : Pipe) → length (contents p) ≡ used p
length-contents p = length-window p.data_buf p.nread (used p)

-- A byte written just behind the window extends it, and changes no byte inside it.
window-store :
    (buf : Mem ℕ) (v n r w : ℕ)
    → r < 2 ^ 32
    → n < pipesize
    → w ≡ add_uint r n
    → window (store buf (w % pipesize) v) r (suc n) ≡ window buf r n ++ (v ∷ [])
window-store buf v zero r w hr hn e = ground arith
window-store buf v (suc n) r w hr hn e =
    ground (arith, window-store buf v n (add_uint r 1) w (omega arith) (omega arith) (omega arith))

window-take :
    (buf : Mem ℕ) (r n : ℕ)
    → n ≢ 0
    → window buf r n ≡ buf (r % pipesize) ∷ window buf (add_uint r 1) (n - 1)
window-take buf r zero h = absurd (h refl)
window-take buf r (suc n) h = ap (λ k. window buf r (suc k)) (omega arith)

pub fresh-IsValid : (buf : Mem ℕ) → IsValid (fresh buf) × (contents (fresh buf) ≡ [])
unfolding fresh
fresh-IsValid buf = (omega arith, refl)

pub used-put : (p : Pipe) (ch : ℕ) → IsValid p → used p < pipesize → used (put p ch) ≡ suc (used p)
used-put p ch v h = omega arith

pub contents-put :
    (p : Pipe) (ch : ℕ)
    → IsValid p
    → used p < pipesize
    → contents (put p ch) ≡ contents p ++ (ch ∷ [])
contents-put p ch v h =
    ap (window (put p ch).data_buf p.nread) (used-put p ch v h)
    ∙ window-store p.data_buf ch (used p) p.nread p.nwrite v.nread_uint h (omega arith)

pub put-IsValid : (p : Pipe) (ch : ℕ) → IsValid p → used p < pipesize → IsValid (put p ch)
put-IsValid p ch v h = omega arith

full_iff : (p : Pipe) → IsValid p → (p.nwrite == add_uint p.nread pipesize) ≡ (used p == pipesize)
full_iff p v = ground arith

pub write_cs-stored :
    (p : Pipe) (ch : ℕ)
    → IsValid p
    → p.readopen ≡ true
    → used p < pipesize
    → write_cs p ch ≡ (stored, put p ch)
unfolding write_cs
write_cs-stored p ch v o h = ground (arith, full_iff p v)

abbrev pub Writes : Pipe → ℕ → WriteResult × Pipe → Type 0
Writes p ch (no_reader, p') = (p.readopen ≡ false) × (p' ≡ p)
Writes p ch (full, p') = (p.readopen ≡ true) × (length (contents p) ≡ pipesize) × (p' ≡ p)
Writes p ch (stored, p') =
    (p.readopen ≡ true)
    × (length (contents p) < pipesize)
    × IsValid p'
    × (contents p' ≡ contents p ++ (ch ∷ []))

-- Which branch the code takes.
write_cs-cases :
    (p : Pipe) (ch : ℕ)
    → IsValid p
    → ((p.readopen ≡ false) × (write_cs p ch ≡ (no_reader, p)))
      ⊎ (((p.readopen ≡ true) × (used p ≡ pipesize) × (write_cs p ch ≡ (full, p)))
          ⊎ ((p.readopen ≡ true) × (used p < pipesize) × (write_cs p ch ≡ (stored, put p ch))))
unfolding write_cs
write_cs-cases p ch v = elim (Bool-cases p.readopen) [
  | inl o ↦ elim (Bool-cases (used p == pipesize)) [
    | inl e ↦ inr (inl (o, ground arith, ground (arith, full_iff p v)))
    | inr e ↦ inr (inr (o, ground arith, ground (arith, full_iff p v)))
  ]
  | inr o ↦ inl (o, ground arith)
]

-- The critical section of pipewrite on a valid ring: it refuses when the reader has closed, reports
-- exactly a queue of PIPESIZE bytes as full, and otherwise appends the byte to the queue.
pub write_cs-Writes : {p : Pipe} (ch : ℕ) → IsValid p → Writes p ch (write_cs p ch)
write_cs-Writes {p} ch v = elim (write_cs-cases p ch v) [
  | inl (o, e) ↦ rw e (o, refl)
  | inr (inl (o, u, e)) ↦ rw e (o, length-contents p ∙ u, refl)
  | inr (inr (o, u, e)) ↦
      rw e (o, omega (arith, length-contents p), put-IsValid p ch v u, contents-put p ch v u)
]

abbrev pub Reads : Pipe → ReadResult × Pipe → Type 0
Reads p (eof, p') = (contents p ≡ []) × (p.writeopen ≡ false) × (p' ≡ p)
Reads p (empty, p') = (contents p ≡ []) × (p.writeopen ≡ true) × (p' ≡ p)
Reads p (got ch, p') = (contents p ≡ ch ∷ contents p') × IsValid p'

-- The critical section of piperead on a valid ring: it reports exactly the empty queue, as the end
-- of the file when the writer has closed, and otherwise takes the oldest byte off the queue.
pub read_cs-Reads : {p : Pipe} → IsValid p → Reads p (read_cs p)
unfolding read_cs
read_cs-Reads {p} v = ground (arith, length-contents p, window-take p.data_buf p.nread (used p))

-- The pipe without its oldest byte.
abbrev pub got_one : Pipe → Pipe
got_one p = record p { nread = add_uint p.nread 1 }

pub read_cs-got :
    (p : Pipe) (ch : ℕ) (q : List ℕ)
    → IsValid p
    → contents p ≡ ch ∷ q
    → (read_cs p ≡ (got ch, got_one p)) × IsValid (got_one p) × (contents (got_one p) ≡ q)
unfolding read_cs
read_cs-got p ch q v e =
    let n : used p ≢ 0 = omega (arith, ap length e, length-contents p) in
    let w = window-take p.data_buf p.nread (used p) n in
    let less : used (got_one p) ≡ used p - 1 = omega arith in
    (
      ground (arith, w),
      omega arith,
      ap (window p.data_buf (add_uint p.nread 1)) less ∙ ground (arith, w),
    )
