-- ===== src/Console.antt =====
-- kernel/console.c: the input buffer between the interrupt handler and the readers, and the batches
-- of consolewrite. `r`, `w` and `e` are C `uint`s and wrap at 2^32. What consputc is given, and what
-- uartwrite is given, is part of the result; the lock is left out, since each function holds it.
pub mod Buffer
pub mod Line
pub mod Read
mod Tests
use group10os.Prelude.{
  ℕ, zero, suc, ◌+◌, ◌-◌, ◌%◌, ◌^◌, Bool, true, false, not, ◌&&◌, ◌||◌, List, [], ◌∷◌, ◌++◌, Option,
  none, some, ltb, leb, ◌==◌, if◌then◌else◌,
}
use group10os.Prelude.Memory.{Mem, store}
use group10os.Prelude.Int.{ℤ, pos, negsuc}

abbrev pub input_buf_size : ℕ
input_buf_size = 128

abbrev pub backspace : ℕ
backspace = 0x100

-- `C('P')` and so on.
abbrev pub ctrl_p : ℕ
ctrl_p = 16

abbrev pub ctrl_u : ℕ
ctrl_u = 21

abbrev pub ctrl_h : ℕ
ctrl_h = 8

abbrev pub ctrl_d : ℕ
ctrl_d = 4

abbrev pub delete : ℕ
delete = 127

abbrev pub newline : ℕ
newline = 10

abbrev pub carriage_return : ℕ
carriage_return = 13

-- `a + b` and `a - b` of `uint`s.
abbrev pub add_uint : ℕ → ℕ → ℕ
add_uint a b = (a + b) % 2 ^ 32

abbrev pub sub_uint : ℕ → ℕ → ℕ
sub_uint a b = (a + 2 ^ 32 - b) % 2 ^ 32

pub record Cons : Type 0 where
  pub buf : Mem ℕ
  pub r : ℕ
  pub w : ℕ
  pub e : ℕ

-- The bytes that consputc sends to the uart.
abbrev pub consputc : ℕ → List ℕ
consputc c = if c == backspace then 8 ∷ 32 ∷ 8 ∷ [] else c ∷ []

abbrev pub step_back : Cons → Cons
step_back s = record s { e = sub_uint s.e 1 }

-- The loop of ^U. It takes a character off `cons.e` in each round and ends at `cons.w`, so it has no
-- more rounds than there are characters between the two.
pub kill_line : ℕ → Cons → Cons
kill_line zero s = s
kill_line (suc k) s =
    let rest = kill_line k (step_back s) in
    if not (s.e == s.w) && not (s.buf (sub_uint s.e 1 % input_buf_size) == newline) then rest else s

-- What the loop echoes: a backspace for each character that it takes off.
erased : ℕ → List ℕ
erased zero = []
erased (suc k) = consputc backspace ++ erased k

abbrev pub as_newline : ℕ → ℕ
as_newline c = if c == carriage_return then newline else c

abbrev pub put : Cons → ℕ → Cons
put s c = record s { buf = store s.buf (s.e % input_buf_size) (c % 256); e = add_uint s.e 1 }

abbrev pub ends_line : Cons → ℕ → Bool
ends_line s c = (c == newline || c == ctrl_d) || sub_uint s.e s.r == input_buf_size

-- The buffer, whether readers are woken, and what is echoed.
abbrev pub Handled : Type 0
Handled = Cons × Bool × List ℕ

abbrev pub stored : Cons → ℕ → Handled
stored s c =
    let s' = put s c in
    if ends_line s' c then (record s' { w = s'.e }, true, consputc c) else (s', false, consputc c)

-- The `default` case.
pub typed : Cons → ℕ → Handled
typed s c =
    if not (c == 0) && ltb (sub_uint s.e s.r) input_buf_size
    then stored s (as_newline c)
    else (s, false, [])

abbrev pub rubbed_out : Cons → Handled
rubbed_out s = if not (s.e == s.w) then (step_back s, false, consputc backspace) else (s, false, [])

-- procdump, which ^P runs, changes nothing here.
pub consoleintr : Cons → ℕ → Handled
unfolding kill_line erased typed
consoleintr s c =
    let line = kill_line (sub_uint s.e s.w) s in
    if c == ctrl_p
    then (s, false, [])
    else if c == ctrl_u
    then (line, false, erased (sub_uint s.e line.e))
    else if c == ctrl_h || c == delete
    then rubbed_out s
    else typed s c

-- The interrupts that come in while a reader sleeps.
pub interrupts : Cons → List ℕ → Cons
unfolding consoleintr
interrupts s [] = s
interrupts s (c ∷ cs) = interrupts (consoleintr s c).0 cs

-- A round of consoleread: where the buffer is empty, whether the process is killed, and what is typed
-- while it sleeps; otherwise, whether the byte reaches its destination.
pub record Round : Type 0 where
  pub killed : Bool
  pub typed_in : List ℕ
  pub copied : Bool

-- The result, the bytes that were copied, and the buffer.
abbrev pub Outcome : Type 0
Outcome = ℤ × List ℕ × Cons

-- `n` is what is left of `target`. `none`: the rounds are used up, and the process still sleeps.
consoleread_from : List Round → Cons → ℕ → ℕ → List ℕ → Option Outcome
consoleread_from rs s target zero out = some (pos target, out, s)
consoleread_from [] s target (suc n) out = none
consoleread_from (x ∷ rs) s target (suc n) out =
    let c = s.buf (s.r % input_buf_size) in
    let s' = record s { r = add_uint s.r 1 } in
    let asleep = consoleread_from rs (interrupts s x.typed_in) target (suc n) out in
    let more = consoleread_from rs s' target n (out ++ (c ∷ [])) in
    let done = some (pos (target - suc n), out, s') in
    let line = some (pos (target - n), out ++ (c ∷ []), s') in
    if s.r == s.w
    then (if x.killed then some (negsuc 0, out, s) else asleep)
    else if c == ctrl_d
    then (if ltb (suc n) target then some (pos (target - suc n), out, s) else done)
    else if not x.copied
    then done
    else if c == newline
    then line
    else more

pub consoleread : List Round → Cons → ℕ → Option Outcome
unfolding consoleread_from interrupts
consoleread rs s n = consoleread_from rs s n n []

-- The loop of consolewrite with `copied k` for whether either_copyin of batch `k` succeeds: the
-- result and the sizes of the batches that uartwrite is given. `fuel` bounds the batches.
consolewrite_from : ℕ → (ℕ → Bool) → ℕ → ℕ → ℕ → List ℕ → Option (ℕ × List ℕ)
consolewrite_from zero copied k i n sent = none
consolewrite_from (suc fuel) copied k i n sent =
    let nn = if ltb (n - i) 32 then n - i else 32 in
    let more = consolewrite_from fuel copied (k + 1) (i + nn) n (sent ++ (nn ∷ [])) in
    if ltb i n then (if copied k then more else some (i, sent)) else some (i, sent)

-- A batch takes at least one byte, so `n + 1` rounds are enough.
pub consolewrite : (ℕ → Bool) → ℕ → Option (ℕ × List ℕ)
unfolding consolewrite_from
consolewrite copied n = consolewrite_from (suc n) copied 0 0 n []
