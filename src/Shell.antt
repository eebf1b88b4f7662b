-- ===== src/Shell.antt =====
-- The parser of user/sh.c, from the text of a line to a command. A text is the list of the characters
-- up to `es`, none of which is NUL; a word is the list of those from `q` to `eq`, which nulterminate
-- makes a string once the whole line is parsed.
pub mod Token
pub mod Grammar
pub mod Redirs
pub mod Args
pub mod Phrases
pub mod RoundTrip
pub mod TooMany
pub mod Shorter
pub mod Total
mod Tests
use group10os.Prelude.{
  ℕ, zero, suc, ◌+◌, Bool, true, false, not, ◌&&◌, ◌||◌, List, [], ◌∷◌, ◌++◌, ◌==◌, ltb,
  if◌then◌else◌, length,
}

abbrev pub maxargs : ℕ
maxargs = 10

-- A redirection: its file, the mode to open it with, and the descriptor.
pub record Redir : Type 0 where
  pub file : List ℕ
  pub mode : ℕ
  pub fd : ℕ

-- The `struct cmd` of each type, as its constructor fills it.
pub data Cmd : Type 0 where
  execcmd : List (List ℕ) → Cmd
  redircmd : Cmd → Redir → Cmd
  pipecmd : Cmd → Cmd → Cmd
  listcmd : Cmd → Cmd → Cmd
  backcmd : Cmd → Cmd

-- What a parser gives; `panic` ends the shell's process, and `no_fuel` is the end of the model's fuel.
pub data Parsed {ℓ} (A : Type ℓ) : Type ℓ where
  parsed : A → Parsed A
  panic : Parsed A
  no_fuel : Parsed A

abbrev pub bind {ℓ κ} : {A : Type ℓ} {B : Type κ} → Parsed A → (A → Parsed B) → Parsed B
bind (parsed a) f = f a
bind panic f = panic
bind no_fuel f = no_fuel

-- " \t\r\n\v" and "<|>&;()".
abbrev pub whitespace : List ℕ
whitespace = 32 ∷ 9 ∷ 13 ∷ 10 ∷ 11 ∷ []

abbrev pub symbols : List ℕ
symbols = 60 ∷ 124 ∷ 62 ∷ 38 ∷ 59 ∷ 40 ∷ 41 ∷ []

-- Whether strchr finds the character, which is not NUL.
abbrev pub strchr : List ℕ → ℕ → Bool
strchr [] c = false
strchr (x ∷ xs) c = x == c || strchr xs c

-- The loops over white space in gettoken and peek.
abbrev pub skip : List ℕ → List ℕ
skip [] = []
skip (c ∷ s) = let rest = skip s in if strchr whitespace c then rest else c ∷ s

-- The loop over a word in gettoken: the word, and the rest.
abbrev pub word : List ℕ → List ℕ × List ℕ
word [] = ([], [])
word (c ∷ s) =
    let (w, rest) = word s in
    if not (strchr whitespace c) && not (strchr symbols c) then (c ∷ w, rest) else ([], c ∷ s)

-- What gettoken returns, the text from `q` to `eq`, and what `*ps` is set to.
pub record GotToken : Type 0 where
  pub ret : ℕ
  pub text : List ℕ
  pub rest : List ℕ

abbrev pub greater_switch : List ℕ → GotToken
greater_switch [] = record { ret = 62; text = 62 ∷ []; rest = [] }
greater_switch (d ∷ t) =
    if d == 62
    then record { ret = 43; text = 62 ∷ 62 ∷ []; rest = skip t }
    else record { ret = 62; text = 62 ∷ []; rest = skip (d ∷ t) }

-- The switch of gettoken.
abbrev pub switch : List ℕ → GotToken
switch [] = record { ret = 0; text = []; rest = [] }
switch (c ∷ s) =
    if strchr (124 ∷ 40 ∷ 41 ∷ 59 ∷ 38 ∷ 60 ∷ []) c
    then record { ret = c; text = c ∷ []; rest = skip s }
    else if c == 62
    then greater_switch s
    else record { ret = 97; text = (word (c ∷ s)).0; rest = skip (word (c ∷ s)).1 }

unfoldable pub gettoken : List ℕ → GotToken
gettoken s = switch (skip s)

-- peek, of a text that starts behind the white space.
abbrev pub starts : List ℕ → List ℕ → Bool
starts [] toks = false
starts (c ∷ s) toks = strchr toks c

unfoldable pub peek : List ℕ → List ℕ → Bool × List ℕ
peek s toks = (starts (skip s) toks, skip s)

-- The switch of parseredirs.
abbrev pub redir_of : ℕ → List ℕ → List Redir
redir_of tok q =
    if tok == 60
    then record { file = q; mode = 0; fd = 0 } ∷ []
    else if tok == 62
    then record { file = q; mode = 1 + 512 + 1024; fd = 1 } ∷ []
    else if tok == 43
    then record { file = q; mode = 1 + 512; fd = 1 } ∷ []
    else []

-- parseredirs, without the command: the redirections that it wraps around it, from the inside out,
-- behind those in `rs`.
unfoldable pub parseredirs : ℕ → List Redir → List ℕ → Parsed (List Redir × List ℕ)
parseredirs zero rs s = no_fuel
parseredirs (suc fuel) rs s =
    let (is, s0) = peek s (60 ∷ 62 ∷ []) in
    let tok = gettoken s0 in
    let file = gettoken tok.rest in
    let next = parseredirs fuel (rs ++ redir_of tok.ret file.text) file.rest in
    if not is then parsed (rs, s0) else if not (file.ret == 97) then panic else next

abbrev pub redirect : Cmd → List Redir → Cmd
redirect cmd [] = cmd
redirect cmd (r ∷ rs) = redirect (redircmd cmd r) rs

-- The loop of parseexec. The arguments go into the exec command, which stands inside the redirections
-- that were found before them.
unfoldable pub parseargs : ℕ → List (List ℕ) → List Redir → List ℕ → Parsed (Cmd × List ℕ)
parseargs zero argv rs s = no_fuel
parseargs (suc fuel) argv rs s =
    let (is, s0) = peek s (124 ∷ 41 ∷ 38 ∷ 59 ∷ []) in
    let tok = gettoken s0 in
    let argv' = argv ++ tok.text ∷ [] in
    let next =
      bind (parseredirs (suc (length tok.rest)) rs tok.rest)
        (λ (r : List Redir × List ℕ). parseargs fuel argv' r.0 r.1) in
    if is
    then parsed (redirect (execcmd argv) rs, s0)
    else if tok.ret == 0
    then parsed (redirect (execcmd argv) rs, tok.rest)
    else if not (tok.ret == 97)
    then panic
    else if not (ltb (length argv') maxargs)
    then panic
    else next

abbrev pub Parser : Type 0
Parser = List ℕ → Parsed (Cmd × List ℕ)

-- parseblock, with parseline as `line`.
abbrev pub parseblock : Parser → Parser
parseblock line s =
    let (is, s0) = peek s (40 ∷ []) in
    if not is
    then panic
    else bind (line (gettoken s0).rest) (λ (r : Cmd × List ℕ).
      let (shut, s1) = peek r.1 (41 ∷ []) in
      let s2 = (gettoken s1).rest in
      if not shut
      then panic
      else bind (parseredirs (suc (length s2)) [] s2)
          (λ (q : List Redir × List ℕ). parsed (redirect r.0 q.0, q.1)))

-- parseexec, with parseline as `line`.
abbrev pub parseexec : Parser → Parser
parseexec line s =
    let (is, s0) = peek s (40 ∷ []) in
    if is
    then parseblock line s0
    else bind (parseredirs (suc (length s0)) [] s0)
        (λ (r : List Redir × List ℕ). parseargs (suc (length r.1)) [] r.0 r.1)

-- parsepipe, with parseline as `line`.
unfoldable pub parsepipe : Parser → ℕ → Parser
parsepipe line zero s = no_fuel
parsepipe line (suc fuel) s = bind (parseexec line s) (λ (r : Cmd × List ℕ).
    let (is, s0) = peek r.1 (124 ∷ []) in
    let right = parsepipe line fuel (gettoken s0).rest in
    if is
    then bind right (λ (q : Cmd × List ℕ). parsed (pipecmd r.0 q.0, q.1))
    else parsed (r.0, s0))

-- The loop of parseline over "&".
unfoldable pub parsebacks : ℕ → Cmd → List ℕ → Parsed (Cmd × List ℕ)
parsebacks zero cmd s = no_fuel
parsebacks (suc fuel) cmd s =
    let (is, s0) = peek s (38 ∷ []) in
    let next = parsebacks fuel (backcmd cmd) (gettoken s0).rest in
    if is then next else parsed (cmd, s0)

-- What parseline does behind the loop; `line` is its call of itself.
abbrev pub parselist : Parser → Cmd × List ℕ → Parsed (Cmd × List ℕ)
parselist line (cmd, s) =
    let (is, s0) = peek s (59 ∷ []) in
    if is
    then bind (line (gettoken s0).rest) (λ (r : Cmd × List ℕ). parsed (listcmd cmd r.0, r.1))
    else parsed (cmd, s0)

-- The fuel is the depth of the calls of parseline; the loops have a round for each character.
unfoldable pub parseline : ℕ → List ℕ → Parsed (Cmd × List ℕ)
parseline zero s = no_fuel
parseline (suc fuel) s = bind (parsepipe (parseline fuel) (suc (length s)) s) (λ (r : Cmd × List ℕ).
    bind (parsebacks (suc (length r.1)) r.0 r.1) (parselist (parseline fuel)))

-- Nothing but white space may be left.
abbrev pub all_read : Cmd → List ℕ → Parsed Cmd
all_read cmd [] = parsed cmd
all_read cmd (c ∷ s) = panic

-- What parsecmd does behind parseline.
abbrev pub no_leftovers : Cmd × List ℕ → Parsed Cmd
no_leftovers (cmd, s) = all_read cmd (peek s []).1

abbrev pub parsecmd : List ℕ → Parsed Cmd
parsecmd s = bind (parseline (suc (length s)) s) no_leftovers
