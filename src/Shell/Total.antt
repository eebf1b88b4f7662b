-- ===== src/Shell/Total.antt =====
-- The parser of user/sh.c ends on every text.
use group10os.Prelude.{
  ℕ, zero, suc, ◌<◌, ◌≤◌, ◌≡◌, refl, ◌⊎◌, inl, inr, Bool, true, false, not, List, [], ◌∷◌, ◌++◌,
  arith, ◌==◌, ltb, if◌then◌else◌, length,
}
use group10os.Shell.{
  gettoken, peek, Parsed, parsed, panic, no_fuel, bind, Cmd, Redir, Parser, parseredirs, redir_of,
  redirect, parseargs, maxargs, execcmd, parseblock, parseexec, parsepipe, pipecmd, parsebacks,
  backcmd, parselist, listcmd, parseline, no_leftovers, all_read, parsecmd,
}
use group10os.Shell.Shorter.{gettoken-le, gettoken-lt, peek-le, peek-lt}

-- A parser ends, with at most `n` characters left or with a panic.
abbrev Within {ℓ} : {A : Type ℓ} → ℕ → Parsed (A × List ℕ) → Type 0
Within n (parsed (a, s)) = length s ≤ n
Within n panic = Unit {0}
Within n no_fuel = ⊥

Within-mono {ℓ} : {A : Type ℓ} (m n : ℕ) (r : Parsed (A × List ℕ)) → m ≤ n → Within m r → Within n r
Within-mono m n (parsed (a, s)) l w = omega (arith, l, w)
Within-mono m n panic l w = tt
Within-mono m n no_fuel l w = w

bind-Within {ℓ κ} :
    {A : Type ℓ} {B : Type κ} (m n : ℕ) (r : Parsed (A × List ℕ))
    (f : A × List ℕ → Parsed (B × List ℕ))
    → Within m r
    → ((a : A) (s : List ℕ) → length s ≤ m → Within n (f (a, s)))
    → Within n (bind r f)
bind-Within m n (parsed (a, s)) f w g = g a s w
bind-Within m n panic f w g = tt
bind-Within m n no_fuel f w g = elim w [ ]

if-Within {ℓ} :
    {A : Type ℓ} (n : ℕ) (b : Bool) (x y : Parsed (A × List ℕ))
    → (b ≡ true → Within n x)
    → (b ≡ false → Within n y)
    → Within n (if b then x else y)
if-Within n true x y p q = p refl
if-Within n false x y p q = q refl

redirs-Within :
    (fuel : ℕ) (rs : List Redir) (s : List ℕ)
    → length s < fuel
    → Within (length s) (parseredirs fuel rs s)
unfolding parseredirs
redirs-Within zero rs s l = absurd (omega (arith, l))
redirs-Within (suc fuel) rs s l =
    let s0 = (peek s (60 ∷ 62 ∷ [])).1 in
    let tok = gettoken s0 in
    let file = gettoken tok.rest in
    let rs' = rs ++ redir_of tok.ret file.text in
    let next = parseredirs fuel rs' file.rest in
    let le = gettoken-le tok.rest in
    if-Within (length s) (not (peek s (60 ∷ 62 ∷ [])).0) (parsed (rs, s0))
      (if not (file.ret == 97) then panic else next) (λ _. peek-le s (60 ∷ 62 ∷ []))
      (λ e.
        if-Within (length s) (not (file.ret == 97)) panic next (λ _. tt)
          (λ _.
            (let lt = peek-lt s (60 ∷ 62 ∷ []) (ground (arith, e)) in
              Within-mono (length file.rest) (length s) next (omega (arith, lt, le))
                (redirs-Within fuel rs' file.rest (omega (arith, lt, le, l))))))

args-Within :
    (fuel : ℕ) (argv : List (List ℕ)) (rs : List Redir) (s : List ℕ)
    → length s < fuel
    → Within (length s) (parseargs fuel argv rs s)
unfolding parseargs
args-Within zero argv rs s l = absurd (omega (arith, l))
args-Within (suc fuel) argv rs s l =
    let (is, s0) = peek s (124 ∷ 41 ∷ 38 ∷ 59 ∷ []) in
    let tok = gettoken s0 in
    let argv' = argv ++ tok.text ∷ [] in
    let f : List Redir × List ℕ → Parsed (Cmd × List ℕ) = λ r. parseargs fuel argv' r.0 r.1 in
    let next = bind (parseredirs (suc (length tok.rest)) rs tok.rest) f in
    let stop : Parsed (Cmd × List ℕ) = parsed (redirect (execcmd argv) rs, tok.rest) in
    let few = if not (ltb (length argv') maxargs) then panic else next in
    let word = if not (tok.ret == 97) then panic else few in
    let a = peek-le s (124 ∷ 41 ∷ 38 ∷ 59 ∷ []) in
    let b = gettoken-le s0 in
    if-Within (length s) is (parsed (redirect (execcmd argv) rs, s0))
      (if tok.ret == 0 then stop else word) (λ _. a)
      (λ _.
        if-Within (length s) (tok.ret == 0) stop word (λ _. omega (arith, a, b))
          (λ e.
            if-Within (length s) (not (tok.ret == 97)) panic few (λ _. tt)
              (λ _.
                if-Within (length s) (not (ltb (length argv') maxargs)) panic next (λ _. tt)
                  (λ _.
                    bind-Within (length tok.rest) (length s)
                      (parseredirs (suc (length tok.rest)) rs tok.rest) f
                      (redirs-Within (suc (length tok.rest)) rs tok.rest (omega arith))
                      (λ rs' t h. elim (gettoken-lt s0) [
                        | inl z ↦ absurd (ground (arith, e, z))
                        | inr lt ↦
                            Within-mono (length t) (length s) (parseargs fuel argv' rs' t)
                              (omega (arith, a, b, h))
                              (args-Within fuel argv' rs' t (omega (arith, a, lt, h, l)))
                      ])))))

-- A parser for texts of fewer than `n` characters.
abbrev Ends : ℕ → Parser → Type 0
Ends n p = (s : List ℕ) → length s < n → Within (length s) (p s)

module _ (n : ℕ) (p : Parser) (ends : Ends n p) where
  block-Within : (s : List ℕ) → length s < suc n → Within (length s) (parseblock p s)
  block-Within s l =
      let (is, s0) = peek s (40 ∷ []) in
      let inner = (gettoken s0).rest in
      let f : Cmd × List ℕ → Parsed (Cmd × List ℕ) = λ r.
        (let (shut, s1) = peek r.1 (41 ∷ []) in
          let s2 = (gettoken s1).rest in
          if not shut
          then panic
          else bind (parseredirs (suc (length s2)) [] s2)
              (λ (q : List Redir × List ℕ). parsed (redirect r.0 q.0, q.1))) in
      if-Within (length s) (not is) panic (bind (p inner) f) (λ _. tt)
        (λ e.
          (let lt = peek-lt s (40 ∷ []) (ground (arith, e)) in
            bind-Within (length inner) (length s) (p inner) f (ends inner (omega (arith, lt, l)))
              (λ cmd t h.
                (let (shut, s1) = peek t (41 ∷ []) in
                  let s2 = (gettoken s1).rest in
                  let g : List Redir × List ℕ → Parsed (Cmd × List ℕ) =
                    λ q. parsed (redirect cmd q.0, q.1) in
                  let a = peek-le t (41 ∷ []) in
                  let b = gettoken-le s1 in
                  if-Within (length s) (not shut) panic
                    (bind (parseredirs (suc (length s2)) [] s2) g) (λ _. tt)
                    (λ _.
                      bind-Within (length s2) (length s) (parseredirs (suc (length s2)) [] s2) g
                        (redirs-Within (suc (length s2)) [] s2 (omega arith))
                        (λ rs u w. omega (arith, w, b, a, h, lt)))))))

  exec-Within : (s : List ℕ) → length s < suc n → Within (length s) (parseexec p s)
  exec-Within s l =
      let (is, s0) = peek s (40 ∷ []) in
      let a = peek-le s (40 ∷ []) in
      let f : List Redir × List ℕ → Parsed (Cmd × List ℕ) =
        λ r. parseargs (suc (length r.1)) [] r.0 r.1 in
      let simple = bind (parseredirs (suc (length s0)) [] s0) f in
      if-Within (length s) is (parseblock p s0) simple
        (λ _.
          Within-mono (length s0) (length s) (parseblock p s0) a
            (block-Within s0 (omega (arith, a, l))))
        (λ _.
          bind-Within (length s0) (length s) (parseredirs (suc (length s0)) [] s0) f
            (redirs-Within (suc (length s0)) [] s0 (omega arith))
            (λ rs t h.
              Within-mono (length t) (length s) (parseargs (suc (length t)) [] rs t)
                (omega (arith, a, h)) (args-Within (suc (length t)) [] rs t (omega arith))))

  pipe-Within :
      (fuel : ℕ) (s : List ℕ)
      → length s < suc n
      → length s < fuel
      → Within (length s) (parsepipe p fuel s)
  unfolding parsepipe
  pipe-Within zero s l h = absurd (omega (arith, h))
  pipe-Within (suc fuel) s l h =
      let f : Cmd × List ℕ → Parsed (Cmd × List ℕ) = λ r.
        (let (is, s0) = peek r.1 (124 ∷ []) in
          let right = parsepipe p fuel (gettoken s0).rest in
          if is
          then bind right (λ (q : Cmd × List ℕ). parsed (pipecmd r.0 q.0, q.1))
          else parsed (r.0, s0)) in
      bind-Within (length s) (length s) (parseexec p s) f (exec-Within s l) (λ cmd t g.
        (let (is, s0) = peek t (124 ∷ []) in
          let s1 = (gettoken s0).rest in
          let right = parsepipe p fuel s1 in
          let join : Cmd × List ℕ → Parsed (Cmd × List ℕ) = λ q. parsed (pipecmd cmd q.0, q.1) in
          let a = peek-le t (124 ∷ []) in
          if-Within (length s) is (bind right join) (parsed (cmd, s0))
            (λ e.
              (let lt = peek-lt t (124 ∷ []) e in
                bind-Within (length s1) (length s) right join
                  (pipe-Within fuel s1 (omega (arith, lt, g, l)) (omega (arith, lt, g, h)))
                  (λ q u w. omega (arith, w, lt, g))))
            (λ _. omega (arith, a, g))))

  list-Within :
      (m : ℕ) (cmd : Cmd) (s : List ℕ) → length s ≤ m → m < suc n → Within m (parselist p (cmd, s))
  list-Within m cmd s l h =
      let (is, s0) = peek s (59 ∷ []) in
      let s1 = (gettoken s0).rest in
      let join : Cmd × List ℕ → Parsed (Cmd × List ℕ) = λ r. parsed (listcmd cmd r.0, r.1) in
      let a = peek-le s (59 ∷ []) in
      if-Within m is (bind (p s1) join) (parsed (cmd, s0))
        (λ e.
          (let lt = peek-lt s (59 ∷ []) e in
            bind-Within (length s1) m (p s1) join (ends s1 (omega (arith, lt, l, h)))
              (λ q u w. omega (arith, w, lt, l))))
        (λ _. omega (arith, a, l))

backs-Within :
    (fuel : ℕ) (cmd : Cmd) (s : List ℕ)
    → length s < fuel
    → Within (length s) (parsebacks fuel cmd s)
unfolding parsebacks
backs-Within zero cmd s l = absurd (omega (arith, l))
backs-Within (suc fuel) cmd s l =
    let (is, s0) = peek s (38 ∷ []) in
    let s1 = (gettoken s0).rest in
    let next = parsebacks fuel (backcmd cmd) s1 in
    if-Within (length s) is next (parsed (cmd, s0))
      (λ e.
        (let lt = peek-lt s (38 ∷ []) e in
          Within-mono (length s1) (length s) next (omega (arith, lt))
            (backs-Within fuel (backcmd cmd) s1 (omega (arith, lt, l)))))
      (λ _. peek-le s (38 ∷ []))

line-Ends : (n : ℕ) → Ends n (parseline n)
unfolding parseline
line-Ends zero s l = absurd (omega (arith, l))
line-Ends (suc n) s l =
    let p = parseline n in
    let f : Cmd × List ℕ → Parsed (Cmd × List ℕ) =
      λ r. bind (parsebacks (suc (length r.1)) r.0 r.1) (parselist p) in
    bind-Within (length s) (length s) (parsepipe p (suc (length s)) s) f
      (pipe-Within n p (line-Ends n) (suc (length s)) s l (omega arith))
      (λ cmd t h.
        bind-Within (length t) (length s) (parsebacks (suc (length t)) cmd t) (parselist p)
          (backs-Within (suc (length t)) cmd t (omega arith))
          (λ cmd' u w. list-Within n p (line-Ends n) (length s) cmd' u (omega (arith, w, h)) l))

-- A command, or a panic.
abbrev pub IsEnded : Parsed Cmd → Type 0
IsEnded r = ((cmd : Cmd) × (r ≡ parsed cmd)) ⊎ (r ≡ panic)

all_read-IsEnded : (cmd : Cmd) (u : List ℕ) → IsEnded (all_read cmd u)
all_read-IsEnded cmd [] = inl (cmd, refl)
all_read-IsEnded cmd (c ∷ u) = inr refl

Within-IsEnded : (n : ℕ) (r : Parsed (Cmd × List ℕ)) → Within n r → IsEnded (bind r no_leftovers)
Within-IsEnded n (parsed (cmd, u)) w = all_read-IsEnded cmd (peek u []).1
Within-IsEnded n panic w = inr refl
Within-IsEnded n no_fuel w = elim w [ ]

-- parsecmd ends on every text whatever: it gives a command, or it panics; its loops and its calls of
-- itself always come to an end.
pub parsecmd-IsEnded : (s : List ℕ) → IsEnded (parsecmd s)
parsecmd-IsEnded s =
    Within-IsEnded (length s) (parseline (suc (length s)) s)
      (line-Ends (suc (length s)) s (omega arith))
