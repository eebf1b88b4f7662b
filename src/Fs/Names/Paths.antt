-- ===== src/Fs/Names/Paths.antt =====
-- What skipelem of kernel/fs.c takes off a path.
use group10os.Prelude.{
  ℕ, zero, suc, ◌≡◌, refl, ap, ◌∙◌, ◌≢◌, List, [], ◌∷◌, ◌++◌, none, some, arith, ==_ne, length, All,
}
use group10os.Fs.Names.{
  dirsiz, take, slash, skip_slashes, element, behind_element, elem_and_rest, skipelem,
}

abbrev pub slashes : ℕ → List ℕ → List ℕ
slashes zero path = path
slashes (suc k) path = slash ∷ slashes k path

-- An element of a path: not empty, with no slash in it.
abbrev pub IsElement : List ℕ → Type 0
IsElement [] = ⊥
IsElement (c ∷ cs) = (c ≢ slash) × All (λ x. x ≢ slash) cs

-- What stands behind an element: nothing, or a slash.
abbrev pub Ends : List ℕ → Type 0
Ends [] = Unit {0}
Ends (c ∷ cs) = c ≡ slash

skip_slashes_lem : (k : ℕ) (path : List ℕ) → skip_slashes (slashes k path) ≡ skip_slashes path
skip_slashes_lem zero path = refl
skip_slashes_lem (suc k) path = skip_slashes_lem k path

skip_element : (e path : List ℕ) → IsElement e → skip_slashes (e ++ path) ≡ e ++ path
skip_element [] path h = absurd h
skip_element (c ∷ cs) path h = rw (==_ne c slash h.0)

element_lem : (e path : List ℕ) → All (λ x. x ≢ slash) e → Ends path → element (e ++ path) ≡ e
element_lem [] [] h n = refl
element_lem [] (c ∷ path) h n = rw n
element_lem (c ∷ e) path h n = rw (==_ne c slash h.0) (ap (◌∷◌ c) (element_lem e path h.1 n))

behind_element_lem :
    (e path : List ℕ) → All (λ x. x ≢ slash) e → Ends path → behind_element (e ++ path) ≡ path
behind_element_lem [] [] h n = refl
behind_element_lem [] (c ∷ path) h n = rw n
behind_element_lem (c ∷ e) path h n = rw (==_ne c slash h.0) (behind_element_lem e path h.1 n)

-- skipelem goes over the slashes in front, takes the first DIRSIZ bytes of the element, and leaves the
-- path behind it without the slashes at its start.
pub skipelem_lem :
    (k : ℕ) (e path : List ℕ)
    → IsElement e
    → Ends path
    → skipelem (slashes k (e ++ path)) ≡ some (take dirsiz e, skip_slashes path)
unfolding skipelem
skipelem_lem k [] path h n = absurd h
skipelem_lem k (c ∷ e) path h n =
    let h' : All (λ x. x ≢ slash) (c ∷ e) = h in
    rw (skip_slashes_lem k (c ∷ e ++ path), skip_element (c ∷ e) path h)
      (λ i. some (
        take dirsiz (element_lem (c ∷ e) path h' n i),
        skip_slashes (behind_element_lem (c ∷ e) path h' n i),
      ))

pub skipelem-none : (k : ℕ) → skipelem (slashes k []) ≡ none
unfolding skipelem
skipelem-none k = rw (skip_slashes_lem k [])

-- The elements that namex meets on a path: skipelem, again and again.
pub elements : ℕ → List ℕ → List (List ℕ)
elements zero path = []
elements (suc fuel) path = elim (skipelem path) as (λ _. List (List ℕ)) [
  | none ↦ []
  | some (e, rest) ↦ e ∷ elements fuel rest
]

-- What follows a name of a path: each further name with slashes in front, one at least, and `j`
-- slashes at the end.
abbrev pub path_of : ℕ → List (ℕ × List ℕ) → List ℕ
path_of j [] = slashes j []
path_of j ((k, e) ∷ es) = slashes (suc k) (e ++ path_of j es)

-- The names, each cut to DIRSIZ bytes.
abbrev pub names_of : List (ℕ × List ℕ) → List (List ℕ)
names_of [] = []
names_of ((k, e) ∷ es) = take dirsiz e ∷ names_of es

abbrev pub AllNames : List (ℕ × List ℕ) → Type 0
AllNames [] = Unit {0}
AllNames ((k, e) ∷ es) = IsElement e × AllNames es

path_of-Ends : (j : ℕ) (es : List (ℕ × List ℕ)) → Ends (path_of j es)
path_of-Ends zero [] = tt
path_of-Ends (suc j) [] = refl
path_of-Ends j ((k, e) ∷ es) = refl

skip_slashes-twice : (p : List ℕ) → skip_slashes (skip_slashes p) ≡ skip_slashes p
skip_slashes-twice [] = refl
skip_slashes-twice (c ∷ p) = ground (arith, skip_slashes-twice p)

skipelem-skip_slashes : (p : List ℕ) → skipelem (skip_slashes p) ≡ skipelem p
unfolding skipelem
skipelem-skip_slashes p = ap elem_and_rest (skip_slashes-twice p)

elements-skip_slashes : (n : ℕ) (p : List ℕ) → elements n (skip_slashes p) ≡ elements n p
unfolding elements
elements-skip_slashes zero p = refl
elements-skip_slashes (suc n) p = rw (skipelem-skip_slashes p, elements)

elements-rest :
    (j : ℕ) (es : List (ℕ × List ℕ))
    → AllNames es
    → elements (suc (length es)) (path_of j es) ≡ names_of es
unfolding elements
elements-rest j [] h = rw (skipelem-none j, elements)
elements-rest j ((k, e) ∷ es) h =
    rw (skipelem_lem (suc k) e (path_of j es) h.0 (path_of-Ends j es), elements)
      (ap (◌∷◌ (take dirsiz e))
        (elements-skip_slashes (suc (length es)) (path_of j es) ∙ elements-rest j es h.1))

-- On a path that begins with any number of slashes, none or more, and then has a name and any number of
-- further ones, with one or more slashes between them and any number behind the last, skipelem gives,
-- called again and again as namex calls it, the first DIRSIZ bytes of each name in order, and then
-- nothing.
pub elements-path_of :
    (i j : ℕ) (e : List ℕ) (es : List (ℕ × List ℕ))
    → IsElement e
    → AllNames es
    → elements (suc (suc (length es))) (slashes i (e ++ path_of j es)) ≡ take dirsiz e ∷ names_of es
unfolding elements
elements-path_of i j e es h hs =
    rw (skipelem_lem i e (path_of j es) h (path_of-Ends j es), elements)
      (ap (◌∷◌ (take dirsiz e))
        (elements-skip_slashes (suc (length es)) (path_of j es) ∙ elements-rest j es hs))
