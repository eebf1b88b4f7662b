-- ===== src/Fs/Table/Unique.antt =====
-- An inode has one entry in the table of kernel/fs.c.
use mathlib.Core.Path.{subst}
use group10os.Prelude.{
  ℕ, zero, suc, ◌+◌, ◌<◌, ◌≡◌, refl, sym, ap, ◌∙◌, ◌≢◌, ◌⊎◌, inl, inr, true, false, List, [], ◌∷◌,
  Option, none, some, arith, get_elem?, modify, get_elem?-modify_self, get_elem?-modify_ne,
  modify-get_elem?, Bool-cases,
}
use group10os.Fs.Table.{
  Inode, Slot, found, recycle, no_inodes, is_inode, remember, scan, add_ref, renewed, iget,
}

-- No two entries in use hold the same inode.
abbrev pub IsUnique : List Inode → Type 0
IsUnique t =
    (i j : ℕ) (p q : Inode)
    → get_elem? t i ≡ some p
    → get_elem? t j ≡ some q
    → 0 < p.ref
    → 0 < q.ref
    → p.dev ≡ q.dev
    → p.inum ≡ q.inum
    → i ≡ j

-- What the loop of iget reports of the entries from `i` on, with the empty entry it remembers.
abbrev Located : List Inode → ℕ → ℕ → Inode → Type 0
Located ps i k p = (m : ℕ) × (k ≡ i + m) × (get_elem? ps m ≡ some p)

abbrev pub Absent : ℕ → ℕ → List Inode → Type 0
Absent dev inum ps = (m : ℕ) (p : Inode) → get_elem? ps m ≡ some p → is_inode dev inum p ≡ false

abbrev Reports : ℕ → ℕ → List Inode → ℕ → Option ℕ → Slot → Type 0
Reports dev inum ps i empty (found k) =
    (p : Inode) × Located ps i k p × (is_inode dev inum p ≡ true)
Reports dev inum ps i empty (recycle k) =
    Absent dev inum ps × ((empty ≡ some k) ⊎ ((p : Inode) × Located ps i k p × (p.ref ≡ 0)))
Reports dev inum ps i empty no_inodes =
    Absent dev inum ps
    × (empty ≡ none)
    × ((m : ℕ) (p : Inode) → get_elem? ps m ≡ some p → 0 < p.ref)

shift : (p q : Inode) (ps : List Inode) (i k : ℕ) → Located ps (i + 1) k q → Located (p ∷ ps) i k q
shift p q ps i k (m, e, g) = (suc m, omega arith, g)

Absent-cons :
    (dev inum : ℕ) (p : Inode) (ps : List Inode)
    → is_inode dev inum p ≡ false
    → Absent dev inum ps
    → Absent dev inum (p ∷ ps)
Absent-cons dev inum p ps n a zero q e =
    let f : p ≡ q = cc e in subst (λ x. is_inode dev inum x ≡ false) f n
Absent-cons dev inum p ps n a (suc m) q e = a m q e

-- The entry that is remembered is the old one, or an empty one just met.
remembered :
    (empty : Option ℕ) (p : Inode) (i k : ℕ)
    → remember empty p i ≡ some k
    → (empty ≡ some k) ⊎ ((k ≡ i) × (p.ref ≡ 0))
remembered none p i k e = ground arith
remembered (some j) p i k e = inl e

not_remembered :
    (empty : Option ℕ) (p : Inode) (i : ℕ)
    → remember empty p i ≡ none
    → (empty ≡ none) × (0 < p.ref)
not_remembered none p i e = ground arith
not_remembered (some j) p i e = cc

in_use :
    (p : Inode) (ps : List Inode)
    → 0 < p.ref
    → ((m : ℕ) (q : Inode) → get_elem? ps m ≡ some q → 0 < q.ref)
    → (m : ℕ) (q : Inode) → get_elem? (p ∷ ps) m ≡ some q
    → 0 < q.ref
in_use p ps r u zero q e = let f : p ≡ q = cc e in subst (λ (x : Inode). 0 < x.ref) f r
in_use p ps r u (suc m) q e = u m q e

extend :
    (dev inum : ℕ) (p : Inode) (ps : List Inode) (i : ℕ) (empty : Option ℕ) (s : Slot)
    → is_inode dev inum p ≡ false
    → Reports dev inum ps (i + 1) (remember empty p i) s
    → Reports dev inum (p ∷ ps) i empty s
extend dev inum p ps i empty (found k) n (q, l, e) = (q, shift p q ps i k l, e)
extend dev inum p ps i empty (recycle k) n (a, inl e) = (
  Absent-cons dev inum p ps n a,
  elim (remembered empty p i k e) [
    | inl f ↦ inl f
    | inr (f, z) ↦ inr (p, (0, omega arith, refl), z)
  ],
)
extend dev inum p ps i empty (recycle k) n (a, inr (q, l, z)) =
    (Absent-cons dev inum p ps n a, inr (q, shift p q ps i k l, z))
extend dev inum p ps i empty no_inodes n (a, e, u) =
    let (f, r) = not_remembered empty p i e in (Absent-cons dev inum p ps n a, f, in_use p ps r u)

scan-Reports :
    (dev inum : ℕ) (ps : List Inode) (i : ℕ) (empty : Option ℕ)
    → Reports dev inum ps i empty (scan dev inum ps i empty)
unfolding scan
scan-Reports dev inum [] i none = ((λ m p e. cc), refl, (λ m p e. cc))
scan-Reports dev inum [] i (some j) = ((λ m p e. cc), inl refl)
scan-Reports dev inum (p ∷ ps) i empty = elim (Bool-cases (is_inode dev inum p)) [
  | inl e ↦ rw e (p, (0, omega arith, refl), e)
  | inr e ↦ rw e (
      extend dev inum p ps i empty (scan dev inum ps (i + 1) (remember empty p i)) e
        (scan-Reports dev inum ps (i + 1) (remember empty p i)))
]

-- An entry with the same inode as an old one, and in use only if that is.
abbrev Keeps : Inode → Inode → Type 0
Keeps p q = (q.dev ≡ p.dev) × (q.inum ≡ p.inum) × (0 < q.ref → 0 < p.ref)

origin :
    (t : List Inode) (i j : ℕ) (f : Inode → Inode) (q : Inode)
    → ((p : Inode) → get_elem? t i ≡ some p → Keeps p (f p))
    → get_elem? (modify t i f) j ≡ some q
    → (p : Inode) × (get_elem? t j ≡ some p) × Keeps p q
origin t i j f q k e =
    let (p, g, h) = modify-get_elem? t i j f q e in
    elim h [
      | inl (s, r) ↦ (p, g, subst (Keeps p) (sym r) (k p (ap (get_elem? t) s ∙ g)))
      | inr (n, r) ↦ (p, g, subst (Keeps p) (sym r) (refl, refl, λ u. u))
    ]

modify-IsUnique :
    (t : List Inode) (i : ℕ) (f : Inode → Inode)
    → ((p : Inode) → get_elem? t i ≡ some p → Keeps p (f p))
    → IsUnique t
    → IsUnique (modify t i f)
modify-IsUnique t i f k u a b p q ea eb pa pb ed en =
    let (p', ga, (da, na, ra)) = origin t i a f p k ea in
    let (q', gb, (db, nb, rb)) = origin t i b f q k eb in
    u a b p' q' ga gb (ra pa) (rb pb) (sym da ∙ ed ∙ db) (sym na ∙ en ∙ nb)

-- An entry of the new inode is at `i` only, as no old entry holds it.
renewed-only :
    (dev inum : ℕ) (t : List Inode) (i j : ℕ) (q : Inode)
    → Absent dev inum t
    → get_elem? (modify t i (renewed dev inum)) j ≡ some q
    → 0 < q.ref
    → q.dev ≡ dev
    → q.inum ≡ inum
    → i ≡ j
renewed-only dev inum t i j q a e r d n =
    let (p, g, h) = modify-get_elem? t i j (renewed dev inum) q e in
    elim h [
      | inl (s, _) ↦ s
      | inr (_, s) ↦
          let no : is_inode dev inum q ≡ false =
            subst (λ x. is_inode dev inum x ≡ false) (sym s) (a j p g) in
          absurd (ground arith)
    ]

renewed-IsUnique :
    (dev inum : ℕ) (t : List Inode) (i : ℕ)
    → Absent dev inum t
    → IsUnique t
    → IsUnique (modify t i (renewed dev inum))
renewed-IsUnique dev inum t i a u j k p q ej ek pj pk ed en =
    let (p', gj, hj) = modify-get_elem? t i j (renewed dev inum) p ej in
    let (q', gk, hk) = modify-get_elem? t i k (renewed dev inum) q ek in
    elim hj [
      | inl (s, r) ↦
          let d : q.dev ≡ dev = sym ed ∙ ap (λ (x : Inode). x.dev) r in
          let n : q.inum ≡ inum = sym en ∙ ap (λ (x : Inode). x.inum) r in
          sym s ∙ renewed-only dev inum t i k q a ek pk d n
      | inr (m, r) ↦ elim hk [
        | inl (s', r') ↦
            let d : p.dev ≡ dev = ed ∙ ap (λ (x : Inode). x.dev) r' in
            let n : p.inum ≡ inum = en ∙ ap (λ (x : Inode). x.inum) r' in
            sym (renewed-only dev inum t i j p a ej pj d n) ∙ s'
        | inr (m', r') ↦ u j k p q (gj ∙ ap some (sym r)) (gk ∙ ap some (sym r')) pj pk ed en
      ]
    ]

-- What iget gives: an entry for the inode with one reference more than before, in a table that still
-- has one entry for an inode. The entry held the inode already, or was in nobody's use.
pub record Got (dev inum : ℕ) (t : List Inode) (i : ℕ) (t' : List Inode) : Type 0 where
  pub old : Inode
  pub new : Inode
  pub at_old : get_elem? t i ≡ some old
  pub at_new : get_elem? t' i ≡ some new
  pub is_it : (new.dev ≡ dev) × (new.inum ≡ inum)
  pub counted : new.ref ≡ old.ref + 1
  pub kept :
      ((new.valid ≡ old.valid) × (old.dev ≡ dev) × (old.inum ≡ inum) × (0 < old.ref))
      ⊎ ((new.valid ≡ false) × (old.ref ≡ 0))
  pub others : (j : ℕ) → i ≢ j → get_elem? t' j ≡ get_elem? t j
  pub unique : IsUnique t'

pub data Iget (dev inum : ℕ) (t : List Inode) : Option (ℕ × List Inode) → Type 0 where
  panics :
      Absent dev inum t
      → ((j : ℕ) (p : Inode) → get_elem? t j ≡ some p → 0 < p.ref)
      → Iget dev inum t none
  gets : {i : ℕ} {t' : List Inode} → Got dev inum t i t' → Iget dev inum t (some (i, t'))

is_inode-true :
    (dev inum : ℕ) (p : Inode)
    → is_inode dev inum p ≡ true
    → (0 < p.ref) × (p.dev ≡ dev) × (p.inum ≡ inum)
is_inode-true dev inum p e = ground arith

same_ref :
    (t : List Inode) (k : ℕ) (p q : Inode)
    → get_elem? t k ≡ some p
    → get_elem? t k ≡ some q
    → 0 < p.ref
    → 0 < q.ref
same_ref t k p q g h r = let s : p ≡ q = cc (sym g ∙ h) in subst (λ (x : Inode). 0 < x.ref) s r

Iget-from :
    (dev inum : ℕ) (t : List Inode) (s : Slot)
    → Reports dev inum t 0 none s
    → IsUnique t
    → Iget dev inum t (elim s as (λ _. Option (ℕ × List Inode)) [
      | found i ↦ some (i, modify t i add_ref)
      | recycle i ↦ some (i, modify t i (renewed dev inum))
      | no_inodes ↦ none
    ])
Iget-from dev inum t (found k) (p, (m, e, g), y) u =
    let g' : get_elem? t k ≡ some p = ap (get_elem? t) (omega arith) ∙ g in
    let (r, d, n) = is_inode-true dev inum p y in
    gets (record {
      old = p;
      new = add_ref p;
      at_old = g';
      at_new = get_elem?-modify_self t k add_ref p g';
      is_it = (d, n);
      counted = refl;
      kept = inl (refl, d, n, r);
      others = λ j x. get_elem?-modify_ne t k j add_ref x;
      unique = modify-IsUnique t k add_ref (λ q h. (refl, refl, λ _. same_ref t k p q g' h r)) u;
    })
Iget-from dev inum t (recycle k) (a, inl e) u = cc
Iget-from dev inum t (recycle k) (a, inr (p, (m, e, g), z)) u =
    let g' : get_elem? t k ≡ some p = ap (get_elem? t) (omega arith) ∙ g in
    gets (record {
      old = p;
      new = renewed dev inum p;
      at_old = g';
      at_new = get_elem?-modify_self t k (renewed dev inum) p g';
      is_it = (refl, refl);
      counted = omega arith;
      kept = inr (refl, z);
      others = λ j x. get_elem?-modify_ne t k j (renewed dev inum) x;
      unique = renewed-IsUnique dev inum t k a u;
    })
Iget-from dev inum t no_inodes (a, _, r) u = panics a r

-- iget returns the entry that holds the inode, or else an entry that nobody uses, with one reference
-- more; no other entry changes, and an inode never gets a second entry. It panics exactly when the
-- inode has no entry and every entry is in use.
pub iget-Iget : (dev inum : ℕ) (t : List Inode) → IsUnique t → Iget dev inum t (iget dev inum t)
unfolding iget
iget-Iget dev inum t u =
    Iget-from dev inum t (scan dev inum t 0 none) (scan-Reports dev inum t 0 none) u
