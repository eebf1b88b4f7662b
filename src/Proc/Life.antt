-- ===== src/Proc/Life.antt =====
-- The life of a process in kernel/proc.c: allocproc, freeproc, kfork, reparent, kexit and kwait. The
-- memory, the page tables and the open files of the kernel are behind an interface, whose state goes
-- through each call. Saving `context` is left out, since no modelled function reads it.
pub mod Pids
pub mod Fresh
use group10os.Prelude.{
  ℕ, zero, suc, ◌+◌, ◌-◌, Bool, true, false, not, ◌&&◌, ◌||◌, List, [], ◌∷◌, Option, none, some,
  ltb, ◌==◌, if◌then◌else◌, get_elem?, get_or, length,
}
use group10os.Prelude.Memory.{Mem, store}
use group10os.Prelude.Int.{ℤ, pos, negsuc}
use group10os.Str.{safestrcpy}
use group10os.Proc.{
  Proc, ProcState, unused, used, runnable, zombie, is_unused, is_zombie, Chan, no_chan, of_proc,
  Kernel, update_at,
}
use group10os.Proc.Signal.{wakeup}

-- What proc.c uses of the other parts of the kernel. A null pointer is 0.
pub record Services : Type 1 where
  pub World : Type 0
  pub kalloc : World → ℕ × World
  pub kfree : ℕ → World → World
  -- given the trapframe
  pub proc_pagetable : ℕ → World → ℕ × World
  pub proc_freepagetable : ℕ → ℕ → World → World
  -- whether the copy succeeded
  pub uvmcopy : ℕ → ℕ → ℕ → World → Bool × World
  -- whether the status reached the user's memory
  pub copyout_status : ℕ → ℕ → ℤ → World → Bool × World
  pub filedup : ℕ → World → World
  pub fileclose : ℕ → World → World
  pub idup : ℕ → World → World
  -- between begin_op and end_op
  pub iput : ℕ → World → World

-- The index of the first UNUSED entry.
unfoldable pub find_unused : List Proc → ℕ → Option ℕ
find_unused [] i = none
find_unused (p ∷ ps) i = if is_unused p.state then some i else find_unused ps (i + 1)

abbrev pub claimed : ℕ → Proc → Proc
claimed pid p = record p {
  pid = pid;
  state = used;
  waiting_tick = 0;
  cpu_quota = 20;
  cpu_used_in_window = 0;
  throttled = false;
  quota_violations = 0;
}

-- The fields that freeproc clears.
abbrev pub freed : Proc → Proc
freed p = record p {
  trapframe = 0;
  pagetable = 0;
  sz = 0;
  pid = 0;
  parent = none;
  name = store p.name 0 0;
  chan = no_chan;
  killed = false;
  xstate = pos 0;
  state = unused;
}

-- `safestrcpy(np->name, p->name, sizeof(p->name))`, with the two names side by side in one memory.
copy_name : (ℕ → ℕ) → (ℕ → ℕ) → ℕ → ℕ
copy_name old src = safestrcpy (λ a. if ltb a 16 then old a else src (a - 16)) 0 16 16

-- A slot that is empty in the parent is left as it is in the child.
merge_files : List ℕ → List ℕ → List ℕ
merge_files [] ys = ys
merge_files (x ∷ xs) [] = []
merge_files (x ∷ xs) (y ∷ ys) = (if x == 0 then y else x) ∷ merge_files xs ys

-- The offset of `a0` in `struct trapframe`.
abbrev a0 : ℕ
a0 = 112

-- What kfork sets in the child.
abbrev pub forked : Proc → ℕ → Proc → Proc
unfolding copy_name merge_files
forked p me np = record np {
  sz = p.sz;
  frame = store p.frame a0 0;
  ofile = merge_files p.ofile np.ofile;
  cwd = p.cwd;
  name = copy_name np.name p.name;
  parent = some me;
  state = runnable;
}

abbrev pub is_child_of : ℕ → Proc → Bool
is_child_of me p = elim p.parent [ none ↦ false | some j ↦ j == me ]

-- reparent, from index `i` on with `n` entries left.
reparent_from : ℕ → ℕ → ℕ → ℕ → List Proc → List Proc
reparent_from zero i me init procs = procs
reparent_from (suc n) i me init procs =
    let child : Bool = elim (get_elem? procs i) [ none ↦ false | some pp ↦ is_child_of me pp ] in
    let given = update_at procs i (λ pp. record pp { parent = some init }) in
    reparent_from n (i + 1) me init (if child then wakeup (some me) (of_proc init) given else procs)

pub reparent : ℕ → ℕ → List Proc → List Proc
unfolding reparent_from
reparent me init procs = reparent_from (length procs) 0 me init procs

abbrev pub becomes_zombie : ℤ → Proc → Proc
becomes_zombie status p = record p { xstate = status; state = zombie }

abbrev pub parent_chan : Proc → Chan
parent_chan p = elim p.parent [ none ↦ no_chan | some j ↦ of_proc j ]

abbrev pub no_files : List ℕ → List ℕ
no_files [] = []
no_files (f ∷ fs) = 0 ∷ no_files fs

-- The first zombie among the children, and whether there are children.
find_zombie : ℕ → List Proc → ℕ → Option ℕ
find_zombie me [] i = none
find_zombie me (p ∷ ps) i =
    if is_child_of me p && is_zombie p.state then some i else find_zombie me ps (i + 1)

has_children : ℕ → List Proc → Bool
has_children me [] = false
has_children me (p ∷ ps) = is_child_of me p || has_children me ps

module _ (S : Services) where
  open S use {
    World, kalloc, kfree, proc_pagetable, proc_freepagetable, uvmcopy, copyout_status, filedup,
    fileclose, idup, iput,
  }

  abbrev beside {ℓ} : {A : Type ℓ} → A → Kernel × World → A × Kernel × World
  beside a r = (a, r.0, r.1)

  abbrev release_memory : Proc → World → World
  release_memory p w =
      let w' = if p.trapframe == 0 then w else kfree p.trapframe w in
      if p.pagetable == 0 then w' else proc_freepagetable p.pagetable p.sz w'

  pub freeproc : ℕ → Kernel → World → Kernel × World
  freeproc i k w = elim (get_elem? k.procs i) [
    | none ↦ (k, w)
    | some p ↦ (record k { procs = update_at k.procs i freed }, release_memory p w)
  ]

  -- allocproc behind `found`.
  claim : ℕ → Kernel → World → Option ℕ × Kernel × World
  unfolding freeproc
  claim i k w =
      let k1 = record k {
        procs = update_at k.procs i (claimed k.nextpid);
        nextpid = k.nextpid + 1;
      } in
      let (tf, w1) = kalloc w in
      let k2 = record k1 { procs = update_at k1.procs i (λ p. record p { trapframe = tf }) } in
      let (pt, w2) = proc_pagetable tf w1 in
      let k3 = record k2 { procs = update_at k2.procs i (λ p. record p { pagetable = pt }) } in
      if tf == 0
      then beside none (freeproc i k2 w1)
      else if pt == 0
      then beside none (freeproc i k3 w2)
      else (some i, k3, w2)

  unfoldable pub allocproc : Kernel → World → Option ℕ × Kernel × World
  unfolding find_unused claim
  allocproc k w = elim (find_unused k.procs 0) [ none ↦ (none, k, w) | some i ↦ claim i k w ]

  dup_files : List ℕ → World → World
  dup_files [] w = w
  dup_files (f ∷ fs) w = dup_files fs (if f == 0 then w else filedup f w)

  -- kfork once the child has the entry `i`; `p` is the parent.
  fork_into : ℕ → Proc → ℕ → Kernel → World → ℤ × Kernel × World
  unfolding freeproc dup_files
  fork_into me p i k w = elim (get_elem? k.procs i) [
    | none ↦ (negsuc 0, k, w)
    | some np ↦
        let (ok, w1) = uvmcopy p.pagetable np.pagetable p.sz w in
        let w2 = idup p.cwd (dup_files p.ofile w1) in
        if not ok
        then beside (negsuc 0) (freeproc i k w1)
        else (pos np.pid, record k { procs = update_at k.procs i (forked p me) }, w2)
  ]

  pub kfork : ℕ → Kernel → World → ℤ × Kernel × World
  unfolding allocproc fork_into
  kfork me k w =
      let (slot, k1, w1) = allocproc k w in
      elim slot [
        | none ↦ (negsuc 0, k1, w1)
        | some i ↦ elim (get_elem? k1.procs me) [
          | none ↦ (negsuc 0, k1, w1)
          | some p ↦ fork_into me p i k1 w1
        ]
      ]

  close_files : List ℕ → World → World
  close_files [] w = w
  close_files (f ∷ fs) w = close_files fs (if f == 0 then w else fileclose f w)

  -- `none` is the panic of the init process. Then the process gives up the processor for good.
  pub kexit : ℕ → ℤ → Kernel → World → Option (Kernel × World)
  unfolding close_files reparent
  kexit me status k w = elim (get_elem? k.procs me) [
    | none ↦ none
    | some p ↦
        let w' = iput p.cwd (close_files p.ofile w) in
        let closed = update_at k.procs me (λ q. record q { ofile = no_files q.ofile; cwd = 0 }) in
        let given = reparent me k.initproc closed in
        let woken = wakeup (some me) (parent_chan p) given in
        if me == k.initproc
        then none
        else some (record k { procs = update_at woken me (becomes_zombie status) }, w')
  ]

  -- One scan of kwait; `none` means that the process goes to sleep until a child exits.
  pub kwait : ℕ → ℕ → Kernel → World → Option (ℤ × Kernel × World)
  unfolding freeproc find_zombie has_children
  kwait me address k w = elim (get_elem? k.procs me) [
    | none ↦ none
    | some p ↦ elim (find_zombie me k.procs 0) [
      | none ↦ if not (has_children me k.procs) || p.killed then some (negsuc 0, k, w) else none
      | some i ↦ elim (get_elem? k.procs i) [
        | none ↦ none
        | some pp ↦
            let (ok, w') = copyout_status p.pagetable address pp.xstate w in
            if address == 0
            then some (beside (pos pp.pid) (freeproc i k w))
            else if ok
            then some (beside (pos pp.pid) (freeproc i k w'))
            else some (negsuc 0, k, w')
      ]
    ]
  ]
