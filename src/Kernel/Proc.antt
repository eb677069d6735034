-- ===== src/Kernel/Proc.antt =====
-- ex3/q1/xv6/proc.c: the process table. A process is its index in `ptable.proc`; pointers to processes
-- are indices, and a channel is a number: the index of a process, or one from `nproc` on. What runs under `ptable.lock` is one atomic step. Whether
-- `kalloc` and `copyuvm` succeed is an argument. Registers, page tables, stacks and names are left out;
-- the files, the directory and the semaphores of a process are in other modules.
pub mod Tree
pub mod Forks
pub mod Lives
pub mod Pids
mod Tests
use operating_systems_soluti.Base.{
  ℕ, zero, suc, ◌+◌, ◌-◌, ◌*◌, ◌/◌, ◌%◌, ◌^◌, ◌≤◌, ◌<◌, ◌≡◌, refl, sym, ap, subst, fun_ext, ◌∙◌,
  ◌≢◌, ◌↔◌, ◌⊎◌, inl, inr, Bool, true, false, not, ◌&&◌, ◌||◌, Option, none, some, List, [], ◌∷◌,
  ◌++◌, map, arith, dec_lt, ℕ_discrete, ltb, leb, ◌==◌, if◌then◌else◌, ltb→lt, lt→ltb, ==_refl,
  Bool-cases, Option-cases, length, get_elem?, take, drop, length-append, take-append-drop,
  length-take, length-drop, update, find_from, find, find_from-some, find_from-before,
  find_from-none, find_from-intro, find_from-eq_none, total, total-update, total-weight_le,
  total-bound, total-const, seek, ℤ, pos, negsuc, pos_part, neg_part, sub_ℕ, ◌+ℤ◌, ◌-ℤ◌, ◌*ℤ◌, ◌≤ℤ◌,
  ◌<ℤ◌, ltb_ℤ, eqb_ℤ, +ℤ_parts, -ℤ_parts, *ℤ_parts, eq_of_parts, int_laws, int_max, inc, dec,
}

pub data ProcState : Type 0 where
  unused embryo sleeping runnable running zombie : ProcState

pub record Proc : Type 0 where
  pub state : ProcState
  pub pid : ℤ
  pub parent : Option ℕ
  pub killed : Bool
  pub chan : Option ℕ

abbrev pub nproc : ℕ
nproc = 64

pub record PTable : Type 0 where
  pub proc : ℕ → Proc
  pub nextpid : ℤ

abbrev pub is_state : ProcState → ProcState → Bool
is_state unused unused = true
is_state embryo embryo = true
is_state sleeping sleeping = true
is_state runnable runnable = true
is_state running running = true
is_state zombie zombie = true
is_state _ _ = false

abbrev pub is_ptr : Option ℕ → ℕ → Bool
is_ptr none q = false
is_ptr (some p) q = p == q

abbrev pub set_proc : PTable → ℕ → Proc → PTable
set_proc t i p = record t { proc = update t.proc i p }

abbrev pub set_state : PTable → ℕ → ProcState → PTable
set_state t i s = set_proc t i (record (t.proc i) { state = s })

-- `allocproc` in the slot that the search has found.
abbrev pub alloc_at : Bool → PTable → Option ℕ → PTable × Option ℕ
alloc_at kalloc_ok t none = (t, none)
alloc_at kalloc_ok t (some i) =
    let t' : PTable = record {
      proc = update t.proc i (record (t.proc i) { state = embryo; pid = t.nextpid });
      nextpid = inc t.nextpid;
    } in
    if kalloc_ok then (t', some i) else (set_state t' i unused, none)

unfoldable pub allocproc : Bool → PTable → PTable × Option ℕ
allocproc kalloc_ok t = alloc_at kalloc_ok t (find (λ i. is_state (t.proc i).state unused) nproc)

-- The rest of `fork`, in the slot that `allocproc` has returned.
abbrev pub fork_at : Bool → ℕ → PTable × Option ℕ → PTable × ℤ
fork_at copy_ok curproc (t, none) = (t, negsuc 0)
fork_at copy_ok curproc (t, some i) =
    if copy_ok
    then (
      set_proc t i (record (t.proc i) { parent = some curproc; state = runnable }),
      (t.proc i).pid,
    )
    else (set_state t i unused, negsuc 0)

-- `fork` with nothing between its critical sections: the entry is embryonic, without a parent, only inside.
unfoldable pub fork : Bool → Bool → ℕ → PTable → PTable × ℤ
unfolding allocproc
fork kalloc_ok copy_ok curproc t = fork_at copy_ok curproc (allocproc kalloc_ok t)

abbrev pub same_chan : Option ℕ → Option ℕ → Bool
same_chan (some a) (some b) = a == b
same_chan _ _ = false

-- What `wakeup1` does to one process.
abbrev pub woken : Option ℕ → Proc → Proc
woken c p =
    if is_state p.state sleeping && same_chan p.chan c then record p { state = runnable } else p

-- `wakeup1`, and `wakeup`
unfoldable pub wakeup1 : Option ℕ → PTable → PTable
wakeup1 c t = record t { proc = λ i. if ltb i nproc then woken c (t.proc i) else t.proc i }

-- A process sleeps in `wait` on the address of its own entry.
abbrev pub chan_of : ℕ → Option ℕ
chan_of p = some p

-- The body of the loop of `exit` over the children.
abbrev pub abandon : ℕ → ℕ → ℕ → PTable → PTable
abandon initproc curproc i t =
    if is_ptr (t.proc i).parent curproc
    then (let t' = set_proc t i (record (t.proc i) { parent = some initproc }) in
        if is_state (t.proc i).state zombie then wakeup1 (chan_of initproc) t' else t')
    else t

pub abandon_from : ℕ → ℕ → ℕ → ℕ → PTable → PTable
unfolding wakeup1
abandon_from initproc curproc zero i t = t
abandon_from initproc curproc (suc n) i t =
    abandon_from initproc curproc n (i + 1) (abandon initproc curproc i t)

-- `wakeup1(curproc->parent)` with a null parent wakes nobody.
abbrev pub wake_parent : Option ℕ → PTable → PTable
wake_parent none t = t
wake_parent (some q) t = wakeup1 (chan_of q) t

-- `exit` from the acquisition of `ptable.lock`; `none` is the panic of the first process.
unfoldable pub exit : ℕ → ℕ → PTable → Option PTable
unfolding abandon_from wakeup1
exit initproc curproc t =
    if curproc == initproc
    then none
    else some (
        set_state (abandon_from initproc curproc nproc 0 (wake_parent (t.proc curproc).parent t))
          curproc zombie)

pub data Waited : Type 0 where
  returned : ℤ → Waited
  slept : Waited

abbrev pub freed : Proc → Proc
freed p = record p { pid = pos 0; parent = none; killed = false; state = unused }

abbrev pub is_dead_child : ℕ → Proc → Bool
is_dead_child curproc p = is_ptr p.parent curproc && is_state p.state zombie

-- One pass of the loop of `wait`, which may end asleep on the entry of the caller.
abbrev pub wait_found : ℕ → PTable → Option ℕ → Bool → PTable × Waited
wait_found curproc t (some i) kids = (set_proc t i (freed (t.proc i)), returned (t.proc i).pid)
wait_found curproc t none kids =
    if not kids || (t.proc curproc).killed then (t, returned (negsuc 0)) else (
      set_proc t curproc (record (t.proc curproc) { state = sleeping; chan = chan_of curproc }),
      slept,
    )

abbrev pub has_kids : ℕ → PTable → Bool
has_kids curproc t = elim (find (λ i. is_ptr (t.proc i).parent curproc) nproc) [
  | none ↦ false
  | some i ↦ true
]

unfoldable pub wait_round : ℕ → PTable → PTable × Waited
wait_round curproc t =
    wait_found curproc t (find (λ i. is_dead_child curproc (t.proc i)) nproc) (has_kids curproc t)

abbrev pub kill_found : PTable → Option ℕ → PTable × ℤ
kill_found t none = (t, negsuc 0)
kill_found t (some i) = (
  set_proc t i (record (t.proc i) {
    killed = true;
    state = if is_state (t.proc i).state sleeping then runnable else (t.proc i).state;
  }),
  pos 0,
)

unfoldable pub kill : ℤ → PTable → PTable × ℤ
kill pid t = kill_found t (find (λ i. eqb_ℤ (t.proc i).pid pid) nproc)

-- `sleep`, up to the switch to the scheduler.
unfoldable pub sleep : ℕ → ℕ → PTable → PTable
sleep curproc c t = set_proc t curproc (record (t.proc curproc) { chan = some c; state = sleeping })

unfoldable pub yield : ℕ → PTable → PTable
yield curproc t = set_state t curproc runnable

-- One entry of the loop of `scheduler`: the process is run if it can be.
unfoldable pub schedule : ℕ → PTable → PTable
schedule i t = if is_state (t.proc i).state runnable then set_state t i running else t
