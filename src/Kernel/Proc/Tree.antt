-- ===== src/Kernel/Proc/Tree.antt =====
-- The process tree of ex3/q1/xv6/proc.c: no process loses its parent.
use operating_systems_soluti.Base.{
  ℕ, zero, suc, ◌+◌, ◌<◌, ◌≡◌, refl, sym, ◌∙◌, ◌≢◌, ◌⊎◌, inl, inr, Bool, true, not, ◌&&◌, ◌||◌,
  Option, none, some, arith, ltb, leb, ◌==◌, if◌then◌else◌, Bool-cases, find, find_from-some, ℤ,
  eqb_ℤ,
}
use operating_systems_soluti.Kernel.Proc.{
  unused, runnable, running, zombie, Proc, nproc, PTable, is_state, is_ptr, set_proc, wakeup1,
  abandon, abandon_from, kill_found, kill, schedule, exit, set_state, wait_round, wake_parent,
  chan_of, freed, is_dead_child, wait_found, has_kids, sleeping,
}

-- In use and not dead: the process can still call `wait`.
abbrev pub is_alive : Proc → Bool
is_alive p = not (is_state p.state unused) && not (is_state p.state zombie)

abbrev pub in_use : Proc → Bool
in_use p = not (is_state p.state unused)

-- Every process in use but the first has a parent that is alive, and the first is alive.
pub record IsTree (initproc : ℕ) (t : PTable) : Type 0 where
  pub init_in : initproc < nproc
  pub init_alive : is_alive (t.proc initproc) ≡ true
  pub parented :
      (i : ℕ)
      → i < nproc
      → in_use (t.proc i) ≡ true
      → i ≢ initproc
      → (q : ℕ) × ((t.proc i).parent ≡ some q) × (q < nproc) × (is_alive (t.proc q) ≡ true)

-- A change that keeps parents, and keeps the living alive and the unused unused, keeps the tree.
pub record Keeps (t u : PTable) : Type 0 where
  pub parent : (i : ℕ) → (u.proc i).parent ≡ (t.proc i).parent
  pub alive : (i : ℕ) → is_alive (t.proc i) ≡ true → is_alive (u.proc i) ≡ true
  pub used : (i : ℕ) → in_use (u.proc i) ≡ true → in_use (t.proc i) ≡ true

pub Keeps-IsTree : {initproc : ℕ} {t u : PTable} → Keeps t u → IsTree initproc t → IsTree initproc u
Keeps-IsTree {initproc} k h = record {
  init_in = h.init_in;
  init_alive = k.alive initproc h.init_alive;
  parented = λ i lt busy ne.
      let (q, e, lt', al) = h.parented i lt (k.used i busy) ne in
      (q, k.parent i ∙ e, lt', k.alive q al);
}

pub wakeup1-Keeps : (c : Option ℕ) (t : PTable) → Keeps t (wakeup1 c t)
unfolding wakeup1
wakeup1-Keeps c t = record {
  parent = λ i. ground arith;
  alive = λ i h. ground arith;
  used = λ i h. ground arith;
}

pub kill-Keeps : (pid : ℤ) (t : PTable) → Keeps t (kill pid t).0
unfolding kill
kill-Keeps pid t = go (find (λ i. eqb_ℤ (t.proc i).pid pid) nproc)
  where
    go : (r : Option ℕ) → Keeps t (kill_found t r).0
    go none = record { parent = λ i. refl; alive = λ i h. h; used = λ i h. h }
    go (some j) = record {
      parent = λ i. ground arith;
      alive = λ i h. ground arith;
      used = λ i h. ground arith;
    }

-- A change of the state of one process among the living.
state-Keeps :
    (i : ℕ) (t : PTable) (p : Proc)
    → is_alive (t.proc i) ≡ true
    → is_alive p ≡ true
    → p.parent ≡ (t.proc i).parent
    → Keeps t (set_proc t i p)
state-Keeps i t p h h' e = record {
  parent = λ j. ground (arith, e);
  alive = λ j a. ground (arith, h');
  used = λ j a. ground (arith, h);
}

pub schedule-Keeps : (i : ℕ) (t : PTable) → Keeps t (schedule i t)
unfolding schedule
schedule-Keeps i t = elim (Bool-cases (is_state (t.proc i).state runnable)) [
  | inl run ↦
      rw run (state-Keeps i t (record (t.proc i) { state = running }) (ground arith) refl refl)
  | inr other ↦ rw other (record { parent = λ j. refl; alive = λ j h. h; used = λ j h. h })
]

module _ (initproc curproc : ℕ) where
  -- The table after the entries from `lo` up to `hi` have been looked at.
  record Abandoned (lo hi : ℕ) (t u : PTable) : Type 0 where
    parent :
        (j : ℕ)
        → (u.proc j).parent ≡ (
            if leb lo j && (ltb j hi && is_ptr (t.proc j).parent curproc)
            then some initproc
            else (t.proc j).parent)
    alive : (j : ℕ) → is_alive (t.proc j) ≡ true → is_alive (u.proc j) ≡ true
    used : (j : ℕ) → in_use (u.proc j) ≡ true → in_use (t.proc j) ≡ true

  abandon-Abandoned : (i : ℕ) (t : PTable) → Abandoned i (i + 1) t (abandon initproc curproc i t)
  unfolding wakeup1
  abandon-Abandoned i t = record {
    parent = λ j. ground arith;
    alive = λ j h. ground arith;
    used = λ j h. ground arith;
  }

  abandon_from-Abandoned :
      (n i k : ℕ) (t : PTable)
      → curproc ≢ initproc
      → i + n ≡ k
      → Abandoned i k t (abandon_from initproc curproc n i t)
  unfolding abandon_from
  abandon_from-Abandoned zero i k t ne e = record {
    parent = λ j. ground arith;
    alive = λ j h. h;
    used = λ j h. h;
  }
  abandon_from-Abandoned (suc n) i k t ne e =
      let u = abandon initproc curproc i t in
      let one = abandon-Abandoned i t in
      let rest = abandon_from-Abandoned n (i + 1) k u ne (omega arith) in
      record {
        parent = λ j. ground (arith, one.parent j, rest.parent j);
        alive = λ j h. rest.alive j (one.alive j h);
        used = λ j h. one.used j (rest.used j h);
      }

-- What `exit` leaves behind: the caller is dead, nobody has it as a parent, and its children have the
-- first process instead.
pub record Exited (initproc curproc : ℕ) (t u : PTable) : Type 0 where
  pub dead : (u.proc curproc).state ≡ zombie
  pub childless : (j : ℕ) → j < nproc → (u.proc j).parent ≢ some curproc
  pub adopted :
      (j : ℕ) → j < nproc → (t.proc j).parent ≡ some curproc → (u.proc j).parent ≡ some initproc
  pub others : (j : ℕ) → (t.proc j).parent ≢ some curproc → (u.proc j).parent ≡ (t.proc j).parent
  pub alive : (j : ℕ) → j ≢ curproc → is_alive (t.proc j) ≡ true → is_alive (u.proc j) ≡ true
  pub used : (j : ℕ) → in_use (u.proc j) ≡ true → (j ≡ curproc) ⊎ (in_use (t.proc j) ≡ true)

module _ {initproc curproc : ℕ} (ne : curproc ≢ initproc) (t : PTable) where
  abbrev woken_parent : PTable
  woken_parent = wake_parent (t.proc curproc).parent t

  woken_parent-Keeps : Keeps t woken_parent
  woken_parent-Keeps = go (t.proc curproc).parent
    where
      go : (q : Option ℕ) → Keeps t (wake_parent q t)
      go none = record { parent = λ i. refl; alive = λ i h. h; used = λ i h. h }
      go (some q) = wakeup1-Keeps (chan_of q) t

  abbrev abandoned : PTable
  abandoned = abandon_from initproc curproc nproc 0 woken_parent

  exit-eq : exit initproc curproc t ≡ some (set_state abandoned curproc zombie)
  unfolding exit
  exit-eq = ground arith

  exit-Exited : Exited initproc curproc t (set_state abandoned curproc zombie)
  exit-Exited =
      let k = woken_parent-Keeps in
      let a = abandon_from-Abandoned initproc curproc nproc 0 nproc woken_parent ne (omega arith) in
      record {
        dead = ground arith;
        childless = λ j lt. ground (arith, k.parent j, a.parent j);
        adopted = λ j lt e. ground (arith, k.parent j, a.parent j);
        others = λ j e. ground (arith, k.parent j, a.parent j);
        alive = λ j off h. ground (arith, k.alive j, a.alive j);
        used = λ j h. ground (arith, k.used j, a.used j);
      }

-- `exit` of any living process but the first makes it a zombie, gives all its children to the first process
-- and keeps the tree: every process in use still has a living parent, which can wait for it.
pub exit-IsTree :
    {initproc : ℕ} (curproc : ℕ) (t : PTable)
    → IsTree initproc t
    → curproc ≢ initproc
    → is_alive (t.proc curproc) ≡ true
    → (u : PTable) × (exit initproc curproc t ≡ some u)
      × Exited initproc curproc t u
      × IsTree initproc u
exit-IsTree {initproc} curproc t h ne live =
    let x = exit-Exited ne t in
    let u = set_state (abandoned ne t) curproc zombie in
    (
      u,
      exit-eq ne t,
      x,
      record {
        init_in = h.init_in;
        init_alive = x.alive initproc (λ e. ne (sym e)) h.init_alive;
        parented = λ i lt busy off.
            let (q, e, lt', al) = h.parented i lt (was_used i x busy) off in
            elim (Bool-cases (q == curproc)) [
              | inl same ↦ (
                initproc,
                x.adopted i lt (ground arith),
                h.init_in,
                x.alive initproc (λ e'. ne (sym e')) h.init_alive,
              )
              | inr other ↦ (q, ground (arith, x.others i), lt', x.alive q (ground arith) al)
            ];
      },
    )
  where
    was_used :
        (i : ℕ)
        → Exited initproc curproc t (set_state (abandoned ne t) curproc zombie)
        → in_use ((set_state (abandoned ne t) curproc zombie).proc i) ≡ true
        → in_use (t.proc i) ≡ true
    was_used i x busy = ground (arith, x.used i)

-- A pass of `wait` by a living process keeps the tree: the child that it frees is dead, so it is nobody's parent.
pub wait_round-IsTree :
    {initproc : ℕ} (curproc : ℕ) (t : PTable)
    → IsTree initproc t
    → is_alive (t.proc curproc) ≡ true
    → IsTree initproc (wait_round curproc t).0
unfolding wait_round
wait_round-IsTree {initproc} curproc t h live =
    go (find (λ i. is_dead_child curproc (t.proc i)) nproc) refl
  where
    freed-IsTree :
        (i : ℕ)
        → is_state (t.proc i).state zombie ≡ true
        → IsTree initproc (set_proc t i (freed (t.proc i)))
    freed-IsTree i dead = record {
      init_in = h.init_in;
      init_alive = ground (arith, h.init_alive);
      parented = λ j lt busy off.
          let (q, e, lt', al) = h.parented j lt (ground arith) off in
          (q, ground arith, lt', ground arith);
    }

    go :
        (r : Option ℕ)
        → find (λ i. is_dead_child curproc (t.proc i)) nproc ≡ r
        → IsTree initproc (wait_found curproc t r (has_kids curproc t)).0
    go (some i) e =
        freed-IsTree i
          (ground (arith, find_from-some (λ i. is_dead_child curproc (t.proc i)) nproc 0 i e))
    go none e = elim (Bool-cases (not (has_kids curproc t) || (t.proc curproc).killed)) [
      | inl stop ↦ rw stop h
      | inr go_on ↦ rw go_on (
          Keeps-IsTree
            (state-Keeps curproc t
              (record (t.proc curproc) { state = sleeping; chan = chan_of curproc }) live refl refl)
            h)
    ]
