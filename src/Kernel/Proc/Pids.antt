-- ===== src/Kernel/Proc/Pids.antt =====
-- Process identifiers in ex3/q1/xv6/proc.c.
use operating_systems_soluti.Base.{
  ℕ, ◌<◌, ◌≡◌, refl, ◌≢◌, ◌⊎◌, inl, inr, Bool, true, Option, none, some, arith, Bool-cases, find,
  find_from-intro, pos, negsuc, ◌≤ℤ◌, ◌<ℤ◌, eqb_ℤ, eq_of_parts, int_max, inc,
}
use operating_systems_soluti.Kernel.Proc.{
  unused, sleeping, nproc, PTable, is_state, alloc_at, fork_at, fork, kill,
}
use operating_systems_soluti.Kernel.Proc.Tree.{in_use}

-- No two processes in use share a pid, and all pids have been handed out.
pub record IsNumbered (t : PTable) : Type 0 where
  pub unique :
      (i j : ℕ)
      → in_use (t.proc i) ≡ true
      → in_use (t.proc j) ≡ true
      → (t.proc i).pid ≡ (t.proc j).pid
      → i ≡ j
  pub below : (i : ℕ) → (t.proc i).pid <ℤ t.nextpid
  pub small : t.nextpid ≤ℤ pos int_max

-- `fork` keeps the pids of processes in use distinct until the counter is about to pass the largest
-- `int`, and the pid that it returns, when it succeeds, is one that no process had before.
pub fork-IsNumbered :
    (kalloc_ok copy_ok : Bool) (curproc : ℕ) (t : PTable)
    → IsNumbered t
    → t.nextpid <ℤ pos int_max
    → IsNumbered (fork kalloc_ok copy_ok curproc t).0
      × (((fork kalloc_ok copy_ok curproc t).1 ≡ negsuc 0)
          ⊎ ((i : ℕ) → (t.proc i).pid ≢ (fork kalloc_ok copy_ok curproc t).1))
unfolding fork
fork-IsNumbered kalloc_ok copy_ok curproc t h room =
    go (find (λ i. is_state (t.proc i).state unused) nproc)
  where
    slot :
        (i : ℕ) (u : PTable)
        → u.nextpid ≡ inc t.nextpid
        → ((j : ℕ) → j ≢ i → u.proc j ≡ t.proc j)
        → (u.proc i).pid ≡ t.nextpid
        → IsNumbered u
    slot i u e same new = record {
      unique = λ a b ua ub eq. ground (arith, same a, same b, h.below a, h.below b, h.unique a b);
      below = λ a. ground (arith, same a, h.below a);
      small = ground arith;
    }

    go :
        (r : Option ℕ)
        → IsNumbered (fork_at copy_ok curproc (alloc_at kalloc_ok t r)).0
          × (((fork_at copy_ok curproc (alloc_at kalloc_ok t r)).1 ≡ negsuc 0)
              ⊎ ((i : ℕ) → (t.proc i).pid ≢ (fork_at copy_ok curproc (alloc_at kalloc_ok t r)).1))
    go none = (h, inl refl)
    go (some i) = elim (Bool-cases kalloc_ok) [
      | inr fail ↦ rw fail (slot i _ refl (λ j ne. ground arith) (ground arith), inl refl)
      | inl fine ↦ rw fine (elim (Bool-cases copy_ok) [
        | inl ok ↦ rw ok (
          slot i _ refl (λ j ne. ground arith) (ground arith),
          inr (λ j e. ground (arith, h.below j)),
        )
        | inr bad ↦ rw bad (slot i _ refl (λ j ne. ground arith) (ground arith), inl refl)
      ])
    ]

-- `kill` of the pid of a process in use: if no unused entry still carries the pid, exactly that process
-- is marked, and made runnable if it slept; the call returns 0.
pub kill-marks :
    (t : PTable) (i : ℕ)
    → IsNumbered t
    → i < nproc
    → in_use (t.proc i) ≡ true
    → ((j : ℕ) → (t.proc j).pid ≡ (t.proc i).pid → in_use (t.proc j) ≡ true)
    → ((kill (t.proc i).pid t).1 ≡ pos 0)
      × (((kill (t.proc i).pid t).0.proc i).killed ≡ true)
      × (((kill (t.proc i).pid t).0.proc i).state ≢ sleeping)
      × ((j : ℕ) → j ≢ i → (kill (t.proc i).pid t).0.proc j ≡ t.proc j)
unfolding kill
kill-marks t i h lt busy clean =
    let hit : find (λ j. eqb_ℤ (t.proc j).pid (t.proc i).pid) nproc ≡ some i =
      find_from-intro (λ j. eqb_ℤ (t.proc j).pid (t.proc i).pid) nproc 0 i (omega arith)
        (omega arith) (ground arith)
        (λ j below.
          ground (arith, h.unique i j, clean j, eq_of_parts (t.proc j).pid (t.proc i).pid)) in
    rw hit (refl, ground arith, ground arith, λ j ne. ground arith)
