-- ===== src/Kernel/Proc/Forks.antt =====
-- `fork` of ex3/q1/xv6/proc.c hangs the child under its caller in the process tree.
use operating_systems_soluti.Base.{
  ℕ, ◌<◌, ◌≡◌, refl, sym, ap, subst, ◌∙◌, ◌≢◌, inl, inr, Bool, true, Option, none, some, arith,
  ℕ_discrete, Bool-cases, update, find, find_from-some, update_self, update_twice-ne, ℤ,
}
use operating_systems_soluti.Kernel.Proc.{
  unused, Proc, nproc, PTable, is_state, fork, fork_at, alloc_at,
}
use operating_systems_soluti.Kernel.Proc.Tree.{IsTree, is_alive, in_use}

alive-ne :
    (f : ℕ → Proc) (q i : ℕ) → is_alive (f q) ≡ true → is_state (f i).state unused ≡ true → q ≢ i
alive-ne f q i al free e = clash (f i) (subst (λ k. is_alive (f k) ≡ true) e al) free
  where
    clash : (p : Proc) → is_alive p ≡ true → is_state p.state unused ≡ true → ⊥
    clash p a b = ground arith

-- A slot that was unused ends unused, or with a living parent.
slot-IsTree :
    {initproc : ℕ} (curproc i : ℕ) (t u : PTable)
    → IsTree initproc t
    → curproc < nproc
    → is_alive (t.proc curproc) ≡ true
    → is_state (t.proc i).state unused ≡ true
    → ((j : ℕ) → j ≢ i → u.proc j ≡ t.proc j)
    → (in_use (u.proc i) ≡ true → (u.proc i).parent ≡ some curproc)
    → IsTree initproc u
slot-IsTree {initproc} curproc i t u h cur_in live free same child = record {
  init_in = h.init_in;
  init_alive = still initproc h.init_alive;
  parented = λ j lt busy off. elim (ℕ_discrete j i) [
    | yes here ↦ (curproc, there j here busy, cur_in, still curproc live)
    | no other ↦
        let (q, e, lt', al) =
          h.parented j lt (subst (λ p. in_use p ≡ true) (same j other) busy) off in
        (q, ap (λ (p : Proc). p.parent) (same j other) ∙ e, lt', still q al)
  ];
}
  where
    still : (q : ℕ) → is_alive (t.proc q) ≡ true → is_alive (u.proc q) ≡ true
    still q al = subst (λ p. is_alive p ≡ true) (sym (same q (alive-ne t.proc q i al free))) al

    there : (j : ℕ) → j ≡ i → in_use (u.proc j) ≡ true → (u.proc j).parent ≡ some curproc
    there j here =
        subst (λ k. in_use (u.proc k) ≡ true → (u.proc k).parent ≡ some curproc) (sym here) child

-- A process in a slot, in use only if it is a child of `curproc`.
abbrev IsChild : ℕ → Proc → Type 0
IsChild curproc p = in_use p ≡ true → p.parent ≡ some curproc

module _ {initproc : ℕ} (curproc i : ℕ) (t : PTable) (h : IsTree initproc t)
    (cur_in : curproc < nproc) (live : is_alive (t.proc curproc) ≡ true)
    (free : is_state (t.proc i).state unused ≡ true) where
  twice-IsTree :
      (p q : Proc) (n : ℤ)
      → IsChild curproc q
      → IsTree initproc (record { proc = update (update t.proc i p) i q; nextpid = n })
  twice-IsTree p q n child =
      slot-IsTree curproc i t (record { proc = update (update t.proc i p) i q; nextpid = n }) h
        cur_in live free (λ j ne. update_twice-ne t.proc i p q j ne)
        (subst (IsChild curproc) (sym (update_self (update t.proc i p) i q)) child)

-- `fork` by a living process keeps the tree, whether its allocations succeed or not: the child hangs under the caller.
pub fork-IsTree :
    {initproc : ℕ} (kalloc_ok copy_ok : Bool) (curproc : ℕ) (t : PTable)
    → IsTree initproc t
    → curproc < nproc
    → is_alive (t.proc curproc) ≡ true
    → IsTree initproc (fork kalloc_ok copy_ok curproc t).0
unfolding fork
fork-IsTree {initproc} kalloc_ok copy_ok curproc t h cur_in live =
    go (find (λ i. is_state (t.proc i).state unused) nproc) refl
  where
    go :
        (r : Option ℕ)
        → find (λ i. is_state (t.proc i).state unused) nproc ≡ r
        → IsTree initproc (fork_at copy_ok curproc (alloc_at kalloc_ok t r)).0
    go none e = h
    go (some i) e =
        let free : is_state (t.proc i).state unused ≡ true =
          (find_from-some (λ i. is_state (t.proc i).state unused) nproc 0 i e).0 in
        elim (Bool-cases kalloc_ok) [
          | inr fail ↦ rw fail (twice-IsTree curproc i t h cur_in live free _ _ _ (λ busy. cc))
          | inl fine ↦ rw fine (elim (Bool-cases copy_ok) [
            | inl ok ↦ rw ok (twice-IsTree curproc i t h cur_in live free _ _ _ (λ busy. refl))
            | inr bad ↦ rw bad (twice-IsTree curproc i t h cur_in live free _ _ _ (λ busy. cc))
          ])
        ]
