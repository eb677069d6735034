-- ===== src/ProcData/Children.antt =====
-- The children that `get_proc_data` of ex2/q2/xv6 reports, and where it writes them.
use operating_systems_soluti.Base.{
  ℕ, zero, suc, ◌+◌, ◌≤◌, ◌<◌, ◌≡◌, refl, ap, ◌∙◌, ◌⊎◌, inl, inr, true, false, Option, none, some,
  List, [], ◌∷◌, arith, if◌then◌else◌, Bool-cases, length, get_elem?, update, update_self, ℤ,
  negsuc,
}
use operating_systems_soluti.Kernel.Proc.{PTable, unused, is_state, is_ptr, nproc}
use operating_systems_soluti.Kernel.Strings.{Bytes, strncpy}
use operating_systems_soluti.ProcData.{
  ProcData, getprocbypid, children_from, getchildrenpid, fill_data, sys_get_proc_data,
}

-- The process identifiers of the children of `q` among `n` entries from `i` on, in the order of the table.
unfoldable pub child_pids : ℕ → ℕ → ℕ → PTable → List ℤ
child_pids zero i q t = []
child_pids (suc n) i q t =
    let rest = child_pids n (i + 1) q t in
    if is_ptr (t.proc i).parent q then (t.proc i).pid ∷ rest else rest

-- A list written into an array from index `at` on.
unfoldable pub laid : List ℤ → ℕ → (ℕ → ℤ) → ℕ → ℤ
laid [] at m = m
laid (v ∷ vs) at m = laid vs (at + 1) (update m at v)

children_from-laid :
    (n i q : ℕ) (t : PTable) (num : ℕ) (m : ℕ → ℤ)
    → children_from n i q t (num, m)
      ≡ (num + length (child_pids n i q t), laid (child_pids n i q t) num m)
unfolding children_from child_pids laid
children_from-laid zero i q t num m = let e : num + 0 ≡ num = omega arith in rw e refl
children_from-laid (suc n) i q t num m = elim (Bool-cases (is_ptr (t.proc i).parent q)) [
  | inl child ↦
      let e : num + suc (length (child_pids n (i + 1) q t))
          ≡ num + 1 + length (child_pids n (i + 1) q t) =
        omega arith in
      rw (child, e) (children_from-laid n (i + 1) q t (num + 1) (update m num (t.proc i).pid))
  | inr other ↦ rw other (children_from-laid n (i + 1) q t num m)
]

-- Nothing is written in front of the list or behind it.
laid-outside :
    (vs : List ℤ) (at : ℕ) (m : ℕ → ℤ) (k : ℕ)
    → (k < at) ⊎ (at + length vs ≤ k)
    → laid vs at m k ≡ m k
unfolding laid
laid-outside [] at m k out = refl
laid-outside (v ∷ vs) at m k (inl before) =
    laid-outside vs (at + 1) (update m at v) k (inl (omega arith)) ∙ ground arith
laid-outside (v ∷ vs) at m k (inr after) =
    laid-outside vs (at + 1) (update m at v) k (inr (omega arith)) ∙ ground arith

laid-inside :
    (vs : List ℤ) (at : ℕ) (m : ℕ → ℤ) (k : ℕ)
    → k < length vs
    → some (laid vs at m (at + k)) ≡ get_elem? vs k
unfolding laid
laid-inside [] at m k lt = absurd (omega arith)
laid-inside (v ∷ vs) at m zero lt =
    let z : at + 0 ≡ at = omega arith in
    rw z (
      ap some
        (laid-outside vs (at + 1) (update m at v) at (inl (omega arith)) ∙ update_self m at v))
laid-inside (v ∷ vs) at m (suc k) lt =
    let e : at + suc k ≡ at + 1 + k = omega arith in
    rw e (laid-inside vs (at + 1) (update m at v) k (omega arith))

laid_start :
    (vs : List ℤ) (m : ℕ → ℤ) (k : ℕ) → k < length vs → some (laid vs 0 m k) ≡ get_elem? vs k
laid_start vs m k lt = let e : 0 + k ≡ k = omega arith in rw e at (laid-inside vs 0 m k lt)

-- What the caller gets for the entry `p`.
pub record Reported (names : ℕ → Bytes) (t : PTable) (dst : ProcData) (p : ℕ) (r : ProcData × ℤ)
    : Type 0 where
  pub result : r.1 ≡ (t.proc p).pid
  pub same_pid : r.0.pid ≡ (t.proc p).pid
  pub same_name : r.0.name ≡ strncpy dst.name (names p) 16
  pub number : r.0.chld_num ≡ length (child_pids nproc 0 p t)
  pub children :
      (k : ℕ)
      → k < length (child_pids nproc 0 p t)
      → some (r.0.pids k) ≡ get_elem? (child_pids nproc 0 p t) k
  pub untouched : (k : ℕ) → length (child_pids nproc 0 p t) ≤ k → r.0.pids k ≡ dst.pids k

-- `get_proc_data` of a process: the first entry with this pid, if it is in use; -1, with nothing written, just if
-- there is no entry with the pid or the first one is unused. The caller gets the pid, sixteen bytes of the name,
-- and the number of the children with their pids in the order of the table; the word at an index of `pids` is written just if there are more children than
-- that, also when the index is not below the length 10 of that array.
pub get_proc_data-Reported :
    (names : ℕ → Bytes) (pid : ℤ) (t : PTable) (dst : ProcData)
    → ((p : ℕ) × (getprocbypid pid t ≡ some p)
        × (is_state (t.proc p).state unused ≡ false)
        × Reported names t dst p (sys_get_proc_data names (some pid) t dst))
      ⊎ ((sys_get_proc_data names (some pid) t dst ≡ (dst, negsuc 0))
          × ((p : ℕ) → getprocbypid pid t ≡ some p → is_state (t.proc p).state unused ≡ true))
unfolding sys_get_proc_data getchildrenpid
get_proc_data-Reported names pid t dst = go (getprocbypid pid t) refl
  where
    go :
        (v : Option ℕ)
        → getprocbypid pid t ≡ v
        → ((p : ℕ) × (v ≡ some p)
            × (is_state (t.proc p).state unused ≡ false)
            × Reported names t dst p (fill_data names pid t dst v))
          ⊎ ((fill_data names pid t dst v ≡ (dst, negsuc 0))
              × ((p : ℕ) → v ≡ some p → is_state (t.proc p).state unused ≡ true))
    go none e = inr (refl, λ p q. cc)
    go (some p) e = elim (Bool-cases (is_state (t.proc p).state unused)) [
      | inl free ↦ inr (rw free refl, λ q s. ground (arith, s, free))
      | inr used ↦
          let c : getchildrenpid pid dst.pids t
              ≡ (0 + length (child_pids nproc 0 p t), laid (child_pids nproc 0 p t) 0 dst.pids) =
            rw e (children_from-laid nproc 0 p t 0 dst.pids) in
          inl (
            p,
            refl,
            used,
            rw used (record {
              result = refl;
              same_pid = refl;
              same_name = refl;
              number = ap (λ q. q.0) c ∙ omega arith;
              children = λ k lt.
                  ap (λ q. some (q.1 k)) c ∙ laid_start (child_pids nproc 0 p t) dst.pids k lt;
              untouched = λ k le.
                  ap (λ q. q.1 k) c
                  ∙ laid-outside (child_pids nproc 0 p t) 0 dst.pids k (inr (omega arith));
            }),
          )
    ]
