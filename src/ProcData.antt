-- ===== src/ProcData.antt =====
-- ex2/q2/xv6: the system call `get_proc_data` (proc.c and sysfile.c).
-- The process table is that of ex3/q1/xv6/proc.c, whose entries also have a name. The
-- array `pids` of the caller is the memory from its first word on, so that writes behind its end are seen.
pub mod Children
mod Tests
use operating_systems_soluti.Base.{
  ℕ, zero, suc, ◌+◌, ◌-◌, ◌*◌, ◌/◌, ◌%◌, ◌^◌, ◌≤◌, ◌<◌, ◌≡◌, refl, sym, ap, subst, fun_ext, ◌∙◌,
  ◌≢◌, ◌↔◌, ◌⊎◌, inl, inr, Bool, true, false, not, ◌&&◌, ◌||◌, Option, none, some, List, [], ◌∷◌,
  ◌++◌, map, arith, dec_lt, ℕ_discrete, ltb, leb, ◌==◌, if◌then◌else◌, ltb→lt, lt→ltb, ==_refl,
  Bool-cases, Option-cases, length, get_elem?, take, drop, length-append, take-append-drop,
  length-take, length-drop, count, count-append, update, find_from, find, find_from-some,
  find_from-before, find_from-none, find_from-intro, find_from-eq_none, total, total-update,
  total-weight_le, total-bound, total-const, seek, update_self, update-ne, update_twice-ne, ℤ, pos,
  negsuc, pos_part, neg_part, sub_ℕ, ◌+ℤ◌, ◌-ℤ◌, ◌*ℤ◌, ◌≤ℤ◌, ◌<ℤ◌, ltb_ℤ, eqb_ℤ, +ℤ_parts, -ℤ_parts,
  *ℤ_parts, eq_of_parts, int_laws, int_max, inc, dec,
}
use operating_systems_soluti.Kernel.Proc.{PTable, Proc, ProcState, unused, is_state, is_ptr, nproc}
use operating_systems_soluti.Kernel.Strings.{Bytes, strncpy}

abbrev pub max_children : ℕ
max_children = 10

pub record ProcData : Type 0 where
  pub pid : ℤ
  pub name : Bytes
  pub chld_num : ℕ
  pub pids : ℕ → ℤ

unfoldable pub getprocbypid : ℤ → PTable → Option ℕ
getprocbypid pid t = find (λ i. eqb_ℤ (t.proc i).pid pid) nproc

-- The loop of `getchildrenpid`, with `n` entries to go from `i` on: how many children there are so far, and
-- the array.
pub children_from : ℕ → ℕ → ℕ → PTable → ℕ × (ℕ → ℤ) → ℕ × (ℕ → ℤ)
children_from zero i curproc t (num, children) = (num, children)
children_from (suc n) i curproc t (num, children) = children_from n (i + 1) curproc t (
    if is_ptr (t.proc i).parent curproc
    then (num + 1, update children num (t.proc i).pid)
    else (num, children))

-- `curproc` is what `getprocbypid` has found; without one, NULL is compared, which is no process here.
abbrev pub of_curproc : PTable → (ℕ → ℤ) → Option ℕ → ℕ × (ℕ → ℤ)
of_curproc t children none = (0, children)
of_curproc t children (some q) = children_from nproc 0 q t (0, children)

unfoldable pub getchildrenpid : ℤ → (ℕ → ℤ) → PTable → ℕ × (ℕ → ℤ)
unfolding getprocbypid children_from
getchildrenpid pid children t = of_curproc t children (getprocbypid pid t)

-- `sys_get_proc_data` for the entry that `getprocbypid` has found.
abbrev pub fill_data : (ℕ → Bytes) → ℤ → PTable → ProcData → Option ℕ → ProcData × ℤ
fill_data names pid t dst none = (dst, negsuc 0)
fill_data names pid t dst (some p) = if is_state (t.proc p).state unused then (dst, negsuc 0) else (
  record {
    pid = (t.proc p).pid;
    name = strncpy dst.name (names p) 16;
    chld_num = (getchildrenpid pid dst.pids t).0;
    pids = (getchildrenpid pid dst.pids t).1;
  },
  (t.proc p).pid,
)

-- The argument `pid` is `none` where `argint` or `argptr` fails.
unfoldable pub sys_get_proc_data : (ℕ → Bytes) → Option ℤ → PTable → ProcData → ProcData × ℤ
unfolding getprocbypid getchildrenpid
sys_get_proc_data names none t dst = (dst, negsuc 0)
sys_get_proc_data names (some pid) t dst = fill_data names pid t dst (getprocbypid pid t)
