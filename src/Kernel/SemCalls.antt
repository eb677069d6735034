-- ===== src/Kernel/SemCalls.antt =====
-- ex3/q1/xv6/syssem.c, the system calls on semaphores, with the loops over `osem` that `fork` and
-- `exit` of ex3/q1/xv6/proc.c run. A process is its index in the process table, and a semaphore
-- descriptor holds the slot that `osem[sd]` points to. `argint` and `argstr` read the user's stack:
-- a call takes what they return, `none` where they fail.
pub mod Refs
pub mod Leak
pub mod Lives
mod Tests
use operating_systems_soluti.Base.{
  ℕ, zero, suc, ◌+◌, ◌-◌, ◌*◌, ◌/◌, ◌%◌, ◌^◌, ◌≤◌, ◌<◌, ◌≡◌, refl, sym, ap, subst, fun_ext, ◌∙◌,
  ◌≢◌, ◌↔◌, ◌⊎◌, inl, inr, Bool, true, false, not, ◌&&◌, ◌||◌, Option, none, some, List, [], ◌∷◌,
  ◌++◌, map, arith, dec_lt, ℕ_discrete, ltb, leb, ◌==◌, if◌then◌else◌, ltb→lt, lt→ltb, ==_refl,
  Bool-cases, Option-cases, length, get_elem?, take, drop, length-append, take-append-drop,
  length-take, length-drop, count, count-append, update, find_from, find, find_from-some,
  find_from-before, find_from-none, find_from-intro, find_from-eq_none, total, total-update,
  total-weight_le, total-bound, total-const, seek, update_self, update-ne, update_twice-ne, ℤ, pos,
  negsuc, pos_part, neg_part, sub_ℕ, ◌+ℤ◌, ◌-ℤ◌, ◌*ℤ◌, ◌≤ℤ◌, ◌<ℤ◌, ltb_ℤ, eqb_ℤ, +ℤ_parts, -ℤ_parts,
  *ℤ_parts, eq_of_parts, int_laws, int_max, inc, dec,
}
use operating_systems_soluti.Kernel.Strings.{Bytes}
use operating_systems_soluti.Kernel.Sem.{
  Table, Round, returns, sleeps, set_sem, sem_open, semdup, sem_close, sem_wait_round, sem_try_wait,
  sem_post, sem_reset, find_name, unlink_mark, unlink_round,
}

abbrev pub nosem : ℕ
nosem = 5

abbrev pub nproc : ℕ
nproc = 64

abbrev pub Descriptors : Type 0
Descriptors = ℕ → Option ℕ

pub record Sys : Type 0 where
  pub table : Table
  pub osem : ℕ → Descriptors

-- `proc[p].osem[sd] = v`
abbrev pub set_osem : Sys → ℕ → ℕ → Option ℕ → Sys
set_osem s p sd v = record s { osem = update s.osem p (update (s.osem p) sd v) }

abbrev pub set_table : Sys → Table → Sys
set_table s t = record s { table = t }

abbrev pub is_unused : Option ℕ → Bool
is_unused none = true
is_unused (some i) = false

abbrev pub with_sd : ℕ → Option ℕ → Option (ℕ × ℕ)
with_sd sd none = none
with_sd sd (some i) = some (sd, i)

-- The descriptor and its slot, unless the number is out of range or the descriptor is closed.
pub argsd : Option ℤ → Descriptors → Option (ℕ × ℕ)
argsd none o = none
argsd (some (negsuc n)) o = none
argsd (some (pos sd)) o = if leb nosem sd then none else with_sd sd (o sd)

-- The descriptor that `sys_sem_open` fills: the first that is free.
unfoldable pub free_descriptor : Descriptors → Option ℕ
free_descriptor o = find (λ sd. is_unused (o sd)) nosem

abbrev pub install_at : Sys → ℕ → ℕ → Option ℕ → Sys × ℤ
install_at s p i none = (s, negsuc 0)
install_at s p i (some sd) = (set_osem s p sd (some i), pos sd)

abbrev pub install : Sys → ℕ → Table × Option ℕ → Sys × ℤ
install s p (t, none) = (set_table s t, negsuc 0)
install s p (t, some i) = install_at (set_table s t) p i (free_descriptor (s.osem p))

pub record OpenArgs : Type 0 where
  pub name : Bytes
  pub init : ℤ
  pub max_val : ℤ

-- `pid` is the caller's; `sem_open` runs with nothing between its two critical sections. The arguments are `none` if one of the three cannot be fetched.
unfoldable pub sys_sem_open : ℕ → ℕ → Option OpenArgs → Sys → Sys × ℤ
sys_sem_open p pid none s = (s, negsuc 0)
sys_sem_open p pid (some a) s = install s p (sem_open a.name a.init a.max_val pid s.table)

-- `myproc()->osem[sd] = 0; sem_close(s)`, with whether `wakeup` is called
abbrev pub drop_descriptor : Sys → ℕ → ℕ → ℕ → Sys × Bool
drop_descriptor s p sd i =
    let r = sem_close s.table i in (set_osem (set_table s r.0) p sd none, r.1)

abbrev pub close_found : Sys → ℕ → Option (ℕ × ℕ) → Sys × ℤ × Bool
close_found s p none = (s, negsuc 0, false)
close_found s p (some (sd, i)) = let r = drop_descriptor s p sd i in (r.0, pos 0, r.1)

unfoldable pub sys_sem_close : ℕ → Option ℤ → Sys → Sys × ℤ × Bool
sys_sem_close p arg s = close_found s p (argsd arg (s.osem p))

-- One pass of the loop of `sem_wait`, for the slot of the descriptor.
unfoldable pub sys_sem_wait_round : ℕ → Bool → Option ℤ → Sys → Sys × Round
sys_sem_wait_round p killed arg s = elim (argsd arg (s.osem p)) [
  | none ↦ (s, returns (negsuc 0))
  | some (sd, i) ↦
      let r = sem_wait_round killed (s.table i) in (set_table s (set_sem s.table i r.0), r.1)
]

unfoldable pub sys_sem_try_wait : ℕ → Option ℤ → Sys → Sys × ℤ
sys_sem_try_wait p arg s = elim (argsd arg (s.osem p)) [
  | none ↦ (s, negsuc 0)
  | some (sd, i) ↦ let r = sem_try_wait (s.table i) in (set_table s (set_sem s.table i r.0), r.1)
]

unfoldable pub sys_sem_post : ℕ → Option ℤ → Sys → Sys × ℤ × Bool
sys_sem_post p arg s = elim (argsd arg (s.osem p)) [
  | none ↦ (s, negsuc 0, false)
  | some (sd, i) ↦ let r = sem_post (s.table i) in (set_table s (set_sem s.table i r.0), r.1, r.2)
]

-- The two numbers are `none` if `argint` fails on either.
unfoldable pub sys_sem_reset : ℕ → ℕ → Option ℤ → Option (ℤ × ℤ) → Sys → Sys × ℤ × Bool
sys_sem_reset p pid arg none s = (s, negsuc 0, false)
sys_sem_reset p pid arg (some (new_val, new_max)) s = elim (argsd arg (s.osem p)) [
  | none ↦ (s, negsuc 0, false)
  | some (sd, i) ↦
      let r = sem_reset pid new_val new_max (s.table i) in
      (set_table s (set_sem s.table i r.0), r.1, r.2)
]

-- Up to the first return or sleep of the loop of `sem_unlink`; the name is `none` if it cannot be fetched.
unfoldable pub sys_sem_unlink : Bool → Option Bytes → Sys → Sys × Round
sys_sem_unlink killed none s = (s, returns (negsuc 0))
sys_sem_unlink killed (some name) s = elim (find_name name s.table) [
  | none ↦ (s, returns (negsuc 0))
  | some i ↦ let r = unlink_round killed (unlink_mark s.table i) i in (set_table s r.0, r.1)
]

-- `if(curproc->osem[i]) np->osem[i] = semdup(curproc->osem[i]);`
abbrev pub dup_descriptor : ℕ → ℕ → Option ℕ → Sys → Sys
dup_descriptor np sd none s = s
dup_descriptor np sd (some i) s = set_osem (set_table s (semdup s.table i)) np sd (some i)

-- The loop of `fork`: `n` descriptors of process `p` left to share with `np`, from `sd` on.
pub fork_sems : ℕ → ℕ → ℕ → ℕ → Sys → Sys
fork_sems zero sd p np s = s
fork_sems (suc n) sd p np s = fork_sems n (sd + 1) p np (dup_descriptor np sd (s.osem p sd) s)

abbrev pub exit_descriptor : ℕ → ℕ → Option ℕ → Sys → Sys
exit_descriptor p sd none s = s
exit_descriptor p sd (some i) s = (drop_descriptor s p sd i).0

-- The loop of `exit`.
pub exit_sems : ℕ → ℕ → ℕ → Sys → Sys
exit_sems zero sd p s = s
exit_sems (suc n) sd p s = exit_sems n (sd + 1) p (exit_descriptor p sd (s.osem p sd) s)
