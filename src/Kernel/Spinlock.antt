-- ===== src/Kernel/Spinlock.antt =====
-- ex3/q1/xv6/spinlock.c: locks that spin, and the nesting of disabled interrupts. A processor is its index;
-- the call stack that a lock records is left out. The memory barriers have no counterpart, as each step is
-- atomic here.
pub mod Nesting
mod Tests
use operating_systems_soluti.Base.{
  ℕ, zero, suc, ◌+◌, ◌-◌, ◌*◌, ◌/◌, ◌%◌, ◌^◌, ◌≤◌, ◌<◌, ◌≡◌, refl, sym, ap, subst, fun_ext, ◌∙◌,
  ◌≢◌, ◌↔◌, ◌⊎◌, inl, inr, Bool, true, false, not, ◌&&◌, ◌||◌, Option, none, some, List, [], ◌∷◌,
  ◌++◌, map, arith, dec_lt, ℕ_discrete, ltb, leb, ◌==◌, if◌then◌else◌, ltb→lt, lt→ltb, ==_refl,
  Bool-cases, Option-cases, length, get_elem?, take, drop, length-append, take-append-drop,
  length-take, length-drop, count, count-append, update, find_from, find, find_from-some,
  find_from-before, find_from-none, find_from-intro, find_from-eq_none, total, total-update,
  total-weight_le, total-bound, total-const, seek, update_self, update-ne, update_twice-ne, ℤ, pos,
  negsuc, pos_part, neg_part, sub_ℕ, ◌+ℤ◌, ◌-ℤ◌, ◌*ℤ◌, ◌≤ℤ◌, ◌<ℤ◌, ltb_ℤ, eqb_ℤ, +ℤ_parts, -ℤ_parts,
  *ℤ_parts, eq_of_parts, int_laws, int_max, inc, dec,
}

-- The flag `FL_IF` with the fields of `struct cpu`.
pub record Cpu : Type 0 where
  pub interrupts : Bool
  pub ncli : ℕ
  pub intena : Bool

pub record Lock : Type 0 where
  pub locked : Bool
  pub cpu : Option ℕ

unfoldable pub pushcli : Cpu → Cpu
pushcli c = record {
  interrupts = false;
  ncli = c.ncli + 1;
  intena = if c.ncli == 0 then c.interrupts else c.intena;
}

-- `none` is either of the panics.
unfoldable pub popcli : Cpu → Option Cpu
popcli c =
    if c.interrupts || c.ncli == 0
    then none
    else some (record c { ncli = c.ncli - 1; interrupts = c.ncli == 1 && c.intena })

abbrev pub is_cpu : Option ℕ → ℕ → Bool
is_cpu none id = false
is_cpu (some k) id = k == id

unfoldable pub holding : ℕ → Lock → Bool
holding id lk = lk.locked && is_cpu lk.cpu id

-- How one `xchg` of `acquire` ends; the spinning processor goes on with its interrupts off.
pub data Acquired : Type 0 where
  panicked : Acquired
  spins : Cpu → Acquired
  got : Cpu → Lock → Acquired

unfoldable pub acquire : ℕ → Cpu → Lock → Acquired
unfolding holding pushcli
acquire id c lk =
    if holding id lk
    then panicked
    else if lk.locked
    then spins (pushcli c)
    else got (pushcli c) (record { locked = true; cpu = some id })

abbrev pub and_unlocked : Option Cpu → Option (Cpu × Lock)
and_unlocked none = none
and_unlocked (some c) = some (c, record { locked = false; cpu = none })

unfoldable pub release : ℕ → Cpu → Lock → Option (Cpu × Lock)
unfolding holding popcli
release id c lk = if holding id lk then and_unlocked (popcli c) else none
