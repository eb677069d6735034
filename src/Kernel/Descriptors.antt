-- ===== src/Kernel/Descriptors.antt =====
-- ex3/q1/xv6/sysfile.c: the descriptors of processes, and the calls that take and give up references to open
-- files. `none` is a panic of the file table; what `argint` returns is an argument.
pub mod Refs
pub mod Calls
mod Tests
use operating_systems_soluti.Base.{
  ℕ, zero, suc, ◌+◌, ◌-◌, ◌*◌, ◌/◌, ◌%◌, ◌^◌, ◌≤◌, ◌<◌, ◌≡◌, refl, sym, ap, subst, fun_ext, ◌∙◌,
  ◌≢◌, ◌↔◌, ◌⊎◌, inl, inr, Bool, true, false, not, ◌&&◌, ◌||◌, Option, none, some, List, [], ◌∷◌,
  ◌++◌, map, arith, dec_lt, ℕ_discrete, ltb, leb, ◌==◌, if◌then◌else◌, ltb→lt, lt→ltb, ==_refl,
  Bool-cases, Option-cases, length, get_elem?, take, drop, length-append, take-append-drop,
  length-take, length-drop, count, count-append, update, find_from, find, find_from-some,
  find_from-before, find_from-none, find_from-intro, find_from-eq_none, total, total-update,
  total-weight_le, total-bound, total-const, seek, update_self, update-ne, update_twice-ne, ℤ, pos,
  negsuc, pos_part, neg_part, sub_ℕ, ◌+ℤ◌, ◌-ℤ◌, ◌*ℤ◌, ◌≤ℤ◌, ◌<ℤ◌, ltb_ℤ, eqb_ℤ, +ℤ_parts, -ℤ_parts,
  *ℤ_parts, eq_of_parts, int_laws, int_max, inc, dec,
}
use operating_systems_soluti.Kernel.Files.{
  FileTable, filealloc, filedup, fileclose, Cleanup, nothing,
}

abbrev pub nofile : ℕ
nofile = 16

abbrev pub Row : Type 0
Row = ℕ → Option ℕ

pub record Fds : Type 0 where
  pub table : FileTable
  pub ofile : ℕ → Row

abbrev pub set_ofile : Fds → ℕ → ℕ → Option ℕ → Fds
set_ofile s p fd v = record s { ofile = update s.ofile p (update (s.ofile p) fd v) }

abbrev pub with_file : ℕ → Option ℕ → Option (ℕ × ℕ)
with_file fd none = none
with_file fd (some f) = some (fd, f)

-- The descriptor with its file; `none` is -1.
unfoldable pub argfd : Option ℤ → Row → Option (ℕ × ℕ)
argfd none o = none
argfd (some (negsuc n)) o = none
argfd (some (pos n)) o = if ltb n nofile then with_file n (o n) else none

abbrev pub no_file : Option ℕ → Bool
no_file none = true
no_file (some f) = false

abbrev pub fd_at : ℕ → ℕ → Fds → Option ℕ → Fds × ℤ
fd_at p f s none = (s, negsuc 0)
fd_at p f s (some fd) = (set_ofile s p fd (some f), pos fd)

unfoldable pub free_fd : Row → Option ℕ
free_fd o = find (λ fd. no_file (o fd)) nofile

unfoldable pub fdalloc : ℕ → ℕ → Fds → Fds × ℤ
unfolding free_fd
fdalloc p f s = fd_at p f s (free_fd (s.ofile p))

-- `filedup(f); return fd;`
abbrev pub dup_file : ℕ → Fds × ℤ → Option (Fds × ℤ)
dup_file f (s, negsuc n) = some (s, negsuc 0)
dup_file f (s, pos fd) = elim (filedup s.table f) [
  | none ↦ none
  | some t ↦ some (record s { table = t }, pos fd)
]

abbrev pub dup_found : ℕ → Fds → Option (ℕ × ℕ) → Option (Fds × ℤ)
dup_found p s none = some (s, negsuc 0)
dup_found p s (some (fd, f)) = dup_file f (fdalloc p f s)

unfoldable pub sys_dup : ℕ → Option ℤ → Fds → Option (Fds × ℤ)
unfolding argfd fdalloc
sys_dup p arg s = dup_found p s (argfd arg (s.ofile p))

-- `fileclose(f); return 0;`
abbrev pub close_file : ℕ → Fds → Option (Fds × Cleanup × ℤ)
close_file f s = elim (fileclose s.table f) [
  | none ↦ none
  | some (t, c) ↦ some (record s { table = t }, c, pos 0)
]

abbrev pub close_fd : ℕ → Fds → Option (ℕ × ℕ) → Option (Fds × Cleanup × ℤ)
close_fd p s none = some (s, nothing, negsuc 0)
close_fd p s (some (fd, f)) = close_file f (set_ofile s p fd none)

unfoldable pub sys_close : ℕ → Option ℤ → Fds → Option (Fds × Cleanup × ℤ)
unfolding argfd
sys_close p arg s = close_fd p s (argfd arg (s.ofile p))
