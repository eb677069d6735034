-- ===== src/Kernel/Arguments.antt =====
-- ex3/q1/xv6/syscall.c: how a system call finds its arguments in the memory of the process, and which
-- function it runs. Memory is a function from the address to the byte; `sz` is the size of the process,
-- whose addresses begin at 0; an `int` that is fetched is kept as its 32 bits.
pub mod Range
mod Tests
use operating_systems_soluti.Base.{
  ℕ, zero, suc, ◌+◌, ◌-◌, ◌*◌, ◌/◌, ◌%◌, ◌^◌, ◌≤◌, ◌<◌, ◌≡◌, refl, sym, ap, subst, fun_ext, ◌∙◌,
  ◌≢◌, ◌↔◌, ◌⊎◌, inl, inr, Bool, true, false, not, ◌&&◌, ◌||◌, Option, none, some, List, [], ◌∷◌,
  ◌++◌, map, arith, dec_lt, ℕ_discrete, ltb, leb, ◌==◌, if◌then◌else◌, ltb→lt, lt→ltb, ==_refl,
  Bool-cases, Option-cases, length, get_elem?, take, drop, length-append, take-append-drop,
  length-take, length-drop, update, find_from, find, find_from-some, find_from-before,
  find_from-none, find_from-intro, find_from-eq_none, total, total-update, total-weight_le,
  total-bound, total-const, seek, update_self, update-ne, update_twice-ne, ℤ, pos, negsuc, pos_part,
  neg_part, sub_ℕ, ◌+ℤ◌, ◌-ℤ◌, ◌*ℤ◌, ◌≤ℤ◌, ◌<ℤ◌, ltb_ℤ, eqb_ℤ, +ℤ_parts, -ℤ_parts, *ℤ_parts,
  eq_of_parts, int_laws, int_max, inc, dec,
}

pub record User : Type 0 where
  pub sz : ℕ
  pub byte : ℕ → ℕ
  pub esp : ℕ

-- `*(int*)addr`
abbrev pub word : (ℕ → ℕ) → ℕ → ℕ
word m a = m a + 256 * m (a + 1) + 65536 * m (a + 2) + 16777216 * m (a + 3)

-- `none` where the source returns -1
unfoldable pub fetchint : User → ℕ → Option ℕ
fetchint u addr =
    if leb u.sz addr || ltb u.sz ((addr + 4) % 2 ^ 32) then none else some (word u.byte addr)

abbrev pub string_end : ℕ → Option ℕ → Option (ℕ × ℕ)
string_end addr none = none
string_end addr (some s) = some (addr, s - addr)

-- The pointer with the length of the string. The loop stops at the first NUL below `sz`.
unfoldable pub fetchstr : User → ℕ → Option (ℕ × ℕ)
fetchstr u addr =
    if leb u.sz addr
    then none
    else string_end addr (find_from (λ s. u.byte s == 0) (u.sz - addr) addr)

unfoldable pub argint : User → ℕ → Option ℕ
unfolding fetchint
argint u n = fetchint u ((u.esp + 4 + 4 * n) % 2 ^ 32)

-- The test of `argptr` on the pointer `i`.
abbrev pub check_block : User → ℤ → ℕ → Option ℕ
check_block u (negsuc k) i = none
check_block u (pos size) i = if leb u.sz i || ltb u.sz ((i + size) % 2 ^ 32) then none else some i

abbrev pub and_check : User → ℤ → Option ℕ → Option ℕ
and_check u size none = none
and_check u size (some i) = check_block u size i

unfoldable pub argptr : User → ℕ → ℤ → Option ℕ
argptr u n size = and_check u size (argint u n)

abbrev pub and_fetch : User → Option ℕ → Option (ℕ × ℕ)
and_fetch u none = none
and_fetch u (some addr) = fetchstr u addr

unfoldable pub argstr : User → ℕ → Option (ℕ × ℕ)
argstr u n = and_fetch u (argint u n)

-- `syscalls[num]`: what a call does to the state of the kernel, with its result.
abbrev pub Handler : Type 0 → Type 0
Handler S = S → S × ℤ

abbrev pub run_handler : {S : Type 0} → Option (Handler S) → S → S × ℤ
run_handler none s = (s, negsuc 0)
run_handler (some f) s = f s

-- `syscall`: the new state, and what goes into `eax`. `calls` is the array with its empty places.
unfoldable pub syscall : {S : Type 0} → List (Option (Handler S)) → ℤ → S → S × ℤ
syscall calls (negsuc n) s = (s, negsuc 0)
syscall calls (pos num) s =
    if ltb 0 num && ltb num (length calls)
    then (elim (get_elem? calls num) [
      | none ↦ (s, negsuc 0)
      | some handler ↦ run_handler handler s
    ])
    else (s, negsuc 0)
