-- ===== src/Kernel/Pages.antt =====
-- ex3/q1/xv6/kalloc.c: the allocator of physical pages. A page is its kernel address, `next` is the first
-- word of a free page, and `none` is the null pointer. `end` is the address behind the kernel, which the
-- linker sets. What runs under `kmem.lock` is one step; the junk that fills a freed page is left out, as
-- is `use_lock`.
pub mod Owners
pub mod Range
mod Tests
use operating_systems_soluti.Base.{
  ℕ, zero, suc, ◌+◌, ◌-◌, ◌*◌, ◌/◌, ◌%◌, ◌^◌, ◌≤◌, ◌<◌, ◌≡◌, refl, sym, ap, subst, fun_ext, ◌∙◌,
  ◌≢◌, ◌↔◌, ◌⊎◌, inl, inr, Bool, true, false, not, ◌&&◌, ◌||◌, Option, none, some, List, [], ◌∷◌,
  ◌++◌, map, arith, dec_lt, ℕ_discrete, ltb, leb, ◌==◌, if◌then◌else◌, ltb→lt, lt→ltb, ==_refl,
  Bool-cases, Option-cases, length, get_elem?, take, drop, length-append, take-append-drop,
  length-take, length-drop, update, find_from, find, find_from-some, find_from-before,
  find_from-none, find_from-intro, find_from-eq_none, total, total-update, total-weight_le,
  total-bound, total-const, seek, update_self, update-ne, update_twice-ne, ℤ, pos, negsuc, pos_part,
  neg_part, sub_ℕ, ◌+ℤ◌, ◌-ℤ◌, ◌*ℤ◌, ◌≤ℤ◌, ◌<ℤ◌, ltb_ℤ, eqb_ℤ, +ℤ_parts, -ℤ_parts, *ℤ_parts,
  eq_of_parts, int_laws, int_max, inc, dec,
}

pub record Kmem : Type 0 where
  pub freelist : Option ℕ
  pub next : ℕ → Option ℕ

abbrev pub pgsize : ℕ
pgsize = 4096

abbrev pub kernbase : ℕ
kernbase = 0x80000000

abbrev pub phystop : ℕ
phystop = 0xE000000

-- `PGROUNDUP`
abbrev pub round_up : ℕ → ℕ
round_up a = (a + (pgsize - 1)) % 2 ^ 32 / pgsize * pgsize

-- `V2P`
abbrev pub physical : ℕ → ℕ
physical v = (v + (2 ^ 32 - kernbase)) % 2 ^ 32

-- The test of `kfree` that leads to its panic.
abbrev pub is_bad : ℕ → ℕ → Bool
is_bad end v = not (v % pgsize == 0) || (ltb v end || leb phystop (physical v))

-- `none` is the panic.
unfoldable pub kfree : ℕ → ℕ → Kmem → Option Kmem
kfree end v k =
    if is_bad end v
    then none
    else some (record { freelist = some v; next = update k.next v k.freelist })

-- The pages of the loop of `freerange` from `p` on, on fuel; `none` is a panic or the end of the fuel.
pub free_pages : ℕ → ℕ → ℕ → ℕ → Kmem → Option Kmem
unfolding kfree
free_pages zero end vend p k = none
free_pages (suc n) end vend p k = elim (leb (p + pgsize) vend) [
  | true ↦ elim (kfree end p k) [ none ↦ none | some k' ↦ free_pages n end vend (p + pgsize) k' ]
  | false ↦ some k
]

unfoldable pub freerange : ℕ → ℕ → ℕ → ℕ → Kmem → Option Kmem
freerange fuel end vstart vend k = free_pages fuel end vend (round_up vstart) k

abbrev pub pop_page : Kmem → Option ℕ → Kmem × Option ℕ
pop_page k none = (k, none)
pop_page k (some v) = (record k { freelist = k.next v }, some v)

unfoldable pub kalloc : Kmem → Kmem × Option ℕ
kalloc k = pop_page k k.freelist
