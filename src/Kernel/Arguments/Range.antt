-- ===== src/Kernel/Arguments/Range.antt =====
-- The checks of ex3/q1/xv6/syscall.c keep the kernel inside the memory of the process.
use operating_systems_soluti.Base.{
  ℕ, ◌+◌, ◌-◌, ◌≤◌, ◌<◌, ◌≡◌, refl, ◌≢◌, inl, inr, Option, none, some, arith, leb, ◌==◌, Bool-cases,
  find_from, find_from-some, find_from-before, find_from-none, ℤ, pos, negsuc, pos_part, neg_part,
  int_max,
}
use operating_systems_soluti.Kernel.Arguments.{
  User, fetchstr, string_end, argint, argptr, and_check, check_block,
}

-- The size of a process is at most `KERNBASE`, and `sz` bytes at `esp` may lie anywhere.
abbrev kernbase : ℕ
kernbase = 0x80000000

-- The block of memory is inside the process.
abbrev pub IsInside : User → ℕ → ℕ → Type 0
IsInside u a size = (a < u.sz) × (a + size ≤ u.sz)

check_block-IsInside :
    (u : User) (size i a : ℕ)
    → u.sz ≤ kernbase
    → size ≤ int_max
    → check_block u (pos size) i ≡ some a
    → IsInside u a size
check_block-IsInside u size i a small ok e = ground arith

-- In a process of at most 2^31 bytes every pointer that `argptr` accepts for a block of an `int` size
-- has the whole block inside the process, and no negative size is accepted.
pub argptr-IsInside :
    (u : User) (n a : ℕ) (size : ℤ)
    → u.sz ≤ kernbase
    → pos_part size ≤ int_max
    → argptr u n size ≡ some a
    → IsInside u a (pos_part size) × (neg_part size ≡ 0)
unfolding argptr
argptr-IsInside u n a size small ok e = go (argint u n) size ok e
  where
    go :
        (v : Option ℕ) (k : ℤ)
        → pos_part k ≤ int_max
        → and_check u k v ≡ some a
        → IsInside u a (pos_part k) × (neg_part k ≡ 0)
    go none k ok e = absurd cc
    go (some i) (negsuc m) ok e = absurd cc
    go (some i) (pos m) ok e = (check_block-IsInside u m i a small ok e, refl)

-- A text of `len` bytes that are not NUL, and a NUL behind it, inside the process.
abbrev pub IsText : User → ℕ → ℕ → Type 0
IsText u a len =
    (a + len < u.sz) × (u.byte (a + len) ≡ 0) × ((i : ℕ) → i < len → u.byte (a + i) ≢ 0)

-- `fetchstr` returns the address that it is given with the length of the text there; it fails only if
-- the address is outside the process, or no NUL stands from it to the end of the process.
pub fetchstr-IsText :
    (u : User) (addr : ℕ)
    → ((a len : ℕ) → fetchstr u addr ≡ some (a, len) → (a ≡ addr) × IsText u a len)
      × (fetchstr u addr ≡ none → (i : ℕ) → addr ≤ i → i < u.sz → u.byte i ≢ 0)
unfolding fetchstr
fetchstr-IsText u addr = elim (Bool-cases (leb u.sz addr)) [
  | inl out ↦ rw out (λ a len e. absurd cc, λ e i lo hi z. absurd (ground arith))
  | inr within ↦
      rw within (go (find_from (λ s. u.byte s == 0) (u.sz - addr) addr) refl (ground arith))
]
  where
    go :
        (v : Option ℕ)
        → find_from (λ s. u.byte s == 0) (u.sz - addr) addr ≡ v
        → addr < u.sz
        → ((a len : ℕ) → string_end addr v ≡ some (a, len) → (a ≡ addr) × IsText u a len)
          × (string_end addr v ≡ none → (i : ℕ) → addr ≤ i → i < u.sz → u.byte i ≢ 0)
    go none e lt = (
      λ a len h. absurd cc,
      λ h i lo hi z.
          let miss = find_from-none (λ s. u.byte s == 0) (u.sz - addr) addr i e lo (omega arith) in
          ground (arith, miss),
    )
    go (some s) e lt =
        let hit = find_from-some (λ s. u.byte s == 0) (u.sz - addr) addr s e in
        let len_eq : addr + (s - addr) ≡ s = omega (arith, hit.1) in
        (
          λ a len h.
              let ea : addr ≡ a = cc in
              let el : s - addr ≡ len = cc in
              rw⁻¹ (ea, el)
                (
                  refl,
                  (
                    ground (arith, hit),
                    rw len_eq (ground (arith, hit)),
                    λ i lt z.
                        let miss =
                          find_from-before (λ s. u.byte s == 0) (u.sz - addr) addr s (addr + i) e
                            (omega arith) (omega arith) in
                        ground (arith, miss),
                  ),
                ),
          λ h. absurd cc,
        )
