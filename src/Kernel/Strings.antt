-- ===== src/Kernel/Strings.antt =====
-- ex3/q1/xv6/string.c: the byte and string routines of the kernel. Memory is a function from the
-- address (or from the offset behind a pointer) to the byte there; a routine that writes returns the
-- new memory.
pub mod Moves
pub mod Compare
pub mod Blocks
mod Tests
use operating_systems_soluti.Base.{
  ℕ, zero, suc, ◌+◌, ◌-◌, ◌*◌, ◌/◌, ◌%◌, ◌^◌, ◌≤◌, ◌<◌, ◌≡◌, refl, sym, ap, subst, fun_ext, ◌∙◌,
  ◌≢◌, ◌↔◌, ◌⊎◌, inl, inr, Bool, true, false, not, ◌&&◌, ◌||◌, Option, none, some, List, [], ◌∷◌,
  ◌++◌, map, arith, dec_lt, ℕ_discrete, ltb, leb, ◌==◌, if◌then◌else◌, ltb→lt, lt→ltb, ==_refl,
  Bool-cases, Option-cases, length, get_elem?, take, drop, length-append, take-append-drop,
  length-take, length-drop, count, count-append, update, find_from, find, find_from-some,
  find_from-before, find_from-none, find_from-intro, find_from-eq_none, total, total-update,
  total-weight_le, total-bound, total-const, seek, update_self, update-ne, update_twice-ne, ℤ, pos,
  negsuc, pos_part, neg_part, sub_ℕ, ◌+ℤ◌, ◌-ℤ◌, ◌*ℤ◌, ◌≤ℤ◌, ◌<ℤ◌, ltb_ℤ, eqb_ℤ, +ℤ_parts, -ℤ_parts,
  *ℤ_parts, eq_of_parts, int_laws, int_max, inc, dec,
}

abbrev pub Bytes : Type 0
Bytes = ℕ → ℕ

-- `while(n-- > 0) *d++ = *s++;`
pub copy_up : ℕ → Bytes → ℕ → ℕ → Bytes
copy_up zero m d s = m
copy_up (suc n) m d s = copy_up n (update m d (m s)) (d + 1) (s + 1)

-- `while(n-- > 0) *--d = *--s;`
pub copy_down : ℕ → Bytes → ℕ → ℕ → Bytes
copy_down zero m d s = m
copy_down (suc n) m d s = copy_down n (update m (d - 1) (m (s - 1))) (d - 1) (s - 1)

unfoldable pub memmove : Bytes → ℕ → ℕ → ℕ → Bytes
unfolding copy_up copy_down
memmove m dst src n =
    if ltb src dst && ltb dst (src + n)
    then copy_down n m (dst + n) (src + n)
    else copy_up n m dst src

-- `n` is what is left to compare, `i` how far `p` and `q` have moved.
unfoldable pub strncmp_from : ℕ → ℕ → Bytes → Bytes → ℤ
strncmp_from zero i p q = pos 0
strncmp_from (suc n) i p q =
    let rest = strncmp_from n (i + 1) p q in
    if not (p i == 0) && (p i == q i) then rest else sub_ℕ (p i) (q i)

unfoldable pub strncmp : Bytes → Bytes → ℕ → ℤ
unfolding strncmp_from
strncmp p q n = strncmp_from n 0 p q

-- `while(n-- > 0) *s++ = 0;`
pub pad_zero : ℕ → ℕ → Bytes → Bytes
pad_zero zero i s = s
pad_zero (suc n) i s = pad_zero n (i + 1) (update s i 0)

-- The first loop of `strncpy`, with the second where it ends.
pub strncpy_from : ℕ → ℕ → Bytes → Bytes → Bytes
unfolding pad_zero
strncpy_from zero i s t = s
strncpy_from (suc n) i s t =
    let rest = strncpy_from n (i + 1) (update s i (t i)) t in
    if t i == 0 then pad_zero n (i + 1) (update s i (t i)) else rest

unfoldable pub strncpy : Bytes → Bytes → ℕ → Bytes
unfolding strncpy_from
strncpy s t n = strncpy_from n 0 s t

-- `while(--n > 0 && (*s++ = *t++) != 0); *s = 0;` with `n - 1` rounds left
pub safestrcpy_from : ℕ → ℕ → Bytes → Bytes → Bytes
safestrcpy_from zero i s t = update s i 0
safestrcpy_from (suc n) i s t =
    let rest = safestrcpy_from n (i + 1) (update s i (t i)) t in
    if t i == 0 then update (update s i (t i)) (i + 1) 0 else rest

unfoldable pub safestrcpy : Bytes → Bytes → ℕ → Bytes
unfolding safestrcpy_from
safestrcpy s t n = if n == 0 then s else safestrcpy_from (n - 1) 0 s t

-- `stosb`: `n` bytes
pub set_bytes : ℕ → Bytes → ℕ → ℕ → Bytes
set_bytes zero m dst c = m
set_bytes (suc n) m dst c = set_bytes n (update m dst c) (dst + 1) c

-- `stosl`: `n` words of which each byte is the same
pub set_words : ℕ → Bytes → ℕ → ℕ → Bytes
unfolding set_bytes
set_words zero m dst c = m
set_words (suc n) m dst c = set_words n (set_bytes 4 m dst c) (dst + 4) c

unfoldable pub memset : Bytes → ℕ → ℕ → ℕ → Bytes
unfolding set_bytes set_words
memset m dst c n =
    if (dst % 4 == 0) && (n % 4 == 0)
    then set_words (n / 4) m dst (c % 256)
    else set_bytes n m dst (c % 256)

-- `i` is how far `s1` and `s2` have moved.
pub memcmp_from : ℕ → ℕ → Bytes → Bytes → ℤ
memcmp_from zero i s1 s2 = pos 0
memcmp_from (suc n) i s1 s2 =
    let rest = memcmp_from n (i + 1) s1 s2 in if s1 i == s2 i then rest else sub_ℕ (s1 i) (s2 i)

unfoldable pub memcmp : Bytes → Bytes → ℕ → ℤ
memcmp v1 v2 n = memcmp_from n 0 v1 v2
