-- ===== src/Programs/Ulib.antt =====
-- ex3/q1/xv6/ulib.c: the library of the user programs. A text is a function from the offset behind a
-- pointer to the byte there. Loops that run to a NUL are on fuel.
pub mod Numbers
pub mod Texts
mod Tests
use operating_systems_soluti.Base.{
  ℕ, zero, suc, ◌+◌, ◌-◌, ◌*◌, ◌/◌, ◌%◌, ◌^◌, ◌≤◌, ◌<◌, ◌≡◌, refl, sym, ap, subst, fun_ext, ◌∙◌,
  ◌≢◌, ◌↔◌, ◌⊎◌, inl, inr, Bool, true, false, not, ◌&&◌, ◌||◌, Option, none, some, List, [], ◌∷◌,
  ◌++◌, map, arith, dec_lt, ℕ_discrete, ltb, leb, ◌==◌, if◌then◌else◌, ltb→lt, lt→ltb, ==_refl,
  Bool-cases, Option-cases, length, get_elem?, take, drop, length-append, take-append-drop,
  length-take, length-drop, update, find_from, find, find_from-some, find_from-before,
  find_from-none, find_from-intro, find_from-eq_none, total, total-update, total-weight_le,
  total-bound, total-const, seek, update_self, update-ne, update_twice-ne, ℤ, pos, negsuc, pos_part,
  neg_part, sub_ℕ, ◌+ℤ◌, ◌-ℤ◌, ◌*ℤ◌, ◌≤ℤ◌, ◌<ℤ◌, ltb_ℤ, eqb_ℤ, +ℤ_parts, -ℤ_parts, *ℤ_parts,
  eq_of_parts, int_laws, int_max, inc, dec,
}

abbrev pub Text : Type 0
Text = ℕ → ℕ

-- `strcpy`, with `none` at the end of the fuel.
pub strcpy_from : ℕ → ℕ → Text → Text → Option Text
strcpy_from zero i s t = none
strcpy_from (suc n) i s t =
    let rest = strcpy_from n (i + 1) (update s i (t i)) t in
    if t i == 0 then some (update s i (t i)) else rest

unfoldable pub strcpy : ℕ → Text → Text → Option Text
strcpy fuel s t = strcpy_from fuel 0 s t

-- `strcmp`, with `none` at the end of the fuel.
pub strcmp_from : ℕ → ℕ → Text → Text → Option ℤ
strcmp_from zero i p q = none
strcmp_from (suc n) i p q =
    let rest = strcmp_from n (i + 1) p q in
    if not (p i == 0) && (p i == q i) then rest else some (sub_ℕ (p i) (q i))

unfoldable pub strcmp : ℕ → Text → Text → Option ℤ
strcmp fuel p q = strcmp_from fuel 0 p q

-- The loops of `strlen` and `strchr` are searches; `none` is the end of the fuel in the first, and also
-- the null pointer in the second, whose result is an offset.
unfoldable pub strlen : ℕ → Text → Option ℕ
strlen fuel s = find (λ i. s i == 0) fuel

pub strchr_from : ℕ → ℕ → Text → ℕ → Option ℕ
strchr_from zero i s c = none
strchr_from (suc n) i s c =
    let rest = strchr_from n (i + 1) s c in
    if s i == 0 then none else if s i == c then some i else rest

unfoldable pub strchr : ℕ → Text → ℕ → Option ℕ
strchr fuel s c = strchr_from fuel 0 s c

-- `gets`: what `read` yields is the list of bytes, up to the call that returns less than 1; with the
-- bytes that are left. `n` is `max - 1 - i`.
pub gets_from : ℕ → ℕ → List ℕ → Text → Text × List ℕ
gets_from zero i cs buf = (update buf i 0, cs)
gets_from (suc n) i [] buf = (update buf i 0, [])
gets_from (suc n) i (c ∷ cs) buf =
    let rest = gets_from n (i + 1) cs (update buf i c) in
    if c == 10 || c == 13 then (update (update buf i c) (i + 1) 0, cs) else rest

-- `max` is at least 0.
unfoldable pub gets : ℕ → List ℕ → Text → Text × List ℕ
unfolding gets_from
gets max cs buf = gets_from (max - 1) 0 cs buf

abbrev pub is_digit : ℕ → Bool
is_digit c = leb 48 c && leb c 57

-- The loop of `atoi`, on fuel; `n` is kept as its 32 bits.
pub atoi_from : ℕ → ℕ → ℕ → Text → Option ℕ
atoi_from zero i n s = none
atoi_from (suc fuel) i n s =
    let rest = atoi_from fuel (i + 1) ((n * 10 + (s i - 48)) % 2 ^ 32) s in
    if is_digit (s i) then rest else some n

unfoldable pub atoi : ℕ → Text → Option ℕ
atoi fuel s = atoi_from fuel 0 0 s
