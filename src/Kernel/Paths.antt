-- ===== src/Kernel/Paths.antt =====
-- ex3/q1/xv6/fs.c: the elements of a path name. A path is the list of its bytes in front of the NUL, and a pointer
-- into it is the rest of the list; `name` is the buffer of the caller.
pub mod Elements
mod Tests
use operating_systems_soluti.Base.{
  ℕ, zero, suc, ◌+◌, ◌-◌, ◌*◌, ◌/◌, ◌%◌, ◌^◌, ◌≤◌, ◌<◌, ◌≡◌, refl, sym, ap, subst, fun_ext, ◌∙◌,
  ◌≢◌, ◌↔◌, ◌⊎◌, inl, inr, Bool, true, false, not, ◌&&◌, ◌||◌, Option, none, some, List, [], ◌∷◌,
  ◌++◌, map, arith, dec_lt, ℕ_discrete, ltb, leb, ◌==◌, if◌then◌else◌, ltb→lt, lt→ltb, ==_refl,
  Bool-cases, Option-cases, length, get_elem?, take, drop, length-append, take-append-drop,
  length-take, length-drop, count, count-append, update, find_from, find, find_from-some,
  find_from-before, find_from-none, find_from-intro, find_from-eq_none, total, total-update,
  total-weight_le, total-bound, total-const, seek, update_self, update-ne, update_twice-ne, ℤ, pos,
  negsuc, pos_part, neg_part, sub_ℕ, ◌+ℤ◌, ◌-ℤ◌, ◌*ℤ◌, ◌≤ℤ◌, ◌<ℤ◌, ltb_ℤ, eqb_ℤ, +ℤ_parts, -ℤ_parts,
  *ℤ_parts, eq_of_parts, int_laws, int_max, inc, dec,
}
use operating_systems_soluti.Kernel.Strings.{Bytes}
use operating_systems_soluti.Kernel.Dirs.{dirsiz}

-- `'/'`
abbrev pub slash : ℕ
slash = 47

-- `while(*path == '/') path++;`
pub skip_slashes : List ℕ → List ℕ
skip_slashes [] = []
skip_slashes (c ∷ cs) = let rest = skip_slashes cs in if c == slash then rest else c ∷ cs

-- The bytes that `while(*path != '/' && *path != 0) path++;` passes, and where it stops.
pub element : List ℕ → List ℕ
element [] = []
element (c ∷ cs) = let rest = element cs in if c == slash then [] else c ∷ rest

pub after_element : List ℕ → List ℕ
after_element [] = []
after_element (c ∷ cs) = let rest = after_element cs in if c == slash then c ∷ cs else rest

-- `memmove(name, s, n)` of the first bytes of a list
pub copy_name : ℕ → ℕ → List ℕ → Bytes → Bytes
copy_name zero at cs name = name
copy_name (suc n) at [] name = name
copy_name (suc n) at (c ∷ cs) name = copy_name n (at + 1) cs (update name at c)

unfoldable pub put_name : List ℕ → Bytes → Bytes
unfolding copy_name
put_name e name =
    if leb dirsiz (length e)
    then copy_name dirsiz 0 e name
    else update (copy_name (length e) 0 e name) (length e) 0

abbrev pub skip_first : List ℕ → Bytes → Option (List ℕ × Bytes)
skip_first [] name = none
skip_first (c ∷ cs) name =
    some (skip_slashes (after_element (c ∷ cs)), put_name (element (c ∷ cs)) name)

unfoldable pub skipelem : List ℕ → Bytes → Option (List ℕ × Bytes)
unfolding skip_slashes element after_element
skipelem path name = skip_first (skip_slashes path) name
