-- ===== src/Kernel/Paths/Elements.antt =====
-- `skipelem` of ex3/q1/xv6/fs.c takes the elements of a path one by one.
use operating_systems_soluti.Base.{
  ℕ, zero, suc, ◌+◌, ◌≤◌, ◌<◌, ◌≡◌, refl, sym, ap, ◌∙◌, ◌⊎◌, inl, inr, false, Option, none, some,
  List, [], ◌∷◌, arith, leb, ◌==◌, if◌then◌else◌, Bool-cases, length, get_elem?, update,
  update_self,
}
use operating_systems_soluti.Kernel.Strings.{Bytes}
use operating_systems_soluti.Kernel.Dirs.{dirsiz}
use operating_systems_soluti.Kernel.Paths.{
  slash, skip_slashes, element, after_element, copy_name, put_name, skip_first, skipelem,
}

abbrev in_first : ℕ → List (List ℕ) → List (List ℕ)
in_first c [] = (c ∷ []) ∷ []
in_first c (e ∷ es) = (c ∷ e) ∷ es

-- What stands between the slashes of a path.
unfoldable pub parts : List ℕ → List (List ℕ)
parts [] = [] ∷ []
parts (c ∷ cs) = let rest = parts cs in if c == slash then [] ∷ rest else in_first c rest

abbrev pub non_empty : List (List ℕ) → List (List ℕ)
non_empty [] = []
non_empty ([] ∷ es) = non_empty es
non_empty ((c ∷ e) ∷ es) = (c ∷ e) ∷ non_empty es

-- The elements of a path: its parts that are not empty.
unfoldable pub elements : List ℕ → List (List ℕ)
elements path = non_empty (parts path)

abbrev parts_after : List ℕ → List (List ℕ)
parts_after [] = []
parts_after (c ∷ cs) = parts cs

parts-element : (s : List ℕ) → parts s ≡ element s ∷ parts_after (after_element s)
unfolding parts element after_element
parts-element [] = refl
parts-element (c ∷ cs) = elim (Bool-cases (c == slash)) [
  | inl sl ↦ rw sl refl
  | inr other ↦ rw other (ap (in_first c) (parts-element cs))
]

non_empty-after :
    (s : List ℕ) → non_empty (parts_after (after_element s)) ≡ elements (after_element s)
unfolding parts after_element elements
non_empty-after [] = refl
non_empty-after (c ∷ cs) = elim (Bool-cases (c == slash)) [
  | inl sl ↦ rw (sl, sl) refl
  | inr other ↦ rw other (non_empty-after cs)
]

elements-skip_slashes : (s : List ℕ) → elements (skip_slashes s) ≡ elements s
unfolding parts skip_slashes elements
elements-skip_slashes [] = refl
elements-skip_slashes (c ∷ cs) = elim (Bool-cases (c == slash)) [
  | inl sl ↦ rw sl (elements-skip_slashes cs)
  | inr other ↦ let s : skip_slashes (c ∷ cs) ≡ c ∷ cs = rw other refl in ap elements s
]

starts_other : (s : List ℕ) (c : ℕ) (cs : List ℕ) → skip_slashes s ≡ c ∷ cs → (c == slash) ≡ false
unfolding skip_slashes
starts_other [] c cs e = absurd (ground (arith, e))
starts_other (d ∷ ds) c cs e = elim (Bool-cases (d == slash)) [
  | inl sl ↦ starts_other ds c cs (rw sl at e)
  | inr other ↦ ground (arith, rw other at e, other)
]

elements-first :
    (c : ℕ) (cs : List ℕ)
    → (c == slash) ≡ false
    → elements (c ∷ cs) ≡ element (c ∷ cs) ∷ elements (after_element (c ∷ cs))
unfolding element after_element elements
elements-first c cs other =
    ap non_empty (parts-element (c ∷ cs))
    ∙ rw other (ap (λ es. (c ∷ element cs) ∷ es) (non_empty-after cs))

copy_name-outside :
    (n at : ℕ) (e : List ℕ) (name : Bytes) (k : ℕ)
    → (k < at) ⊎ (at + n ≤ k)
    → copy_name n at e name k ≡ name k
unfolding copy_name
copy_name-outside zero at e name k out = refl
copy_name-outside (suc n) at [] name k out = refl
copy_name-outside (suc n) at (c ∷ cs) name k (inl before) =
    copy_name-outside n (at + 1) cs (update name at c) k (inl (omega arith)) ∙ ground arith
copy_name-outside (suc n) at (c ∷ cs) name k (inr after) =
    copy_name-outside n (at + 1) cs (update name at c) k (inr (omega arith)) ∙ ground arith

copy_name-inside :
    (n at : ℕ) (e : List ℕ) (name : Bytes) (k : ℕ)
    → n ≤ length e
    → k < n
    → some (copy_name n at e name (at + k)) ≡ get_elem? e k
unfolding copy_name
copy_name-inside zero at e name k le lt = absurd (omega arith)
copy_name-inside (suc n) at [] name k le lt = absurd (omega arith)
copy_name-inside (suc n) at (c ∷ cs) name zero le lt =
    let z : at + 0 ≡ at = omega arith in
    rw z (
      ap some (
        copy_name-outside n (at + 1) cs (update name at c) at (inl (omega arith))
        ∙ update_self name at c))
copy_name-inside (suc n) at (c ∷ cs) name (suc k) le lt =
    let e : at + suc k ≡ at + 1 + k = omega arith in
    rw e (copy_name-inside n (at + 1) cs (update name at c) k (omega arith) (omega arith))

copy_name-start :
    (n : ℕ) (e : List ℕ) (name : Bytes) (k : ℕ)
    → n ≤ length e
    → k < n
    → some (copy_name n 0 e name k) ≡ get_elem? e k
copy_name-start n e name k le lt =
    let z : 0 + k ≡ k = omega arith in rw z at (copy_name-inside n 0 e name k le lt)

-- The buffer with the first bytes of an element, and a NUL behind them if there is room.
pub record Named (e : List ℕ) (name named : Bytes) : Type 0 where
  pub bytes : (k : ℕ) → k < length e → k < dirsiz → some (named k) ≡ get_elem? e k
  pub stop : length e < dirsiz → named (length e) ≡ 0
  pub kept : (k : ℕ) → (dirsiz ≤ k) ⊎ (length e < k) → named k ≡ name k

put_name-Named : (e : List ℕ) (name : Bytes) → Named e name (put_name e name)
unfolding put_name
put_name-Named e name = elim (Bool-cases (leb dirsiz (length e))) [
  | inl long ↦ rw long (record {
    bytes = λ k lk ld. copy_name-start 14 e name k (ground (arith, long)) ld;
    stop = λ short. absurd (ground (arith, long, short));
    kept = λ k out. copy_name-outside 14 0 e name k (inr (ground (arith, long, out)));
  })
  | inr short ↦ rw short (record {
    bytes = λ k lk ld.
        let ne : (length e == k) ≡ false = ground (arith, lk) in
        rw ne (copy_name-start (length e) e name k (omega arith) lk);
    stop = λ _. update_self (copy_name (length e) 0 e name) (length e) 0;
    kept = λ k out.
        let after : length e < k = ground (arith, short, out) in
        let ne : (length e == k) ≡ false = ground (arith, after) in
        rw ne (copy_name-outside (length e) 0 e name k (inr (omega arith)));
  })
]

-- The outcome of `skipelem`.
pub data Skipped (path : List ℕ) (name : Bytes) : Option (List ℕ × Bytes) → Type 0 where
  no_element : elements path ≡ [] → Skipped path name none
  an_element :
      (e rest : List ℕ) (named : Bytes)
      → elements path ≡ e ∷ elements rest
      → Named e name named
      → Skipped path name (some (rest, named))

-- `skipelem` returns 0 just for a path without elements; otherwise it leaves the elements behind the first one,
-- and writes the first fourteen bytes of that into `name`, a NUL behind it if it is shorter, and no other
-- byte.
pub skipelem-Skipped : (path : List ℕ) (name : Bytes) → Skipped path name (skipelem path name)
unfolding skipelem elements parts
skipelem-Skipped path name = go (skip_slashes path) refl
  where
    go : (s : List ℕ) → skip_slashes path ≡ s → Skipped path name (skip_first s name)
    go [] e = no_element (sym (elements-skip_slashes path) ∙ ap elements e)
    go (c ∷ cs) e =
        let other = starts_other path c cs e in
        an_element (element (c ∷ cs)) (skip_slashes (after_element (c ∷ cs)))
          (put_name (element (c ∷ cs)) name)
          (sym (elements-skip_slashes path)
            ∙ ap elements e
            ∙ elements-first c cs other
            ∙ ap (λ es. element (c ∷ cs) ∷ es)
                (sym (elements-skip_slashes (after_element (c ∷ cs)))))
          (put_name-Named (element (c ∷ cs)) name)
