-- ===== src/Kernel/Inodes/Spliced.antt =====
-- Bytes put into a range of a file, for `writei` of ex3/q1/xv6/fs.c.
use operating_systems_soluti.Base.{
  ℕ, ◌+◌, ◌-◌, ◌/◌, ◌%◌, ◌≤◌, ◌≡◌, refl, inl, inr, ◌&&◌, arith, ltb, leb, ◌==◌, if◌then◌else◌,
  Bool-cases,
}
use operating_systems_soluti.Kernel.Blocks.{bsize}

-- The bytes of a file with `left` bytes of `src` put in at `off`.
abbrev pub spliced : ℕ → ℕ → (ℕ → ℕ) → (ℕ → ℕ) → ℕ → ℕ
spliced off left src old k = if leb off k && ltb k (off + left) then src (k - off) else old k

-- A range within a block, by blocks and offsets or by positions in the file.
in_range :
    (off p k : ℕ)
    → off % bsize + p ≤ bsize
    → (k / bsize == off / bsize
        && (leb (off % bsize) (k % bsize) && ltb (k % bsize) (off % bsize + p)))
      ≡ (leb off k && ltb k (off + p))
in_range off p k fits = ground arith

pub range :
    (off p k old : ℕ) (src : ℕ → ℕ)
    → off % bsize + p ≤ bsize
    → (if k / bsize == off / bsize
          && (leb (off % bsize) (k % bsize) && ltb (k % bsize) (off % bsize + p))
        then src (k % bsize - off % bsize)
        else old)
      ≡ (if leb off k && ltb k (off + p) then src (k - off) else old)
range off p k old src fits = elim (Bool-cases (leb off k && ltb k (off + p))) [
  | inl within ↦
      let e : k % bsize - off % bsize ≡ k - off = ground arith in
      rw (in_range off p k fits, within, e) refl
  | inr outside ↦ rw (in_range off p k fits, outside) refl
]

-- A piece, and then the rest.
pub spliced_twice :
    (off p left k : ℕ) (src old : ℕ → ℕ)
    → p ≤ left
    → spliced (off + p) (left - p) (λ j. src (p + j)) (spliced off p src old) k
      ≡ spliced off left src old k
spliced_twice off p left k src old le =
    let back : off + p ≤ k → p + (k - (off + p)) ≡ k - off = λ h. omega arith in
    elim (Bool-cases (leb (off + p) k)) [
      | inl later ↦
          let e : p + (k - (off + p)) ≡ k - off = ground arith in rw (later, e) (ground arith)
      | inr sooner ↦ rw sooner (ground arith)
    ]

pub spliced_old :
    (off left : ℕ) (src old old' : ℕ → ℕ) (k : ℕ)
    → old k ≡ old' k
    → spliced off left src old k ≡ spliced off left src old' k
spliced_old off left src old old' k e = rw e refl
