-- ===== src/Kernel/Dirs/Search.antt =====
-- `dirlookup` of ex3/q1/xv6/fs.c finds the first entry of a directory with a name.
use operating_systems_soluti.Base.{
  ℕ, zero, suc, ◌+◌, ◌-◌, ◌*◌, ◌/◌, ◌%◌, ◌≤◌, ◌<◌, ◌≡◌, refl, sym, ap, subst, fun_ext, ◌∙◌, ◌≢◌,
  inl, inr, true, false, Option, none, some, arith, ltb, ◌==◌, Bool-cases, update, pos,
}
use operating_systems_soluti.Kernel.Strings.{Bytes, strncmp, strncmp_from}
use operating_systems_soluti.Kernel.Blocks.{Superblock, Disk, Inode, bsize}
use operating_systems_soluti.Kernel.Inodes.{maxfile, readi}
use operating_systems_soluti.Kernel.Inodes.Pointers.{ptr, slot}
use operating_systems_soluti.Kernel.Inodes.Contents.{file_at}
use operating_systems_soluti.Kernel.Inodes.Reads.{available}
use operating_systems_soluti.Kernel.Inodes.Whole.{readi-there}
use operating_systems_soluti.Kernel.Icache.{Icache, iget}
use operating_systems_soluti.Kernel.Dirs.{
  directory, inum_of, name_of, is_entry, and_entry, lookup_from, dirlookup, dirent_size, left_dir,
  with_offset, found_inode,
}

strncmp_from-same :
    (n i : ℕ) (p q q' : Bytes)
    → ((k : ℕ) → k < i + n → q k ≡ q' k)
    → strncmp_from n i p q ≡ strncmp_from n i p q'
unfolding strncmp_from
strncmp_from-same zero i p q q' e = refl
strncmp_from-same (suc n) i p q q' e =
    let here = e i (omega arith) in
    let rest = strncmp_from-same n (i + 1) p q q' (λ k lt. e k (omega arith)) in
    rw (here, rest) refl

-- The test of an entry reads its sixteen bytes only.
is_entry-same :
    (name de de' : Bytes) → ((k : ℕ) → k < 16 → de k ≡ de' k) → is_entry name de ≡ is_entry name de'
unfolding strncmp
is_entry-same name de de' e =
    let cmp =
      strncmp_from-same 14 0 name (name_of de) (name_of de') (λ k lt. e (2 + k) (omega arith)) in
    rw (e 0 (omega arith), e 1 (omega arith), cmp) refl

-- Entry `k` of the directory.
abbrev pub dirent : Disk → Inode → ℕ → Bytes
dirent d dp k j = file_at d dp (16 * k + j)

-- The first entry from number `k` on with the name, with its number and offset, or that there is none.
pub data Entry (d : Disk) (dp : Inode) (name : Bytes) (k : ℕ) : Option (ℕ × ℕ) → Type 0 where
  first_entry :
      (m : ℕ)
      → k ≤ m
      → 16 * m < dp.size
      → is_entry name (dirent d dp m) ≡ true
      → ((j : ℕ) → k ≤ j → j < m → is_entry name (dirent d dp j) ≡ false)
      → Entry d dp name k (some (inum_of (dirent d dp m), 16 * m))
  no_entry :
      ((j : ℕ) → k ≤ j → 16 * j < dp.size → is_entry name (dirent d dp j) ≡ false)
      → Entry d dp name k none

-- The rest of a search, behind an entry `k` that is another one.
Entry-later :
    {d : Disk} {dp : Inode} (name : Bytes) (k : ℕ) {v : Option (ℕ × ℕ)}
    → is_entry name (dirent d dp k) ≡ false
    → Entry d dp name (k + 1) v
    → Entry d dp name k v
Entry-later name k other (first_entry m le lt hit before) =
    first_entry m (omega arith) lt hit (λ j lj jm. elim (Bool-cases (ltb k j)) [
      | inl after ↦ before j (ground (arith, after)) jm
      | inr here ↦ let s : j ≡ k = ground (arith, here, lj) in rw s other
    ])
Entry-later name k other (no_entry miss) = no_entry (λ j le lt. elim (Bool-cases (ltb k j)) [
  | inl after ↦ miss j (ground (arith, after)) lt
  | inr here ↦ let s : j ≡ k = ground (arith, here, le) in rw s other
])

module _ (sb : Superblock) (name : Bytes) (d : Disk) (dp : Inode)
    (there : (k : ℕ) → k < dp.size → ptr d dp (slot (k / bsize)) ≢ 0)
    (size : dp.size ≤ maxfile * bsize) where
  lookup_from-Entry :
      (fuel off k m : ℕ)
      → off ≡ 16 * k
      → 16 * (k + m) ≡ dp.size
      → m < fuel
      → (v : Option (ℕ × ℕ)) × (lookup_from sb name fuel off dp d ≡ some (d, dp, v))
        × Entry d dp name k v
  unfolding lookup_from
  lookup_from-Entry zero off k m here left lt = absurd (omega arith)
  lookup_from-Entry (suc fuel) off k m here left lt = elim (Bool-cases (ltb off dp.size)) [
    | inr done ↦
        rw done (none, refl, no_entry (λ j le lj. absurd (ground (arith, done, here, le, lj))))
    | inl more ↦
        let some_left : off < dp.size = ground (arith, more) in
        let full : available dp off 16 ≡ 16 = ground (arith, here, left, some_left) in
        let (dst, e, bytes) = readi-there sb off 16 d dp there (omega arith) (omega arith) size in
        let got : readi sb dp off 16 d ≡ some (d, dp, pos 16, dst) = rw full at e in
        let whole : (j : ℕ) → j < 16 → dst j ≡ dirent d dp k j =
          λ j lj. bytes j (rw full lj) ∙ ap (λ o. file_at d dp (o + j)) here in
        let same = is_entry-same name dst (dirent d dp k) whole in
        elim (Bool-cases (is_entry name (dirent d dp k))) [
          | inl hit ↦
              let number : inum_of dst ≡ inum_of (dirent d dp k) =
                omega (arith, whole 0 (omega arith), whole 1 (omega arith)) in
              rw (lookup_from, more, got, and_entry, same, hit)
                (
                  some (inum_of dst, off),
                  refl,
                  rw (number, here)
                      (first_entry k (omega arith) (omega (arith, here, some_left)) hit
                        (λ j le lj. absurd (omega arith))),
                )
          | inr other ↦
              let (v, e2, found) =
                lookup_from-Entry fuel (off + 16) (k + 1) (m - 1) (omega (arith, here))
                  (omega (arith, left, some_left, here)) (omega arith) in
              rw (lookup_from, more, got, and_entry, same, other)
                (v, e2, Entry-later name k other found)
        ]
  ]

-- An entry that is stored again
entry_again : (i : ℕ) (c : Icache) → update c.entry i (c.entry i) ≡ c.entry
entry_again i c = fun_ext (λ j. elim (Bool-cases (i == j)) [
  | inl here ↦ let s : i ≡ j = ground arith in rw here (ap c.entry s)
  | inr there ↦ rw there refl
])

-- What a search returns: nothing, with the cache as it was, or what `iget` makes of the number of the entry.
pub data Found (dev : ℕ) (name : Bytes) (d : Disk) (dp : Inode) (c : Icache)
    : Option (Icache × Option (ℕ × ℕ)) → Type 0 where
  not_there : Entry d dp name 0 none → Found dev name d dp c (some (c, none))
  in_cache :
      (inum off j : ℕ) (c' : Icache)
      → Entry d dp name 0 (some (inum, off))
      → iget dev inum c ≡ some (c', j)
      → Found dev name d dp c (some (c', some (j, off)))
  no_inodes :
      (inum off : ℕ)
      → Entry d dp name 0 (some (inum, off))
      → iget dev inum c ≡ none
      → Found dev name d dp c none

-- `dirlookup` in a directory of whole entries and without holes: it finds the first entry that is in use and has the
-- name in its fourteen bytes, and returns what `iget` gives for its number, with its offset; it returns
-- nothing, with all as it was, just if there is no such entry; and it panics only where `iget` has no entry of
-- the cache left.
pub dirlookup-Found :
    (sb : Superblock) (name : Bytes) (i : ℕ) (c : Icache)
    → ((k : ℕ) → k < (c.entry i).node.size → ptr c.disk (c.entry i).node (slot (k / bsize)) ≢ 0)
    → (c.entry i).node.type ≡ directory
    → (c.entry i).node.size ≤ maxfile * bsize
    → (c.entry i).node.size % dirent_size ≡ 0
    → Found (c.entry i).dev name c.disk (c.entry i).node c (dirlookup sb i name c)
unfolding dirlookup
dirlookup-Found sb name i c there dir size whole =
    let dp = (c.entry i).node in
    let t : (dp.type == directory) ≡ true = ground (arith, dir) in
    let (v, e, found) =
      lookup_from-Entry sb name c.disk dp there size (dp.size / 16 + 1) 0 0 (dp.size / 16) refl
        (omega (arith, whole)) (omega arith) in
    let same : left_dir i c.disk dp c ≡ c = ap (λ t. record c { entry = t }) (entry_again i c) in
    rw (t, e) (go v found same)
  where
    go :
        (v : Option (ℕ × ℕ))
        → Entry c.disk (c.entry i).node name 0 v
        → left_dir i c.disk (c.entry i).node c ≡ c
        → Found
            (c.entry i).dev
            name
            c.disk
            (c.entry i).node
            c
            (found_inode i c (some (c.disk, (c.entry i).node, v)))
    go none found same =
        subst (λ z. Found (c.entry i).dev name c.disk (c.entry i).node c (some (z, none)))
          (sym same) (not_there found)
    go (some (inum, off)) found same =
        subst
          (λ z.
            Found (c.entry i).dev name c.disk (c.entry i).node c
              (with_offset off (iget (c.entry i).dev inum z)))
          (sym same) (given inum off found (iget (c.entry i).dev inum c) refl)
      where
        given :
            (inum off : ℕ)
            → Entry c.disk (c.entry i).node name 0 (some (inum, off))
            → (r : Option (Icache × ℕ)) → iget (c.entry i).dev inum c ≡ r
            → Found (c.entry i).dev name c.disk (c.entry i).node c (with_offset off r)
        given inum off found none q = no_inodes inum off found q
        given inum off found (some (c', j)) q = in_cache inum off j c' found q
