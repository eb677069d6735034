-- ===== src/Kernel/Files/Counts.antt =====
-- The references to the open files of ex3/q1/xv6/file.c.
use operating_systems_soluti.Base.{
  ℕ, suc, ◌<◌, ◌≡◌, refl, ap, subst, ◌∙◌, inl, inr, false, not, Option, none, some, List, [], ◌∷◌,
  ◌++◌, arith, ◌==◌, if◌then◌else◌, ==_refl, Bool-cases, count, count-append, update, find,
  find_from-some, pos, ltb_ℤ, eqb_ℤ, int_max, inc,
}
use operating_systems_soluti.Kernel.Files.{
  File, FileTable, fd_none, Cleanup, nothing, cleanup, set_ref, nfile, filealloc, take_file,
  filedup, fileclose,
}

-- The table with the references that processes hold, each as its slot.
pub record World : Type 0 where
  pub table : FileTable
  pub held : List ℕ

-- Whoever duplicates or closes a reference holds one. An `int` is enough for the references.
pub data Step : World → World → Type 0 where
  alloc :
      (w : World) (i : ℕ)
      → (filealloc w.table).1 ≡ some i
      → Step w (record { table = (filealloc w.table).0; held = i ∷ w.held })
  duplicate :
      (t t' : FileTable) (i : ℕ) (xs ys : List ℕ)
      → count i (xs ++ (i ∷ ys)) < int_max
      → filedup t i ≡ some t'
      → Step
          (record { table = t; held = xs ++ (i ∷ ys) })
          (record { table = t'; held = i ∷ (xs ++ (i ∷ ys)) })
  close :
      (t t' : FileTable) (i : ℕ) (c : Cleanup) (xs ys : List ℕ)
      → fileclose t i ≡ some (t', c)
      → Step (record { table = t; held = xs ++ (i ∷ ys) }) (record { table = t'; held = xs ++ ys })

pub data Reach (t0 : FileTable) : World → Type 0 where
  start : Reach t0 (record { table = t0; held = [] })
  later : {w u : World} → Reach t0 w → Step w u → Reach t0 u

abbrev pub IsCounted : World → Type 0
IsCounted w = (i : ℕ) → (w.table i).ref ≡ pos (count i w.held)

abbrev forget : File → File
forget f = record f { ref = pos 0; type = fd_none }

-- `fileclose` of a slot with `n + 1` references.
fileclose-counted :
    (t : FileTable) (i n : ℕ)
    → (t i).ref ≡ pos (suc n)
    → fileclose t i ≡ (
        if n == 0
        then some (update t i (forget (t i)), cleanup (t i))
        else some (set_ref t i (pos n), nothing))
unfolding fileclose
fileclose-counted t i n e =
    let positive : ltb_ℤ (pos (suc n)) (pos 1) ≡ false = ground arith in
    let more : ltb_ℤ (pos 0) (pos n) ≡ not (n == 0) = ground arith in
    elim (Bool-cases (n == 0)) [
      | inl last ↦ rw (e, positive, more, last) refl
      | inr others ↦ rw (e, positive, more, others) refl
    ]

fileclose-ref :
    (t t' : FileTable) (i n : ℕ) (c : Cleanup)
    → (t i).ref ≡ pos (suc n)
    → fileclose t i ≡ some (t', c)
    → (j : ℕ) → (t' j).ref ≡ (if i == j then pos n else (t j).ref)
fileclose-ref t t' i n c e h = elim (Bool-cases (n == 0)) [
  | inl last ↦
      let same : update t i (forget (t i)) ≡ t' = ground (arith, fileclose-counted t i n e) in
      λ j.
        subst (λ (u : FileTable). (u j).ref ≡ (if i == j then pos n else (t j).ref)) same
          (ground arith)
  | inr others ↦
      let same : set_ref t i (pos n) ≡ t' = ground (arith, fileclose-counted t i n e) in
      λ j.
        subst (λ (u : FileTable). (u j).ref ≡ (if i == j then pos n else (t j).ref)) same
          (ground arith)
]

filealloc-ref :
    (t : FileTable) (i : ℕ)
    → (filealloc t).1 ≡ some i
    → ((t i).ref ≡ pos 0)
      × ((j : ℕ) → ((filealloc t).0 j).ref ≡ (if i == j then pos 1 else (t j).ref))
unfolding filealloc
filealloc-ref t i h = go (find (λ k. eqb_ℤ (t k).ref (pos 0)) nfile) refl h
  where
    go :
        (v : Option ℕ)
        → find (λ k. eqb_ℤ (t k).ref (pos 0)) nfile ≡ v
        → (take_file t v).1 ≡ some i
        → ((t i).ref ≡ pos 0)
          × ((j : ℕ) → ((take_file t v).0 j).ref ≡ (if i == j then pos 1 else (t j).ref))
    go none e h = absurd cc
    go (some k) e h =
        let same : k ≡ i = cc in
        let hit = find_from-some (λ k. eqb_ℤ (t k).ref (pos 0)) nfile 0 k e in
        (ground (arith, hit.0, same), λ j. ground (arith, same))

filedup-ref :
    (t t' : FileTable) (i n : ℕ)
    → (t i).ref ≡ pos n
    → n < int_max
    → filedup t i ≡ some t'
    → (j : ℕ) → (t' j).ref ≡ (if i == j then pos (suc n) else (t j).ref)
unfolding filedup
filedup-ref t t' i n e lt h j =
    let up : inc (pos n) ≡ pos (suc n) = ground arith in
    elim (Bool-cases (ltb_ℤ (t i).ref (pos 1))) [
      | inl bad ↦ ground arith
      | inr good ↦
          let same : set_ref t i (inc (t i).ref) ≡ t' = ground arith in
          subst (λ (u : FileTable). (u j).ref ≡ (if i == j then pos (suc n) else (t j).ref)) same
            (rw (e, up) (ground arith))
    ]

Step-IsCounted : {w u : World} → Step w u → IsCounted w → IsCounted u
Step-IsCounted (alloc w i e) h =
    let r = filealloc-ref w.table i e in λ j. ground (arith, r.0, r.1 j, h i, h j)
Step-IsCounted (duplicate t t' i xs ys lt e) h =
    λ j. ground (arith, filedup-ref t t' i (count i (xs ++ (i ∷ ys))) (h i) lt e j, h j)
Step-IsCounted (close t t' i c xs ys e) h =
    let here : count i (xs ++ (i ∷ ys)) ≡ suc (count i (xs ++ ys)) =
      ground (arith, count-append i xs (i ∷ ys), count-append i xs ys, ==_refl i) in
    λ j. ground (
      arith,
      here,
      fileclose-ref t t' i (count i (xs ++ ys)) c (h i ∙ ap pos here) e j,
      h j,
      count-append j xs (i ∷ ys),
      count-append j xs ys,
    )

Reach-IsCounted :
    {t0 : FileTable} {w : World} → ((i : ℕ) → (t0 i).ref ≡ pos 0) → Reach t0 w → IsCounted w
Reach-IsCounted zeroes start = zeroes
Reach-IsCounted zeroes (later r s) = Step-IsCounted s (Reach-IsCounted zeroes r)

-- From a table without references, however files are allocated, duplicated and closed by those that hold a
-- reference, closing a held reference never panics, and its pipe or inode is given up exactly when no other
-- reference to the file is held.
pub fileclose_last :
    {t0 : FileTable} (t : FileTable) (i : ℕ) (xs ys : List ℕ)
    → ((k : ℕ) → (t0 k).ref ≡ pos 0)
    → Reach t0 (record { table = t; held = xs ++ (i ∷ ys) })
    → (t' : FileTable) × (fileclose t i
        ≡ some (t', if count i (xs ++ ys) == 0 then cleanup (t i) else nothing))
      × IsCounted (record { table = t'; held = xs ++ ys })
fileclose_last t i xs ys zeroes r =
    let h = Reach-IsCounted zeroes r in
    let n : ℕ = count i (xs ++ ys) in
    let here : count i (xs ++ (i ∷ ys)) ≡ suc n =
      ground (arith, count-append i xs (i ∷ ys), count-append i xs ys, ==_refl i) in
    let e : (t i).ref ≡ pos (suc n) = h i ∙ ap pos here in
    let closed = fileclose-counted t i n e in
    elim (Bool-cases (n == 0)) [
      | inl last ↦
          let done : fileclose t i ≡ some (update t i (forget (t i)), cleanup (t i)) =
            ground (arith, closed) in
          (
            update t i (forget (t i)),
            ground (arith, done, last),
            Step-IsCounted (close t _ i _ xs ys done) h,
          )
      | inr others ↦
          let done : fileclose t i ≡ some (set_ref t i (pos n), nothing) = ground (arith, closed) in
          (
            set_ref t i (pos n),
            ground (arith, done, others),
            Step-IsCounted (close t _ i _ xs ys done) h,
          )
    ]
