-- ===== src/Kernel/Pages/Range.antt =====
-- What `freerange` of ex3/q1/xv6/kalloc.c puts on the free list.
use operating_systems_soluti.Base.{
  ℕ, zero, suc, ◌+◌, ◌*◌, ◌%◌, ◌≤◌, ◌<◌, ◌≡◌, refl, inl, inr, Bool, false, ◌&&◌, Option, none, some,
  List, [], ◌∷◌, arith, leb, ◌==◌, if◌then◌else◌, Bool-cases, update, count,
}
use operating_systems_soluti.Kernel.Pages.{
  Kmem, pgsize, kernbase, phystop, kfree, free_pages, freerange, round_up, is_bad,
}
use operating_systems_soluti.Kernel.Pages.Owners.{Chain, kfree-Chain}

-- The pages from `p` on that end before `vend`.
abbrev pub is_page_of : ℕ → ℕ → ℕ → Bool
is_page_of p vend v = (v % pgsize == 0) && (leb p v && leb (v + pgsize) vend)

-- A list to which exactly those pages were added.
pub record Freed (p vend : ℕ) (xs : List ℕ) (r : Option Kmem) : Type 0 where
  pub kmem : Kmem
  pub returns : r ≡ some kmem
  pub pages : List ℕ
  pub chain : Chain kmem.next kmem.freelist pages
  pub counts : (v : ℕ) → count v pages ≡ count v xs + (if is_page_of p vend v then 1 else 0)

kfree_good :
    (end v : ℕ) (k : Kmem)
    → is_bad end v ≡ false
    → kfree end v k ≡ some (record { freelist = some v; next = update k.next v k.freelist })
unfolding kfree
kfree_good end v k e = rw e refl

free_pages-Freed :
    (fuel end vend p : ℕ) (k : Kmem) (xs : List ℕ)
    → Chain k.next k.freelist xs
    → ((v : ℕ) → p ≤ v → count v xs ≡ 0)
    → p % pgsize ≡ 0
    → end ≤ p
    → kernbase ≤ p
    → vend ≤ kernbase + phystop
    → 0 < fuel
    → vend < p + fuel * pgsize
    → Freed p vend xs (free_pages fuel end vend p k)
unfolding free_pages
free_pages-Freed zero end vend p k xs c new al lo kb hi pos_fuel enough = absurd (omega arith)
free_pages-Freed (suc n) end vend p k xs c new al lo kb hi pos_fuel enough =
    elim (Bool-cases (leb (p + pgsize) vend)) [
      | inr done ↦
          rw (free_pages, done)
            (record { kmem = k; returns = refl; pages = xs; chain = c; counts = λ v. ground arith })
      | inl more ↦
          let ok : is_bad end p ≡ false = ground arith in
          let free = kfree_good end p k ok in
          let k' : Kmem = record { freelist = some p; next = update k.next p k.freelist } in
          let r =
            free_pages-Freed n end vend (p + pgsize) k' (p ∷ xs)
              (kfree-Chain end p k xs c (new p (omega arith)) free) (λ v le. ground (arith, new v))
              (omega arith) (omega arith) (omega arith) hi (ground arith) (ground arith) in
          rw (free_pages, more, free)
            (record {
              kmem = r.kmem;
              returns = r.returns;
              pages = r.pages;
              chain = r.chain;
              counts = λ v. ground (arith, r.counts v);
            })
    ]

-- When the kernel ends before the range and the range before `PHYSTOP`, and the fuel exceeds the number
-- of pages, `freerange` on an empty list does not panic, and the free list holds once each page that lies
-- wholly in the range, and nothing else.
pub freerange-Freed :
    (fuel end vstart vend : ℕ) (next : ℕ → Option ℕ)
    → kernbase ≤ vstart
    → end ≤ vstart
    → vstart ≤ vend
    → vend ≤ kernbase + phystop
    → vend < fuel * pgsize + vstart
    → Freed
        (round_up vstart)
        vend
        []
        (freerange fuel end vstart vend (record { freelist = none; next = next }))
unfolding freerange
freerange-Freed fuel end vstart vend next kb lo order hi enough =
    free_pages-Freed fuel end vend (round_up vstart) (record { freelist = none; next = next }) []
      refl (λ v le. refl) (omega arith) (omega arith) (omega arith) hi (ground arith) (omega arith)
