-- ===== src/Kernel/Pages/Tests.antt =====
-- Runs of ex3/q1/xv6/kalloc.c, and its theorems at a concrete list.
use operating_systems_soluti.Base.{
  ℕ, ◌+◌, ◌-◌, ◌≡◌, refl, Option, none, some, [], ◌∷◌, arith, ◌==◌, if◌then◌else◌, count,
}
use operating_systems_soluti.Kernel.Pages.{free_pages, Kmem, kalloc, freerange, kernbase}
use operating_systems_soluti.Kernel.Pages.Owners.{take_page, Reach, start, later, kalloc_exclusive}

abbrev base : ℕ
base = 0x80400000

abbrev no_pages : Kmem
no_pages = record { freelist = none; next = λ v. none }

abbrev two_pages : Kmem
two_pages = record {
  freelist = some (base + 4096);
  next = λ v. if v == base + 4096 then some base else none;
}

abbrev first_free : Option Kmem → Option ℕ
first_free none = none
first_free (some k) = k.freelist

-- Two pages lie in a range that begins within a page.
range_pages :
    first_free (freerange 4 kernbase (base - 5) (base + 8200) no_pages) ≡ some (base + 4096)
unfolding freerange free_pages
range_pages = refl

after_take : Reach two_pages (record { kmem = (kalloc two_pages).0; held = (base + 4096) ∷ [] })
unfolding kalloc
after_take = later start (take_page (record { kmem = two_pages; held = [] }) (base + 4096) refl)

kalloc_exclusive_example :
    ((v : ℕ)
      → (kalloc (kalloc two_pages).0).1 ≡ some v
      → (count v ((base + 4096) ∷ []) ≡ 0) × (count v ((base + 4096) ∷ base ∷ []) ≡ 1))
    × ((kalloc (kalloc two_pages).0).1 ≡ none
        → (v : ℕ) → count v ((base + 4096) ∷ []) ≡ count v ((base + 4096) ∷ base ∷ []))
kalloc_exclusive_example =
    kalloc_exclusive ((base + 4096) ∷ base ∷ []) (refl, (refl, refl)) (λ v. ground arith) after_take
