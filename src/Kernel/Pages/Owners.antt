-- ===== src/Kernel/Pages/Owners.antt =====
-- Who holds which page of ex3/q1/xv6/kalloc.c: no page is handed out twice, and none is lost.
use operating_systems_soluti.Base.{
  ℕ, ◌+◌, ◌≤◌, ◌≡◌, refl, subst, inl, inr, true, false, Option, none, some, List, [], ◌∷◌, ◌++◌,
  arith, ◌==◌, ==_refl, Bool-cases, update, count, count-append,
}
use operating_systems_soluti.Kernel.Pages.{Kmem, kfree, is_bad, kalloc}

-- The free list through the pages is `xs`.
abbrev pub Chain : (ℕ → Option ℕ) → Option ℕ → List ℕ → Type 0
Chain next head [] = head ≡ none
Chain next head (x ∷ xs) = (head ≡ some x) × Chain next (next x) xs

Chain-update :
    (next : ℕ → Option ℕ) (head : Option ℕ) (xs : List ℕ) (v : ℕ) (n : Option ℕ)
    → count v xs ≡ 0
    → Chain next head xs
    → Chain (update next v n) head xs
Chain-update next head [] v n c h = h
Chain-update next head (x ∷ xs) v n c h =
    let other : (v == x) ≡ false = ground arith in
    (h.0, rw other (Chain-update next (next x) xs v n (ground arith) h.1))

pub kfree-Chain :
    (end v : ℕ) (k : Kmem) {k' : Kmem} (xs : List ℕ)
    → Chain k.next k.freelist xs
    → count v xs ≡ 0
    → kfree end v k ≡ some k'
    → Chain k'.next k'.freelist (v ∷ xs)
unfolding kfree
kfree-Chain end v k {k'} xs h c e = elim (Bool-cases (is_bad end v)) [
  | inl bad ↦ ground arith
  | inr good ↦
      let same : record { freelist = some v; next = update k.next v k.freelist } ≡ k' =
        ground arith in
      subst (λ (m : Kmem). Chain m.next m.freelist (v ∷ xs)) same
        (refl, rw (==_refl v) (Chain-update k.next k.freelist xs v k.freelist c h))
]

-- The allocator with the pages that its clients hold.
pub record World : Type 0 where
  pub kmem : Kmem
  pub held : List ℕ

-- A client takes a page, or gives one of its pages back.
pub data Step : World → World → Type 0 where
  take_page :
      (w : World) (v : ℕ)
      → (kalloc w.kmem).1 ≡ some v
      → Step w (record { kmem = (kalloc w.kmem).0; held = v ∷ w.held })
  give_back :
      (kmem k' : Kmem) (end v : ℕ) (xs ys : List ℕ)
      → kfree end v kmem ≡ some k'
      → Step (record { kmem = kmem; held = xs ++ (v ∷ ys) }) (record { kmem = k'; held = xs ++ ys })

pub data Reach (k0 : Kmem) : World → Type 0 where
  start : Reach k0 (record { kmem = k0; held = [] })
  later : {w u : World} → Reach k0 w → Step w u → Reach k0 u

-- Every one of the pages is free or held, and only once.
pub record IsShared (pages : List ℕ) (w : World) : Type 0 where
  pub free : List ℕ
  pub chain : Chain w.kmem.next w.kmem.freelist free
  pub conserved : (v : ℕ) → count v free + count v w.held ≡ count v pages

kalloc-IsShared :
    {pages : List ℕ} (w : World) (v : ℕ)
    → IsShared pages w
    → (kalloc w.kmem).1 ≡ some v
    → IsShared pages (record { kmem = (kalloc w.kmem).0; held = v ∷ w.held })
unfolding kalloc
kalloc-IsShared {pages} w v h e = go h.free h.chain h.conserved
  where
    go :
        (xs : List ℕ)
        → Chain w.kmem.next w.kmem.freelist xs
        → ((u : ℕ) → count u xs + count u w.held ≡ count u pages)
        → IsShared pages (record { kmem = (kalloc w.kmem).0; held = v ∷ w.held })
    go [] c all = ground (arith, c)
    go (x ∷ xs) c all =
        let same : x ≡ v = ground (arith, c.0) in
        record { free = xs; chain = rw c.0 c.1; conserved = λ u. ground (arith, all u, same) }

Step-IsShared :
    {pages : List ℕ} {w u : World}
    → ((v : ℕ) → count v pages ≤ 1)
    → Step w u
    → IsShared pages w
    → IsShared pages u
Step-IsShared once (take_page w v e) h = kalloc-IsShared w v h e
Step-IsShared once (give_back kmem k' end v xs ys e) h =
    let all = h.conserved in
    let absent : count v h.free ≡ 0 =
      ground (arith, all v, once v, count-append v xs (v ∷ ys), ==_refl v) in
    record {
      free = v ∷ h.free;
      chain = kfree-Chain end v kmem h.free h.chain absent e;
      conserved = λ u. omega (arith, all u, count-append u xs (v ∷ ys), count-append u xs ys);
    }

Reach-IsShared :
    {k0 : Kmem} (pages : List ℕ) {w : World}
    → Chain k0.next k0.freelist pages
    → ((v : ℕ) → count v pages ≤ 1)
    → Reach k0 w
    → IsShared pages w
Reach-IsShared pages c once start = record { free = pages; chain = c; conserved = λ v. omega arith }
Reach-IsShared pages c once (later r s) = Step-IsShared once s (Reach-IsShared pages c once r)

-- When a free list of distinct pages is used by clients that give back only pages they hold, in every
-- state that they reach `kalloc` returns a page of that list that nobody holds, or it fails and every
-- page of the list is held.
pub kalloc_exclusive :
    {k0 : Kmem} (pages : List ℕ) {w : World}
    → Chain k0.next k0.freelist pages
    → ((v : ℕ) → count v pages ≤ 1)
    → Reach k0 w
    → ((v : ℕ) → (kalloc w.kmem).1 ≡ some v → (count v w.held ≡ 0) × (count v pages ≡ 1))
      × ((kalloc w.kmem).1 ≡ none → (v : ℕ) → count v w.held ≡ count v pages)
unfolding kalloc
kalloc_exclusive {k0} pages {w} c once r =
    let h = Reach-IsShared pages c once r in go h.free h.chain h.conserved
  where
    go :
        (xs : List ℕ)
        → Chain w.kmem.next w.kmem.freelist xs
        → ((u : ℕ) → count u xs + count u w.held ≡ count u pages)
        → ((v : ℕ) → (kalloc w.kmem).1 ≡ some v → (count v w.held ≡ 0) × (count v pages ≡ 1))
          × ((kalloc w.kmem).1 ≡ none → (v : ℕ) → count v w.held ≡ count v pages)
    go [] c all = rw c (λ v e. absurd cc, λ e v. omega (arith, all v))
    go (x ∷ xs) c all = rw c.0 (
      λ v e.
          let same : x ≡ v = ground arith in
          let one : (x == v) ≡ true = ground arith in
          (ground (arith, all v, once v, one), ground (arith, all v, once v, one)),
      λ e. absurd cc,
    )
