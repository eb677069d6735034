-- ===== src/Kernel/Icache/Unique.antt =====
-- The inode cache of ex3/q1/xv6/fs.c holds an inode at most once, and counts the pointers to it.
use operating_systems_soluti.Base.{
  ℕ, ◌+◌, ◌≤◌, ◌<◌, ◌≡◌, refl, sym, ap, subst, ◌∙◌, ◌≢◌, inl, inr, false, Option, none, some, arith,
  ◌==◌, Bool-cases, update,
}
use operating_systems_soluti.Kernel.Icache.{Cached, Icache, ninode, is_cached, iget_at, iget}
use operating_systems_soluti.Kernel.Icache.Scan.{
  Scan, at_entry, at_empty, all_taken, no_slot, scan_from-Scan,
}

-- The reference count of an entry is the number of pointers that callers hold, and no two entries with a
-- reference have the same device and number.
pub record IsCache (t : ℕ → Cached) (holders : ℕ → ℕ) : Type 0 where
  pub refs : (i : ℕ) → i < ninode → (t i).ref ≡ holders i
  pub inside : (i : ℕ) → ninode ≤ i → holders i ≡ 0
  pub unique :
      (i j : ℕ)
      → i < ninode
      → j < ninode
      → 0 < (t i).ref
      → 0 < (t j).ref
      → (t i).dev ≡ (t j).dev
      → (t i).node.inum ≡ (t j).node.inum
      → i ≡ j

-- A change of one entry, which keeps its inode if it is referenced afterwards.
pub change-IsCache :
    {t u : ℕ → Cached} {holders : ℕ → ℕ} (i n : ℕ)
    → IsCache t holders
    → i < ninode
    → ((k : ℕ) → k ≢ i → u k ≡ t k)
    → (u i).ref ≡ n
    → (0 < n → (0 < (t i).ref) × ((u i).dev ≡ (t i).dev) × ((u i).node.inum ≡ (t i).node.inum))
    → IsCache u (update holders i n)
change-IsCache {t} {u} {holders} i n h lt others ref keeps = record {
  refs = λ k lk. elim (Bool-cases (k == i)) [
    | inl here ↦ let s : k ≡ i = ground arith in rw s (ground (arith, ref))
    | inr there ↦
        let e = others k (ground (arith, there)) in rw e (ground (arith, h.refs k lk, there))
  ];
  inside = λ k le. ground (arith, h.inside k le);
  unique = λ j k lj lk pj pk dev inum.
      let a = same j pj in
      let b = same k pk in h.unique j k lj lk a.0 b.0 (sym a.1 ∙ dev ∙ b.1) (sym a.2 ∙ inum ∙ b.2);
}
  where
    same :
        (k : ℕ)
        → 0 < (u k).ref
        → (0 < (t k).ref) × ((u k).dev ≡ (t k).dev) × ((u k).node.inum ≡ (t k).node.inum)
    same k p = elim (Bool-cases (k == i)) [
      | inl here ↦ let s : k ≡ i = ground arith in rw s (keeps (subst (λ z. 0 < z) ref (rw s at p)))
      | inr there ↦
          let e = others k (ground (arith, there)) in
          (rw e at p, ap (λ z. z.dev) e, ap (λ z. z.node.inum) e)
    ]

-- An entry that was free is given an inode that no other entry holds.
new-IsCache :
    {t u : ℕ → Cached} {holders : ℕ → ℕ} (dev inum i : ℕ)
    → IsCache t holders
    → i < ninode
    → ((k : ℕ) → k ≢ i → u k ≡ t k)
    → ((k : ℕ) → k < ninode → is_cached dev inum (t k) ≡ false)
    → (u i).ref ≡ 1
    → (u i).dev ≡ dev
    → (u i).node.inum ≡ inum
    → IsCache u (update holders i 1)
new-IsCache {t} {u} {holders} dev inum i h lt others miss ref d n = record {
  refs = λ k lk. elim (Bool-cases (k == i)) [
    | inl here ↦ let s : k ≡ i = ground arith in rw s (ground (arith, ref))
    | inr there ↦
        let e = others k (ground (arith, there)) in rw e (ground (arith, h.refs k lk, there))
  ];
  inside = λ k le. ground (arith, h.inside k le);
  unique = λ j k lj lk pj pk ed en. elim (Bool-cases (j == i)) [
    | inl jh ↦ elim (Bool-cases (k == i)) [
      | inl kh ↦ ground arith
      | inr kt ↦
          let s : j ≡ i = ground arith in
          absurd (
            other k lk (ground (arith, kt)) pk (sym ed ∙ ap (λ z. (u z).dev) s ∙ d)
              (sym en ∙ ap (λ z. (u z).node.inum) s ∙ n))
    ]
    | inr jt ↦ elim (Bool-cases (k == i)) [
      | inl kh ↦
          let s : k ≡ i = ground arith in
          absurd (
            other j lj (ground (arith, jt)) pj (ed ∙ ap (λ z. (u z).dev) s ∙ d)
              (en ∙ ap (λ z. (u z).node.inum) s ∙ n))
      | inr kt ↦
          let a = others j (ground (arith, jt)) in
          let b = others k (ground (arith, kt)) in
          h.unique j k lj lk (rw a at pj) (rw b at pk)
            (sym (ap (λ z. z.dev) a) ∙ ed ∙ ap (λ z. z.dev) b)
            (sym (ap (λ z. z.node.inum) a) ∙ en ∙ ap (λ z. z.node.inum) b)
    ]
  ];
}
  where
    other :
        (k : ℕ) → k < ninode → k ≢ i → 0 < (u k).ref → (u k).dev ≡ dev → (u k).node.inum ≡ inum → ⊥
    other k lk ne p ed en =
        let e = others k ne in
        ground (
          arith,
          miss k lk,
          rw e at p,
          sym (ap (λ z. z.dev) e) ∙ ed,
          sym (ap (λ z. z.node.inum) e) ∙ en,
        )

-- What `iget` comes to: an entry for the inode, with one more pointer to it, or a panic when every entry is
-- referenced and none holds the inode.
pub data Iget (dev inum : ℕ) (c : Icache) (holders : ℕ → ℕ) : Option (Icache × ℕ) → Type 0 where
  found :
      (c' : Icache) (i : ℕ)
      → i < ninode
      → (c'.entry i).dev ≡ dev
      → (c'.entry i).node.inum ≡ inum
      → ((k : ℕ) → k ≢ i → c'.entry k ≡ c.entry k)
      → IsCache c'.entry (update holders i (holders i + 1))
      → Iget dev inum c holders (some (c', i))
  no_inodes :
      ((i : ℕ) → i < ninode → 0 < (c.entry i).ref)
      → ((i : ℕ) → i < ninode → is_cached dev inum (c.entry i) ≡ false)
      → Iget dev inum c holders none

iget_at-Iget :
    (dev inum : ℕ) (c : Icache) {holders : ℕ → ℕ} {r : Option ℕ × Option ℕ}
    → IsCache c.entry holders
    → Scan dev inum ninode c r
    → Iget dev inum c holders (iget_at dev inum c r)
iget_at-Iget dev inum c {holders} h (at_entry i empty lt hit) =
    found _ i lt (ground (arith, hit)) (ground (arith, hit)) (λ k ne. ground (arith, ne))
      (change-IsCache i (holders i + 1) h lt (λ k ne. ground (arith, ne))
        (ground (arith, h.refs i lt)) (λ p. (ground (arith, hit), ground arith, ground arith)))
iget_at-Iget dev inum c {holders} h (at_empty e lt z miss) =
    let one : holders e + 1 ≡ 1 = omega (arith, h.refs e lt, z) in
    found _ e lt (ground arith) (ground arith) (λ k ne. ground (arith, ne))
      (rw one (
        new-IsCache dev inum e h lt (λ k ne. ground (arith, ne)) miss (ground arith) (ground arith)
          (ground arith)))
iget_at-Iget dev inum c h (all_taken taken miss) = no_inodes taken miss

-- `iget` returns the entry of an inode that is in the cache, and gives it a free entry otherwise; no other
-- entry changes, and again each inode has at most one entry with references, whose count is the number of
-- its pointers. It panics only when every entry is referenced and none holds the inode.
pub iget-Iget :
    (dev inum : ℕ) (c : Icache) {holders : ℕ → ℕ}
    → IsCache c.entry holders
    → Iget dev inum c holders (iget dev inum c)
unfolding iget
iget-Iget dev inum c h = iget_at-Iget dev inum c h (
    scan_from-Scan dev inum ninode 0 ninode c refl (λ k lt. absurd (omega arith))
      (no_slot (λ k lt. absurd (omega arith))))
