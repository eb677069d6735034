-- ===== src/Kernel/Icache/Scan.antt =====
-- The loop of `iget` in ex3/q1/xv6/fs.c.
use operating_systems_soluti.Base.{
  ℕ, zero, suc, ◌+◌, ◌<◌, ◌≡◌, inl, inr, true, false, Option, none, some, arith, ltb, ◌==◌,
  Bool-cases,
}
use operating_systems_soluti.Kernel.Icache.{Icache, is_cached, keep_empty, scan_from}

-- What the loop has found among the entries below `n`: the inode itself, or that it is not there and a slot
-- that is empty, or that no slot is.
pub data Scan (dev inum n : ℕ) (c : Icache) : Option ℕ × Option ℕ → Type 0 where
  at_entry :
      (i : ℕ) (empty : Option ℕ)
      → i < n
      → is_cached dev inum (c.entry i) ≡ true
      → Scan dev inum n c (some i, empty)
  at_empty :
      (e : ℕ)
      → e < n
      → (c.entry e).ref ≡ 0
      → ((i : ℕ) → i < n → is_cached dev inum (c.entry i) ≡ false)
      → Scan dev inum n c (none, some e)
  all_taken :
      ((i : ℕ) → i < n → 0 < (c.entry i).ref)
      → ((i : ℕ) → i < n → is_cached dev inum (c.entry i) ≡ false)
      → Scan dev inum n c (none, none)

-- The remembered slot, of the entries below `i`.
pub data Empty (c : Icache) (i : ℕ) : Option ℕ → Type 0 where
  a_slot : (e : ℕ) → e < i → (c.entry e).ref ≡ 0 → Empty c i (some e)
  no_slot : ((k : ℕ) → k < i → 0 < (c.entry k).ref) → Empty c i none

keep_empty-Empty :
    (c : Icache) (i : ℕ) {o : Option ℕ} → Empty c i o → Empty c (i + 1) (keep_empty c i o)
keep_empty-Empty c i (a_slot e lt z) = a_slot e (omega arith) z
keep_empty-Empty c i (no_slot taken) = elim (Bool-cases ((c.entry i).ref == 0)) [
  | inl free ↦ rw free (a_slot i (omega arith) (ground arith))
  | inr used ↦ rw used (no_slot (λ k lt. ground (arith, taken k)))
]

pub scan_from-Scan :
    (dev inum m i n : ℕ) (c : Icache) {o : Option ℕ}
    → m + i ≡ n
    → ((k : ℕ) → k < i → is_cached dev inum (c.entry k) ≡ false)
    → Empty c i o
    → Scan dev inum n c (scan_from dev inum m i c o)
unfolding scan_from
scan_from-Scan dev inum zero i n c e miss (a_slot s lt z) =
    at_empty s (omega arith) z (λ k lk. miss k (omega arith))
scan_from-Scan dev inum zero i n c e miss (no_slot taken) =
    all_taken (λ k lk. taken k (omega arith)) (λ k lk. miss k (omega arith))
scan_from-Scan dev inum (suc m) i n c {o} e miss h =
    elim (Bool-cases (is_cached dev inum (c.entry i))) [
      | inl hit ↦ rw hit (at_entry i o (omega arith) hit)
      | inr other ↦ rw other (
          scan_from-Scan dev inum m (i + 1) n c (omega arith)
            (λ k lt. elim (Bool-cases (ltb k i)) [
              | inl before ↦ miss k (ground arith)
              | inr here ↦ let s : k ≡ i = ground arith in rw s other
            ])
            (keep_empty-Empty c i h))
    ]
