-- ===== src/Kernel/Sem/Race.antt =====
-- Two processes in `sem_open` of ex3/q1/xv6/sem.c at once. `gslock` is released between the search
-- for a free slot and the writes into it, so both may be given the same slot.
use operating_systems_soluti.Base.{
  ℕ, zero, suc, ◌+◌, ◌≡◌, refl, false, Option, none, some, arith, ℤ, pos,
}
use operating_systems_soluti.Kernel.Strings.{Bytes}
use operating_systems_soluti.Kernel.Sem.{
  Table, nsem, spot, is_share, next_spot, scan_from, scan, fill, open_first, open_second,
}

-- Which slot is free does not depend on the name.
scan_from-same :
    (name name' : Bytes) (t : Table) (n i : ℕ) (k : Option ℕ)
    → is_share (scan_from name t n i k) ≡ false
    → is_share (scan_from name' t n i k) ≡ false
    → scan_from name' t n i k ≡ scan_from name t n i k
unfolding scan_from
scan_from-same name name' t zero i k h h' = refl
scan_from-same name name' t (suc n) i k h h' =
    ground (arith, scan_from-same name name' t n (i + 1) (next_spot k (t i).linked i))

open_first-spot :
    (name : Bytes) (t : Table) (i : ℕ) → scan name t ≡ spot i → open_first name t ≡ (t, spot i)
unfolding open_first
open_first-spot name t i h = rw (h, open_first)

-- If a second process searches while the first has released the lock and not yet written, and
-- neither name is open, both calls return the same slot: it holds the name, the count and the maximum
-- of the later writer alone, and a reference count of 1 for its two holders.
pub sem_open_race :
    (name name' : Bytes) (init max_val init' max_val' : ℤ) (pid pid' i : ℕ) (t : Table)
    → scan name t ≡ spot i
    → is_share (scan name' t) ≡ false
    → let (t₁, found) = open_first name t in
      let (t₂, found') = open_first name' t₁ in
      let (t₃, r) = open_second name init max_val pid (t₂, found) in
      let (t₄, r') = open_second name' init' max_val' pid' (t₃, found') in
      (r ≡ some i)
      × (r' ≡ some i)
      × (t₄ i ≡ fill name' init' max_val' pid' (fill name init max_val pid (t i)))
      × ((t₄ i).ref ≡ pos 1)
unfolding scan open_second fill
sem_open_race name name' init max_val init' max_val' pid pid' i t h h' =
    let first = open_first-spot name t i h in
    let second =
      open_first-spot name' t i (rw (scan_from-same name name' t nsem 0 none (rw h) h') h) in
    rw (first, second) (refl, refl, ground arith, ground (arith, fill-ref))
  where
    fill-ref : (fill name' init' max_val' pid' (fill name init max_val pid (t i))).ref ≡ pos 1
    fill-ref = refl
