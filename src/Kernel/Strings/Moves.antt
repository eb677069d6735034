-- ===== src/Kernel/Strings/Moves.antt =====
-- What `memmove` of ex3/q1/xv6/string.c leaves in memory, also where the two ranges overlap.
use operating_systems_soluti.Base.{
  ℕ, zero, suc, ◌+◌, ◌-◌, ◌≤◌, ◌⊎◌, ◌&&◌, ltb, leb, if◌then◌else◌, ◌≡◌, arith, update, inl, inr,
  Bool-cases,
}
use operating_systems_soluti.Kernel.Strings.{Bytes, copy_up, copy_down, memmove}

-- What memory holds at `a` once `n` bytes have been moved from `s` to `d`.
abbrev pub moved : ℕ → Bytes → ℕ → ℕ → Bytes
moved n m d s a = if leb d a && ltb a (d + n) then m (s + (a - d)) else m a

copy_up-moved :
    (n : ℕ) (m : Bytes) (d s a : ℕ) → (d ≤ s) ⊎ (s + n ≤ d) → copy_up n m d s a ≡ moved n m d s a
unfolding copy_up
copy_up-moved zero m d s a h = ground arith
copy_up-moved (suc n) m d s a h =
    ground (arith, copy_up-moved n (update m d (m s)) (d + 1) (s + 1) a)

last_before : (d n : ℕ) → d + suc n - 1 ≡ d + n
last_before d n = omega arith

copy_down-moved :
    (n : ℕ) (m : Bytes) (d s a : ℕ) → s ≤ d → copy_down n m (d + n) (s + n) a ≡ moved n m d s a
unfolding copy_down
copy_down-moved zero m d s a h = ground arith
copy_down-moved (suc n) m d s a h =
    rw (last_before d n, last_before s n)
      (ground (arith, copy_down-moved n (update m (d + n) (m (s + n))) d s a))

-- `memmove` leaves in the destination what the source held before the call, byte by byte, and every
-- other byte as it was, for all addresses and lengths: also where source and destination overlap.
pub memmove-moved :
    (m : Bytes) (dst src n a : ℕ)
    → memmove m dst src n a ≡ (if leb dst a && ltb a (dst + n) then m (src + (a - dst)) else m a)
unfolding memmove
memmove-moved m dst src n a = elim (Bool-cases (ltb src dst && ltb dst (src + n))) [
  | inl overlap ↦ rw overlap (copy_down-moved n m dst src a (ground arith))
  | inr apart ↦ rw apart (copy_up-moved n m dst src a (ground arith))
]
