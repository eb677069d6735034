-- ===== src/Kernel/Blocks/Room.antt =====
-- The number of free blocks on the disk of ex3/q1/xv6/fs.c.
use operating_systems_soluti.Base.{
  ℕ, zero, suc, ◌+◌, ◌<◌, ◌≡◌, refl, inl, inr, Bool, true, false, ◌||◌, arith, ltb, ◌==◌,
  if◌then◌else◌, Bool-cases,
}
use operating_systems_soluti.Kernel.Blocks.{Superblock, Disk, is_used}
use operating_systems_soluti.Kernel.Blocks.Alloc.{IsLaidOut, Claimed, Freed}

unfoldable pub unused : (ℕ → Bool) → ℕ → ℕ
unused used zero = 0
unused used (suc n) = (if used n then 0 else 1) + unused used n

unused-same : (f g : ℕ → Bool) (n : ℕ) → ((b : ℕ) → b < n → f b ≡ g b) → unused f n ≡ unused g n
unfolding unused
unused-same f g zero e = refl
unused-same f g (suc n) e =
    let here = e n (omega arith) in
    let rest = unused-same f g n (λ b lt. e b (omega arith)) in ground (arith, here, rest)

unused-taken :
    (f g : ℕ → Bool) (n r : ℕ)
    → r < n
    → f r ≡ false
    → ((b : ℕ) → b < n → g b ≡ (b == r || f b))
    → unused f n ≡ suc (unused g n)
unfolding unused
unused-taken f g zero r lt free e = absurd (omega arith)
unused-taken f g (suc n) r lt free e = elim (Bool-cases (ltb r n)) [
  | inl below ↦
      let rest = unused-taken f g n r (ground arith) free (λ b lb. e b (omega arith)) in
      ground (arith, e n (omega arith), rest)
  | inr last ↦
      let same = unused-same g f n (λ b lb. ground (arith, e b (omega arith))) in
      let here : r ≡ n = ground arith in ground (arith, e n (omega arith), same, here)
]

unused-none : (f : ℕ → Bool) (n : ℕ) → ((b : ℕ) → b < n → f b ≡ true) → unused f n ≡ 0
unfolding unused
unused-none f zero all = refl
unused-none f (suc n) all =
    let here = all n (omega arith) in
    let rest = unused-none f n (λ b lt. all b (omega arith)) in ground (arith, here, rest)

-- The free blocks of the disk.
abbrev pub room : Superblock → Disk → ℕ
room sb d = unused (is_used sb d) sb.size

pub room-same :
    (sb : Superblock) (d d' : Disk)
    → ((b : ℕ) → b < sb.size → is_used sb d' b ≡ is_used sb d b)
    → room sb d' ≡ room sb d
room-same sb d d' e = unused-same (is_used sb d') (is_used sb d) sb.size e

pub room-full :
    (sb : Superblock) (d : Disk) → ((b : ℕ) → b < sb.size → is_used sb d b ≡ true) → room sb d ≡ 0
room-full sb d all = unused-none (is_used sb d) sb.size all

pub room-Claimed :
    (sb : Superblock) {d d' : Disk} {h : IsLaidOut sb d} {r : ℕ}
    → Claimed sb d h r d'
    → room sb d ≡ suc (room sb d')
room-Claimed sb {d} {d'} {h} {r} c =
    unused-taken (is_used sb d) (is_used sb d') sb.size r c.in_range c.was_free c.used

pub room-Freed :
    (sb : Superblock) {d d' : Disk} {h : IsLaidOut sb d} {r : ℕ}
    → r < sb.size
    → is_used sb d r ≡ true
    → Freed sb d h r d'
    → room sb d' ≡ suc (room sb d)
room-Freed sb {d} {d'} {h} {r} lt used f =
    unused-taken (is_used sb d') (is_used sb d) sb.size r lt (ground (arith, f.free r))
      (λ b lb. ground (arith, f.free b, used))
