-- ===== src/Kernel/Blocks/Bits.antt =====
-- The bits of a byte, as ex3/q1/xv6/fs.c sets, clears and tests them in the bitmap.
use operating_systems_soluti.Base.{
  ℕ, ◌<◌, ◌≡◌, refl, Bool, true, false, not, ◌&&◌, ◌||◌, Option, none, some, arith, ltb, ◌==◌,
  find_from, find, find_from-none,
}
use operating_systems_soluti.Kernel.Blocks.{has_bit, set_bit, clear_bit}

-- A test of the numbers below `n`, as the search for one that fails.
abbrev is_none : Option ℕ → Bool
is_none none = true
is_none (some k) = false

abbrev every : ℕ → (ℕ → Bool) → Bool
every n p = is_none (find (λ k. not (p k)) n)

every_at : (n : ℕ) (p : ℕ → Bool) (k : ℕ) → every n p ≡ true → k < n → p k ≡ true
every_at n p k e lt = go (find (λ k. not (p k)) n) refl e
  where
    go : (r : Option ℕ) → find (λ k. not (p k)) n ≡ r → is_none r ≡ true → p k ≡ true
    go none q e' = ground (arith, find_from-none (λ k. not (p k)) n 0 k q (omega arith))
    go (some m) q e' = absurd (ground (arith, e'))

abbrev same : Bool → Bool → Bool
same true b = b
same false b = not b

abbrev set_right : ℕ → ℕ → ℕ → Bool
set_right k j v = same (has_bit (set_bit v k) j) (j == k || has_bit v j)

abbrev clear_right : ℕ → ℕ → ℕ → Bool
clear_right k j v = same (has_bit (clear_bit v k) j) (not (j == k) && has_bit v j)

set_table : every 8 (λ k. every 8 (λ j. every 256 (set_right k j))) ≡ true
unfolding find_from has_bit set_bit
set_table = refl

clear_table : every 8 (λ k. every 8 (λ j. every 256 (clear_right k j))) ≡ true
unfolding find_from has_bit clear_bit
clear_table = refl

same-eq : (a b : Bool) → same a b ≡ true → a ≡ b
same-eq true true h = refl
same-eq true false h = cc
same-eq false true h = cc
same-eq false false h = refl

module _ (v : ℕ) (lt : v < 256) (k j : ℕ) (hk : k < 8) (hj : j < 8) where
  pub has_bit-set_bit : has_bit (set_bit v k) j ≡ (j == k || has_bit v j)
  has_bit-set_bit = same-eq _ _ (
      every_at 256 (set_right k j) v
        (every_at 8 (λ j. every 256 (set_right k j)) j
          (every_at 8 (λ k. every 8 (λ j. every 256 (set_right k j))) k set_table hk) hj)
        lt)

  pub has_bit-clear_bit : has_bit (clear_bit v k) j ≡ (not (j == k) && has_bit v j)
  has_bit-clear_bit = same-eq _ _ (
      every_at 256 (clear_right k j) v
        (every_at 8 (λ j. every 256 (clear_right k j)) j
          (every_at 8 (λ k. every 8 (λ j. every 256 (clear_right k j))) k clear_table hk) hj)
        lt)

abbrev stays : ℕ → ℕ → Bool
stays k v = ltb (set_bit v k) 256 && ltb (clear_bit v k) 256

stays_table : every 8 (λ k. every 256 (stays k)) ≡ true
unfolding find_from set_bit clear_bit
stays_table = refl

-- A byte stays a byte.
pub bits-IsByte : (v k : ℕ) → v < 256 → k < 8 → (set_bit v k < 256) × (clear_bit v k < 256)
bits-IsByte v k lt hk =
    ground
      (arith, every_at 256 (stays k) v (every_at 8 (λ k. every 256 (stays k)) k stays_table hk) lt)
