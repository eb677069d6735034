-- ===== src/Kernel/Strings/Compare.antt =====
-- How `safestrcpy`, `strncpy` and `strncmp` of ex3/q1/xv6/string.c fit together on NUL-terminated
-- names.
use operating_systems_soluti.Base.{
  ◌-◌, ◌==◌, Bool-cases, inl, inr, ℕ, zero, suc, ◌+◌, ◌≤◌, ◌<◌, ◌≢◌, ◌≡◌, refl, arith, update,
  if◌then◌else◌, pos, ltb, false,
}
use operating_systems_soluti.Kernel.Strings.{
  Bytes, strncmp_from, strncmp, safestrcpy_from, safestrcpy,
}

-- `t` holds a C string of length `k`.
pub record IsText (t : Bytes) (k : ℕ) : Type 0 where
  pub stop : t k ≡ 0
  pub body : (j : ℕ) → j < k → t j ≢ 0

strncmp_from-eq_zero :
    (n i k : ℕ) (p q : Bytes)
    → ((j : ℕ) → j ≤ k → p j ≡ q j)
    → q k ≡ 0
    → i ≤ k
    → strncmp_from n i p q ≡ pos 0
unfolding strncmp_from
strncmp_from-eq_zero zero i k p q same stop le = refl
strncmp_from-eq_zero (suc n) i k p q same stop le =
    ground (arith, same i, same k, strncmp_from-eq_zero n (i + 1) k p q same)

-- Two byte strings that agree up to a NUL compare equal, whatever follows it.
pub strncmp-eq_zero :
    (n k : ℕ) (p q : Bytes) → ((j : ℕ) → j ≤ k → p j ≡ q j) → q k ≡ 0 → strncmp p q n ≡ pos 0
unfolding strncmp
strncmp-eq_zero n k p q same stop = strncmp_from-eq_zero n 0 k p q same stop (omega arith)

strncmp_from-ne_zero :
    (n i k : ℕ) (p q : Bytes)
    → ((j : ℕ) → j < k → q j ≢ 0)
    → p k ≢ q k
    → i ≤ k
    → k < i + n
    → strncmp_from n i p q ≢ pos 0
unfolding strncmp_from
strncmp_from-ne_zero zero i k p q body differ le lt = absurd (omega arith)
strncmp_from-ne_zero (suc n) i k p q body differ le lt =
    ground (arith, body i, strncmp_from-ne_zero n (i + 1) k p q body differ)

-- A difference within the first `n` bytes, before the end of `q`, is seen.
pub strncmp-ne_zero :
    (n k : ℕ) (p q : Bytes)
    → ((j : ℕ) → j < k → q j ≢ 0)
    → p k ≢ q k
    → k < n
    → strncmp p q n ≢ pos 0
unfolding strncmp
strncmp-ne_zero n k p q body differ lt =
    strncmp_from-ne_zero n 0 k p q body differ (omega arith) (omega arith)

safestrcpy_from-copies :
    (n i k : ℕ) (s t : Bytes)
    → IsText t k
    → i ≤ k
    → k ≤ i + n
    → (j : ℕ) → j ≤ k
    → safestrcpy_from n i s t j ≡ (if ltb j i then s j else t j)
unfolding safestrcpy_from
safestrcpy_from-copies zero i k s t text le lt j b = ground (arith, text.stop, text.body j)
safestrcpy_from-copies (suc n) i k s t text le lt j b = ground (
  arith,
  text.stop,
  text.body i,
  λ (a : i + 1 ≤ k).
      safestrcpy_from-copies n (i + 1) k (update s i (t i)) t text a (omega arith) j b,
)

module _ {t : Bytes} {k : ℕ} (text : IsText t k) where
  -- The text and its NUL arrive unchanged where they fit.
  pub safestrcpy-copies : (n : ℕ) (s : Bytes) (j : ℕ) → k < n → j ≤ k → safestrcpy s t n j ≡ t j
  unfolding safestrcpy
  safestrcpy-copies n s j fits b =
      ground (arith, safestrcpy_from-copies (n - 1) 0 k s t text (omega arith) (omega arith) j b)

  -- A name that fits into the buffer is recognised again: after `safestrcpy(s, t, n)` of a text
  -- shorter than `n`, `strncmp(s, t, m)` is 0 for every `m`.
  pub strncmp-safestrcpy : (n m : ℕ) (s : Bytes) → k < n → strncmp (safestrcpy s t n) t m ≡ pos 0
  strncmp-safestrcpy n m s fits =
      strncmp-eq_zero m k (safestrcpy s t n) t (λ j b. safestrcpy-copies n s j fits b) text.stop

safestrcpy_from-bounds :
    (n i : ℕ) (s t : Bytes) (a : ℕ) → i + n < a → safestrcpy_from n i s t a ≡ s a
unfolding safestrcpy_from
safestrcpy_from-bounds zero i s t a h = ground arith
safestrcpy_from-bounds (suc n) i s t a h =
    ground (arith, safestrcpy_from-bounds n (i + 1) (update s i (t i)) t a)

-- The last byte that is written is a NUL.
safestrcpy_from-ends :
    (n i : ℕ) (s t : Bytes) → (j : ℕ) × (i ≤ j) × (j ≤ i + n) × (safestrcpy_from n i s t j ≡ 0)
unfolding safestrcpy_from
safestrcpy_from-ends zero i s t = (i, omega arith, omega arith, ground arith)
safestrcpy_from-ends (suc n) i s t = elim (Bool-cases (t i == 0)) [
  | inl stop ↦ (i + 1, omega arith, omega arith, ground arith)
  | inr more ↦
      let (j, lo, hi, z) = safestrcpy_from-ends n (i + 1) (update s i (t i)) t in
      (j, omega arith, omega arith, ground arith)
]

-- `safestrcpy(s, t, n)` with `0 < n` leaves a NUL among the first `n` bytes of `s` and writes none
-- behind them, whatever `t` holds, terminated or not.
pub safestrcpy-bounds :
    (n : ℕ) (s t : Bytes)
    → 0 < n
    → ((j : ℕ) × (j < n) × (safestrcpy s t n j ≡ 0)) × ((a : ℕ) → n ≤ a → safestrcpy s t n a ≡ s a)
unfolding safestrcpy
safestrcpy-bounds zero s t h = absurd (omega arith)
safestrcpy-bounds (suc n) s t h =
    let (j, lo, hi, z) = safestrcpy_from-ends n 0 s t in
    let pred : suc n - 1 ≡ n = omega arith in
    let some_left : (suc n == 0) ≡ false = ground arith in
    (
      (j, omega arith, rw (some_left, pred) z),
      λ a b. rw (some_left, pred) (safestrcpy_from-bounds n 0 s t a (omega arith)),
    )
