-- ===== src/Base/Tables.antt =====
-- Arrays as functions of the index, and the kernel's linear searches over them.
use Prim.Native.Nat.{ℕ, zero, suc, ◌+◌, ◌*◌, ◌≤◌, ◌<◌}
use mathlib.Core.Path.{◌≡◌, refl}
use mathlib.Core.Bool.{Bool, true, false}
use mathlib.Core.Option.{Option, none, some}
use mathlib.Core.Logic.{◌≢◌, ◌⊎◌, inl, inr}
use native.Mathlib.Omega.{arith}
use operating_systems_soluti.Base.Tests.{◌==◌, if◌then◌else◌, Bool-cases, ltb}

-- `f[i] = a`
abbrev pub update {ℓ} : {A : Type ℓ} → (ℕ → A) → ℕ → A → ℕ → A
update f i a j = if i == j then a else f j

-- `for(k = i; k < i + n; k++) if(test(k)) return k;`
unfoldable pub find_from : (ℕ → Bool) → ℕ → ℕ → Option ℕ
find_from test zero i = none
find_from test (suc n) i = let rest = find_from test n (i + 1) in if test i then some i else rest

abbrev pub find : (ℕ → Bool) → ℕ → Option ℕ
find test n = find_from test n 0

module _ (test : ℕ → Bool) where
  pub find_from-some :
      (n i k : ℕ) → find_from test n i ≡ some k → (test k ≡ true) × (i ≤ k) × (k < i + n)
  unfolding find_from
  find_from-some zero i k h = ground arith
  find_from-some (suc n) i k h = ground (arith, find_from-some n (i + 1) k)

  -- Nothing before the index that is found passes the test.
  pub find_from-before :
      (n i k j : ℕ) → find_from test n i ≡ some k → i ≤ j → j < k → test j ≡ false
  unfolding find_from
  find_from-before zero i k j h lo hi = ground arith
  find_from-before (suc n) i k j h lo hi = ground (arith, find_from-before n (i + 1) k j)

  pub find_from-none : (n i j : ℕ) → find_from test n i ≡ none → i ≤ j → j < i + n → test j ≡ false
  unfolding find_from
  find_from-none zero i j h lo hi = absurd (omega arith)
  find_from-none (suc n) i j h lo hi = ground (arith, find_from-none n (i + 1) j)

  pub find_from-intro :
      (n i k : ℕ)
      → i ≤ k
      → k < i + n
      → test k ≡ true
      → ((j : ℕ) → j < k → test j ≡ false)
      → find_from test n i ≡ some k
  unfolding find_from
  find_from-intro zero i k lo hi yep before = absurd (omega arith)
  find_from-intro (suc n) i k lo hi yep before =
      ground (arith, before i, find_from-intro n (i + 1) k)

  pub find_from-eq_none :
      (n i : ℕ) → ((j : ℕ) → j < i + n → test j ≡ false) → find_from test n i ≡ none
  unfolding find_from
  find_from-eq_none zero i all = refl
  find_from-eq_none (suc n) i all =
      ground (arith, all i, find_from-eq_none n (i + 1) (λ j h. all j (omega arith)))

-- A sum of weights over the first `n` entries of a table.
module _ {ℓ} {A : Type ℓ} (w : A → ℕ) where
  unfoldable pub total : ℕ → (ℕ → A) → ℕ
  total zero g = 0
  total (suc n) g = w (g n) + total n g

  total-update_above :
      (n : ℕ) (g : ℕ → A) (at : ℕ) (v : A) → n ≤ at → total n (update g at v) ≡ total n g
  unfolding total
  total-update_above zero g at v h = refl
  total-update_above (suc n) g at v h = ground (arith, total-update_above n g at v)

  pub total-update :
      (n : ℕ) (g : ℕ → A) (at : ℕ) (v : A)
      → at < n
      → total n (update g at v) + w (g at) ≡ total n g + w v
  unfolding total
  total-update zero g at v h = absurd (omega arith)
  total-update (suc n) g at v h = elim (Bool-cases (ltb at n)) [
    | inl below ↦ ground (arith, total-update n g at v)
    | inr last ↦ ground (arith, total-update_above n g at v)
  ]

  pub total-weight_le : (n : ℕ) (g : ℕ → A) (at : ℕ) → at < n → w (g at) ≤ total n g
  unfolding total
  total-weight_le zero g at h = absurd (omega arith)
  total-weight_le (suc n) g at h = elim (Bool-cases (ltb at n)) [
    | inl below ↦ ground (arith, total-weight_le n g at)
    | inr last ↦ ground arith
  ]

pub total-bound {ℓ} :
    {A : Type ℓ} (w : A → ℕ) (b n : ℕ) (f : ℕ → A) → ((i : ℕ) → w (f i) ≤ b) → total w n f ≤ n * b
unfolding total
total-bound w b zero f h = omega arith
total-bound w b (suc n) f h = omega (arith, h n, total-bound w b n f h)

pub total-const {ℓ} :
    {A : Type ℓ} (w : A → ℕ) (c n : ℕ) (f : ℕ → A)
    → ((i : ℕ) → i < n → w (f i) ≡ c)
    → total w n f ≡ n * c
unfolding total
total-const w c zero f h = omega arith
total-const w c (suc n) f h = omega (arith, h n, total-const w c n f (λ i lt. h i (omega arith)))

-- An entry of positive weight, or the fact that there is none.
pub seek {ℓ} :
    {A : Type ℓ} (w : A → ℕ) (n : ℕ) (f : ℕ → A)
    → ((i : ℕ) × (i < n) × (0 < w (f i))) ⊎ ((i : ℕ) → i < n → w (f i) ≡ 0)
seek w zero f = inr (λ i lt. absurd (omega arith))
seek w (suc n) f = elim (seek w n f) [
  | inl (i, lt, p) ↦ inl (i, omega arith, p)
  | inr before ↦ elim (Bool-cases (ltb 0 (w (f n)))) [
    | inl here ↦ inl (n, omega arith, ground arith)
    | inr gone ↦ inr (λ i lt. elim (Bool-cases (ltb i n)) [
      | inl below ↦ before i (ground arith)
      | inr last ↦ ground arith
    ])
  ]
]

module _ {ℓ} {A : Type ℓ} (f : ℕ → A) (i : ℕ) where
  pub update_self : (a : A) → update f i a i ≡ a
  update_self a = ground arith

  pub update-ne : (a : A) (j : ℕ) → j ≢ i → update f i a j ≡ f j
  update-ne a j ne = ground arith

  -- The later of two writes to an entry hides the other.
  pub update_twice-ne : (a b : A) (j : ℕ) → j ≢ i → update (update f i a) i b j ≡ f j
  update_twice-ne a b j ne = ground arith
