-- ===== src/Kernel/Console/Digits.antt =====
-- The digits that `printint` of ex3/q1/xv6/console.c finds.
use operating_systems_soluti.Base.{
  ℕ, zero, suc, ◌+◌, ◌*◌, ◌/◌, ◌^◌, ◌<◌, ◌≡◌, inl, inr, List, [], ◌∷◌, arith, ◌==◌, Bool-cases,
}
use operating_systems_soluti.Kernel.Console.{digits_of}
use native.Mathlib.Numerals.{unary_clauses}

-- The number that digits stand for, the lowest first.
abbrev pub value : ℕ → List ℕ → ℕ
value base [] = 0
value base (d ∷ ds) = d + base * value base ds

abbrev pub AreDigits : List ℕ → Type 0
AreDigits [] = Unit
AreDigits (d ∷ ds) = (d < 10) × AreDigits ds

pub digits_of-value : (n x : ℕ) → x < 10 ^ n → value 10 (digits_of 10 n x) ≡ x
unfolding digits_of
digits_of-value zero x h = omega arith
digits_of-value (suc n) x h =
    let h' : x < 10 ^ n * 10 = simp unary_clauses at h in
    let less : x / 10 < 10 ^ n = omega arith in
    elim (Bool-cases (x / 10 == 0)) [
      | inl last ↦ rw last (ground arith)
      | inr more ↦ rw (more, digits_of-value n (x / 10) less) (omega arith)
    ]

pub digits_of-AreDigits : (n x : ℕ) → AreDigits (digits_of 10 n x)
unfolding digits_of
digits_of-AreDigits zero x = tt
digits_of-AreDigits (suc n) x = elim (Bool-cases (x / 10 == 0)) [
  | inl last ↦ rw last (omega arith, tt)
  | inr more ↦ rw more (omega arith, digits_of-AreDigits n (x / 10))
]
