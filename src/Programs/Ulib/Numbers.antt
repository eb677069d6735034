-- ===== src/Programs/Ulib/Numbers.antt =====
-- `atoi` of ex3/q1/xv6/ulib.c reads what `printint` of ex3/q1/xv6/console.c prints.
use operating_systems_soluti.Base.{
  ℕ, zero, suc, ◌+◌, ◌-◌, ◌*◌, ◌%◌, ◌^◌, ◌≤◌, ◌<◌, ◌≡◌, refl, ap, ◌∙◌, inl, inr, Bool, true, false,
  some, List, [], ◌∷◌, map, arith, if◌then◌else◌, Bool-cases, length, pos, int_max,
}
use operating_systems_soluti.Kernel.Console.{digits_of, printint, digit_char, reverse_onto}
use operating_systems_soluti.Kernel.Console.Digits.{
  value, AreDigits, digits_of-value, digits_of-AreDigits,
}
use operating_systems_soluti.Programs.Ulib.{Text, is_digit, atoi_from, atoi}

-- The text at an offset is these characters and a NUL.
abbrev pub HasText : Text → ℕ → List ℕ → Type 0
HasText s i [] = s i ≡ 0
HasText s i (c ∷ cs) = (s i ≡ c) × HasText s (i + 1) cs

abbrev parse : ℕ → List ℕ → ℕ
parse n [] = n
parse n (c ∷ cs) =
    let rest = parse ((n * 10 + (c - 48)) % 2 ^ 32) cs in if is_digit c then rest else n

atoi_from-parse :
    (fuel i n : ℕ) (s : Text) (cs : List ℕ)
    → length cs < fuel
    → HasText s i cs
    → atoi_from fuel i n s ≡ some (parse n cs)
unfolding atoi_from
atoi_from-parse zero i n s cs lt h = absurd (omega arith)
atoi_from-parse (suc fuel) i n s [] lt h = rw h refl
atoi_from-parse (suc fuel) i n s (c ∷ cs) lt h = elim (Bool-cases (is_digit c)) [
  | inl digit ↦
      rw (h.0, digit)
        (atoi_from-parse fuel (i + 1) ((n * 10 + (c - 48)) % 2 ^ 32) s cs (omega arith) h.1)
  | inr other ↦ rw (h.0, other) refl
]

parse-reverse_onto :
    (ds ys : List ℕ)
    → AreDigits ds
    → value 10 ds < 2 ^ 32
    → parse 0 (reverse_onto (map digit_char ds) ys) ≡ parse (value 10 ds) ys
parse-reverse_onto [] ys h lt = refl
parse-reverse_onto (d ∷ ds) ys h lt =
    let char : digit_char d ≡ d + 48 = ground (arith, h.0) in
    let yes : is_digit (digit_char d) ≡ true = ground (arith, h.0) in
    let next : (value 10 ds * 10 + (digit_char d - 48)) % 2 ^ 32 ≡ d + 10 * value 10 ds =
      ground (arith, char) in
    let step : parse (value 10 ds) (digit_char d ∷ ys) ≡ parse (value 10 (d ∷ ds)) ys =
      rw (yes, next) refl in
    parse-reverse_onto ds (digit_char d ∷ ys) h.1 (omega arith) ∙ step

printint-pos :
    (x : ℕ) (sign : Bool)
    → printint (pos x) 10 sign ≡ reverse_onto (map digit_char (digits_of 10 32 x)) []
unfolding printint
printint-pos x true = ground arith
printint-pos x false = refl

-- For every non-negative `int`, `atoi` of the characters that `printint` prints in base 10 returns the
-- number, when the fuel exceeds their count.
pub atoi-printint :
    (fuel x : ℕ) (sign : Bool) (s : Text)
    → x ≤ int_max
    → HasText s 0 (printint (pos x) 10 sign)
    → length (printint (pos x) 10 sign) < fuel
    → atoi fuel s ≡ some x
unfolding atoi
atoi-printint fuel x sign s small h enough =
    let back = digits_of-value 32 x (omega arith) in
    let read : parse 0 (printint (pos x) 10 sign) ≡ x = rw (printint-pos x sign) (
      parse-reverse_onto (digits_of 10 32 x) [] (digits_of-AreDigits 32 x) (rw back (omega arith))
      ∙ back) in
    atoi_from-parse fuel 0 0 s (printint (pos x) 10 sign) enough h ∙ ap (λ n. some n) read
