-- ===== src/Programs/Ulib/Tests.antt =====
-- Runs of ex3/q1/xv6/ulib.c, and its theorems at concrete texts.
use operating_systems_soluti.Base.{
  ℕ, zero, suc, ◌<◌, ◌≡◌, refl, ◌≢◌, true, false, some, List, [], ◌∷◌, arith, length, find_from,
  pos, negsuc,
}
use operating_systems_soluti.Kernel.Console.{printint, digits_of}
use operating_systems_soluti.Programs.Ulib.{
  Text, atoi, strcmp, strcmp_from, strlen, strchr, strchr_from,
}
use operating_systems_soluti.Programs.Ulib.Numbers.{HasText, atoi-printint}
use operating_systems_soluti.Programs.Ulib.Texts.{IsText}

abbrev text_of : List ℕ → Text
text_of [] i = 0
text_of (c ∷ cs) zero = c
text_of (c ∷ cs) (suc i) = text_of cs i

-- "207", "ab", and a text of nines
abbrev number : Text
number = text_of (50 ∷ 48 ∷ 55 ∷ [])

abbrev word_ab : Text
word_ab = text_of (97 ∷ 98 ∷ [])

abbrev nines : Text
nines k = 9

printed : printint (negsuc 206) 10 true ≡ 45 ∷ 50 ∷ 48 ∷ 55 ∷ []
unfolding printint digits_of
printed = refl

printed_hex : printint (pos 255) 16 false ≡ 102 ∷ 102 ∷ []
unfolding printint digits_of
printed_hex = refl

lengths : strlen 5 word_ab ≡ some 2
unfolding strlen find_from
lengths = refl

found : strchr 5 word_ab 98 ≡ some 1
unfolding strchr strchr_from
found = refl

compared : strcmp 5 word_ab number ≡ some (pos 47)
unfolding strcmp strcmp_from
compared = refl

word_ab-IsText : IsText word_ab 2
word_ab-IsText = record { body = body; stop = refl }
  where
    body : (k : ℕ) → k < 2 → word_ab k ≢ 0
    body zero lt e = absurd cc
    body (suc zero) lt e = absurd cc
    body (suc (suc k)) lt e = absurd (omega arith)

number-HasText : HasText number 0 (printint (pos 207) 10 true)
unfolding printint digits_of
number-HasText = (refl, (refl, (refl, refl)))

number_length : length (printint (pos 207) 10 true) < 4
unfolding printint digits_of
number_length = omega arith

atoi-printint_example : atoi 4 number ≡ some 207
atoi-printint_example = atoi-printint 4 207 true number (omega arith) number-HasText number_length
