-- ===== src/Kernel/Arguments/Tests.antt =====
-- Runs of ex3/q1/xv6/syscall.c, and its theorems at a concrete process.
use operating_systems_soluti.Base.{
  ℕ, ◌+◌, ◌≤◌, ◌<◌, ◌≡◌, refl, ◌≢◌, Option, none, some, [], ◌∷◌, arith, ◌==◌, if◌then◌else◌,
  find_from, pos, negsuc, neg_part,
}
use operating_systems_soluti.Kernel.Arguments.{
  User, fetchint, fetchstr, argint, argptr, argstr, syscall, Handler,
}
use operating_systems_soluti.Kernel.Arguments.Range.{
  IsInside, IsText, argptr-IsInside, fetchstr-IsText,
}

-- A process of 4096 bytes with 5 and 4000 as the arguments of the call, and a text at 4000.
abbrev memory : ℕ → ℕ
memory a =
    if a == 104
    then 5
    else if a == 108
    then 160
    else if a == 109
    then 15
    else if a == 4000
    then 65
    else 0

abbrev proc : User
proc = record { sz = 4096; byte = memory; esp = 100 }

first_argument : argint proc 0 ≡ some 5
unfolding argint fetchint
first_argument = refl

text_argument : argstr proc 1 ≡ some (4000, 1)
unfolding argstr argint fetchint fetchstr find_from
text_argument = refl

block_fits : argptr proc 1 (pos 96) ≡ some 4000
unfolding argptr argint fetchint
block_fits = refl

block_too_long : argptr proc 1 (pos 97) ≡ none
unfolding argptr argint fetchint
block_too_long = refl

abbrev count_call : Option (Handler ℕ)
count_call = some (λ s. (s + 1, pos 7))

known_call : syscall (none ∷ count_call ∷ []) (pos 1) 3 ≡ (4, pos 7)
unfolding syscall
known_call = refl

unknown_call : syscall (none ∷ count_call ∷ []) (pos 2) 3 ≡ (3, negsuc 0)
unfolding syscall
unknown_call = refl

argptr-IsInside_example : IsInside proc 4000 96 × (neg_part (pos 96) ≡ 0)
argptr-IsInside_example =
    argptr-IsInside proc 1 4000 (pos 96) (omega arith) (omega arith) block_fits

fetchstr-IsText_example :
    ((a len : ℕ) → fetchstr proc 4000 ≡ some (a, len) → (a ≡ 4000) × IsText proc a len)
    × (fetchstr proc 4000 ≡ none → (i : ℕ) → 4000 ≤ i → i < 4096 → memory i ≢ 0)
fetchstr-IsText_example = fetchstr-IsText proc 4000
