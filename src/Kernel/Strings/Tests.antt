-- ===== src/Kernel/Strings/Tests.antt =====
-- Runs of ex3/q1/xv6/string.c, and its theorems at concrete texts.
use operating_systems_soluti.Base.{◌+◌, ◌-◌, ◌≡◌, refl, ◌&&◌, arith, ltb, leb, ◌==◌, if◌then◌else◌}
use operating_systems_soluti.Kernel.Strings.{Bytes, memmove, strncpy}
use operating_systems_soluti.Kernel.Strings.Moves.{memmove-moved}
use operating_systems_soluti.Kernel.Strings.Compare.{IsText}

-- memory that holds its own addresses
abbrev ramp : Bytes
ramp a = a

abbrev letter_a : Bytes
letter_a j = if j == 0 then b'a' else 0

letter_a-IsText : IsText letter_a 1
letter_a-IsText = record { stop = refl; body = λ j lt. ground arith }

-- Three bytes move up by one, over themselves.
memmove_overlap :
    (memmove ramp 5 4 3 5 ≡ 4) × (memmove ramp 5 4 3 7 ≡ 6) × (memmove ramp 5 4 3 8 ≡ 8)
unfolding memmove
memmove_overlap = (refl, refl, refl)

strncpy_pads :
    (strncpy ramp letter_a 3 0 ≡ b'a')
    × (strncpy ramp letter_a 3 2 ≡ 0)
    × (strncpy ramp letter_a 3 3 ≡ 3)
unfolding strncpy
strncpy_pads = (refl, refl, refl)

memmove-moved_example :
    memmove ramp 5 4 3 6 ≡ (if leb 5 6 && ltb 6 (5 + 3) then ramp (4 + (6 - 5)) else ramp 6)
memmove-moved_example = memmove-moved ramp 5 4 3 6

abbrev counting : Bytes
counting k = k
