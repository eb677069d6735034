-- ===== src/Kernel/Console.antt =====
-- ex3/q1/xv6/console.c: the line editor of the console. The bytes that were typed are a ring with three
-- counters that wrap at 2^32: `r` to read next, `w` the end of the lines that are ready, `e` the end of
-- what is being edited. A call runs under `cons.lock` until it returns or sleeps. What is shown on the
-- screen is left out, but for `printint`, whose digits are a list.
pub mod Lines
pub mod Digits
pub mod Edits
pub mod Reads
mod Tests
use operating_systems_soluti.Base.{
  ℕ, zero, suc, ◌+◌, ◌-◌, ◌*◌, ◌/◌, ◌%◌, ◌^◌, ◌≤◌, ◌<◌, ◌≡◌, refl, sym, ap, subst, fun_ext, ◌∙◌,
  ◌≢◌, ◌↔◌, ◌⊎◌, inl, inr, Bool, true, false, not, ◌&&◌, ◌||◌, Option, none, some, List, [], ◌∷◌,
  ◌++◌, map, arith, dec_lt, ℕ_discrete, ltb, leb, ◌==◌, if◌then◌else◌, ltb→lt, lt→ltb, ==_refl,
  Bool-cases, Option-cases, length, get_elem?, take, drop, length-append, take-append-drop,
  length-take, length-drop, update, find_from, find, find_from-some, find_from-before,
  find_from-none, find_from-intro, find_from-eq_none, total, total-update, total-weight_le,
  total-bound, total-const, seek, update_self, update-ne, update_twice-ne, ℤ, pos, negsuc, pos_part,
  neg_part, sub_ℕ, ◌+ℤ◌, ◌-ℤ◌, ◌*ℤ◌, ◌≤ℤ◌, ◌<ℤ◌, ltb_ℤ, eqb_ℤ, +ℤ_parts, -ℤ_parts, *ℤ_parts,
  eq_of_parts, int_laws, int_max, inc, dec,
}

abbrev pub input_buf : ℕ
input_buf = 128

pub record Input : Type 0 where
  pub buf : ℕ → ℕ
  pub r : ℕ
  pub w : ℕ
  pub e : ℕ

-- The characters that the editor tells apart: Control-P, Control-U, Control-H, delete, Control-D.
abbrev pub control_p : ℕ
control_p = 16

abbrev pub control_u : ℕ
control_u = 21

abbrev pub control_h : ℕ
control_h = 8

abbrev pub delete : ℕ
delete = 127

abbrev pub control_d : ℕ
control_d = 4

abbrev pub newline : ℕ
newline = 10

abbrev pub return_key : ℕ
return_key = 13

abbrev pub before : ℕ → ℕ
before n = (n + (2 ^ 32 - 1)) % 2 ^ 32

-- The loop of Control-U, on fuel: it ends at `w` or behind a newline.
pub kill_line : ℕ → Input → Input
kill_line zero i = i
kill_line (suc n) i =
    let rest = kill_line n (record i { e = before i.e }) in
    if not (i.e == i.w) && not (i.buf (before i.e % input_buf) == newline) then rest else i

abbrev pub backspace : Input → Input
backspace i = if i.e == i.w then i else record i { e = before i.e }

-- `input.buf[input.e++ % INPUT_BUF] = c`
abbrev pub put_char : ℕ → Input → Input
put_char c i = record i { buf = update i.buf (i.e % input_buf) c; e = (i.e + 1) % 2 ^ 32 }

-- `input.w = input.e` at the end of a line, or where the ring is full
abbrev pub end_line : ℕ → Input → Input
end_line c i =
    if c == newline || (c == control_d || i.e == (i.r + input_buf) % 2 ^ 32)
    then record i { w = i.e }
    else i

abbrev pub typed : ℕ → Input → Input
typed c i =
    if not (c == 0) && ltb ((i.e + (2 ^ 32 - i.r)) % 2 ^ 32) input_buf
    then (let d = if c == return_key then newline else c in end_line d (put_char d i))
    else i

-- One round of the loop of `consoleintr`. The process listing changes nothing here.
unfoldable pub key : ℕ → Input → Input
unfolding kill_line
key c i =
    if c == control_p
    then i
    else if c == control_u
    then kill_line input_buf i
    else if c == control_h || c == delete
    then backspace i
    else typed c i

-- `consoleintr`, for the characters that `getc` yields before it returns a negative number.
pub consoleintr : List ℕ → Input → Input
unfolding key
consoleintr [] i = i
consoleintr (c ∷ cs) i = consoleintr cs (key c i)

-- How a run of `consoleread` ends: with the bytes, with -1, or asleep.
pub data Ending : Type 0 where
  returned killed_off asleep : Ending

abbrev pub more_of : ℕ → Input × Ending × List ℕ → Input × Ending × List ℕ
more_of c (i, ending, cs) = (i, ending, c ∷ cs)

-- `consoleread` with `n` bytes to go; `fresh` says that nothing has been read yet. A call that sleeps is
-- run again from where it stopped.
pub consoleread : Bool → ℕ → Bool → Input → Input × Ending × List ℕ
consoleread killed zero fresh i = (i, returned, [])
consoleread killed (suc n) fresh i =
    let c = i.buf (i.r % input_buf) in
    let i' : Input = record i { r = (i.r + 1) % 2 ^ 32 } in
    let rest = consoleread killed n false i' in
    if i.r == i.w
    then (if killed then (i, killed_off, []) else (i, asleep, []))
    else if c == control_d
    then (if fresh then (i', returned, []) else (record i' { r = before i'.r }, returned, []))
    else if c == newline
    then (i', returned, c ∷ [])
    else more_of c rest

-- The digits of `printint` in the order in which they are found, on fuel.
unfoldable pub digits_of : ℕ → ℕ → ℕ → List ℕ
digits_of base zero x = []
digits_of base (suc n) x =
    let rest = digits_of base n (x / base) in x % base ∷ (if x / base == 0 then [] else rest)

abbrev pub reverse_onto : List ℕ → List ℕ → List ℕ
reverse_onto [] ys = ys
reverse_onto (x ∷ xs) ys = reverse_onto xs (x ∷ ys)

-- `x = sign && xx < 0 ? -xx : xx` as a `uint`
abbrev pub magnitude : Bool → ℤ → ℕ
magnitude sign (pos x) = x
magnitude true (negsuc x) = x + 1
magnitude false (negsuc x) = 2 ^ 32 - (x + 1)

abbrev pub minus : ℕ
minus = 45

abbrev pub digit_char : ℕ → ℕ
digit_char d = if ltb d 10 then d + 48 else d + 87

-- The characters that `printint` gives to `consputc`. 32 rounds are enough for a `uint` in base 2.
unfoldable pub printint : ℤ → ℕ → Bool → List ℕ
unfolding digits_of
printint xx base sign =
    let ds = reverse_onto (map digit_char (digits_of base 32 (magnitude sign xx))) [] in
    if sign && ltb_ℤ xx (pos 0) then minus ∷ ds else ds
