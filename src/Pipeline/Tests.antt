-- ===== src/Pipeline/Tests.antt =====
-- Numbers as the C library prints and reads them in base 16, and a run of the three processes.
use operating_systems_soluti.Base.{
  ℕ, zero, suc, ◌+◌, ◌-◌, ◌*◌, ◌/◌, ◌%◌, ◌^◌, ◌<◌, ◌≡◌, refl, ap, ◌∙◌, ◌⊎◌, inl, inr, Bool, true,
  false, ◌&&◌, ◌||◌, some, List, [], ◌∷◌, ◌++◌, arith, dec_lt, ltb, leb, ◌==◌, if◌then◌else◌,
  Bool-cases, length, length-append,
}
use operating_systems_soluti.Pipeline.{
  Formats, Source, Process, main_process, reader32_process, reader64_process, World, finished, step,
  run, started,
}
use operating_systems_soluti.Pipeline.Turns.{IsFormats, has_left}
use operating_systems_soluti.Pipeline.Ends.{commands, run-commands}
use operating_systems_soluti.Pipeline.Progress.{run-can_go}
use operating_systems_soluti.Pipeline.Turns.{ends_number}

abbrev hex_char : ℕ → ℕ
hex_char k = if ltb k 10 then 48 + k else 87 + k

abbrev is_digit : ℕ → Bool
is_digit c = leb 48 c && ltb c 58 || leb 97 c && ltb c 103

abbrev digit_of : ℕ → ℕ
digit_of c = if ltb c 58 then c - 48 else c - 87

abbrev parse_from : ℕ → List ℕ → ℕ
parse_from v [] = v
parse_from v (c ∷ cs) =
    let rest = parse_from (16 * v + digit_of c) cs in if is_digit c then rest else v

abbrev skip_blanks : List ℕ → List ℕ
skip_blanks [] = []
skip_blanks (c ∷ cs) = let rest = skip_blanks cs in if c == 32 then rest else c ∷ cs

-- Blanks, and a number up to the first byte that is no digit.
abbrev parse_number : List ℕ → ℕ
parse_number cs = parse_from 0 (skip_blanks cs)

abbrev pad : ℕ → ℕ → List ℕ
pad zero v = []
pad (suc n) v = pad n (v / 16) ++ ((if v == 0 then 32 else hex_char (v % 16)) ∷ [])

abbrev bound : ℕ → ℕ
bound zero = 1
bound (suc n) = 16 * bound n

abbrev print_16 : ℕ → List ℕ
print_16 v = pad 15 (v / 16) ++ (hex_char (v % 16) ∷ [])

append_assoc_one : (xs : List ℕ) (c : ℕ) (ys : List ℕ) → (xs ++ (c ∷ [])) ++ ys ≡ xs ++ (c ∷ ys)
append_assoc_one [] c ys = refl
append_assoc_one (x ∷ xs) c ys = ap (λ l. x ∷ l) (append_assoc_one xs c ys)

hex_char-is_digit : (k : ℕ) → k < 16 → is_digit (hex_char k) ≡ true
hex_char-is_digit k lt = elim (dec_lt k 10) [ yes small ↦ ground arith | no large ↦ ground arith ]

hex_char-digit_of : (k : ℕ) → k < 16 → digit_of (hex_char k) ≡ k
hex_char-digit_of k lt = elim (dec_lt k 10) [ yes small ↦ ground arith | no large ↦ ground arith ]

parse-digit :
    (u k : ℕ) (rest : List ℕ)
    → k < 16
    → parse_from u (hex_char k ∷ rest) ≡ parse_from (16 * u + k) rest
parse-digit u k rest lt = rw (hex_char-is_digit k lt, hex_char-digit_of k lt) refl

parse-blanks : (n : ℕ) (cs : List ℕ) → parse_number (pad n 0 ++ cs) ≡ parse_number cs
parse-blanks zero cs = refl
parse-blanks (suc n) cs = rw (append_assoc_one (pad n (0 / 16)) 32 cs) (parse-blanks n (32 ∷ cs))

skip-digit : (k : ℕ) (rest : List ℕ) → k < 16 → skip_blanks (hex_char k ∷ rest) ≡ hex_char k ∷ rest
skip-digit k rest lt = let e : (hex_char k == 32) ≡ false = ground arith in rw e refl

parse-pad :
    (n v k : ℕ) (rest : List ℕ)
    → v < bound n
    → k < 16
    → parse_number (pad n v ++ (hex_char k ∷ rest)) ≡ parse_from (16 * v + k) rest
parse-pad zero v k rest lt small =
    let z : v ≡ 0 = omega arith in rw (z, skip-digit k rest small) (parse-digit 0 k rest small)
parse-pad (suc n) v k rest lt small = elim (Bool-cases (v == 0)) [
  | inl none_left ↦
      let z : v ≡ 0 = ground arith in
      rw z (
        parse-blanks (suc n) (hex_char k ∷ rest)
        ∙ rw (skip-digit k rest small) (parse-digit 0 k rest small))
  | inr more ↦
      let h = parse-pad n (v / 16) (v % 16) (hex_char k ∷ rest) (omega arith) (omega arith) in
      let q : 16 * (v / 16) + v % 16 ≡ v = omega arith in
      rw (more, append_assoc_one (pad n (v / 16)) (hex_char (v % 16)) (hex_char k ∷ rest))
        (h ∙ rw q (parse-digit v k rest small))
]

ends-parse_from : (v : ℕ) (rest : List ℕ) → ends_number rest ≡ true → parse_from v rest ≡ v
ends-parse_from v [] e = refl
ends-parse_from v (c ∷ cs) e = let q : is_digit c ≡ false = ground (arith, e) in rw q refl

length-pad : (n v : ℕ) → length (pad n v) ≡ n
length-pad zero v = refl
length-pad (suc n) v = omega (
  arith,
  length-append (pad n (v / 16)) ((if v == 0 then 32 else hex_char (v % 16)) ∷ []),
  length-pad n (v / 16),
)

abbrev c_formats : Formats
c_formats = record {
  scan_int = λ t. elim t [ [] ↦ 0 | c ∷ _ ↦ if c == 51 then 32 else 64 ];
  scan_hex = λ t. parse_from 0 t % 2 ^ 64;
  print_hex = print_16;
  parse_hex = parse_number;
  left_over = 32 ∷ 55 ∷ [];
}

c_formats-IsFormats : IsFormats c_formats
c_formats-IsFormats = record {
  print-length = λ v lt.
      omega
        (arith, length-append (pad 15 (v / 16)) (hex_char (v % 16) ∷ []), length-pad 15 (v / 16));
  parse-print = λ v rest lt e.
      let q : 16 * (v / 16) + v % 16 ≡ v = omega arith in
      rw (append_assoc_one (pad 15 (v / 16)) (hex_char (v % 16)) rest) (
        parse-pad 15 (v / 16) (v % 16) rest (omega arith) (omega arith)
        ∙ rw q (ends-parse_from v rest e));
  scan_bound = λ t. omega arith;
}

-- "32", "8a", "0", "64" and "8b": a new triangle in two parts, and a last one.
abbrev two_polygons : Source
two_polygons = record {
  stdin = (51 ∷ 50 ∷ []) ∷ (56 ∷ 97 ∷ []) ∷ (48 ∷ []) ∷ (54 ∷ 52 ∷ []) ∷ (56 ∷ 98 ∷ []) ∷ [];
  reader_to_run = 0;
  low_part = 0;
  high_part = 0;
  whole = 0;
}

-- All turns of one round of the processes.
abbrev turns : List Process
turns = reader64_process ∷ main_process ∷ reader32_process ∷ []

abbrev many : ℕ → List Process
many zero = []
many (suc n) = turns ++ many n

all_finished : (run c_formats (many 30) (started two_polygons)).main ≡ finished
unfolding run step
all_finished = refl

both_ran : (run c_formats (many 30) (started two_polygons)).ran ≡ (138 ∷ 139 ∷ [])
unfolding run step
both_ran = refl

run-commands_example :
    (n : ℕ) × (commands c_formats n two_polygons
      ≡ some (run c_formats (many 30) (started two_polygons)).ran)
run-commands_example =
    run-commands c_formats c_formats-IsFormats two_polygons (many 30) (omega arith) refl
      (ap has_left all_finished)

run-can_go_example :
    ((run c_formats (many 7) (started two_polygons)).main ≡ finished)
    ⊎ ((p : Process) × (w : World) × (step c_formats p
            (run c_formats (many 7) (started two_polygons))
          ≡ some w))
run-can_go_example = run-can_go c_formats c_formats-IsFormats two_polygons (many 7) (omega arith)
