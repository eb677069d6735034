-- ===== src/Kernel/Console/Lines.antt =====
-- The line editor of ex3/q1/xv6/console.c against two lists: the bytes that are ready to be read, and the
-- line that is being edited, with its last byte first.
use operating_systems_soluti.Base.{
  ℕ, zero, suc, ◌+◌, ◌%◌, ◌^◌, ◌≤◌, ◌<◌, ◌≡◌, ◌≢◌, false, not, ◌&&◌, ◌||◌, List, [], ◌∷◌, ◌++◌,
  arith, ltb, ◌==◌, if◌then◌else◌, length, update,
}
use operating_systems_soluti.Kernel.Console.{
  Input, input_buf, control_p, control_u, control_h, delete, control_d, newline, return_key, before,
  reverse_onto,
}

abbrev pub Lines : Type 0
Lines = List ℕ × List ℕ

-- From position `p` on, the ring holds `xs`.
abbrev pub HoldsFrom : (ℕ → ℕ) → ℕ → List ℕ → Type 0
HoldsFrom f p [] = Unit
HoldsFrom f p (x ∷ xs) = (f (p % 128) ≡ x) × HoldsFrom f ((p + 1) % 2 ^ 32) xs

-- Before position `p`, going down, the ring holds `xs`.
abbrev pub HoldsBack : (ℕ → ℕ) → ℕ → List ℕ → Type 0
HoldsBack f p [] = Unit
HoldsBack f p (x ∷ xs) = (f (before p % 128) ≡ x) × HoldsBack f (before p) xs

abbrev pub AreInLine : List ℕ → Type 0
AreInLine [] = Unit
AreInLine (x ∷ xs) = (x ≢ newline) × AreInLine xs

pub record Holds (i : Input) (l : Lines) : Type 0 where
  pub small : i.r < 2 ^ 32
  pub fits : length l.0 + length l.1 ≤ input_buf
  pub span : i.w ≡ (i.r + length l.0) % 2 ^ 32
  pub edge : i.e ≡ (i.w + length l.1) % 2 ^ 32
  pub ready : HoldsFrom i.buf i.r l.0
  pub line : HoldsBack i.buf i.e l.1
  pub no_newline : AreInLine l.1

pub HoldsFrom-spare :
    (f : ℕ → ℕ) (b p m : ℕ) (xs : List ℕ)
    → length xs ≤ m
    → m < 128
    → HoldsFrom f p xs
    → HoldsFrom (update f ((p + m) % 2 ^ 32 % 128) b) p xs
HoldsFrom-spare f b p m [] le lt h = tt
HoldsFrom-spare f b p zero (x ∷ xs) le lt h = absurd (omega arith)
HoldsFrom-spare f b p (suc m) (x ∷ xs) le lt h =
    let apart : ((p + suc m) % 2 ^ 32 % 128 == (p % 128)) ≡ false = ground arith in
    let same : ((p + 1) % 2 ^ 32 + m) % 2 ^ 32 ≡ (p + suc m) % 2 ^ 32 = omega arith in
    (
      rw apart h.0,
      rw same at (HoldsFrom-spare f b ((p + 1) % 2 ^ 32) m xs (omega arith) (omega arith) h.1),
    )

pub HoldsBack-spare :
    (f : ℕ → ℕ) (b p m : ℕ) (xs : List ℕ)
    → m + length xs < 128
    → HoldsBack f p xs
    → HoldsBack (update f ((p + m) % 2 ^ 32 % 128) b) p xs
HoldsBack-spare f b p m [] lt h = tt
HoldsBack-spare f b p m (x ∷ xs) lt h =
    let apart : ((p + m) % 2 ^ 32 % 128 == (before p % 128)) ≡ false = ground arith in
    let same : (before p + suc m) % 2 ^ 32 ≡ (p + m) % 2 ^ 32 = omega arith in
    (rw apart h.0, rw same at (HoldsBack-spare f b (before p) (suc m) xs (omega arith) h.1))

-- A line that is ended is ready, in the order in which it was typed.
pub HoldsBack-turn :
    (f : ℕ → ℕ) (p q : ℕ) (xs ys : List ℕ)
    → p < 2 ^ 32
    → q < 2 ^ 32
    → p ≡ (q + length xs) % 2 ^ 32
    → HoldsBack f p xs
    → HoldsFrom f p ys
    → HoldsFrom f q (reverse_onto xs ys)
HoldsBack-turn f p q [] ys lt lt' e h g = let same : p ≡ q = omega arith in rw same at g
HoldsBack-turn f p q (x ∷ xs) ys lt lt' e h g =
    let up : (before p + 1) % 2 ^ 32 ≡ p = omega arith in
    HoldsBack-turn f (before p) q xs (x ∷ ys) (omega arith) lt' (omega arith) h.1 (h.0, rw up g)

pub HoldsFrom-append :
    (f : ℕ → ℕ) (p : ℕ) (xs ys : List ℕ)
    → p < 2 ^ 32
    → HoldsFrom f p xs
    → HoldsFrom f ((p + length xs) % 2 ^ 32) ys
    → HoldsFrom f p (xs ++ ys)
HoldsFrom-append f p [] ys lt h g = let same : (p + 0) % 2 ^ 32 ≡ p = omega arith in rw same at g
HoldsFrom-append f p (x ∷ xs) ys lt h g =
    let same : (p + suc (length xs)) % 2 ^ 32 ≡ ((p + 1) % 2 ^ 32 + length xs) % 2 ^ 32 =
      omega arith in
    (h.0, HoldsFrom-append f ((p + 1) % 2 ^ 32) xs ys (omega arith) h.1 (rw same at g))

pub length-reverse_onto : (xs ys : List ℕ) → length (reverse_onto xs ys) ≡ length xs + length ys
length-reverse_onto [] ys = omega arith
length-reverse_onto (x ∷ xs) ys = omega (arith, length-reverse_onto xs (x ∷ ys))

-- What the editor does to the two lists.
abbrev pub drop_last : List ℕ → List ℕ
drop_last [] = []
drop_last (x ∷ xs) = xs

abbrev pub spec_put : ℕ → Lines → Lines
spec_put d (ready, line) =
    if d == newline || (d == control_d || length ready + length line + 1 == input_buf)
    then (ready ++ reverse_onto (d ∷ line) [], [])
    else (ready, d ∷ line)

abbrev pub spec_typed : ℕ → Lines → Lines
spec_typed c (ready, line) =
    if not (c == 0) && ltb (length ready + length line) input_buf
    then spec_put (if c == return_key then newline else c) (ready, line)
    else (ready, line)

abbrev pub spec_key : ℕ → Lines → Lines
spec_key c (ready, line) =
    if c == control_p
    then (ready, line)
    else if c == control_u
    then (ready, [])
    else if c == control_h || c == delete
    then (ready, drop_last line)
    else spec_typed c (ready, line)
