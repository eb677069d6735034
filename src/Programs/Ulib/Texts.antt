-- ===== src/Programs/Ulib/Texts.antt =====
-- What `strcpy` and `gets` of ex3/q1/xv6/ulib.c write.
use operating_systems_soluti.Base.{
  ℕ, zero, suc, ◌+◌, ◌-◌, ◌≤◌, ◌<◌, ◌≡◌, refl, ap, ◌≢◌, inl, inr, ◌&&◌, ◌||◌, Option, some, List,
  [], ◌∷◌, ◌++◌, arith, leb, ◌==◌, if◌then◌else◌, Bool-cases, update, pos,
}
use operating_systems_soluti.Programs.Ulib.{
  Text, strcmp_from, strcmp, strcpy_from, strcpy, gets_from, gets,
}

-- A text of `len` bytes.
pub record IsText (t : Text) (len : ℕ) : Type 0 where
  pub body : (k : ℕ) → k < len → t k ≢ 0
  pub stop : t len ≡ 0

-- The bytes from `i` to `len` are those of `t`, and all others are those of `s`.
abbrev pub copied : ℕ → ℕ → Text → Text → Text
copied i len s t k = if leb i k && leb k len then t k else s k

-- A copy that has come to an end, with the text that it leaves.
pub record Copied (i len : ℕ) (s t : Text) (r : Option Text) : Type 0 where
  pub text : Text
  pub returns : r ≡ some text
  pub bytes : (k : ℕ) → text k ≡ copied i len s t k

strcpy_from-Copied :
    (fuel i len : ℕ) (s t : Text)
    → IsText t len
    → i ≤ len
    → len < i + fuel
    → Copied i len s t (strcpy_from fuel i s t)
unfolding strcpy_from
strcpy_from-Copied zero i len s t h le lt = absurd (omega arith)
strcpy_from-Copied (suc n) i len s t h le lt = elim (Bool-cases (t i == 0)) [
  | inl last ↦
      let here : i ≡ len = ground (arith, h.body i) in
      rw last
        (record { text = update s i (t i); returns = refl; bytes = λ k. ground (arith, here) })
  | inr more ↦
      let r =
        strcpy_from-Copied n (i + 1) len (update s i (t i)) t h (ground (arith, h.stop))
          (omega arith) in
      rw more
        (record { text = r.text; returns = r.returns; bytes = λ k. ground (arith, r.bytes k) })
]

strcmp_from-same :
    (fuel i len : ℕ) (p q : Text)
    → IsText q len
    → ((k : ℕ) → k ≤ len → p k ≡ q k)
    → i ≤ len
    → len < i + fuel
    → strcmp_from fuel i p q ≡ some (pos 0)
unfolding strcmp_from
strcmp_from-same zero i len p q h same le lt = absurd (omega arith)
strcmp_from-same (suc n) i len p q h same le lt =
    ground (arith, h.body i, h.stop, same i, strcmp_from-same n (i + 1) len p q h same)

-- For a text of `len` bytes and more fuel than that, `strcpy` returns; it has written the text with its
-- NUL and no byte behind it, and `strcmp` of the copy with the text returns 0.
pub strcmp-strcpy :
    (fuel len : ℕ) (s t : Text)
    → IsText t len
    → len < fuel
    → (c : Text) × (strcpy fuel s t ≡ some c)
      × ((k : ℕ) → c k ≡ copied 0 len s t k)
      × (strcmp fuel c t ≡ some (pos 0))
unfolding strcpy strcmp
strcmp-strcpy fuel len s t h lt =
    let r = strcpy_from-Copied fuel 0 len s t h (omega arith) (omega arith) in
    (
      r.text,
      r.returns,
      r.bytes,
      strcmp_from-same fuel 0 len r.text t h (λ k le. ground (arith, r.bytes k)) (omega arith)
          (omega arith),
    )

-- The bytes that `gets` takes: up to the end of a line, with that byte, and `n` at most.
abbrev pub line : ℕ → List ℕ → List ℕ
line zero cs = []
line (suc n) [] = []
line (suc n) (c ∷ cs) = let rest = line n cs in if c == 10 || c == 13 then c ∷ [] else c ∷ rest

abbrev pub Holds : Text → ℕ → List ℕ → Type 0
Holds s i [] = s i ≡ 0
Holds s i (c ∷ cs) = (s i ≡ c) × Holds s (i + 1) cs

-- What `gets` leaves: the line and a NUL from `i` on, nothing else changed, the rest unread.
pub record Got (n i : ℕ) (cs : List ℕ) (buf : Text) (r : Text × List ℕ) : Type 0 where
  pub holds : Holds r.0 i (line n cs)
  pub unread : line n cs ++ r.1 ≡ cs
  pub below : (k : ℕ) → k < i → r.0 k ≡ buf k
  pub above : (k : ℕ) → i + n < k → r.0 k ≡ buf k

gets_from-Got : (n i : ℕ) (cs : List ℕ) (buf : Text) → Got n i cs buf (gets_from n i cs buf)
unfolding gets_from
gets_from-Got zero i cs buf = record {
  holds = ground arith;
  unread = refl;
  below = λ k lt. ground arith;
  above = λ k lt. ground arith;
}
gets_from-Got (suc n) i [] buf = record {
  holds = ground arith;
  unread = refl;
  below = λ k lt. ground arith;
  above = λ k lt. ground arith;
}
gets_from-Got (suc n) i (c ∷ cs) buf = elim (Bool-cases (c == 10 || c == 13)) [
  | inl end ↦ record {
    holds = rw end (ground arith, ground arith);
    unread = rw end refl;
    below = λ k lt. rw end (ground arith);
    above = λ k lt. rw end (ground arith);
  }
  | inr more ↦
      let r = gets_from-Got n (i + 1) cs (update buf i c) in
      record {
        holds = rw more (ground (arith, r.below i), r.holds);
        unread = rw more (ap (λ l. c ∷ l) r.unread);
        below = λ k lt. rw more (ground (arith, r.below k));
        above = λ k lt. rw more (ground (arith, r.above k));
      }
]

-- With room for at least one byte, `gets` leaves in the buffer the input up to the end of its first line,
-- or as much of it as fits, and a NUL; it takes just that from the input, and writes no byte from `max` on.
pub gets-Got :
    (max : ℕ) (cs : List ℕ) (buf : Text) → 0 < max → Got (max - 1) 0 cs buf (gets max cs buf)
unfolding gets
gets-Got max cs buf some_room = gets_from-Got (max - 1) 0 cs buf
