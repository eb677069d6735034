-- ===== src/Kernel/Console/Edits.antt =====
-- Each key of `consoleintr` of ex3/q1/xv6/console.c does to the ring what it does to the two lists.
use operating_systems_soluti.Base.{
  ℕ, zero, suc, ◌+◌, ◌-◌, ◌%◌, ◌^◌, ◌≤◌, ◌<◌, ◌≡◌, ◌∙◌, inl, inr, false, not, ◌&&◌, ◌||◌, List, [],
  ◌∷◌, ◌++◌, arith, ltb, ◌==◌, if◌then◌else◌, ==_refl, Bool-cases, length, length-append,
}
use operating_systems_soluti.Kernel.Console.{
  Input, input_buf, control_p, control_u, control_h, delete, control_d, newline, return_key, before,
  kill_line, backspace, put_char, end_line, typed, key, reverse_onto,
}
use operating_systems_soluti.Kernel.Console.Lines.{
  Lines, HoldsFrom, HoldsBack, Holds, HoldsFrom-spare, HoldsBack-spare, HoldsBack-turn,
  HoldsFrom-append, length-reverse_onto, drop_last, spec_put, spec_typed, spec_key,
}

edge_small : {i : Input} {l : Lines} → Holds i l → i.e < 2 ^ 32
edge_small h = omega (arith, h.edge)

pop_last :
    {i : Input} (ready : List ℕ) (x : ℕ) (line : List ℕ)
    → Holds i (ready, x ∷ line)
    → Holds (record i { e = before i.e }) (ready, line)
pop_last ready x line h = record {
  small = h.small;
  fits = omega (arith, h.fits);
  span = h.span;
  edge = omega (arith, h.edge, h.span, h.small);
  ready = h.ready;
  line = h.line.1;
  no_newline = h.no_newline.1;
}

e_is_w :
    {i : Input} (ready line : List ℕ) → Holds i (ready, line) → (i.e == i.w) ≡ (length line == 0)
e_is_w ready line h = ground (arith, h.edge, h.span, h.fits)

kill_line-Holds :
    (n : ℕ) {i : Input} (ready line : List ℕ)
    → length line ≤ n
    → Holds i (ready, line)
    → Holds (kill_line n i) (ready, [])
unfolding kill_line
kill_line-Holds zero ready [] le h = h
kill_line-Holds zero ready (x ∷ line) le h = absurd (omega arith)
kill_line-Holds (suc n) ready [] le h = rw (e_is_w ready [] h) h
kill_line-Holds (suc n) {i} ready (x ∷ line) le h =
    let open_line : (i.e == i.w) ≡ false = ground (arith, e_is_w ready (x ∷ line) h) in
    let plain : (i.buf (before i.e % input_buf) == newline) ≡ false =
      ground (arith, h.line.0, h.no_newline.0) in
    rw (open_line, plain) (kill_line-Holds n ready line (omega arith) (pop_last ready x line h))

backspace-Holds :
    {i : Input} (ready line : List ℕ)
    → Holds i (ready, line)
    → Holds (backspace i) (ready, drop_last line)
backspace-Holds ready [] h = rw (e_is_w ready [] h) h
backspace-Holds {i} ready (x ∷ line) h =
    let open_line : (i.e == i.w) ≡ false = ground (arith, e_is_w ready (x ∷ line) h) in
    rw open_line (pop_last ready x line h)

-- The ring with one more byte at the end of the line.
record Placed (i : Input) (ready line : List ℕ) : Type 0 where
  small : i.r < 2 ^ 32
  fits : length ready + length line ≤ input_buf
  span : i.w ≡ (i.r + length ready) % 2 ^ 32
  edge : i.e ≡ (i.w + length line) % 2 ^ 32
  ready_there : HoldsFrom i.buf i.r ready
  line_there : HoldsBack i.buf i.e line

put_char-Placed :
    (c : ℕ) {i : Input} (ready line : List ℕ)
    → length ready + length line < input_buf
    → Holds i (ready, line)
    → Placed (put_char c i) ready (c ∷ line)
put_char-Placed c {i} ready line room h =
    let at_e : i.e ≡ (i.r + (length ready + length line)) % 2 ^ 32 =
      omega (arith, h.edge, h.span) in
    let here : (i.e + 0) % 2 ^ 32 ≡ i.e = omega (arith, h.edge) in
    let back : before ((i.e + 1) % 2 ^ 32) ≡ i.e = omega (arith, h.edge) in
    record {
      small = h.small;
      fits = omega arith;
      span = h.span;
      edge = omega (arith, h.edge);
      ready_there = rw at_e (
          HoldsFrom-spare i.buf c i.r (length ready + length line) ready (omega arith) room
            h.ready);
      line_there = rw back (
        ground (arith, ==_refl (i.e % 128)),
        rw here at (HoldsBack-spare i.buf c i.e 0 line (omega arith) h.line),
      );
    }

is_full_e :
    {i : Input} (ready line : List ℕ)
    → Placed i ready line
    → (i.e == (i.r + input_buf) % 2 ^ 32) ≡ (length ready + length line == input_buf)
is_full_e ready line h = ground (arith, h.small, h.fits, h.span, h.edge)

commit_line :
    {i : Input} (ready line : List ℕ)
    → Placed i ready line
    → Holds (record i { w = i.e }) (ready ++ reverse_onto line [], [])
commit_line {i} ready line h =
    let len = length-append ready (reverse_onto line []) in
    let rev = length-reverse_onto line [] in
    record {
      small = h.small;
      fits = omega (arith, len, rev, h.fits);
      span = omega (arith, len, rev, h.span, h.edge);
      edge = omega (arith, h.edge);
      ready = HoldsFrom-append i.buf i.r ready (reverse_onto line []) h.small h.ready_there (
          rw h.span at (
            HoldsBack-turn i.buf i.e i.w line [] (omega (arith, h.edge)) (omega (arith, h.span))
              h.edge h.line_there tt));
      line = tt;
      no_newline = tt;
    }

end_line-Holds :
    (d : ℕ) {i : Input} (ready line : List ℕ)
    → length ready + length line < input_buf
    → Holds i (ready, line)
    → Holds (end_line d (put_char d i)) (spec_put d (ready, line))
end_line-Holds d {i} ready line room h =
    let p = put_char-Placed d ready line room h in
    let full : ((put_char d i).e == (i.r + input_buf) % 2 ^ 32)
        ≡ (length ready + length line + 1 == input_buf) =
      is_full_e ready (d ∷ line) p ∙ ground arith in
    elim (Bool-cases
      (d == newline || (d == control_d || length ready + length line + 1 == input_buf))) [
        | inl ends ↦ rw (full, ends) (commit_line ready (d ∷ line) p)
        | inr goes_on ↦
            rw (full, goes_on)
              (record {
                small = p.small;
                fits = p.fits;
                span = p.span;
                edge = p.edge;
                ready = p.ready_there;
                line = p.line_there;
                no_newline = (ground (arith, goes_on), h.no_newline);
              })
      ]

typed-Holds :
    (c : ℕ) {i : Input} (ready line : List ℕ)
    → Holds i (ready, line)
    → Holds (typed c i) (spec_typed c (ready, line))
typed-Holds c {i} ready line h =
    let used : (i.e + (2 ^ 32 - i.r)) % 2 ^ 32 ≡ length ready + length line =
      omega (arith, h.small, h.fits, h.span, h.edge) in
    elim (Bool-cases (not (c == 0) && ltb (length ready + length line) input_buf)) [
      | inl room ↦
          rw (used, room)
            (end_line-Holds (if c == return_key then newline else c) ready line
              (ground (arith, room)) h)
      | inr ignored ↦ rw (used, ignored) h
    ]

-- When the ring holds the two lists, after any key it holds what the key makes of the lists.
pub key-Holds : (c : ℕ) {i : Input} (l : Lines) → Holds i l → Holds (key c i) (spec_key c l)
unfolding key
key-Holds c (ready, line) h = elim (Bool-cases (c == control_p)) [
  | inl p ↦ rw p h
  | inr np ↦ elim (Bool-cases (c == control_u)) [
    | inl u ↦ rw (np, u) (kill_line-Holds input_buf ready line (omega (arith, h.fits)) h)
    | inr nu ↦ elim (Bool-cases (c == control_h || c == delete)) [
      | inl b ↦ rw (np, nu, b) (backspace-Holds ready line h)
      | inr nb ↦ rw (np, nu, nb) (typed-Holds c ready line h)
    ]
  ]
]
