-- ===== src/Kernel/Console/Reads.antt =====
-- Any run of keys and reads of ex3/q1/xv6/console.c against the same run on the two lists.
use operating_systems_soluti.Base.{
  ℕ, zero, suc, ◌+◌, ◌%◌, ◌^◌, ◌<◌, ◌≡◌, refl, ap, inl, inr, Bool, true, false, List, [], ◌∷◌,
  arith, ◌==◌, if◌then◌else◌, Bool-cases,
}
use operating_systems_soluti.Kernel.Console.{
  Input, control_d, newline, before, key, consoleread, Ending, returned, killed_off, asleep,
  more_of,
}
use operating_systems_soluti.Kernel.Console.Lines.{Lines, Holds, spec_key}
use operating_systems_soluti.Kernel.Console.Edits.{key-Holds}

abbrev pub put_back : ℕ → List ℕ × Ending × List ℕ → List ℕ × Ending × List ℕ
put_back c (ready, ending, cs) = (ready, ending, c ∷ cs)

-- `consoleread` on the list of the bytes that are ready: up to a newline, up to `n` bytes, or up to a
-- Control-D, which is left there unless it comes first.
abbrev pub spec_read : Bool → ℕ → Bool → List ℕ → List ℕ × Ending × List ℕ
spec_read killed zero fresh ready = (ready, returned, [])
spec_read killed (suc n) fresh [] = if killed then ([], killed_off, []) else ([], asleep, [])
spec_read killed (suc n) fresh (c ∷ ready) =
    let rest = spec_read killed n false ready in
    if c == control_d
    then (if fresh then (ready, returned, []) else (c ∷ ready, returned, []))
    else if c == newline
    then (ready, returned, c ∷ [])
    else put_back c rest

record Agrees (line : List ℕ) (r : Input × Ending × List ℕ) (s : List ℕ × Ending × List ℕ)
    : Type 0 where
  holds : Holds r.0 (s.0, line)
  same_end : r.1 ≡ s.1
  same_bytes : r.2 ≡ s.2

next_read :
    {i : Input} (c : ℕ) (ready line : List ℕ)
    → Holds i (c ∷ ready, line)
    → Holds (record i { r = (i.r + 1) % 2 ^ 32 }) (ready, line)
next_read c ready line h = record {
  small = omega arith;
  fits = omega (arith, h.fits);
  span = omega (arith, h.span);
  edge = h.edge;
  ready = h.ready.1;
  line = h.line;
  no_newline = h.no_newline;
}

more_of-Agrees :
    (c : ℕ) {line : List ℕ} (r : Input × Ending × List ℕ) (s : List ℕ × Ending × List ℕ)
    → Agrees line r s
    → Agrees line (more_of c r) (put_back c s)
more_of-Agrees c (i, e, cs) (ready, e', cs') a = record {
  holds = a.holds;
  same_end = a.same_end;
  same_bytes = ap (λ l. c ∷ l) a.same_bytes;
}

consoleread-Agrees :
    (killed : Bool) (n : ℕ) (fresh : Bool) {i : Input} (ready line : List ℕ)
    → Holds i (ready, line)
    → Agrees line (consoleread killed n fresh i) (spec_read killed n fresh ready)
unfolding consoleread
consoleread-Agrees killed zero fresh ready line h = record {
  holds = h;
  same_end = refl;
  same_bytes = refl;
}
consoleread-Agrees killed (suc n) fresh {i} [] line h =
    let none_ready : (i.r == i.w) ≡ true = ground (arith, h.small, h.span) in
    elim (Bool-cases killed) [
      | inl k ↦ rw (none_ready, k) (record { holds = h; same_end = refl; same_bytes = refl })
      | inr k ↦ rw (none_ready, k) (record { holds = h; same_end = refl; same_bytes = refl })
    ]
consoleread-Agrees killed (suc n) fresh {i} (c ∷ ready) line h =
    let some_ready : (i.r == i.w) ≡ false = ground (arith, h.small, h.span, h.fits) in
    let next = next_read c ready line h in
    let back : before ((i.r + 1) % 2 ^ 32) ≡ i.r = omega (arith, h.small) in
    elim (Bool-cases (c == control_d)) [
      | inl d ↦ elim (Bool-cases fresh) [
        | inl f ↦
            rw (some_ready, h.ready.0, d, f)
              (record { holds = next; same_end = refl; same_bytes = refl })
        | inr f ↦
            rw (some_ready, h.ready.0, d, f, back)
              (record { holds = h; same_end = refl; same_bytes = refl })
      ]
      | inr nd ↦ elim (Bool-cases (c == newline)) [
        | inl nl ↦
            rw (some_ready, h.ready.0, nd, nl)
              (record { holds = next; same_end = refl; same_bytes = refl })
        | inr nn ↦
            rw (some_ready, h.ready.0, nd, nn)
              (more_of-Agrees c (consoleread killed n false (record i { r = (i.r + 1) % 2 ^ 32 }))
                (spec_read killed n false ready)
                (consoleread-Agrees killed n false ready line next))
      ]
    ]

-- A key that is typed, or a run of `consoleread`.
pub data Event : Type 0 where
  press : ℕ → Event
  read : Bool → ℕ → Event

-- What the reads of a run give, in order.
pub run : List Event → Input → List (Ending × List ℕ)
run [] i = []
run (press c ∷ es) i = run es (key c i)
run (read killed n ∷ es) i = let r = consoleread killed n true i in (r.1, r.2) ∷ run es r.0

unfoldable pub spec_run : List Event → Lines → List (Ending × List ℕ)
spec_run [] l = []
spec_run (press c ∷ es) l = spec_run es (spec_key c l)
spec_run (read killed n ∷ es) (ready, line) =
    let r = spec_read killed n true ready in (r.1, r.2) ∷ spec_run es (r.0, line)

run-agrees : (es : List Event) {i : Input} (l : Lines) → Holds i l → run es i ≡ spec_run es l
unfolding run spec_run
run-agrees [] l h = refl
run-agrees (press c ∷ es) l h = run-agrees es (spec_key c l) (key-Holds c l h)
run-agrees (read killed n ∷ es) (ready, line) h =
    let a = consoleread-Agrees killed n true ready line h in
    let s = spec_read killed n true ready in
    rw (a.same_end, a.same_bytes) (ap (λ l. (s.1, s.2) ∷ l) (run-agrees es (s.0, line) a.holds))

-- From an empty ring, wherever its counters stand, every sequence of keys and reads gives the same results
-- as the editor on two lists: a line is ready when it is ended by a newline, by Control-D or by a full ring,
-- Control-U and backspace take back only what is not ready, and reads get
-- what is ready in order, up to a newline or a Control-D.
pub run-spec_run :
    (es : List Event) (buf : ℕ → ℕ) (start : ℕ)
    → start < 2 ^ 32
    → run es (record { buf = buf; r = start; w = start; e = start }) ≡ spec_run es ([], [])
run-spec_run es buf start lt =
    run-agrees es ([], [])
      (record {
        small = lt;
        fits = omega arith;
        span = omega arith;
        edge = omega arith;
        ready = tt;
        line = tt;
        no_newline = tt;
      })
