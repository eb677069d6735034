-- ===== src/Pipeline.antt =====
-- ex2/q1/main.c: the polygon program as three processes that share the standard input. The main process
-- reads which reader is next and writes a byte to its pipe; that reader scans the polygon and sends it back
-- as sixteen characters; `runOnPolygon` and the list are those of ex1/q1/main.c. A step is a system call of
-- one process with the computation behind it: `none` where it blocks, or after its end. A write of at most
-- sixteen bytes into a pipe is atomic. Tokens of the input convert in the format that they are scanned with, and
-- at the end of the input `scanf` leaves its variable as it is. The last byte of `polygonBuffer` is never set:
-- what stands in memory from there on is `left_over`, which `sscanf` reads behind the sixteen characters.
pub mod Turns
pub mod Steps
pub mod Left
pub mod Ends
pub mod Progress
mod Tests
use operating_systems_soluti.Base.{
  ℕ, zero, suc, ◌+◌, ◌-◌, ◌*◌, ◌/◌, ◌%◌, ◌^◌, ◌≤◌, ◌<◌, ◌≡◌, refl, sym, ap, subst, fun_ext, ◌∙◌,
  ◌≢◌, ◌↔◌, ◌⊎◌, inl, inr, Bool, true, false, not, ◌&&◌, ◌||◌, Option, none, some, List, [], ◌∷◌,
  ◌++◌, map, arith, dec_lt, ℕ_discrete, ltb, leb, ◌==◌, if◌then◌else◌, ltb→lt, lt→ltb, ==_refl,
  Bool-cases, Option-cases, length, get_elem?, take, drop, length-append, take-append-drop,
  length-take, length-drop, count, count-append, update, find_from, find, find_from-some,
  find_from-before, find_from-none, find_from-intro, find_from-eq_none, total, total-update,
  total-weight_le, total-bound, total-const, seek, update_self, update-ne, update_twice-ne, ℤ, pos,
  negsuc, pos_part, neg_part, sub_ℕ, ◌+ℤ◌, ◌-ℤ◌, ◌*ℤ◌, ◌≤ℤ◌, ◌<ℤ◌, ltb_ℤ, eqb_ℤ, +ℤ_parts, -ℤ_parts,
  *ℤ_parts, eq_of_parts, int_laws, int_max, inc, dec,
}
use operating_systems_soluti.Polygons.{is_last_iteration}

-- `scanf` of a token with `%d` and with `%lx` or `%16llx`, `sprintf` and `sscanf` with `%16llx`.
pub record Formats : Type 0 where
  pub scan_int : List ℕ → ℕ
  pub scan_hex : List ℕ → ℕ
  pub print_hex : ℕ → List ℕ
  pub parse_hex : List ℕ → ℕ
  pub left_over : List ℕ

-- The input, and the variables that it is scanned into.
pub record Source : Type 0 where
  pub stdin : List (List ℕ)
  pub reader_to_run : ℕ
  pub low_part : ℕ
  pub high_part : ℕ
  pub whole : ℕ

pub data MainState : Type 0 where
  choosing : MainState
  signalling : MainState
  receiving : MainState
  running : MainState
  stopping : MainState
  closing : MainState
  waiting : MainState
  finished : MainState

pub data ReaderState : Type 0 where
  asleep : ReaderState
  scanning : ReaderState
  scanning_high : ReaderState
  replying : ReaderState
  gone : ReaderState

pub data Process : Type 0 where
  main_process : Process
  reader32_process : Process
  reader64_process : Process

pub record World : Type 0 where
  pub main : MainState
  pub reader32 : ReaderState
  pub reader64 : ReaderState
  pub signals32 : ℕ
  pub signals64 : ℕ
  pub closed : Bool
  pub replies : List ℕ
  pub source : Source
  pub next_polygon : ℕ
  pub ran : List ℕ

-- The value that a scan leaves in its variable, and the input behind it.
abbrev pub scanned : (List ℕ → ℕ) → List (List ℕ) → ℕ → ℕ
scanned scan [] old = old
scanned scan (t ∷ ts) old = scan t

abbrev pub behind : List (List ℕ) → List (List ℕ)
behind [] = []
behind (t ∷ ts) = ts

-- A process that cannot go on loses its turn.
abbrev pub or_stay : World → Option World → World
or_stay w none = w
or_stay w (some w') = w'

module _ (io : Formats) where
  abbrev pub scan_reader : Source → Source
  scan_reader s = record s {
    stdin = behind s.stdin;
    reader_to_run = scanned io.scan_int s.stdin s.reader_to_run;
  }

  abbrev pub scan_low : Source → Source
  scan_low s = record s {
    stdin = behind s.stdin;
    low_part = scanned io.scan_hex s.stdin s.low_part;
  }

  abbrev pub scan_high : Source → Source
  scan_high s = record s {
    stdin = behind s.stdin;
    high_part = scanned io.scan_hex s.stdin s.high_part;
  }

  abbrev pub scan_whole : Source → Source
  scan_whole s = record s { stdin = behind s.stdin; whole = scanned io.scan_hex s.stdin s.whole }

  -- `nextPolygon` of `reader32`
  abbrev pub joined : Source → ℕ
  joined s = (s.high_part * 2 ^ 32 + s.low_part) % 2 ^ 64

  -- `read(INSIG, runSignal, 1)` of a reader: it sleeps while the pipe is empty and open.
  abbrev pub woken : ℕ → Bool → ReaderState → Option ReaderState
  woken signals closed awake =
      if ltb 0 signals then some awake else if closed then some gone else none

  abbrev pub wake32 : World → Option ReaderState → Option World
  wake32 w none = none
  wake32 w (some r) = some (record w { reader32 = r; signals32 = w.signals32 - 1 })

  abbrev pub wake64 : World → Option ReaderState → Option World
  wake64 w none = none
  wake64 w (some r) = some (record w { reader64 = r; signals64 = w.signals64 - 1 })

  abbrev pub step32 : ReaderState → World → Option World
  step32 asleep w = wake32 w (woken w.signals32 w.closed scanning)
  step32 scanning w = some (record w { reader32 = scanning_high; source = scan_low w.source })
  step32 scanning_high w = some (record w { reader32 = replying; source = scan_high w.source })
  step32 replying w =
      some (record w { reader32 = asleep; replies = w.replies ++ io.print_hex (joined w.source) })
  step32 gone w = none

  abbrev pub step64 : ReaderState → World → Option World
  step64 asleep w = wake64 w (woken w.signals64 w.closed scanning)
  step64 scanning w = some (record w { reader64 = replying; source = scan_whole w.source })
  step64 scanning_high w = none
  step64 replying w =
      some (record w {
        reader64 = asleep;
        replies = w.replies ++ take 16 (io.print_hex w.source.whole);
      })
  step64 gone w = none

  -- `read(readPipe, polygonBuffer, 16)` and `sscanf`
  abbrev pub receive : World → List ℕ → Option World
  receive w [] = none
  receive w (c ∷ cs) = some (record w {
    main = running;
    replies = drop 16 (c ∷ cs);
    next_polygon = io.parse_hex (take 16 (c ∷ cs) ++ io.left_over);
  })

  -- The two calls of `wait`, which take any two of the three children. The writer is left out: it reads up to the
  -- end of its pipe, which the main process and the readers hold open, so that they take the two readers, unless
  -- the writer fails to open its file.
  abbrev pub wait_both : World → ReaderState → ReaderState → Option World
  wait_both w gone gone = some (record w { main = finished })
  wait_both w _ _ = none

  abbrev pub step_main : MainState → World → Option World
  step_main choosing w = some (record w { main = signalling; source = scan_reader w.source })
  step_main signalling w =
      if w.source.reader_to_run == 32
      then some (record w { main = receiving; signals32 = w.signals32 + 1 })
      else some (record w { main = receiving; signals64 = w.signals64 + 1 })
  step_main receiving w = receive w w.replies
  step_main running w = some (record w {
    main = if is_last_iteration w.next_polygon then stopping else choosing;
    ran = w.ran ++ (w.next_polygon ∷ []);
  })
  step_main stopping w = some (record w { main = closing; signals64 = w.signals64 + 2 })
  step_main closing w = some (record w { main = waiting; closed = true })
  step_main waiting w = wait_both w w.reader32 w.reader64
  step_main finished w = none

  unfoldable pub step : Process → World → Option World
  step main_process w = step_main w.main w
  step reader32_process w = step32 w.reader32 w
  step reader64_process w = step64 w.reader64 w

  unfoldable pub run : List Process → World → World
  run [] w = w
  run (p ∷ ps) w = run ps (or_stay w (step p w))

-- The processes when `runMainLoop` starts.
abbrev pub started : Source → World
started s = record {
  main = choosing;
  reader32 = asleep;
  reader64 = asleep;
  signals32 = 0;
  signals64 = 0;
  closed = false;
  replies = [];
  source = s;
  next_polygon = 0;
  ran = [];
}
