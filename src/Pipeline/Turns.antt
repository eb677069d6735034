-- ===== src/Pipeline/Turns.antt =====
-- The processes of ex2/q1/main.c take turns: whatever the order of their steps, what each of them does is what
-- one program does that scans the commands itself, as ex1/q1/main.c.
use operating_systems_soluti.Base.{
  ℕ, ◌+◌, ◌*◌, ◌%◌, ◌^◌, ◌<◌, ◌≡◌, Bool, true, false, not, ◌&&◌, ◌||◌, List, [], ◌∷◌, ◌++◌, ltb,
  leb, ◌==◌, if◌then◌else◌, length,
}
use operating_systems_soluti.Polygons.{is_last_iteration}
use operating_systems_soluti.Pipeline.{
  Formats, Source, MainState, choosing, signalling, receiving, running, stopping, closing, waiting,
  finished, asleep, scanning, scanning_high, replying, World, scan_low, scan_high, scan_whole,
  joined, ReaderState,
}
use operating_systems_soluti.Pipeline.{behind}
use operating_systems_soluti.Pipeline.{scanned}

-- One command of the sequential program: its value, and the input behind it.
abbrev pub fetch_from : Formats → Source → ℕ × Source
fetch_from io s =
    if s.reader_to_run == 32
    then (
      (scanned io.scan_hex (behind s.stdin) s.high_part * 2 ^ 32
            + scanned io.scan_hex s.stdin s.low_part)
          % 2 ^ 64,
      record s {
        stdin = behind (behind s.stdin);
        low_part = scanned io.scan_hex s.stdin s.low_part;
        high_part = scanned io.scan_hex (behind s.stdin) s.high_part;
      },
    )
    else (
      scanned io.scan_hex s.stdin s.whole,
      record s { stdin = behind s.stdin; whole = scanned io.scan_hex s.stdin s.whole },
    )

unfoldable pub fetch : Formats → Source → ℕ × Source
fetch io s = fetch_from io (record s {
  stdin = behind s.stdin;
  reader_to_run = scanned io.scan_int s.stdin s.reader_to_run;
})

-- What `sscanf` of the main process makes of a number that a reader has printed.
abbrev pub seen : Formats → ℕ → ℕ
seen io u = io.parse_hex (io.print_hex u ++ io.left_over)

-- A byte that ends a hexadecimal number: no digit, nor the `x` of a prefix.
abbrev pub ends_number : List ℕ → Bool
ends_number [] = true
ends_number (c ∷ cs) =
    not (leb 48 c && ltb c 58)
    && (not (leb 65 c && ltb c 71) && (not (leb 97 c && ltb c 103) && not (c == 88 || c == 120)))

-- What the environment does for the program: the printed form has sixteen characters, and is read back if what
-- follows ends a number; a token of the input is a 64-bit number.
pub record IsFormats (io : Formats) : Type 0 where
  pub print-length : (v : ℕ) → v < 2 ^ 64 → length (io.print_hex v) ≡ 16
  pub parse-print :
      (v : ℕ) (rest : List ℕ)
      → v < 2 ^ 64
      → ends_number rest ≡ true
      → io.parse_hex (io.print_hex v ++ rest) ≡ v
  pub scan_bound : (t : List ℕ) → io.scan_hex t < 2 ^ 64

-- The stages of a round, each with the input that is left, the last polygon and the polygons so far.
pub data Stage : Type 0 where
  choose : Stage
  signal : Stage
  wake_low : Stage
  low : Stage
  high : Stage
  reply_low : Stage
  wake_whole : Stage
  whole : Stage
  reply_whole : Stage
  received : ℕ → Stage
  run_next : ℕ → Stage

abbrev idle : MainState → Source → ℕ → List ℕ → World
idle m s v ran = record {
  main = m;
  reader32 = asleep;
  reader64 = asleep;
  signals32 = 0;
  signals64 = 0;
  closed = false;
  replies = [];
  source = s;
  next_polygon = v;
  ran = ran;
}

-- The world in a stage of a round.
abbrev pub at_stage : Formats → Stage → Source → ℕ → List ℕ → World
at_stage io choose s v ran = idle choosing s v ran
at_stage io signal s v ran = idle signalling s v ran
at_stage io wake_low s v ran = record (idle receiving s v ran) { signals32 = 1 }
at_stage io low s v ran = record (idle receiving s v ran) { reader32 = scanning }
at_stage io high s v ran = record (idle receiving s v ran) { reader32 = scanning_high }
at_stage io reply_low s v ran = record (idle receiving s v ran) { reader32 = replying }
at_stage io wake_whole s v ran = record (idle receiving s v ran) { signals64 = 1 }
at_stage io whole s v ran = record (idle receiving s v ran) { reader64 = scanning }
at_stage io reply_whole s v ran = record (idle receiving s v ran) { reader64 = replying }
at_stage io (received u) s v ran = record (idle receiving s v ran) { replies = io.print_hex u }
at_stage io (run_next u) s v ran = idle running s (seen io u) ran

-- The command of the round and the input behind it, seen from a stage.
abbrev pub coming : Formats → Stage → Source → ℕ → ℕ × Source
coming io choose s v = fetch io s
coming io signal s v = fetch_from io s
coming io wake_low s v = (joined io (scan_high io (scan_low io s)), scan_high io (scan_low io s))
coming io low s v = (joined io (scan_high io (scan_low io s)), scan_high io (scan_low io s))
coming io high s v = (joined io (scan_high io s), scan_high io s)
coming io reply_low s v = (joined io s, s)
coming io wake_whole s v = ((scan_whole io s).whole, scan_whole io s)
coming io whole s v = ((scan_whole io s).whole, scan_whole io s)
coming io reply_whole s v = (s.whole, s)
coming io (received u) s v = (u, s)
coming io (run_next u) s v = (u, s)

-- The sequential program: the commands that it has run, each as the main process sees it and none of them the last
-- one, and the input left.
pub data Runs (io : Formats) (s : Source) : List ℕ → Source → Type 0 where
  no_command : Runs io s [] s
  and_command :
      (ran : List ℕ) (s' : Source)
      → Runs io s ran s'
      → is_last_iteration (seen io (fetch io s').0) ≡ false
      → Runs io s (ran ++ (seen io (fetch io s').0 ∷ [])) (fetch io s').1

abbrev pub has_left : MainState → Bool
has_left stopping = true
has_left closing = true
has_left waiting = true
has_left finished = true
has_left _ = false

-- The pipes are closed when the main process waits.
abbrev pub is_closed : MainState → Bool → Bool
is_closed waiting c = c
is_closed finished c = c
is_closed _ c = true

-- The states of `reader64`, which scans once.
abbrev pub scans_once : ReaderState → Bool
scans_once scanning_high = false
scans_once _ = true

-- A world of a run from `s`: within a round, behind the commands that the sequential program has run, or after
-- the loop, with the last command run as well.
pub data Reached (io : Formats) (s : Source) : World → Type 0 where
  in_round :
      (g : Stage) (s' : Source) (v : ℕ) (ran : List ℕ) (before : Source)
      → Runs io s ran before
      → coming io g s' v ≡ fetch io before
      → Reached io s (at_stage io g s' v ran)
  left_loop :
      (w : World) (ran : List ℕ) (before : Source)
      → has_left w.main ≡ true
      → is_closed w.main w.closed ≡ true
      → scans_once w.reader64 ≡ true
      → Runs io s ran before
      → is_last_iteration (seen io (fetch io before).0) ≡ true
      → w.ran ≡ ran ++ (seen io (fetch io before).0 ∷ [])
      → Reached io s w
