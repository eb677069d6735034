-- ===== src/Pipeline/Ends.antt =====
-- Runs of ex2/q1/main.c: what the three processes do together, in any order of their steps.
use operating_systems_soluti.Base.{
  ℕ, zero, suc, ◌+◌, ◌^◌, ◌<◌, ◌≡◌, refl, ap, ◌∙◌, true, false, Option, none, some, List, [], ◌∷◌,
  ◌++◌, arith,
}
use operating_systems_soluti.Polygons.{is_last_iteration}
use operating_systems_soluti.Pipeline.{Formats, Source, World, Process, step, or_stay, run, started}
use operating_systems_soluti.Pipeline.Turns.{
  fetch, IsFormats, Stage, choose, signal, wake_low, low, high, reply_low, wake_whole, whole,
  reply_whole, received, run_next, seen, ends_number, at_stage, Runs, no_command, and_command,
  has_left, Reached, in_round, left_loop,
}
use operating_systems_soluti.Pipeline.Steps.{fetch_bound, Runs-bound, stage_step}
use operating_systems_soluti.Pipeline.Left.{left_step}
use operating_systems_soluti.Base.{
  ℕ, zero, suc, ◌+◌, ◌^◌, ◌<◌, ◌≡◌, refl, ap, ◌∙◌, true, false, Option, none, some, List, [], ◌∷◌,
  ◌++◌, arith,
}

-- The loop of ex1/q1/main.c over the same input, on fuel: one process that scans each command itself.
unfoldable pub commands : Formats → ℕ → Source → Option (List ℕ)
commands io zero s = none
commands io (suc n) s = elim (is_last_iteration (fetch io s).0) [
  | true ↦ some ((fetch io s).0 ∷ [])
  | false ↦ elim (commands io n (fetch io s).1) [
    | none ↦ none
    | some cs ↦ some ((fetch io s).0 ∷ cs)
  ]
]

-- What the sequential loop has run in front of what it runs from there on.
abbrev in_front : List ℕ → Option (List ℕ) → Option (List ℕ)
in_front ran none = none
in_front ran (some cs) = some (ran ++ cs)

append_snoc : (xs ys : List ℕ) (v : ℕ) → xs ++ (v ∷ ys) ≡ (xs ++ (v ∷ [])) ++ ys
append_snoc [] ys v = refl
append_snoc (x ∷ xs) ys v = ap (λ l. x ∷ l) (append_snoc xs ys v)

in_front_none : (o : Option (List ℕ)) → o ≡ in_front [] o
in_front_none none = refl
in_front_none (some cs) = refl

in_front_twice :
    (ran : List ℕ) (v : ℕ) (o : Option (List ℕ))
    → in_front ran (elim o [ none ↦ none | some cs ↦ some (v ∷ cs) ]) ≡ in_front (ran ++ (v ∷ [])) o
in_front_twice ran v none = refl
in_front_twice ran v (some cs) = ap some (append_snoc ran cs v)

round_in_loop :
    (io : Formats) (g : Stage) (s' : Source) (v : ℕ) (ran : List ℕ)
    → has_left (at_stage io g s' v ran).main ≡ false
round_in_loop io choose s' v ran = refl
round_in_loop io signal s' v ran = refl
round_in_loop io wake_low s' v ran = refl
round_in_loop io low s' v ran = refl
round_in_loop io high s' v ran = refl
round_in_loop io reply_low s' v ran = refl
round_in_loop io wake_whole s' v ran = refl
round_in_loop io whole s' v ran = refl
round_in_loop io reply_whole s' v ran = refl
round_in_loop io (received u) s' v ran = refl
round_in_loop io (run_next u) s' v ran = refl

-- The main process sees the number that was scanned.
seen_as_sent :
    {io : Formats} (f : IsFormats io)
    → ends_number io.left_over ≡ true
    → (s : Source) → s.whole < 2 ^ 64
    → seen io (fetch io s).0 ≡ (fetch io s).0
seen_as_sent {io} f ends s small =
    f.parse-print (fetch io s).0 io.left_over (fetch_bound f s small).0 ends

module _ {io : Formats} {s : Source} where
  -- Each command run takes one unit of the fuel.
  Runs-commands :
      {ran : List ℕ} {s' : Source}
      → IsFormats io
      → ends_number io.left_over ≡ true
      → s.whole < 2 ^ 64
      → Runs io s ran s'
      → (n : ℕ) × ((m k : ℕ) → m ≡ n + k → commands io m s ≡ in_front ran (commands io k s'))
  unfolding commands
  Runs-commands f ends small no_command =
      (0, λ m k e. let q : m ≡ k = omega arith in rw q (in_front_none (commands io k s)))
  Runs-commands f ends small (and_command ran s' r more) =
      let (n, h) = Runs-commands f ends small r in
      let as_sent = seen_as_sent f ends s' (Runs-bound f small r) in
      let more' : is_last_iteration (fetch io s').0 ≡ false = rw as_sent at more in
      (
        n + 1,
        λ m k e.
            h m (suc k) (omega arith)
            ∙ rw (commands, more', as_sent)
                (in_front_twice ran (fetch io s').0 (commands io k (fetch io s').1)),
      )

  pub step-Reached :
      (f : IsFormats io)
      → s.whole < 2 ^ 64
      → (p : Process) {w : World} → Reached io s w
      → Reached io s (or_stay w (step io p w))
  step-Reached f small p (in_round g s' v ran before r e) =
      stage_step f small ran before r p g s' v e
  step-Reached f small p (left_loop w ran before l c o r last e) =
      let k = left_step io w l c o p in
      left_loop (or_stay w (step io p w)) ran before k.left k.closed k.once r last (k.same_ran ∙ e)

  pub run-Reached :
      (f : IsFormats io)
      → s.whole < 2 ^ 64
      → (ps : List Process) {w : World} → Reached io s w
      → Reached io s (run io ps w)
  unfolding run
  run-Reached f small [] h = h
  run-Reached f small (p ∷ ps) h = run-Reached f small ps (step-Reached f small p h)

  pub started-Reached : Reached io s (started s)
  started-Reached = in_round choose s 0 [] s no_command refl

  -- After the loop, the commands of the whole run.
  Reached-commands :
      {w : World}
      → IsFormats io
      → ends_number io.left_over ≡ true
      → s.whole < 2 ^ 64
      → Reached io s w
      → has_left w.main ≡ true
      → (n : ℕ) × (commands io n s ≡ some w.ran)
  unfolding commands
  Reached-commands f ends small (in_round g s' v ran before r e) l =
      absurd (ground (arith, round_in_loop io g s' v ran, l))
  Reached-commands f ends small (left_loop w ran before l c o r last e) _ =
      let (n, h) = Runs-commands f ends small r in
      let as_sent = seen_as_sent f ends before (Runs-bound f small r) in
      let last' : is_last_iteration (fetch io before).0 ≡ true = rw as_sent at last in
      let e' : w.ran ≡ ran ++ ((fetch io before).0 ∷ []) = rw as_sent at e in
      let rest : commands io 1 before ≡ some ((fetch io before).0 ∷ []) =
        rw (commands, last') refl in
      (n + 1, h (n + 1) 1 refl ∙ rw (rest, e') refl)

-- Whatever the order of the steps of the three processes, if the memory behind the sixteen characters of
-- `polygonBuffer`, which the program never sets, begins with a byte that ends a number: once the main process
-- has left its loop, it has run the polygons that one process would scan from the same input, in the same
-- order, up to the last one and with none lost, doubled or mixed up, whatever is scanned by which reader.
pub run-commands :
    (io : Formats) (f : IsFormats io) (s : Source) (ps : List Process)
    → s.whole < 2 ^ 64
    → ends_number io.left_over ≡ true
    → has_left (run io ps (started s)).main ≡ true
    → (n : ℕ) × (commands io n s ≡ some (run io ps (started s)).ran)
run-commands io f s ps small ends left =
    Reached-commands f ends small (run-Reached f small ps started-Reached) left
