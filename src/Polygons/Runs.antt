-- ===== src/Polygons/Runs.antt =====
-- The whole run of ex1/q1/main.c against a program over a plain list of polygons.
use operating_systems_soluti.Base.{
  ℕ, ◌+◌, ◌≤◌, ◌<◌, ◌≡◌, refl, ap, inl, inr, false, ◌||◌, Option, none, some, List, [], ◌∷◌, ◌++◌,
  arith, ◌==◌, if◌then◌else◌, Bool-cases, length, length-append,
}
use operating_systems_soluti.Polygons.{
  Line, Store, add_polygon, do_all_from, do_current, is_new_polygon, is_last_iteration,
  get_whom_run_on, should_run, get_polygon_type, run_action, get_action, run_on_polygon, main_loop,
  and_then,
}
use operating_systems_soluti.Polygons.Chain.{
  Cells, has, IsList, add_polygon-append, all_lines, do_all-all_lines,
}

-- What `do_all` is meant to print: the action of the command for each selected polygon, in order.
unfoldable pub lines_for : ℕ → List ℕ → List Line
lines_for input [] = []
lines_for input (v ∷ vs) =
    (if should_run (get_whom_run_on input) (get_polygon_type v)
      then run_action (get_action input) v
      else [])
    ++ lines_for input vs

abbrev pub added : ℕ → List ℕ → List ℕ
added input vs = if is_new_polygon input then vs ++ (input ∷ []) else vs

abbrev pub lines_of : ℕ → List ℕ → List Line
lines_of input vs = if get_whom_run_on input == 0 then do_current input else lines_for input vs

-- The run over a list `vs` of the polygons added so far.
unfoldable pub spec_loop : List ℕ → List ℕ → Option (List Line)
spec_loop [] vs = none
spec_loop (input ∷ cs) vs =
    let now = lines_of input (added input vs) in
    let rest = spec_loop cs (added input vs) in and_then (some now) (is_last_iteration input) rest

abbrev pub values : Cells → List ℕ
values [] = []
values ((a, v) ∷ xs) = v ∷ values xs

values-append : (xs ys : Cells) → values (xs ++ ys) ≡ values xs ++ values ys
values-append [] ys = refl
values-append ((a, v) ∷ xs) ys = ap (λ l. v ∷ l) (values-append xs ys)

all_lines-lines_for : (input : ℕ) (xs : Cells) → all_lines input xs ≡ lines_for input (values xs)
unfolding lines_for
all_lines-lines_for input [] = refl
all_lines-lines_for input ((a, v) ∷ xs) = rw (all_lines-lines_for input xs)

-- The addresses that `malloc` returns are none of those in use, and differ from one another.
abbrev pub IsFresh : Cells → Cells → Type 0
IsFresh xs [] = Unit
IsFresh xs ((a, v) ∷ cs) = (has a xs ≡ false) × IsFresh ((a, v) ∷ xs) cs

has-snoc : (a b v : ℕ) (xs : Cells) → has a (xs ++ ((b, v) ∷ [])) ≡ (has a xs || (b == a))
has-snoc a b v [] = ground arith
has-snoc a b v ((c, w) ∷ xs) = ground (arith, has-snoc a b v xs)

-- Freshness depends only on which addresses are in use.
IsFresh-mono :
    (xs ys cs : Cells)
    → ((a : ℕ) → has a xs ≡ false → has a ys ≡ false)
    → IsFresh xs cs
    → IsFresh ys cs
IsFresh-mono xs ys [] sub h = tt
IsFresh-mono xs ys ((a, v) ∷ cs) sub h =
    (sub a h.0, IsFresh-mono ((a, v) ∷ xs) ((a, v) ∷ ys) cs (λ b out. ground (arith, sub b)) h.1)

-- One command: the new list of polygons, and the lines.
record Ran (item input : ℕ) (xs : Cells) (r : Store × Option (List Line)) : Type 0 where
  cells : Cells
  list : IsList r.0 cells
  same : values cells ≡ added input (values xs)
  size : length cells ≤ length xs + 1
  uses : (a : ℕ) → has a ((item, input) ∷ xs) ≡ false → has a cells ≡ false
  lines : r.1 ≡ some (lines_of input (values cells))

module _ (fuel : ℕ) where
  run_on_polygon-Ran :
      (item input : ℕ) (s : Store) (xs : Cells)
      → IsList s xs
      → has item xs ≡ false
      → length xs + 1 < fuel
      → Ran item input xs (run_on_polygon fuel item input s)
  unfolding run_on_polygon
  run_on_polygon-Ran item input s xs h out lt = elim (Bool-cases (is_new_polygon input)) [
    | inl new ↦
        let cs = xs ++ ((item, input) ∷ []) in
        let h' = add_polygon-append s item input xs h out in
        rw new (record {
          cells = cs;
          list = h';
          same = rw new (values-append xs ((item, input) ∷ []));
          size = omega (arith, length-append xs ((item, input) ∷ []));
          uses = λ a o. ground (arith, has-snoc a item input xs);
          lines =
              printed (add_polygon item input s) cs h'
                (omega (arith, length-append xs ((item, input) ∷ [])));
        })
    | inr old ↦ rw old (record {
      cells = xs;
      list = h;
      same = rw old refl;
      size = omega arith;
      uses = λ a o. ground arith;
      lines = printed s xs h (omega arith);
    })
  ]
    where
      printed :
          (s' : Store) (cs : Cells)
          → IsList s' cs
          → length cs < fuel
          → (if get_whom_run_on input == 0
              then some (do_current input)
              else do_all_from fuel input s'.head s')
            ≡ some (lines_of input (values cs))
      printed s' cs h' lt' = ground (
        arith,
        do_all-all_lines fuel input s' s'.head cs h'.walk lt',
        all_lines-lines_for input cs,
      )

  main_loop-spec_loop_from :
      (cs xs : Cells) (s : Store)
      → IsList s xs
      → IsFresh xs cs
      → length xs + length cs < fuel
      → main_loop fuel cs s ≡ spec_loop (values cs) (values xs)
  unfolding main_loop spec_loop
  main_loop-spec_loop_from [] xs s h fresh lt = refl
  main_loop-spec_loop_from ((item, input) ∷ cs) xs s h fresh lt =
      let r = run_on_polygon-Ran item input s xs h fresh.0 (omega arith) in
      let later = IsFresh-mono ((item, input) ∷ xs) r.cells cs r.uses fresh.1 in
      let ih =
        main_loop-spec_loop_from cs r.cells (run_on_polygon fuel item input s).0 r.list later
          (omega (arith, r.size)) in
      rw (r.lines, ih, r.same) refl

-- The pointer program does what the same program over a plain list does: started on an empty list, with `malloc` returning unused
-- addresses and more fuel than commands, it prints the same lines, for every sequence of commands; each
-- `do_all` sees all polygons added so far, the command's own included, in the order of their addition.
pub main_loop-spec_loop :
    (fuel : ℕ) (cs : Cells) (s : Store)
    → s.head ≡ none
    → s.tail ≡ none
    → IsFresh [] cs
    → length cs < fuel
    → main_loop fuel cs s ≡ spec_loop (values cs) []
main_loop-spec_loop fuel cs s h t fresh lt =
    main_loop-spec_loop_from fuel cs [] s (record { walk = h; ends = t }) fresh (omega arith)
