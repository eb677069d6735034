-- ===== src/Pipeline/Steps.antt =====
-- Each step of a process of ex2/q1/main.c keeps to the run of the sequential program.
use operating_systems_soluti.Base.{
  ℕ, ◌^◌, ◌<◌, ◌≡◌, refl, sym, ap, subst, ◌∙◌, inl, inr, some, List, [], ◌∷◌, ◌++◌, arith, ◌==◌,
  Bool-cases, length, take, drop,
}
use operating_systems_soluti.Polygons.{is_last_iteration}
use operating_systems_soluti.Pipeline.{
  Formats, Source, running, Process, main_process, reader32_process, reader64_process, World,
  scanned, behind, scan_reader, scan_low, scan_high, scan_whole, joined, step, or_stay, receive,
}
use operating_systems_soluti.Pipeline.Turns.{
  fetch, IsFormats, Stage, choose, signal, wake_low, low, high, reply_low, wake_whole, whole,
  reply_whole, received, run_next, seen, at_stage, coming, Runs, no_command, and_command, Reached,
  in_round, left_loop,
}
use operating_systems_soluti.Base.{
  ℕ, ◌^◌, ◌<◌, ◌≡◌, refl, sym, ap, subst, ◌∙◌, inl, inr, some, List, [], ◌∷◌, ◌++◌, arith, ◌==◌,
  Bool-cases, length, take, drop,
}
use operating_systems_soluti.Pipeline.{behind}
use operating_systems_soluti.Pipeline.{scanned}
use operating_systems_soluti.Base.{
  ℕ, ◌^◌, ◌<◌, ◌≡◌, refl, sym, ap, subst, ◌∙◌, inl, inr, some, List, [], ◌∷◌, ◌++◌, arith, ◌==◌,
  Bool-cases, length, take, drop,
}
use operating_systems_soluti.Pipeline.{behind}
use operating_systems_soluti.Pipeline.{scanned}
use operating_systems_soluti.Base.{
  ℕ, ◌^◌, ◌<◌, ◌≡◌, refl, sym, ap, subst, ◌∙◌, inl, inr, some, List, [], ◌∷◌, ◌++◌, arith, ◌==◌,
  Bool-cases, length, take, drop,
}
use operating_systems_soluti.Pipeline.{behind}
use operating_systems_soluti.Pipeline.{scanned}
use operating_systems_soluti.Base.{
  ℕ, ◌^◌, ◌<◌, ◌≡◌, refl, sym, ap, subst, ◌∙◌, inl, inr, some, List, [], ◌∷◌, ◌++◌, arith, ◌==◌,
  Bool-cases, length, take, drop,
}
use operating_systems_soluti.Pipeline.{behind}
use operating_systems_soluti.Pipeline.{scanned}
use operating_systems_soluti.Base.{
  ℕ, ◌^◌, ◌<◌, ◌≡◌, refl, sym, ap, subst, ◌∙◌, inl, inr, some, List, [], ◌∷◌, ◌++◌, arith, ◌==◌,
  Bool-cases, length, take, drop,
}
use operating_systems_soluti.Pipeline.{behind}
use operating_systems_soluti.Pipeline.{scanned}
use operating_systems_soluti.Base.{
  ℕ, ◌^◌, ◌<◌, ◌≡◌, refl, sym, ap, subst, ◌∙◌, inl, inr, some, List, [], ◌∷◌, ◌++◌, arith, ◌==◌,
  Bool-cases, length, take, drop,
}
use operating_systems_soluti.Pipeline.{behind}
use operating_systems_soluti.Pipeline.{scanned}
use operating_systems_soluti.Base.{
  ℕ, ◌^◌, ◌<◌, ◌≡◌, refl, sym, ap, subst, ◌∙◌, inl, inr, some, List, [], ◌∷◌, ◌++◌, arith, ◌==◌,
  Bool-cases, length, take, drop,
}
use operating_systems_soluti.Pipeline.{behind}
use operating_systems_soluti.Pipeline.{scanned}
use operating_systems_soluti.Base.{
  ℕ, ◌^◌, ◌<◌, ◌≡◌, refl, sym, ap, subst, ◌∙◌, inl, inr, some, List, [], ◌∷◌, ◌++◌, arith, ◌==◌,
  Bool-cases, length, take, drop,
}
use operating_systems_soluti.Pipeline.{behind}
use operating_systems_soluti.Pipeline.{scanned}
use operating_systems_soluti.Base.{
  ℕ, ◌^◌, ◌<◌, ◌≡◌, refl, sym, ap, subst, ◌∙◌, inl, inr, some, List, [], ◌∷◌, ◌++◌, arith, ◌==◌,
  Bool-cases, length, take, drop,
}
use operating_systems_soluti.Pipeline.{behind}
use operating_systems_soluti.Pipeline.{scanned}
use operating_systems_soluti.Base.{
  ℕ, ◌^◌, ◌<◌, ◌≡◌, refl, sym, ap, subst, ◌∙◌, inl, inr, some, List, [], ◌∷◌, ◌++◌, arith, ◌==◌,
  Bool-cases, length, take, drop,
}
use operating_systems_soluti.Pipeline.{behind}
use operating_systems_soluti.Pipeline.{scanned}

take_all : (cs : List ℕ) → take (length cs) cs ≡ cs
take_all [] = refl
take_all (c ∷ cs) = ap (λ l. c ∷ l) (take_all cs)

drop_all : (cs : List ℕ) → drop (length cs) cs ≡ []
drop_all [] = refl
drop_all (c ∷ cs) = drop_all cs

take_16 : (cs : List ℕ) → length cs ≡ 16 → take 16 cs ≡ cs
take_16 cs e = rw e at (take_all cs)

drop_16 : (cs : List ℕ) → length cs ≡ 16 → drop 16 cs ≡ []
drop_16 cs e = rw e at (drop_all cs)

pub fetch_bound :
    {io : Formats} (f : IsFormats io) (s : Source)
    → s.whole < 2 ^ 64
    → ((fetch io s).0 < 2 ^ 64) × ((fetch io s).1.whole < 2 ^ 64)
unfolding fetch
fetch_bound {io} f s lt = elim (Bool-cases ((scan_reader io s).reader_to_run == 32)) [
  | inl by32 ↦ rw by32 (omega arith, lt)
  | inr by64 ↦ rw by64 (go (behind s.stdin), go (behind s.stdin))
]
  where
    go : (ts : List (List ℕ)) → scanned io.scan_hex ts s.whole < 2 ^ 64
    go [] = lt
    go (t ∷ ts) = f.scan_bound t

pub Runs-bound :
    {io : Formats} {s : Source} {ran : List ℕ} {s' : Source}
    → IsFormats io
    → s.whole < 2 ^ 64
    → Runs io s ran s'
    → s'.whole < 2 ^ 64
Runs-bound f small no_command = small
Runs-bound f small (and_command ran s' r more) = (fetch_bound f s' (Runs-bound f small r)).1

-- The main process receives sixteen characters as a whole.
receive_whole :
    (io : Formats) (w : World) (cs : List ℕ)
    → length cs ≡ 16
    → receive io w cs
      ≡ some (record w {
        main = running;
        replies = [];
        next_polygon = io.parse_hex (cs ++ io.left_over);
      })
receive_whole io w [] l = absurd (omega (arith, l))
receive_whole io w (c ∷ cs) l =
    ap
      (λ t. some (record w {
        main = running;
        replies = drop 16 (c ∷ cs);
        next_polygon = io.parse_hex (t ++ io.left_over);
      }))
      (take_16 (c ∷ cs) l)
    ∙ ap
        (λ t. some (record w {
          main = running;
          replies = t;
          next_polygon = io.parse_hex ((c ∷ cs) ++ io.left_over);
        }))
        (drop_16 (c ∷ cs) l)

-- The steps within a round, behind the commands that have been run.
module _ {io : Formats} (f : IsFormats io) {s : Source} (small : s.whole < 2 ^ 64) (ran : List ℕ)
    (before : Source) (r : Runs io s ran before) where
  pub value_bound : (v : ℕ) (s' : Source) → (v, s') ≡ fetch io before → v < 2 ^ 64
  value_bound v s' e =
      let b = (fetch_bound f before (Runs-bound f small r)).0 in
      subst (λ z. z < 2 ^ 64) (sym (ap (λ q. q.0) e)) b

  abbrev stay :
      (g : Stage) (s' : Source) (v : ℕ)
      → coming io g s' v ≡ fetch io before
      → Reached io s (at_stage io g s' v ran)
  stay g s' v e = in_round g s' v ran before r e

  main_signals :
      (s' : Source) (v : ℕ)
      → coming io signal s' v ≡ fetch io before
      → Reached io s (
          or_stay
            (at_stage io signal s' v ran)
            (step io main_process (at_stage io signal s' v ran)))
  unfolding step
  main_signals s' v e = elim (Bool-cases (s'.reader_to_run == 32)) [
    | inl by32 ↦ rw (or_stay, by32) (stay wake_low s' v (rw by32 at e))
    | inr by64 ↦ rw (or_stay, by64) (stay wake_whole s' v (rw by64 at e))
  ]

  main_receives :
      (u v : ℕ) (s' : Source)
      → (u, s') ≡ fetch io before
      → Reached io s (
          or_stay
            (at_stage io (received u) s' v ran)
            (step io main_process (at_stage io (received u) s' v ran)))
  unfolding step
  main_receives u v s' e =
      let l = f.print-length u (value_bound u s' e) in
      let next : Reached io s (at_stage io (run_next u) s' v ran) = stay (run_next u) s' v e in
      let got = receive_whole io (at_stage io (received u) s' v ran) (io.print_hex u) l in
      subst (λ o. Reached io s (or_stay (at_stage io (received u) s' v ran) o)) (sym got) next

  main_runs :
      (u : ℕ) (s' : Source) (v : ℕ)
      → (u, s') ≡ fetch io before
      → Reached io s (
          or_stay
            (at_stage io (run_next u) s' v ran)
            (step io main_process (at_stage io (run_next u) s' v ran)))
  unfolding step
  main_runs u s' v e =
      let now : seen io u ≡ seen io (fetch io before).0 = ap (λ q. seen io q.0) e in
      elim (Bool-cases (is_last_iteration (seen io u))) [
        | inl last ↦ rw last (
            left_loop _ ran before refl refl refl r (ap is_last_iteration (sym now) ∙ last)
              (ap (λ z. ran ++ (z ∷ [])) now))
        | inr more ↦ rw more (
            in_round choose s' (seen io u) (ran ++ (seen io u ∷ [])) s'
              (subst (λ q. Runs io s (ran ++ (seen io q.0 ∷ [])) q.1) (sym e)
                (and_command ran before r (ap is_last_iteration (sym now) ∙ more)))
              refl)
      ]

  reader64_replies :
      (s' : Source) (v : ℕ)
      → (s'.whole, s') ≡ fetch io before
      → Reached io s (
          or_stay
            (at_stage io reply_whole s' v ran)
            (step io reader64_process (at_stage io reply_whole s' v ran)))
  unfolding step
  reader64_replies s' v e =
      let lt = value_bound s'.whole s' e in
      rw (or_stay, take_16 (io.print_hex s'.whole) (f.print-length s'.whole lt))
        (stay (received s'.whole) s' v e)

  pub stage_step :
      (p : Process) (g : Stage) (s' : Source) (v : ℕ)
      → coming io g s' v ≡ fetch io before
      → Reached io s (or_stay (at_stage io g s' v ran) (step io p (at_stage io g s' v ran)))
  unfolding step fetch
  stage_step main_process choose s' v e = stay signal (scan_reader io s') v e
  stage_step main_process signal s' v e = main_signals s' v e
  stage_step main_process wake_low s' v e = stay wake_low s' v e
  stage_step main_process low s' v e = stay low s' v e
  stage_step main_process high s' v e = stay high s' v e
  stage_step main_process reply_low s' v e = stay reply_low s' v e
  stage_step main_process wake_whole s' v e = stay wake_whole s' v e
  stage_step main_process whole s' v e = stay whole s' v e
  stage_step main_process reply_whole s' v e = stay reply_whole s' v e
  stage_step main_process (received u) s' v e = main_receives u v s' e
  stage_step main_process (run_next u) s' v e = main_runs u s' v e
  stage_step reader32_process choose s' v e = stay choose s' v e
  stage_step reader32_process signal s' v e = stay signal s' v e
  stage_step reader32_process wake_low s' v e = stay low s' v e
  stage_step reader32_process low s' v e = stay high (scan_low io s') v e
  stage_step reader32_process high s' v e = stay reply_low (scan_high io s') v e
  stage_step reader32_process reply_low s' v e = stay (received (joined io s')) s' v e
  stage_step reader32_process wake_whole s' v e = stay wake_whole s' v e
  stage_step reader32_process whole s' v e = stay whole s' v e
  stage_step reader32_process reply_whole s' v e = stay reply_whole s' v e
  stage_step reader32_process (received u) s' v e = stay (received u) s' v e
  stage_step reader32_process (run_next u) s' v e = stay (run_next u) s' v e
  stage_step reader64_process choose s' v e = stay choose s' v e
  stage_step reader64_process signal s' v e = stay signal s' v e
  stage_step reader64_process wake_low s' v e = stay wake_low s' v e
  stage_step reader64_process low s' v e = stay low s' v e
  stage_step reader64_process high s' v e = stay high s' v e
  stage_step reader64_process reply_low s' v e = stay reply_low s' v e
  stage_step reader64_process wake_whole s' v e = stay whole s' v e
  stage_step reader64_process whole s' v e = stay reply_whole (scan_whole io s') v e
  stage_step reader64_process reply_whole s' v e = reader64_replies s' v e
  stage_step reader64_process (received u) s' v e = stay (received u) s' v e
  stage_step reader64_process (run_next u) s' v e = stay (run_next u) s' v e
