-- ===== src/Pipeline/Progress.antt =====
-- The processes of ex2/q1/main.c never wait for one another in a circle.
use operating_systems_soluti.Base.{
  ℕ, ◌^◌, ◌<◌, ◌≡◌, refl, subst, ◌≢◌, ◌⊎◌, inl, inr, Bool, true, false, Option, none, some, List,
  [], ◌∷◌, arith, ltb, ◌==◌, Bool-cases, length,
}
use operating_systems_soluti.Pipeline.{
  Formats, Source, MainState, choosing, signalling, receiving, running, stopping, closing, waiting,
  finished, ReaderState, asleep, scanning, scanning_high, replying, gone, Process, main_process,
  reader32_process, reader64_process, World, step, step32, step64, wake32, wake64, woken, receive,
  wait_both, run, started,
}
use operating_systems_soluti.Pipeline.Turns.{
  fetch, IsFormats, Stage, choose, signal, wake_low, low, high, reply_low, wake_whole, whole,
  reply_whole, received, run_next, at_stage, coming, has_left, is_closed, scans_once, Reached,
  in_round, left_loop,
}
use operating_systems_soluti.Pipeline.Steps.{value_bound}
use operating_systems_soluti.Pipeline.Ends.{run-Reached, started-Reached}
use operating_systems_soluti.Base.{
  ℕ, ◌^◌, ◌<◌, ◌≡◌, refl, subst, ◌≢◌, ◌⊎◌, inl, inr, Bool, true, false, Option, none, some, List,
  [], ◌∷◌, arith, ltb, ◌==◌, Bool-cases, length,
}

abbrev CanGo : Formats → World → Type 0
CanGo io w = (p : Process) × (w' : World) × (step io p w ≡ some w')

abbrev goes_on : Option World → Bool
goes_on none = false
goes_on (some w) = true

next_of : (o : Option World) → goes_on o ≡ true → (w : World) × (o ≡ some w)
next_of none e = absurd (ground (arith, e))
next_of (some w) e = (w, refl)

can_go : (io : Formats) (p : Process) (w : World) → goes_on (step io p w) ≡ true → CanGo io w
can_go io p w e = let (w', q) = next_of (step io p w) e in (p, w', q)

-- A reader that is awake, or asleep with its pipe closed, has a step.
reader32_goes :
    (io : Formats) (r : ReaderState) (w : World)
    → w.closed ≡ true
    → r ≢ gone
    → (w' : World) × (step32 io r w ≡ some w')
reader32_goes io asleep w c ne = elim (Bool-cases (ltb 0 w.signals32)) [
  | inl more ↦
      next_of (wake32 io w (woken io w.signals32 w.closed scanning))
        (rw (goes_on, wake32, more) refl)
  | inr none_left ↦
      next_of (wake32 io w (woken io w.signals32 w.closed scanning))
        (rw (goes_on, wake32, none_left, c) refl)
]
reader32_goes io scanning w c ne = (_, refl)
reader32_goes io scanning_high w c ne = (_, refl)
reader32_goes io replying w c ne = (_, refl)
reader32_goes io gone w c ne = absurd (ne refl)

reader64_goes :
    (io : Formats) (r : ReaderState) (w : World)
    → w.closed ≡ true
    → scans_once r ≡ true
    → r ≢ gone
    → (w' : World) × (step64 io r w ≡ some w')
reader64_goes io asleep w c o ne = elim (Bool-cases (ltb 0 w.signals64)) [
  | inl more ↦
      next_of (wake64 io w (woken io w.signals64 w.closed scanning))
        (rw (goes_on, wake64, more) refl)
  | inr none_left ↦
      next_of (wake64 io w (woken io w.signals64 w.closed scanning))
        (rw (goes_on, wake64, none_left, c) refl)
]
reader64_goes io scanning w c o ne = (_, refl)
reader64_goes io scanning_high w c o ne = absurd (ground (arith, o))
reader64_goes io replying w c o ne = (_, refl)
reader64_goes io gone w c o ne = absurd (ne refl)

is_gone : (r : ReaderState) → (r ≡ gone) ⊎ (r ≢ gone)
is_gone asleep = inr (λ e. ground (arith, e))
is_gone scanning = inr (λ e. ground (arith, e))
is_gone scanning_high = inr (λ e. ground (arith, e))
is_gone replying = inr (λ e. ground (arith, e))
is_gone gone = inl refl

waiting_goes :
    (io : Formats) (w : World)
    → w.main ≡ waiting
    → w.closed ≡ true
    → scans_once w.reader64 ≡ true
    → CanGo io w
unfolding step
waiting_goes io w m c o = elim (is_gone w.reader32) [
  | inr there ↦ let (w', e) = reader32_goes io w.reader32 w c there in (reader32_process, w', e)
  | inl one ↦ elim (is_gone w.reader64) [
    | inr there ↦ let (w', e) = reader64_goes io w.reader64 w c o there in (reader64_process, w', e)
    | inl both ↦ can_go io main_process w (rw (m, goes_on, wait_both, one, both) refl)
  ]
]

left_goes :
    (io : Formats) (m : MainState) (w : World)
    → w.main ≡ m
    → has_left m ≡ true
    → is_closed m w.closed ≡ true
    → scans_once w.reader64 ≡ true
    → (w.main ≡ finished) ⊎ CanGo io w
unfolding step
left_goes io stopping w e l c o = inr (can_go io main_process w (rw e refl))
left_goes io closing w e l c o = inr (can_go io main_process w (rw e refl))
left_goes io waiting w e l c o = inr (waiting_goes io w e c o)
left_goes io finished w e l c o = inl e
left_goes io choosing w e l c o = absurd (ground (arith, l))
left_goes io signalling w e l c o = absurd (ground (arith, l))
left_goes io receiving w e l c o = absurd (ground (arith, l))
left_goes io running w e l c o = absurd (ground (arith, l))

signal_goes :
    (io : Formats) (s : Source) (v : ℕ) (ran : List ℕ) → CanGo io (at_stage io signal s v ran)
unfolding step
signal_goes io s v ran = elim (Bool-cases (s.reader_to_run == 32)) [
  | inl by32 ↦ (main_process, at_stage io wake_low s v ran, rw by32 refl)
  | inr by64 ↦ (main_process, at_stage io wake_whole s v ran, rw by64 refl)
]

received_goes :
    (io : Formats) (s : Source) (u v : ℕ) (ran : List ℕ)
    → length (io.print_hex u) ≡ 16
    → CanGo io (at_stage io (received u) s v ran)
unfolding step
received_goes io s u v ran l = go (io.print_hex u) refl
  where
    go : (cs : List ℕ) → io.print_hex u ≡ cs → CanGo io (at_stage io (received u) s v ran)
    go [] e = absurd (omega (arith, rw e at l))
    go (c ∷ cs) e =
        can_go io main_process (at_stage io (received u) s v ran) (rw (goes_on, receive, e) refl)

stage_goes :
    (io : Formats) (g : Stage) (s : Source) (v : ℕ) (ran : List ℕ)
    → ((u : ℕ) → g ≡ received u → length (io.print_hex u) ≡ 16)
    → CanGo io (at_stage io g s v ran)
unfolding step
stage_goes io choose s v ran h = (main_process, _, refl)
stage_goes io signal s v ran h = signal_goes io s v ran
stage_goes io wake_low s v ran h = (reader32_process, _, refl)
stage_goes io low s v ran h = (reader32_process, _, refl)
stage_goes io high s v ran h = (reader32_process, _, refl)
stage_goes io reply_low s v ran h = (reader32_process, _, refl)
stage_goes io wake_whole s v ran h = (reader64_process, _, refl)
stage_goes io whole s v ran h = (reader64_process, _, refl)
stage_goes io reply_whole s v ran h = (reader64_process, _, refl)
stage_goes io (received u) s v ran h = received_goes io s u v ran (h u refl)
stage_goes io (run_next u) s v ran h = (main_process, _, refl)

Reached-goes :
    {io : Formats} (f : IsFormats io) {s : Source} {w : World}
    → s.whole < 2 ^ 64
    → Reached io s w
    → (w.main ≡ finished) ⊎ CanGo io w
Reached-goes f small (left_loop w ran before l c o r last e) = left_goes _ w.main w refl l c o
Reached-goes {io} f {s} small (in_round g s' v ran before r e) = inr (
    stage_goes io g s' v ran (λ u at. f.print-length u (
      value_bound f small ran before r u s'
        (subst (λ z. coming io z s' v ≡ fetch io before) at e))))

-- No deadlock, and no reader is left behind: after any steps in any order, either the main process has
-- finished, which it does only when both readers are gone, or one of the three processes has a next step.
pub run-can_go :
    (io : Formats) (f : IsFormats io) (s : Source) (ps : List Process)
    → s.whole < 2 ^ 64
    → ((run io ps (started s)).main ≡ finished)
      ⊎ ((p : Process) × (w' : World) × (step io p (run io ps (started s)) ≡ some w'))
run-can_go io f s ps small = Reached-goes f small (run-Reached f small ps started-Reached)
