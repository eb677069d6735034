-- ===== src/Pipeline/Left.antt =====
-- The steps of the processes of ex2/q1/main.c when the main process has left its loop.
use operating_systems_soluti.Base.{
  ◌≡◌, refl, Bool, true, false, none, some, arith, ltb, if◌then◌else◌,
}
use operating_systems_soluti.Pipeline.{
  Formats, MainState, choosing, signalling, receiving, running, stopping, closing, waiting,
  finished, ReaderState, asleep, scanning, scanning_high, replying, gone, Process, main_process,
  reader32_process, reader64_process, World, step, or_stay, step32, step64, step_main, wait_both,
  wake32, wake64,
}
use operating_systems_soluti.Pipeline.Turns.{has_left, is_closed, scans_once}
use operating_systems_soluti.Base.{
  ◌≡◌, refl, Bool, true, false, none, some, arith, ltb, if◌then◌else◌,
}
use operating_systems_soluti.Base.{
  ◌≡◌, refl, Bool, true, false, none, some, arith, ltb, if◌then◌else◌,
}
use operating_systems_soluti.Base.{
  ◌≡◌, refl, Bool, true, false, none, some, arith, ltb, if◌then◌else◌,
}
use operating_systems_soluti.Base.{
  ◌≡◌, refl, Bool, true, false, none, some, arith, ltb, if◌then◌else◌,
}
use operating_systems_soluti.Base.{
  ◌≡◌, refl, Bool, true, false, none, some, arith, ltb, if◌then◌else◌,
}
use operating_systems_soluti.Base.{
  ◌≡◌, refl, Bool, true, false, none, some, arith, ltb, if◌then◌else◌,
}
use operating_systems_soluti.Base.{
  ◌≡◌, refl, Bool, true, false, none, some, arith, ltb, if◌then◌else◌,
}
use operating_systems_soluti.Base.{
  ◌≡◌, refl, Bool, true, false, none, some, arith, ltb, if◌then◌else◌,
}
use operating_systems_soluti.Base.{
  ◌≡◌, refl, Bool, true, false, none, some, arith, ltb, if◌then◌else◌,
}
use operating_systems_soluti.Base.{
  ◌≡◌, refl, Bool, true, false, none, some, arith, ltb, if◌then◌else◌,
}

-- The steps after the loop of the main process: none of them runs a command.
pub record Kept (w w' : World) : Type 0 where
  pub same_ran : w'.ran ≡ w.ran
  pub left : has_left w'.main ≡ true
  pub closed : is_closed w'.main w'.closed ≡ true
  pub once : scans_once w'.reader64 ≡ true

module _ (io : Formats) (w : World) (l : has_left w.main ≡ true)
    (c : is_closed w.main w.closed ≡ true) (o : scans_once w.reader64 ≡ true) where
  same : Kept w w
  same = record { same_ran = refl; left = l; closed = c; once = o }

  woken32 :
      (a b : Bool)
      → Kept w
          (or_stay w (wake32 io w (if a then some scanning else if b then some gone else none)))
  woken32 true b = record { same_ran = refl; left = l; closed = c; once = o }
  woken32 false true = record { same_ran = refl; left = l; closed = c; once = o }
  woken32 false false = same

  woken64 :
      (a b : Bool)
      → Kept w
          (or_stay w (wake64 io w (if a then some scanning else if b then some gone else none)))
  woken64 true b = record { same_ran = refl; left = l; closed = c; once = refl }
  woken64 false true = record { same_ran = refl; left = l; closed = c; once = refl }
  woken64 false false = same

  reader32_kept : (r : ReaderState) → Kept w (or_stay w (step32 io r w))
  reader32_kept asleep = woken32 (ltb 0 w.signals32) w.closed
  reader32_kept scanning = record { same_ran = refl; left = l; closed = c; once = o }
  reader32_kept scanning_high = record { same_ran = refl; left = l; closed = c; once = o }
  reader32_kept replying = record { same_ran = refl; left = l; closed = c; once = o }
  reader32_kept gone = same

  reader64_kept : (r : ReaderState) → Kept w (or_stay w (step64 io r w))
  reader64_kept asleep = woken64 (ltb 0 w.signals64) w.closed
  reader64_kept scanning = record { same_ran = refl; left = l; closed = c; once = refl }
  reader64_kept scanning_high = same
  reader64_kept replying = record { same_ran = refl; left = l; closed = c; once = refl }
  reader64_kept gone = same

  wait_both-Kept : (a b : ReaderState) → w.closed ≡ true → Kept w (or_stay w (wait_both io w a b))
  wait_both-Kept asleep b e = same
  wait_both-Kept scanning b e = same
  wait_both-Kept scanning_high b e = same
  wait_both-Kept replying b e = same
  wait_both-Kept gone asleep e = same
  wait_both-Kept gone scanning e = same
  wait_both-Kept gone scanning_high e = same
  wait_both-Kept gone replying e = same
  wait_both-Kept gone gone e = record { same_ran = refl; left = refl; closed = e; once = o }

  main_kept :
      (m : MainState)
      → has_left m ≡ true
      → is_closed m w.closed ≡ true
      → Kept w (or_stay w (step_main io m w))
  main_kept stopping _ _ = record { same_ran = refl; left = refl; closed = refl; once = o }
  main_kept closing _ _ = record { same_ran = refl; left = refl; closed = refl; once = o }
  main_kept waiting _ e = wait_both-Kept w.reader32 w.reader64 e
  main_kept finished _ _ = same
  main_kept choosing f _ = absurd (ground (arith, f))
  main_kept signalling f _ = absurd (ground (arith, f))
  main_kept receiving f _ = absurd (ground (arith, f))
  main_kept running f _ = absurd (ground (arith, f))

  pub left_step : (p : Process) → Kept w (or_stay w (step io p w))
  unfolding step
  left_step main_process = main_kept w.main l c
  left_step reader32_process = reader32_kept w.reader32
  left_step reader64_process = reader64_kept w.reader64
