-- ===== src/Kernel/Pipe/Flow.antt =====
-- Writers and readers of a pipe of ex3/q1/xv6/pipe.c in any order: first in, first out.
use operating_systems_soluti.Base.{
  subst, ℕ, ◌≤◌, ◌≡◌, refl, sym, ap, ◌∙◌, ◌≢◌, inl, inr, Bool, true, false, ◌&&◌, List, [], ◌++◌,
  arith, Bool-cases, length, take, drop, take-append-drop,
}
use mathlib.Core.List.{append_assoc, append_cancel_right}
use operating_systems_soluti.Kernel.Pipe.{
  Pipe, pipe_size, Ending, returned, failed, asleep, pipewrite, piperead, pipeclose, is_empty,
  new_pipe,
}
use operating_systems_soluti.Kernel.Pipe.Fifo.{
  Holds, pipewrite-Written, read_loop-Read, is_empty-Holds,
}

-- The pipe, and all bytes that have gone in and come out so far.
pub record World : Type 0 where
  pub pipe : Pipe
  pub sent : List ℕ
  pub received : List ℕ

-- One run of a call, up to its return or its sleep.
pub data Step (w : World) : World → Type 0 where
  write :
      (killed : Bool) (taken rest : List ℕ)
      → (pipewrite killed (taken ++ rest) w.pipe).2 ≡ rest
      → Step w (record {
        pipe = (pipewrite killed (taken ++ rest) w.pipe).0;
        sent = w.sent ++ taken;
        received = w.received;
      })
  read :
      (killed : Bool) (n : ℕ)
      → Step w (record {
        pipe = (piperead killed n w.pipe).0;
        sent = w.sent;
        received = w.received ++ (piperead killed n w.pipe).2;
      })
  close : (writable : Bool) → Step w (record w { pipe = (pipeclose writable w.pipe).0 })

pub data Reach (data0 : ℕ → ℕ) : World → Type 0 where
  start : Reach data0 (record { pipe = new_pipe data0; sent = []; received = [] })
  later : {w v : World} → Reach data0 w → Step w v → Reach data0 v

-- The bytes in the ring are those sent and not yet received.
pub record IsSound (w : World) : Type 0 where
  pub queue : List ℕ
  pub holds : Holds w.pipe queue
  pub flow : w.sent ≡ w.received ++ queue

-- What a read does to the queue `xs`.
pub record ReadOut (n : ℕ) (xs : List ℕ) (r : Pipe × Ending × List ℕ) : Type 0 where
  pub rest : List ℕ
  pub split : r.2 ++ rest ≡ xs
  pub holds : Holds r.0 rest
  pub all : r.1 ≡ returned → (r.2 ≡ take n xs)
  pub none_read : r.1 ≢ returned → xs ≡ []

-- On a pipe that holds a queue `piperead` takes bytes from its front and leaves the rest; if it returns
-- it has taken the first `n`, or all where there are fewer, and if it sleeps or fails the queue was empty.
pub piperead-ReadOut :
    (killed : Bool) (n : ℕ) {p : Pipe} {xs : List ℕ}
    → Holds p xs
    → ReadOut n xs (piperead killed n p)
unfolding piperead
piperead-ReadOut killed n {p} {xs} h = elim (Bool-cases (is_empty p && p.writeopen)) [
  | inl idle ↦ rw idle (elim (Bool-cases killed) [
    | inl dead ↦ rw dead (nothing failed (λ e. cc) (ground (arith, is_empty-Holds h)))
    | inr alive ↦ rw alive (nothing asleep (λ e. cc) (ground (arith, is_empty-Holds h)))
  ])
  | inr busy ↦
      let r = read_loop-Read n xs h in
      rw busy (record {
        rest = drop n xs;
        split = rw r.front (take-append-drop n xs);
        holds = r.holds;
        all = λ e. r.front;
        none_read = λ ne. absurd (ne refl);
      })
]
  where
    nothing : (e : Ending) → e ≢ returned → xs ≡ [] → ReadOut n xs (p, e, [])
    nothing e ne nil = record {
      rest = xs;
      split = refl;
      holds = h;
      all = λ eq. absurd (ne eq);
      none_read = λ _. nil;
    }

Step-IsSound : {w v : World} → Step w v → IsSound w → IsSound v
unfolding pipeclose
Step-IsSound {w} (write killed taken rest left) h =
    let r = pipewrite-Written killed (taken ++ rest) h.holds in
    let same : r.taken ≡ taken =
      append_cancel_right r.taken taken rest (ap (λ l. r.taken ++ l) (sym left) ∙ r.split) in
    record {
      queue = h.queue ++ taken;
      holds =
          subst (λ l. Holds (pipewrite killed (taken ++ rest) w.pipe).0 (h.queue ++ l)) same
            r.holds;
      flow = ap (λ l. l ++ taken) h.flow ∙ append_assoc w.received h.queue taken;
    }
Step-IsSound {w} (read killed n) h =
    let r = piperead-ReadOut killed n h.holds in
    record {
      queue = r.rest;
      holds = r.holds;
      flow = rw (append_assoc w.received (piperead killed n w.pipe).2 r.rest, r.split) h.flow;
    }
Step-IsSound (close true) h = record {
  queue = h.queue;
  holds = record {
    small = h.holds.small;
    fits = h.holds.fits;
    span = h.holds.span;
    content = h.holds.content;
  };
  flow = h.flow;
}
Step-IsSound (close false) h = record {
  queue = h.queue;
  holds = record {
    small = h.holds.small;
    fits = h.holds.fits;
    span = h.holds.span;
    content = h.holds.content;
  };
  flow = h.flow;
}

Reach-IsSound : {data0 : ℕ → ℕ} {w : World} → Reach data0 w → IsSound w
Reach-IsSound start = record {
  queue = [];
  holds = record { small = omega arith; fits = omega arith; span = refl; content = tt };
  flow = refl;
}
Reach-IsSound (later r st) = Step-IsSound st (Reach-IsSound r)

-- First in, first out: whatever runs of `pipewrite`, `piperead` and `pipeclose` have happened since
-- `pipealloc`, and however often the counters have wrapped, the bytes read are the bytes written, in
-- order and none lost, but for a queue of at most `PIPESIZE` bytes that the pipe still holds.
pub pipe_fifo :
    {data0 : ℕ → ℕ} {w : World}
    → Reach data0 w
    → (queue : List ℕ) × (w.sent ≡ w.received ++ queue)
      × Holds w.pipe queue
      × (length queue ≤ pipe_size)
pipe_fifo r = let h = Reach-IsSound r in (h.queue, h.flow, h.holds, h.holds.fits)
