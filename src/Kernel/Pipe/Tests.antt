-- ===== src/Kernel/Pipe/Tests.antt =====
-- Runs of ex3/q1/xv6/pipe.c, and its theorems at a concrete run.
use operating_systems_soluti.Base.{ℕ, ◌≤◌, ◌≡◌, refl, false, List, [], ◌∷◌, ◌++◌, length}
use operating_systems_soluti.Kernel.Pipe.{
  Pipe, pipe_size, new_pipe, pipewrite, read_loop, piperead, asleep, put,
}
use operating_systems_soluti.Kernel.Pipe.Fifo.{Holds}
use operating_systems_soluti.Kernel.Pipe.Flow.{World, write, read, Reach, start, later, pipe_fifo}

abbrev empty_pipe : Pipe
empty_pipe = new_pipe (λ j. 0)

reads_back : (piperead false 2 (pipewrite false (7 ∷ 8 ∷ 9 ∷ []) empty_pipe).0).2 ≡ 7 ∷ 8 ∷ []
unfolding piperead pipewrite read_loop
reads_back = refl

empty_sleeps : (piperead false 2 empty_pipe).1 ≡ asleep
unfolding piperead
empty_sleeps = refl

-- Two bytes have gone in, and one has come out.
abbrev half_read : World
half_read = record {
  pipe = record (put 8 (put 7 empty_pipe)) { nread = 1 };
  sent = 7 ∷ 8 ∷ [];
  received = 7 ∷ [];
}

half_read-Reach : Reach (λ j. 0) half_read
unfolding pipewrite piperead read_loop
half_read-Reach = later (later start (write false (7 ∷ 8 ∷ []) [] refl)) (read false 1)

pipe_fifo_example :
    (queue : List ℕ) × (half_read.sent ≡ half_read.received ++ queue)
    × Holds half_read.pipe queue
    × (length queue ≤ pipe_size)
pipe_fifo_example = pipe_fifo half_read-Reach
