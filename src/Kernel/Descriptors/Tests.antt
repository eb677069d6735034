-- ===== src/Kernel/Descriptors/Tests.antt =====
-- Process 2 has one open file, with one descriptor.
use operating_systems_soluti.Base.{
  ℕ, ◌≡◌, true, false, ◌&&◌, none, some, List, [], ◌∷◌, arith, ◌==◌, if◌then◌else◌, total, pos,
}
use operating_systems_soluti.Kernel.Files.{fd_inode, fd_none}
use operating_systems_soluti.Kernel.Descriptors.{Fds}
use operating_systems_soluti.Kernel.Descriptors.Refs.{AreCounted, fd_count}
use operating_systems_soluti.Kernel.Descriptors.Calls.{
  Call, dup_call, close_call, make_calls, make_calls-AreCounted,
}

abbrev one_file : Fds
one_file = record {
  table = λ f. record {
    type = if f == 7 then fd_inode else fd_none;
    ref = if f == 7 then pos 1 else pos 0;
    readable = true;
    writable = false;
    off = 0;
  };
  ofile = λ p fd. if p == 2 && fd == 0 then some 7 else none;
}

one_descriptor : (f : ℕ) → fd_count f one_file.ofile ≡ (if f == 7 then 1 else 0)
unfolding total
one_descriptor f = ground arith

one_file-AreCounted : AreCounted one_file
one_file-AreCounted f = ground (arith, one_descriptor f)

-- The file is duplicated, and both descriptors are closed, the first one twice.
abbrev calls : List Call
calls =
    dup_call 2 (some (pos 0))
    ∷ close_call 2 (some (pos 0))
    ∷ close_call 2 (some (pos 0))
    ∷ close_call 2 (some (pos 1))
    ∷ []

make_calls-AreCounted_example : (s : Fds) × (make_calls calls one_file ≡ some s) × AreCounted s
make_calls-AreCounted_example =
    make_calls-AreCounted calls one_file one_file-AreCounted
      (omega arith, (omega arith, (omega arith, (omega arith, tt))))
