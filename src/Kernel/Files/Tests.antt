-- ===== src/Kernel/Files/Tests.antt =====
-- Runs of ex3/q1/xv6/file.c, and its theorems at a concrete table.
use operating_systems_soluti.Base.{
  ℕ, ◌+◌, ◌≡◌, refl, true, some, [], ◌∷◌, arith, leb, if◌then◌else◌, find_from, ℤ, pos, negsuc,
}
use operating_systems_soluti.Kernel.Files.{
  File, FileTable, fd_none, fd_inode, cleanup, filealloc, fileclose, ended, filewrite, fileread,
  write_loop, advance,
}
use operating_systems_soluti.Kernel.Files.Counts.{
  alloc, Reach, start, later, IsCounted, fileclose_last,
}
use operating_systems_soluti.Kernel.Files.Writes.{Complete, filewrite-Complete}

abbrev closed_file : File
closed_file = record { type = fd_none; ref = pos 0; readable = true; writable = true; off = 0 }

abbrev empty_table : FileTable
empty_table i = closed_file

abbrev one_open : FileTable
one_open = (filealloc empty_table).0

one_open_reached : Reach empty_table (record { table = one_open; held = 0 ∷ [] })
unfolding filealloc find_from
one_open_reached = later start (alloc (record { table = empty_table; held = [] }) 0 refl)

fileclose_last_example :
    (t' : FileTable) × (fileclose one_open 0 ≡ some (t', cleanup (one_open 0)))
    × IsCounted (record { table = t'; held = [] })
fileclose_last_example = fileclose_last one_open 0 [] [] (λ k. refl) one_open_reached

abbrev inode_file : File
inode_file = record { type = fd_inode; ref = pos 1; readable = true; writable = true; off = 100 }

-- Up to the largest file
abbrev all_written : ℕ → ℕ → ℤ
all_written off n = if leb (off + n) 71680 then pos n else negsuc 0

-- 7000 bytes need two transactions.
two_calls :
    filewrite 3 (pos 0) all_written 7000 inode_file
    ≡ some (ended (advance inode_file (pos 7000)) (pos 7000) ((100, 6656) ∷ (6756, 344) ∷ []))
unfolding filewrite write_loop
two_calls = refl

read_moves :
    fileread (pos 0) (λ off. pos 12) inode_file ≡ some (advance inode_file (pos 12), pos 12)
unfolding fileread
read_moves = refl

filewrite-Complete_example :
    Complete 7000 7000 inode_file (filewrite 7001 (pos 0) all_written 7000 inode_file)
filewrite-Complete_example =
    filewrite-Complete 7001 (pos 0) all_written 7000 inode_file 71680 (omega arith)
      (λ off k le. ground arith) (omega arith) refl refl (omega arith)
