-- ===== src/Kernel/Descriptors/Refs.antt =====
-- Each open file of ex3/q1/xv6 has as many references as descriptors.
use operating_systems_soluti.Base.{
  ℕ, ◌+◌, ◌≤◌, ◌<◌, ◌≡◌, refl, inl, inr, false, Option, none, some, arith, ◌==◌, if◌then◌else◌,
  Bool-cases, update, find_from-some, total, total-update, total-weight_le, total-bound, ℤ, pos,
  negsuc, ltb_ℤ, inc, dec,
}
use operating_systems_soluti.Kernel.Proc.{nproc}
use operating_systems_soluti.Kernel.Files.{filedup, fileclose, Cleanup}
use operating_systems_soluti.Kernel.Descriptors.{
  nofile, Row, Fds, set_ofile, with_file, argfd, no_file, fd_at, free_fd, fdalloc, dup_file,
  dup_found, sys_dup, close_file, close_fd, sys_close,
}
use operating_systems_soluti.Kernel.Files.{set_ref}
use operating_systems_soluti.Kernel.Descriptors.{nothing}
use operating_systems_soluti.Kernel.Files.{fd_none}
use operating_systems_soluti.Kernel.Files.{cleanup}
use operating_systems_soluti.Kernel.Descriptors.{FileTable}

abbrev has_file : ℕ → Option ℕ → ℕ
has_file f none = 0
has_file f (some g) = if f == g then 1 else 0

abbrev row_count : ℕ → Row → ℕ
row_count f o = total (has_file f) nofile o

-- The descriptors of all processes that lead to file `f`.
abbrev pub fd_count : ℕ → (ℕ → Row) → ℕ
fd_count f o = total (row_count f) nproc o

abbrev pub AreCounted : Fds → Type 0
AreCounted s = (f : ℕ) → (s.table f).ref ≡ pos (fd_count f s.ofile)

row_count-le : (f : ℕ) (o : Row) → row_count f o ≤ 16
row_count-le f o = omega (arith, total-bound (has_file f) 1 nofile o (λ d. ground arith))

fd_count-le : (f : ℕ) (o : ℕ → Row) → fd_count f o ≤ 1024
fd_count-le f o = omega (arith, total-bound (row_count f) 16 nproc o (λ p. row_count-le f (o p)))

fd_count-update :
    (f p fd : ℕ) (o : ℕ → Row) (v : Option ℕ)
    → p < nproc
    → fd < nofile
    → fd_count f (update o p (update (o p) fd v)) + has_file f (o p fd)
      ≡ fd_count f o + has_file f v
fd_count-update f p fd o v hp hd = omega (
  arith,
  total-update (row_count f) nproc o p (update (o p) fd v) hp,
  total-update (has_file f) nofile (o p) fd v hd,
)

fd_count-held :
    (f p fd : ℕ) (o : ℕ → Row) → p < nproc → fd < nofile → o p fd ≡ some f → 0 < fd_count f o
fd_count-held f p fd o hp hd e =
    let one : has_file f (o p fd) ≡ 1 = rw e (ground arith) in
    omega (
      arith,
      one,
      total-weight_le (row_count f) nproc o p hp,
      total-weight_le (has_file f) nofile (o p) fd hd,
    )

argfd-some :
    (arg : Option ℤ) (o : Row) (fd f : ℕ)
    → argfd arg o ≡ some (fd, f)
    → (fd < nofile) × (o fd ≡ some f)
unfolding argfd
argfd-some none o fd f e = cc
argfd-some (some (negsuc n)) o fd f e = cc
argfd-some (some (pos n)) o fd f e = ground (arith, with_file-some n (o n))
  where
    with_file-some : (n : ℕ) (v : Option ℕ) → with_file n v ≡ some (fd, f) → (n ≡ fd) × (v ≡ some f)
    with_file-some n none e = cc
    with_file-some n (some g) e = ground arith

free_fd-some : (o : Row) (fd : ℕ) → free_fd o ≡ some fd → (o fd ≡ none) × (fd < nofile)
unfolding free_fd
free_fd-some o fd e = ground (arith, find_from-some (λ k. no_file (o k)) nofile 0 fd e)

filedup-held :
    (t : FileTable) (f : ℕ)
    → ltb_ℤ (t f).ref (pos 1) ≡ false
    → filedup t f ≡ some (set_ref t f (inc (t f).ref))
unfolding filedup
filedup-held t f e = rw e refl

fileclose-held :
    (t : FileTable) (f : ℕ)
    → ltb_ℤ (t f).ref (pos 1) ≡ false
    → fileclose t f ≡ (
        if ltb_ℤ (pos 0) (dec (t f).ref)
        then some (set_ref t f (dec (t f).ref), nothing)
        else some (update t f (record (t f) { ref = pos 0; type = fd_none }), cleanup (t f)))
unfolding fileclose
fileclose-held t f e = rw e refl

module _ (s : Fds) (h : AreCounted s) (p : ℕ) (hp : p < nproc) where
  -- `sys_dup` with any argument by a process of the table does not panic, and keeps the references of every
  -- file equal to the number of descriptors that lead to it.
  pub sys_dup-AreCounted :
      (arg : Option ℤ) → (r : Fds × ℤ) × (sys_dup p arg s ≡ some r) × AreCounted r.0
  unfolding sys_dup fdalloc
  sys_dup-AreCounted arg = go (argfd arg (s.ofile p)) refl
    where
      take :
          (fd f : ℕ)
          → s.ofile p fd ≡ some f
          → fd < nofile
          → (v : Option ℕ) → free_fd (s.ofile p) ≡ v
          → (r : Fds × ℤ) × (dup_file f (fd_at p f s v) ≡ some r) × AreCounted r.0
      take fd f e lt none q = ((s, negsuc 0), refl, h)
      take fd f e lt (some new) q =
          let (empty, low) = free_fd-some (s.ofile p) new q in
          let held = fd_count-held f p fd s.ofile hp lt e in
          let positive : ltb_ℤ (s.table f).ref (pos 1) ≡ false = ground (arith, h f, held) in
          (
            (
              record (set_ofile s p new (some f)) {
                table = set_ref s.table f (inc (s.table f).ref);
              },
              pos new,
            ),
            rw (dup_file, filedup-held s.table f positive) refl,
            λ g. ground (
              arith,
              h g,
              h f,
              fd_count-le f s.ofile,
              fd_count-update g p new s.ofile (some f) hp low,
              empty,
            ),
          )

      go :
          (v : Option (ℕ × ℕ))
          → argfd arg (s.ofile p) ≡ v
          → (r : Fds × ℤ) × (dup_found p s v ≡ some r) × AreCounted r.0
      go none e = ((s, negsuc 0), refl, h)
      go (some (fd, f)) e =
          let (lt, held) = argfd-some arg (s.ofile p) fd f e in
          take fd f held lt (free_fd (s.ofile p)) refl

  -- `sys_close` with any argument by a process of the table does not panic, and keeps the references of every
  -- file equal to the number of descriptors that lead to it.
  pub sys_close-AreCounted :
      (arg : Option ℤ) → (r : Fds × Cleanup × ℤ) × (sys_close p arg s ≡ some r) × AreCounted r.0
  unfolding sys_close
  sys_close-AreCounted arg = go (argfd arg (s.ofile p)) refl
    where
      give :
          (fd f : ℕ)
          → s.ofile p fd ≡ some f
          → fd < nofile
          → (r : Fds × Cleanup × ℤ) × (close_fd p s (some (fd, f)) ≡ some r) × AreCounted r.0
      give fd f e lt =
          let held = fd_count-held f p fd s.ofile hp lt e in
          let positive : ltb_ℤ (s.table f).ref (pos 1) ≡ false = ground (arith, h f, held) in
          elim (Bool-cases (ltb_ℤ (pos 0) (dec (s.table f).ref))) [
            | inl more ↦ (
              (
                record (set_ofile s p fd none) { table = set_ref s.table f (dec (s.table f).ref) },
                nothing,
                pos 0,
              ),
              rw (close_fd, close_file, rw more at (fileclose-held s.table f positive)) refl,
              λ g. ground (arith, h g, h f, held, fd_count-update g p fd s.ofile none hp lt, e),
            )
            | inr last ↦ (
              (
                record (set_ofile s p fd none) {
                  table = update s.table f (record (s.table f) { ref = pos 0; type = fd_none });
                },
                cleanup (s.table f),
                pos 0,
              ),
              rw (close_fd, close_file, rw last at (fileclose-held s.table f positive)) refl,
              λ g.
                  ground
                    (arith, h g, h f, held, last, fd_count-update g p fd s.ofile none hp lt, e),
            )
          ]

      go :
          (v : Option (ℕ × ℕ))
          → argfd arg (s.ofile p) ≡ v
          → (r : Fds × Cleanup × ℤ) × (close_fd p s v ≡ some r) × AreCounted r.0
      go none e = ((s, nothing, negsuc 0), refl, h)
      go (some (fd, f)) e = let (lt, held) = argfd-some arg (s.ofile p) fd f e in give fd f held lt
