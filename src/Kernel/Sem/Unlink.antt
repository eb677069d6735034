-- ===== src/Kernel/Sem/Unlink.antt =====
-- `sem_unlink` of ex3/q1/xv6/sem.c: its search looks at the names alone, which nobody clears.
use operating_systems_soluti.Base.{
  ℕ, ◌≡◌, ap, fun_ext, ◌∙◌, Bool, false, some, arith, find, pos, eqb_ℤ,
}
use operating_systems_soluti.Kernel.Strings.{Bytes, strncmp}
use operating_systems_soluti.Kernel.Sem.{
  Table, sem_name, nsem, find_name, unlink_mark, unlink_round, Round, returns,
}

-- `sem_unlink` of a name in slot `i`, run without a sleep.
abbrev pub unlinked : Bool → Table → ℕ → Table × Round
unlinked killed t i = unlink_round killed (unlink_mark t i) i

-- The search sees only the bytes of the slots.
find_name-same :
    (name : Bytes) (t u : Table)
    → ((j : ℕ) → (u j).bytes ≡ (t j).bytes)
    → find_name name u ≡ find_name name t
unfolding find_name
find_name-same name t u same =
    ap (λ (test : ℕ → Bool). find test nsem)
      (fun_ext (λ j. ap (λ (b : Bytes). eqb_ℤ (strncmp b name sem_name) (pos 0)) (same j)))

-- A semaphore without references is unlinked at once, killed or not: its slot is free again. But the
-- name is still found there, so that a second `sem_unlink` of the name, which no semaphore has any
-- more, also returns 0 and not -1.
pub unlink_twice :
    (name : Bytes) (killed killed' : Bool) (t : Table) (i : ℕ)
    → find_name name t ≡ some i
    → (t i).ref ≡ pos 0
    → ((unlinked killed t i).1 ≡ returns (pos 0))
      × (((unlinked killed t i).0 i).linked ≡ false)
      × (find_name name (unlinked killed t i).0 ≡ some i)
      × ((unlinked killed' (unlinked killed t i).0 i).1 ≡ returns (pos 0))
unfolding unlink_round unlink_mark
unlink_twice name killed killed' t i found idle =
    let same = find_name-same name t (unlinked killed t i).0 (λ j. ground arith) in
    (ground arith, ground arith, same ∙ found, ground arith)
