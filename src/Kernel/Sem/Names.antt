-- ===== src/Kernel/Sem/Names.antt =====
-- Which names ex3/q1/xv6/sem.c finds again. `name[6]` is written with up to `SEMNAME` = 10 bytes, so
-- a name of eight characters or more reaches into `owner_pid`, which `sem_open` writes afterwards.
use operating_systems_soluti.Base.{
  ℕ, ◌%◌, ◌<◌, ◌≡◌, sym, ◌≢◌, true, false, arith, ℤ, pos, eq_of_parts,
}
use operating_systems_soluti.Kernel.Strings.{Bytes, strncmp, safestrcpy}
use operating_systems_soluti.Kernel.Strings.Compare.{
  IsText, strncmp-eq_zero, strncmp-ne_zero, safestrcpy-copies,
}
use operating_systems_soluti.Kernel.Sem.{Sem, is_open_as, fill, set_owner_pid, sem_name}

-- A name of at most seven characters is found again in the slot that it was written to.
pub is_open_as-fill :
    (name : Bytes) (k : ℕ) (init max_val : ℤ) (pid : ℕ) (s : Sem)
    → IsText name k
    → k < 8
    → is_open_as name (fill name init max_val pid s) ≡ true
unfolding is_open_as fill
is_open_as-fill name k init max_val pid s text short =
    let same : strncmp (set_owner_pid (safestrcpy s.bytes name sem_name) pid) name sem_name
        ≡ pos 0 =
      strncmp-eq_zero sem_name k (set_owner_pid (safestrcpy s.bytes name sem_name) pid) name
        (λ j b. ground (arith, safestrcpy-copies text sem_name s.bytes j)) text.stop in
    rw same

-- A longer one is not, unless its ninth byte is the low byte of the pid.
pub is_open_as-fill_long :
    (name : Bytes) (init max_val : ℤ) (pid : ℕ) (s : Sem)
    → ((j : ℕ) → j < 8 → name j ≢ 0)
    → name 8 ≢ pid % 256
    → is_open_as name (fill name init max_val pid s) ≡ false
unfolding is_open_as fill
is_open_as-fill_long name init max_val pid s long differ =
    let b = set_owner_pid (safestrcpy s.bytes name sem_name) pid in
    let other : strncmp b name sem_name ≢ pos 0 =
      strncmp-ne_zero sem_name 8 b name long (λ e. differ (sym e)) (omega arith) in
    ground (arith, eq_of_parts (strncmp b name sem_name) (pos 0))
