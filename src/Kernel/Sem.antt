-- ===== src/Kernel/Sem.antt =====
-- ex3/q1/xv6/sem.c: the kernel's counting semaphores. The table is a function from the slot to its
-- `struct sem`. The struct is kept as laid out by the i386 ABI, since `name[6]` is written with the
-- length `SEMNAME` (10): offsets 0-5 are `name`, 6-7 padding and 8-11 `owner_pid`, little-endian.
-- `char` flags are Booleans. What happens under one spinlock is one atomic step. `wakeup` acts on the
-- processes asleep, a function from the process to the channel that it sleeps on.
pub mod Names
pub mod Open
pub mod Wakeups
pub mod Race
pub mod Unlink
mod Tests
use operating_systems_soluti.Base.{
  ℕ, zero, suc, ◌+◌, ◌-◌, ◌*◌, ◌/◌, ◌%◌, ◌^◌, ◌≤◌, ◌<◌, ◌≡◌, refl, sym, ap, subst, fun_ext, ◌∙◌,
  ◌≢◌, ◌↔◌, ◌⊎◌, inl, inr, Bool, true, false, not, ◌&&◌, ◌||◌, Option, none, some, List, [], ◌∷◌,
  ◌++◌, map, arith, dec_lt, ℕ_discrete, ltb, leb, ◌==◌, if◌then◌else◌, ltb→lt, lt→ltb, ==_refl,
  Bool-cases, Option-cases, length, get_elem?, take, drop, length-append, take-append-drop,
  length-take, length-drop, count, count-append, update, find_from, find, find_from-some,
  find_from-before, find_from-none, find_from-intro, find_from-eq_none, total, total-update,
  total-weight_le, total-bound, total-const, seek, update_self, update-ne, update_twice-ne, ℤ, pos,
  negsuc, pos_part, neg_part, sub_ℕ, ◌+ℤ◌, ◌-ℤ◌, ◌*ℤ◌, ◌≤ℤ◌, ◌<ℤ◌, ltb_ℤ, eqb_ℤ, +ℤ_parts, -ℤ_parts,
  *ℤ_parts, eq_of_parts, int_laws, int_max, inc, dec,
}
use operating_systems_soluti.Kernel.Strings.{Bytes, strncmp, safestrcpy}

pub record Sem : Type 0 where
  pub bytes : Bytes  -- name[6], padding, owner_pid
  pub count : ℤ
  pub ref : ℤ
  pub max_val : ℤ
  pub linked : Bool
  pub waiting_for_death : Bool

abbrev pub nsem : ℕ
nsem = 7

abbrev pub sem_name : ℕ
sem_name = 10

abbrev pub Table : Type 0
Table = ℕ → Sem

-- The four bytes at offset 8, read as `owner_pid`.
abbrev pub owner_pid : Sem → ℕ
owner_pid s = s.bytes 8 + 256 * s.bytes 9 + 65536 * s.bytes 10 + 16777216 * s.bytes 11

abbrev pub set_owner_pid : Bytes → ℕ → Bytes
set_owner_pid b pid =
    update (update (update (update b 8 (pid % 256)) 9 (pid / 256 % 256)) 10 (pid / 65536 % 256)) 11
      (pid / 16777216 % 256)

abbrev pub set_sem : Table → ℕ → Sem → Table
set_sem t i s = update t i s

-- `s->ref > 0 && strncmp(s->name, name, SEMNAME) == 0`
unfoldable pub is_open_as : Bytes → Sem → Bool
is_open_as name s = ltb_ℤ (pos 0) s.ref && eqb_ℤ (strncmp s.bytes name sem_name) (pos 0)

-- What the loop of `sem_open` ends with: a slot to share, a free slot, or neither.
pub data Scan : Type 0 where
  share : ℕ → Scan
  spot : ℕ → Scan
  full : Scan

abbrev pub is_share : Scan → Bool
is_share (share i) = true
is_share _ = false

abbrev pub keep_spot : Option ℕ → Scan
keep_spot none = full
keep_spot (some i) = spot i

abbrev pub next_spot : Option ℕ → Bool → ℕ → Option ℕ
next_spot (some k) linked i = some k
next_spot none linked i = if linked then none else some i

-- The loop: `n` slots left, at slot `i`, with what `spot` holds so far.
unfoldable pub scan_from : Bytes → Table → ℕ → ℕ → Option ℕ → Scan
scan_from name t zero i k = keep_spot k
scan_from name t (suc n) i k =
    let rest = scan_from name t n (i + 1) (next_spot k (t i).linked i) in
    if is_open_as name (t i) then share i else rest

unfoldable pub scan : Bytes → Table → Scan
scan name t = scan_from name t nsem 0 none

abbrev pub bump_ref : Sem → Sem
bump_ref s = record s { ref = inc s.ref }

-- What `sem_open` writes into a free slot, the second time it holds `gslock`.
unfoldable pub fill : Bytes → ℤ → ℤ → ℕ → Sem → Sem
fill name init max_val pid s = record {
  bytes = set_owner_pid (safestrcpy s.bytes name sem_name) pid;
  count = init;
  ref = pos 1;
  max_val = max_val;
  linked = true;
  waiting_for_death = false;
}

-- The first critical section of `sem_open`: the scan, with the reference that it takes.
unfoldable pub open_first : Bytes → Table → Table × Scan
open_first name t = elim (scan name t) [
  | share i ↦ (set_sem t i (bump_ref (t i)), share i)
  | spot i ↦ (t, spot i)
  | full ↦ (t, full)
]

-- The second one, and the result.
unfoldable pub open_second : Bytes → ℤ → ℤ → ℕ → Table × Scan → Table × Option ℕ
open_second name init max_val pid (t, share i) = (t, some i)
open_second name init max_val pid (t, spot i) =
    (set_sem t i (fill name init max_val pid (t i)), some i)
open_second name init max_val pid (t, full) = (t, none)

-- `sem_open` with nothing between its two critical sections.
unfoldable pub sem_open : Bytes → ℤ → ℤ → ℕ → Table → Table × Option ℕ
unfolding open_first open_second
sem_open name init max_val pid t = open_second name init max_val pid (open_first name t)

unfoldable pub semdup : Table → ℕ → Table
semdup t i = set_sem t i (bump_ref (t i))

-- The new table, and whether `wakeup(&stable.gslock)` is called.
unfoldable pub sem_close : Table → ℕ → Table × Bool
sem_close t i =
    let s = record (t i) { ref = dec (t i).ref } in
    (set_sem t i s, eqb_ℤ s.ref (pos 0) && s.waiting_for_death)

-- One pass of the loop of `sem_wait`, under `sslock`: it returns, or it goes to sleep on the slot.
pub data Round : Type 0 where
  returns : ℤ → Round
  sleeps : Round

unfoldable pub sem_wait_round : Bool → Sem → Sem × Round
sem_wait_round killed s =
    if ltb_ℤ (pos 0) s.count
    then (record s { count = dec s.count }, returns (pos 0))
    else if killed
    then (s, returns (negsuc 0))
    else (s, sleeps)

unfoldable pub sem_try_wait : Sem → Sem × ℤ
sem_try_wait s =
    if ltb_ℤ (pos 0) s.count then (record s { count = dec s.count }, pos 0) else (s, negsuc 0)

-- With whether `wakeup(s)` is called.
unfoldable pub sem_post : Sem → Sem × ℤ × Bool
sem_post s =
    if eqb_ℤ s.count s.max_val
    then (s, negsuc 1, false)
    else (record s { count = inc s.count }, pos 0, eqb_ℤ (inc s.count) (pos 1))

-- `if (newVal >= 0) { … }`
abbrev pub reset_count : ℤ → Sem → Sem × Bool
reset_count new_val s =
    if ltb_ℤ new_val (pos 0)
    then (s, false)
    else (record s { count = new_val }, ltb_ℤ (pos 0) new_val && eqb_ℤ s.count (pos 0))

abbrev pub reset_max : ℤ → Sem → Sem
reset_max new_max s = if ltb_ℤ s.max_val new_max then record s { max_val = new_max } else s

-- A call with nothing between its check and its two critical sections, `reset_count` and `reset_max`.
unfoldable pub sem_reset : ℕ → ℤ → ℤ → Sem → Sem × ℤ × Bool
sem_reset pid new_val new_max s =
    if not (pid == owner_pid s)
      || (not (ltb_ℤ new_max (pos 0)) && ltb_ℤ new_max s.max_val)
      || (ltb_ℤ new_max (pos 0) && ltb_ℤ new_val (pos 0))
    then (s, negsuc 0, false)
    else (reset_max new_max (reset_count new_val s).0, pos 0, (reset_count new_val s).1)

-- The search of `sem_unlink`, and the flag that it sets.
unfoldable pub find_name : Bytes → Table → Option ℕ
find_name name t = find (λ i. eqb_ℤ (strncmp (t i).bytes name sem_name) (pos 0)) nsem

unfoldable pub unlink_mark : Table → ℕ → Table
unlink_mark t i = set_sem t i (record (t i) { waiting_for_death = true })

-- One pass of the loop of `sem_unlink`, under `gslock`.
unfoldable pub unlink_round : Bool → Table → ℕ → Table × Round
unlink_round killed t i =
    if eqb_ℤ (t i).ref (pos 0)
    then (set_sem t i (record (t i) { linked = false }), returns (pos 0))
    else if killed
    then (t, returns (negsuc 0))
    else (t, sleeps)
