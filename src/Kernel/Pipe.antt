-- ===== src/Kernel/Pipe.antt =====
-- ex3/q1/xv6/pipe.c: a pipe as a ring of `PIPESIZE` bytes. `nread` and `nwrite` are `uint`, so they
-- wrap at 2^32. A call runs under `p->lock` until it returns or sleeps; a call that is woken goes on
-- with what it has left to do, and `myproc()->killed` is an argument.
pub mod Fifo
pub mod Flow
mod Tests
use operating_systems_soluti.Base.{
  ℕ, zero, suc, ◌+◌, ◌-◌, ◌*◌, ◌/◌, ◌%◌, ◌^◌, ◌≤◌, ◌<◌, ◌≡◌, refl, sym, ap, subst, fun_ext, ◌∙◌,
  ◌≢◌, ◌↔◌, ◌⊎◌, inl, inr, Bool, true, false, not, ◌&&◌, ◌||◌, Option, none, some, List, [], ◌∷◌,
  ◌++◌, map, arith, dec_lt, ℕ_discrete, ltb, leb, ◌==◌, if◌then◌else◌, ltb→lt, lt→ltb, ==_refl,
  Bool-cases, Option-cases, length, get_elem?, take, drop, length-append, take-append-drop,
  length-take, length-drop, update, find_from, find, find_from-some, find_from-before,
  find_from-none, find_from-intro, find_from-eq_none, total, total-update, total-weight_le,
  total-bound, ℤ, pos, negsuc, pos_part, neg_part, sub_ℕ, ◌+ℤ◌, ◌-ℤ◌, ◌*ℤ◌, ◌≤ℤ◌, ◌<ℤ◌, ltb_ℤ,
  eqb_ℤ, +ℤ_parts, -ℤ_parts, eq_of_parts, int_laws, int_max, inc, dec,
}

pub record Pipe : Type 0 where
  pub buffer : ℕ → ℕ
  pub nread : ℕ
  pub nwrite : ℕ
  pub readopen : Bool
  pub writeopen : Bool

abbrev pub pipe_size : ℕ
pipe_size = 512

abbrev pub uint : ℕ → ℕ
uint n = n % 2 ^ 32

-- The pipe as `pipealloc` sets it up.
abbrev pub new_pipe : (ℕ → ℕ) → Pipe
new_pipe data0 = record { buffer = data0; nread = 0; nwrite = 0; readopen = true; writeopen = true }

abbrev pub is_full : Pipe → Bool
is_full p = p.nwrite == uint (p.nread + pipe_size)

abbrev pub is_empty : Pipe → Bool
is_empty p = p.nread == p.nwrite

-- `p->data[p->nwrite++ % PIPESIZE] = b;`
abbrev pub put : ℕ → Pipe → Pipe
put b p = record p {
  buffer = update p.buffer (p.nwrite % pipe_size) b;
  nwrite = uint (p.nwrite + 1);
}

-- How a run of a call ends: with a result (-1 as `failed`), or asleep.
pub data Ending : Type 0 where
  returned failed asleep : Ending

-- `pipewrite`, with the bytes that it has not written yet: the pipe, the ending, the bytes left.
pub pipewrite : Bool → List ℕ → Pipe → Pipe × Ending × List ℕ
pipewrite killed [] p = (p, returned, [])
pipewrite killed (b ∷ bs) p =
    let rest = pipewrite killed bs (put b p) in
    if is_full p
    then (if not p.readopen || killed then (p, failed, b ∷ bs) else (p, asleep, b ∷ bs))
    else rest

-- The copying loop of `piperead`, `n` bytes at most.
pub read_loop : ℕ → Pipe → Pipe × List ℕ
read_loop zero p = (p, [])
read_loop (suc n) p =
    let rest = read_loop n (record p { nread = uint (p.nread + 1) }) in
    if is_empty p then (p, []) else (rest.0, p.buffer (p.nread % pipe_size) ∷ rest.1)

-- `piperead`: the pipe, the ending, the bytes read.
unfoldable pub piperead : Bool → ℕ → Pipe → Pipe × Ending × List ℕ
piperead killed n p =
    if is_empty p && p.writeopen
    then (if killed then (p, failed, []) else (p, asleep, []))
    else (let r = read_loop n p in (r.0, returned, r.1))

-- The flags after `pipeclose`, and whether the page is freed.
unfoldable pub pipeclose : Bool → Pipe → Pipe × Bool
pipeclose writable p =
    let q = if writable then record p { writeopen = false } else record p { readopen = false } in
    (q, not q.readopen && not q.writeopen)
