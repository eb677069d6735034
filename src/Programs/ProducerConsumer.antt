-- ===== src/Programs/ProducerConsumer.antt =====
-- ex3/q1/xv6/pc.c: producers and consumers over four semaphores of ex3/q1/xv6/sem.c, whose own
-- functions run here. A process stands between two of its semaphore calls; each call that gets through
-- is one step, in any order of the processes. The start, where children wait for `waitc` to be unlinked,
-- and the prints are left out: a process begins in its loop, which only lets it run earlier.
pub mod Sound
pub mod Live
pub mod Progress
mod Tests
use operating_systems_soluti.Base.{
  ℕ, zero, suc, ◌+◌, ◌-◌, ◌*◌, ◌/◌, ◌%◌, ◌^◌, ◌≤◌, ◌<◌, ◌≡◌, refl, sym, ap, subst, fun_ext, ◌∙◌,
  ◌≢◌, ◌↔◌, ◌⊎◌, inl, inr, Bool, true, false, not, ◌&&◌, ◌||◌, Option, none, some, List, [], ◌∷◌,
  ◌++◌, map, arith, dec_lt, ℕ_discrete, ltb, leb, ◌==◌, if◌then◌else◌, ltb→lt, lt→ltb, ==_refl,
  Bool-cases, Option-cases, length, get_elem?, take, drop, length-append, take-append-drop,
  length-take, length-drop, count, count-append, update, find_from, find, find_from-some,
  find_from-before, find_from-none, find_from-intro, find_from-eq_none, total, total-update,
  total-weight_le, total-bound, total-const, seek, update_self, update-ne, update_twice-ne, ℤ, pos,
  negsuc, pos_part, neg_part, sub_ℕ, ◌+ℤ◌, ◌-ℤ◌, ◌*ℤ◌, ◌≤ℤ◌, ◌<ℤ◌, ltb_ℤ, eqb_ℤ, +ℤ_parts, -ℤ_parts,
  *ℤ_parts, eq_of_parts, int_laws, int_max, inc, dec,
}
use operating_systems_soluti.Kernel.Sem.{Sem, returns, sem_wait_round, sem_try_wait, sem_post}

-- A producer, with how many messages it has still to put into the buffer.
pub data Producer : Type 0 where
  ready : ℕ → Producer  -- head of the loop, before `sem_wait(buffa)`
  slot : ℕ → Producer  -- before `sem_wait(write)`
  writing : ℕ → Producer  -- in `write_prod_msg`, before `sem_post(write)`
  written : ℕ → Producer  -- before `sem_post(buffb)`

pub data Consumer : Type 0 where
  trying : Consumer  -- head of the loop, before `sem_try_wait(totald)`
  claimed : Consumer  -- before `sem_wait(buffb)`
  taken : Consumer  -- before `sem_wait(write)`
  printing : Consumer  -- in `write_cons_msg`, before `sem_post(write)`
  printed : Consumer  -- before `sem_post(buffa)`
  gone : Consumer  -- after `exit`

pub record World : Type 0 where
  pub buffa : Sem
  pub buffb : Sem
  pub total_left : Sem
  pub write : Sem
  pub prod : ℕ → Producer
  pub cons : ℕ → Consumer

abbrev pub max_msg : ℕ
max_msg = 3

module _ (np nc : ℕ) where
  pub data Step (w : World) : World → Type 0 where
    get_slot :
        {s : Sem} (i k : ℕ)
        → i < np
        → w.prod i ≡ ready (suc k)
        → sem_wait_round false w.buffa ≡ (s, returns (pos 0))
        → Step w (record w { buffa = s; prod = update w.prod i (slot (suc k)) })
    start_writing :
        {s : Sem} (i k : ℕ)
        → i < np
        → w.prod i ≡ slot k
        → sem_wait_round false w.write ≡ (s, returns (pos 0))
        → Step w (record w { write = s; prod = update w.prod i (writing k) })
    stop_writing :
        (i k : ℕ)
        → i < np
        → w.prod i ≡ writing k
        → Step w (record w { write = (sem_post w.write).0; prod = update w.prod i (written k) })
    put_message :
        (i k : ℕ)
        → i < np
        → w.prod i ≡ written (suc k)
        → Step w (record w { buffb = (sem_post w.buffb).0; prod = update w.prod i (ready k) })
    claim :
        (i : ℕ)
        → i < nc
        → w.cons i ≡ trying
        → (sem_try_wait w.total_left).1 ≡ pos 0
        → Step w (record w {
          total_left = (sem_try_wait w.total_left).0;
          cons = update w.cons i claimed;
        })
    leave :
        (i : ℕ)
        → i < nc
        → w.cons i ≡ trying
        → (sem_try_wait w.total_left).1 ≡ negsuc 0
        → Step w
            (record w { total_left = (sem_try_wait w.total_left).0; cons = update w.cons i gone })
    take_message :
        {s : Sem} (i : ℕ)
        → i < nc
        → w.cons i ≡ claimed
        → sem_wait_round false w.buffb ≡ (s, returns (pos 0))
        → Step w (record w { buffb = s; cons = update w.cons i taken })
    start_printing :
        {s : Sem} (i : ℕ)
        → i < nc
        → w.cons i ≡ taken
        → sem_wait_round false w.write ≡ (s, returns (pos 0))
        → Step w (record w { write = s; cons = update w.cons i printing })
    stop_printing :
        (i : ℕ)
        → i < nc
        → w.cons i ≡ printing
        → Step w (record w { write = (sem_post w.write).0; cons = update w.cons i printed })
    free_slot :
        (i : ℕ)
        → i < nc
        → w.cons i ≡ printed
        → Step w (record w { buffa = (sem_post w.buffa).0; cons = update w.cons i trying })

-- A semaphore as `sem_open` creates it, but for its name and owner.
abbrev pub IsNew : ℕ → ℕ → Sem → Type 0
IsNew init max_val s = (s.count ≡ pos init) × (s.max_val ≡ pos max_val)

-- `main`, after the `sem_open`s and the `fork`s: `np` producers of `msgs` messages, `nc` consumers.
-- The product is that of C as long as it is an `int`; the theorem on the end of the run asks for that.
pub record IsInit (np nc msgs : ℕ) (w : World) : Type 0 where
  pub buffa_new : IsNew max_msg max_msg w.buffa
  pub buffb_new : IsNew 0 max_msg w.buffb
  pub total_new : IsNew (np * msgs) (np * msgs) w.total_left
  pub write_new : IsNew 1 1 w.write
  pub prod_new : (i : ℕ) → w.prod i ≡ ready msgs
  pub cons_new : (i : ℕ) → w.cons i ≡ trying

pub data Reach (np nc msgs : ℕ) : World → Type 0 where
  start : {w : World} → IsInit np nc msgs w → Reach np nc msgs w
  later : {w v : World} → Reach np nc msgs w → Step np nc w v → Reach np nc msgs v
