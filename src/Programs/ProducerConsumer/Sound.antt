-- ===== src/Programs/ProducerConsumer/Sound.antt =====
-- What every step of the processes of ex3/q1/xv6/pc.c keeps.
use operating_systems_soluti.Base.{
  ℕ, suc, ◌+◌, ◌-◌, ◌<◌, ◌≡◌, false, arith, update, total, total-update, pos, negsuc,
}
use operating_systems_soluti.Kernel.Sem.{Sem, returns, sem_wait_round, sem_try_wait, sem_post}
use operating_systems_soluti.Programs.ProducerConsumer.{
  Producer, ready, slot, writing, written, Consumer, claimed, taken, printing, printed, gone, World,
  max_msg, Step, get_slot, start_writing, trying, stop_writing, put_message, claim, leave,
  take_message, start_printing, stop_printing, free_slot,
}

-- In the critical section; holding one of the places of the buffer; messages still to come.
abbrev pub p_critical : Producer → ℕ
p_critical (writing k) = 1
p_critical _ = 0

abbrev pub p_place : Producer → ℕ
p_place (ready k) = 0
p_place _ = 1

abbrev pub p_left : Producer → ℕ
p_left (ready k) = k
p_left (slot k) = k
p_left (writing k) = k
p_left (written k) = k

-- A producer past the head of the loop has a message to put.
abbrev pub HasMessage : Producer → Type 0
HasMessage (ready k) = Unit
HasMessage (slot k) = 0 < k
HasMessage (writing k) = 0 < k
HasMessage (written k) = 0 < k

abbrev pub c_critical : Consumer → ℕ
c_critical printing = 1
c_critical _ = 0

abbrev pub c_place : Consumer → ℕ
c_place taken = 1
c_place printing = 1
c_place printed = 1
c_place _ = 0

abbrev pub c_claimed : Consumer → ℕ
c_claimed claimed = 1
c_claimed _ = 0

pub record IsSound (np nc msgs : ℕ) (w : World) : Type 0 where
  pub a : ℕ
  pub b : ℕ
  pub t : ℕ
  pub m : ℕ
  pub buffa_is : (w.buffa.count ≡ pos a) × (w.buffa.max_val ≡ pos max_msg)
  pub buffb_is : (w.buffb.count ≡ pos b) × (w.buffb.max_val ≡ pos max_msg)
  pub total_is : w.total_left.count ≡ pos t
  pub write_is : (w.write.count ≡ pos m) × (w.write.max_val ≡ pos 1)
  pub mutex : m + total p_critical np w.prod + total c_critical nc w.cons ≡ 1
  pub places : a + total p_place np w.prod + b + total c_place nc w.cons ≡ max_msg
  pub messages : total p_left np w.prod + b ≡ t + total c_claimed nc w.cons
  pub late : (i : ℕ) → w.cons i ≡ gone → t ≡ 0
  pub busy : (i : ℕ) → HasMessage (w.prod i)

module _ {np nc msgs : ℕ} {w : World} (h : IsSound np nc msgs w) where
  get_slot-IsSound :
      {s : Sem} (i k : ℕ)
      → i < np
      → w.prod i ≡ ready (suc k)
      → sem_wait_round false w.buffa ≡ (s, returns (pos 0))
      → IsSound np nc msgs (record w { buffa = s; prod = update w.prod i (slot (suc k)) })
  unfolding sem_wait_round
  get_slot-IsSound i k lt e ok =
      let crit = total-update p_critical np w.prod i (slot (suc k)) lt in
      let place = total-update p_place np w.prod i (slot (suc k)) lt in
      let left = total-update p_left np w.prod i (slot (suc k)) lt in
      record {
        a = h.a - 1;
        b = h.b;
        t = h.t;
        m = h.m;
        buffa_is = ground (arith, h.buffa_is);
        buffb_is = h.buffb_is;
        total_is = h.total_is;
        write_is = h.write_is;
        mutex = ground (arith, h.mutex);
        places = ground (arith, h.places, h.buffa_is);
        messages = ground (arith, h.messages);
        late = h.late;
        busy = λ j. ground (arith, h.busy j);
      }

  start_writing-IsSound :
      {s : Sem} (i k : ℕ)
      → i < np
      → w.prod i ≡ slot k
      → sem_wait_round false w.write ≡ (s, returns (pos 0))
      → IsSound np nc msgs (record w { write = s; prod = update w.prod i (writing k) })
  unfolding sem_wait_round sem_try_wait sem_post
  start_writing-IsSound i k lt e ok =
      let crit = total-update p_critical np w.prod i (writing k) lt in
      let place = total-update p_place np w.prod i (writing k) lt in
      let left = total-update p_left np w.prod i (writing k) lt in
      record {
        a = h.a;
        b = h.b;
        t = h.t;
        m = h.m - 1;
        buffa_is = h.buffa_is;
        buffb_is = h.buffb_is;
        total_is = h.total_is;
        write_is = ground (arith, h.write_is, h.mutex);
        mutex = ground (arith, h.mutex, h.write_is);
        places = ground (arith, h.places, h.write_is);
        messages = ground (arith, h.messages, h.write_is);
        late = h.late;
        busy = λ j. ground (arith, h.busy j);
      }

  stop_writing-IsSound :
      (i k : ℕ)
      → i < np
      → w.prod i ≡ writing k
      → IsSound np nc msgs
          (record w { write = (sem_post w.write).0; prod = update w.prod i (written k) })
  unfolding sem_wait_round sem_try_wait sem_post
  stop_writing-IsSound i k lt e =
      let crit = total-update p_critical np w.prod i (written k) lt in
      let place = total-update p_place np w.prod i (written k) lt in
      let left = total-update p_left np w.prod i (written k) lt in
      record {
        a = h.a;
        b = h.b;
        t = h.t;
        m = h.m + 1;
        buffa_is = h.buffa_is;
        buffb_is = h.buffb_is;
        total_is = h.total_is;
        write_is = ground (arith, h.write_is, h.mutex);
        mutex = ground (arith, h.mutex, h.write_is);
        places = ground (arith, h.places, h.write_is);
        messages = ground (arith, h.messages, h.write_is);
        late = h.late;
        busy = λ j. ground (arith, h.busy j);
      }

  put_message-IsSound :
      (i k : ℕ)
      → i < np
      → w.prod i ≡ written (suc k)
      → IsSound np nc msgs
          (record w { buffb = (sem_post w.buffb).0; prod = update w.prod i (ready k) })
  unfolding sem_wait_round sem_try_wait sem_post
  put_message-IsSound i k lt e =
      let crit = total-update p_critical np w.prod i (ready k) lt in
      let place = total-update p_place np w.prod i (ready k) lt in
      let left = total-update p_left np w.prod i (ready k) lt in
      record {
        a = h.a;
        b = h.b + 1;
        t = h.t;
        m = h.m;
        buffa_is = h.buffa_is;
        buffb_is = ground (arith, h.buffb_is, h.places);
        total_is = h.total_is;
        write_is = h.write_is;
        mutex = ground (arith, h.mutex, h.buffb_is);
        places = ground (arith, h.places, h.buffb_is);
        messages = ground (arith, h.messages, h.buffb_is);
        late = h.late;
        busy = λ j. ground (arith, h.busy j);
      }

  claim-IsSound :
      (i : ℕ)
      → i < nc
      → w.cons i ≡ trying
      → (sem_try_wait w.total_left).1 ≡ pos 0
      → IsSound np nc msgs
          (record w { total_left = (sem_try_wait w.total_left).0; cons = update w.cons i claimed })
  unfolding sem_wait_round sem_try_wait sem_post
  claim-IsSound i lt e ok =
      let crit = total-update c_critical nc w.cons i claimed lt in
      let place = total-update c_place nc w.cons i claimed lt in
      let left = total-update c_claimed nc w.cons i claimed lt in
      record {
        a = h.a;
        b = h.b;
        t = h.t - 1;
        m = h.m;
        buffa_is = h.buffa_is;
        buffb_is = h.buffb_is;
        total_is = ground (arith, h.total_is);
        write_is = h.write_is;
        mutex = ground (arith, h.mutex, h.total_is);
        places = ground (arith, h.places, h.total_is);
        messages = ground (arith, h.messages, h.total_is);
        late = λ j. ground (arith, h.late j, h.total_is);
        busy = h.busy;
      }

  leave-IsSound :
      (i : ℕ)
      → i < nc
      → w.cons i ≡ trying
      → (sem_try_wait w.total_left).1 ≡ negsuc 0
      → IsSound np nc msgs
          (record w { total_left = (sem_try_wait w.total_left).0; cons = update w.cons i gone })
  unfolding sem_wait_round sem_try_wait sem_post
  leave-IsSound i lt e ok =
      let crit = total-update c_critical nc w.cons i gone lt in
      let place = total-update c_place nc w.cons i gone lt in
      let left = total-update c_claimed nc w.cons i gone lt in
      record {
        a = h.a;
        b = h.b;
        t = h.t;
        m = h.m;
        buffa_is = h.buffa_is;
        buffb_is = h.buffb_is;
        total_is = ground (arith, h.total_is);
        write_is = h.write_is;
        mutex = ground (arith, h.mutex, h.total_is);
        places = ground (arith, h.places, h.total_is);
        messages = ground (arith, h.messages, h.total_is);
        late = λ j. ground (arith, h.late j, h.total_is);
        busy = h.busy;
      }

  take_message-IsSound :
      {s : Sem} (i : ℕ)
      → i < nc
      → w.cons i ≡ claimed
      → sem_wait_round false w.buffb ≡ (s, returns (pos 0))
      → IsSound np nc msgs (record w { buffb = s; cons = update w.cons i taken })
  unfolding sem_wait_round sem_try_wait sem_post
  take_message-IsSound i lt e ok =
      let crit = total-update c_critical nc w.cons i taken lt in
      let place = total-update c_place nc w.cons i taken lt in
      let left = total-update c_claimed nc w.cons i taken lt in
      record {
        a = h.a;
        b = h.b - 1;
        t = h.t;
        m = h.m;
        buffa_is = h.buffa_is;
        buffb_is = ground (arith, h.buffb_is, h.places);
        total_is = h.total_is;
        write_is = h.write_is;
        mutex = ground (arith, h.mutex, h.buffb_is);
        places = ground (arith, h.places, h.buffb_is);
        messages = ground (arith, h.messages, h.buffb_is);
        late = λ j. ground (arith, h.late j, h.buffb_is);
        busy = h.busy;
      }

  start_printing-IsSound :
      {s : Sem} (i : ℕ)
      → i < nc
      → w.cons i ≡ taken
      → sem_wait_round false w.write ≡ (s, returns (pos 0))
      → IsSound np nc msgs (record w { write = s; cons = update w.cons i printing })
  unfolding sem_wait_round sem_try_wait sem_post
  start_printing-IsSound i lt e ok =
      let crit = total-update c_critical nc w.cons i printing lt in
      let place = total-update c_place nc w.cons i printing lt in
      let left = total-update c_claimed nc w.cons i printing lt in
      record {
        a = h.a;
        b = h.b;
        t = h.t;
        m = h.m - 1;
        buffa_is = h.buffa_is;
        buffb_is = h.buffb_is;
        total_is = h.total_is;
        write_is = ground (arith, h.write_is, h.mutex);
        mutex = ground (arith, h.mutex, h.write_is);
        places = ground (arith, h.places, h.write_is);
        messages = ground (arith, h.messages, h.write_is);
        late = λ j. ground (arith, h.late j, h.write_is);
        busy = h.busy;
      }

  stop_printing-IsSound :
      (i : ℕ)
      → i < nc
      → w.cons i ≡ printing
      → IsSound np nc msgs
          (record w { write = (sem_post w.write).0; cons = update w.cons i printed })
  unfolding sem_wait_round sem_try_wait sem_post
  stop_printing-IsSound i lt e =
      let crit = total-update c_critical nc w.cons i printed lt in
      let place = total-update c_place nc w.cons i printed lt in
      let left = total-update c_claimed nc w.cons i printed lt in
      record {
        a = h.a;
        b = h.b;
        t = h.t;
        m = h.m + 1;
        buffa_is = h.buffa_is;
        buffb_is = h.buffb_is;
        total_is = h.total_is;
        write_is = ground (arith, h.write_is, h.mutex);
        mutex = ground (arith, h.mutex, h.write_is);
        places = ground (arith, h.places, h.write_is);
        messages = ground (arith, h.messages, h.write_is);
        late = λ j. ground (arith, h.late j, h.write_is);
        busy = h.busy;
      }

  free_slot-IsSound :
      (i : ℕ)
      → i < nc
      → w.cons i ≡ printed
      → IsSound np nc msgs
          (record w { buffa = (sem_post w.buffa).0; cons = update w.cons i trying })
  unfolding sem_wait_round sem_try_wait sem_post
  free_slot-IsSound i lt e =
      let crit = total-update c_critical nc w.cons i trying lt in
      let place = total-update c_place nc w.cons i trying lt in
      let left = total-update c_claimed nc w.cons i trying lt in
      record {
        a = h.a + 1;
        b = h.b;
        t = h.t;
        m = h.m;
        buffa_is = ground (arith, h.buffa_is, h.mutex, h.places);
        buffb_is = h.buffb_is;
        total_is = h.total_is;
        write_is = h.write_is;
        mutex = ground (arith, h.mutex, h.buffa_is);
        places = ground (arith, h.places, h.buffa_is);
        messages = ground (arith, h.messages, h.buffa_is);
        late = λ j. ground (arith, h.late j, h.buffa_is);
        busy = h.busy;
      }

pub Step-IsSound :
    {np nc msgs : ℕ} {w v : World} → Step np nc w v → IsSound np nc msgs w → IsSound np nc msgs v
Step-IsSound (get_slot i k lt e ok) h = get_slot-IsSound h i k lt e ok
Step-IsSound (start_writing i k lt e ok) h = start_writing-IsSound h i k lt e ok
Step-IsSound (stop_writing i k lt e) h = stop_writing-IsSound h i k lt e
Step-IsSound (put_message i k lt e) h = put_message-IsSound h i k lt e
Step-IsSound (claim i lt e ok) h = claim-IsSound h i lt e ok
Step-IsSound (leave i lt e ok) h = leave-IsSound h i lt e ok
Step-IsSound (take_message i lt e ok) h = take_message-IsSound h i lt e ok
Step-IsSound (start_printing i lt e ok) h = start_printing-IsSound h i lt e ok
Step-IsSound (stop_printing i lt e) h = stop_printing-IsSound h i lt e
Step-IsSound (free_slot i lt e) h = free_slot-IsSound h i lt e
