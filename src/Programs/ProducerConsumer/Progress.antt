-- ===== src/Programs/ProducerConsumer/Progress.antt =====
-- The processes of ex3/q1/xv6/pc.c never block one another for good.
use operating_systems_soluti.Base.{
  ℕ, zero, suc, ◌+◌, ◌*◌, ◌≤◌, ◌<◌, ◌≡◌, refl, ◌⊎◌, inl, inr, false, arith, ltb, Bool-cases, total,
  total-weight_le, total-const, seek, pos, negsuc, ◌<ℤ◌, int_max, dec,
}
use operating_systems_soluti.Kernel.Sem.{Sem, returns, sem_wait_round, sem_try_wait}
use operating_systems_soluti.Programs.ProducerConsumer.{
  Producer, ready, slot, writing, written, Consumer, trying, claimed, taken, printing, printed,
  gone, World, max_msg, Step, get_slot, start_writing, stop_writing, put_message, claim, leave,
  take_message, start_printing, stop_printing, free_slot, Reach,
}
use operating_systems_soluti.Programs.ProducerConsumer.Sound.{
  IsSound, p_critical, p_place, p_left, HasMessage, c_critical, c_place, c_claimed,
}
use operating_systems_soluti.Programs.ProducerConsumer.Live.{Reach-IsSound}

-- A wait on a positive count gets through, and `sem_try_wait` always returns.
wait_through :
    (s : Sem) → pos 0 <ℤ s.count → (r : Sem) × (sem_wait_round false s ≡ (r, returns (pos 0)))
unfolding sem_wait_round
wait_through s h = (record s { count = dec s.count }, ground arith)

try_wait_through : (s : Sem) → ((sem_try_wait s).1 ≡ pos 0) ⊎ ((sem_try_wait s).1 ≡ negsuc 0)
unfolding sem_try_wait
try_wait_through s = ground arith

-- Weights that single out one place in the code.
abbrev p_slot : Producer → ℕ
p_slot (slot k) = 1
p_slot _ = 0

abbrev p_written : Producer → ℕ
p_written (written k) = 1
p_written _ = 0

abbrev c_trying : Consumer → ℕ
c_trying trying = 1
c_trying _ = 0

abbrev c_taken : Consumer → ℕ
c_taken taken = 1
c_taken _ = 0

abbrev c_printed : Consumer → ℕ
c_printed printed = 1
c_printed _ = 0

at_writing : (p : Producer) → 0 < p_critical p → (k : ℕ) × (p ≡ writing k)
at_writing (writing k) h = (k, refl)
at_writing (ready k) h = absurd (omega arith)
at_writing (slot k) h = absurd (omega arith)
at_writing (written k) h = absurd (omega arith)

at_slot : (p : Producer) → 0 < p_slot p → (k : ℕ) × (p ≡ slot k)
at_slot (slot k) h = (k, refl)
at_slot (ready k) h = absurd (omega arith)
at_slot (writing k) h = absurd (omega arith)
at_slot (written k) h = absurd (omega arith)

at_written : (p : Producer) → 0 < p_written p → HasMessage p → (k : ℕ) × (p ≡ written (suc k))
at_written (written (suc k)) h more = (k, refl)
at_written (written zero) h more = absurd (omega arith)
at_written (ready k) h more = absurd (omega arith)
at_written (slot k) h more = absurd (omega arith)
at_written (writing k) h more = absurd (omega arith)

-- What is left of a producer that stands nowhere else.
at_ready :
    (p : Producer)
    → p_critical p ≡ 0
    → p_slot p ≡ 0
    → p_written p ≡ 0
    → (p ≡ ready (p_left p)) × (p_place p ≡ 0)
at_ready (ready k) a b c = (refl, refl)
at_ready (slot k) a b c = absurd (omega arith)
at_ready (writing k) a b c = absurd (omega arith)
at_ready (written k) a b c = absurd (omega arith)

at_ready_suc : (p : Producer) → p ≡ ready (p_left p) → 0 < p_left p → (k : ℕ) × (p ≡ ready (suc k))
at_ready_suc (ready (suc k)) e h = (k, refl)
at_ready_suc (ready zero) e h = absurd (omega arith)
at_ready_suc (slot k) e h = cc
at_ready_suc (writing k) e h = cc
at_ready_suc (written k) e h = cc

at_gone :
    (c : Consumer)
    → c_critical c ≡ 0
    → c_printed c ≡ 0
    → c_taken c ≡ 0
    → c_trying c ≡ 0
    → (c ≡ claimed) ⊎ (c ≡ gone)
at_gone claimed a b c d = inl refl
at_gone gone a b c d = inr refl
at_gone trying a b c d = absurd (omega arith)
at_gone taken a b c d = absurd (omega arith)
at_gone printing a b c d = absurd (omega arith)
at_gone printed a b c d = absurd (omega arith)

at_taken : (c : Consumer) → 0 < c_taken c → c ≡ taken
at_taken c h = ground arith

at_printed : (c : Consumer) → 0 < c_printed c → c ≡ printed
at_printed c h = ground arith

at_trying : (c : Consumer) → 0 < c_trying c → c ≡ trying
at_trying c h = ground arith

at_printing : (c : Consumer) → 0 < c_critical c → c ≡ printing
at_printing c h = ground arith

-- All producers have put all their messages, all consumers have left, and the buffer is empty.
pub record IsFinished (np nc : ℕ) (w : World) : Type 0 where
  pub produced : (i : ℕ) → i < np → w.prod i ≡ ready 0
  pub consumed : (i : ℕ) → i < nc → w.cons i ≡ gone
  pub empty : (w.buffa.count ≡ pos max_msg) × (w.buffb.count ≡ pos 0)
  pub claimed_all : w.total_left.count ≡ pos 0

module _ {np nc msgs : ℕ} {w : World} (h : IsSound np nc msgs w) (some_consumer : 0 < nc) where
  abbrev Next : Type 0
  Next = ((v : World) × Step np nc w v) ⊎ IsFinished np nc w

  -- Nobody in a critical section: `write` is free.
  write_free :
      ((i : ℕ) → i < np → p_critical (w.prod i) ≡ 0)
      → ((i : ℕ) → i < nc → c_critical (w.cons i) ≡ 0)
      → pos 0 <ℤ w.write.count
  write_free p c = ground (
    arith,
    h.mutex,
    h.write_is,
    total-const p_critical 0 np w.prod p,
    total-const c_critical 0 nc w.cons c,
  )

  -- All producers at the head of the loop, all consumers claimed or gone.
  module _
      (ps : (i : ℕ) → i < np → (w.prod i ≡ ready (p_left (w.prod i))) × (p_place (w.prod i) ≡ 0))
      (cs : (i : ℕ) → i < nc → (w.cons i ≡ claimed) ⊎ (w.cons i ≡ gone)) where
    places_free : h.a + h.b ≡ max_msg
    places_free = ground (
      arith,
      h.places,
      total-const p_place 0 np w.prod (λ i lt. (ps i lt).1),
      total-const c_place 0 nc w.cons (λ i lt. ground (arith, cs i lt)),
    )

    claimed_step : (i : ℕ) → i < nc → w.cons i ≡ claimed → Next
    claimed_step i lt e = elim (Bool-cases (ltb 0 h.b)) [
      | inl full ↦
          let (s, ok) = wait_through w.buffb (ground (arith, h.buffb_is)) in
          inl (_, take_message i lt e ok)
      | inr empty ↦ elim (seek p_left np w.prod) [
        | inl (j, lt', p) ↦
            let (k, at) = at_ready_suc (w.prod j) (ps j lt').0 p in
            let (s, ok) = wait_through w.buffa (ground (arith, h.buffa_is, places_free)) in
            inl (_, get_slot j k lt' at ok)
        | inr none_left ↦ absurd (
            ground (
              arith,
              h.messages,
              total-const p_left 0 np w.prod none_left,
              total-weight_le c_claimed nc w.cons i lt,
            ))
      ]
    ]

    all_gone : ((i : ℕ) → i < nc → c_claimed (w.cons i) ≡ 0) → (i : ℕ) → i < nc → w.cons i ≡ gone
    all_gone none_claimed i lt = ground (arith, cs i lt, none_claimed i lt)

    finished : ((i : ℕ) → i < nc → c_claimed (w.cons i) ≡ 0) → IsFinished np nc w
    finished none_claimed =
        let no_total : h.t ≡ 0 = h.late 0 (all_gone none_claimed 0 some_consumer) in
        let no_claim = total-const c_claimed 0 nc w.cons none_claimed in
        let no_left : total p_left np w.prod + h.b ≡ 0 = ground (arith, h.messages) in
        record {
          produced = λ i lt. ground (arith, (ps i lt).0, total-weight_le p_left np w.prod i lt);
          consumed = all_gone none_claimed;
          empty = ground (arith, places_free, h.buffa_is, h.buffb_is);
          claimed_all = ground (arith, h.total_is);
        }

    quiet_step : Next
    quiet_step = elim (seek c_claimed nc w.cons) [
      | inl (i, lt, p) ↦ claimed_step i lt (ground (arith, cs i lt))
      | inr none_claimed ↦ inr (finished none_claimed)
    ]

  trying_step : (i : ℕ) → i < nc → w.cons i ≡ trying → Next
  trying_step i lt e = elim (try_wait_through w.total_left) [
    | inl got ↦ inl (_, claim i lt e got)
    | inr none_left ↦ inl (_, leave i lt e none_left)
  ]

  -- With both critical sections empty.
  open_step :
      ((i : ℕ) → i < np → p_critical (w.prod i) ≡ 0)
      → ((i : ℕ) → i < nc → c_critical (w.cons i) ≡ 0)
      → Next
  open_step p_out c_out =
      let (s, ok) = wait_through w.write (write_free p_out c_out) in
      elim (seek p_slot np w.prod) [
        | inl (i, lt, p) ↦ let (k, at) = at_slot (w.prod i) p in inl (_, start_writing i k lt at ok)
        | inr no_slot ↦ elim (seek c_taken nc w.cons) [
          | inl (i, lt, p) ↦ inl (_, start_printing i lt (at_taken (w.cons i) p) ok)
          | inr no_taken ↦ elim (seek p_written np w.prod) [
            | inl (i, lt, p) ↦
                let (k, at) = at_written (w.prod i) p (h.busy i) in inl (_, put_message i k lt at)
            | inr no_written ↦ elim (seek c_printed nc w.cons) [
              | inl (i, lt, p) ↦ inl (_, free_slot i lt (at_printed (w.cons i) p))
              | inr no_printed ↦ elim (seek c_trying nc w.cons) [
                | inl (i, lt, p) ↦ trying_step i lt (at_trying (w.cons i) p)
                | inr no_trying ↦
                    quiet_step
                      (λ i lt. at_ready (w.prod i) (p_out i lt) (no_slot i lt) (no_written i lt))
                      (λ i lt.
                        at_gone (w.cons i) (c_out i lt) (no_printed i lt) (no_taken i lt)
                          (no_trying i lt))
              ]
            ]
          ]
        ]
      ]

  next : Next
  next = elim (seek p_critical np w.prod) [
    | inl (i, lt, p) ↦ let (k, at) = at_writing (w.prod i) p in inl (_, stop_writing i k lt at)
    | inr p_out ↦ elim (seek c_critical nc w.cons) [
      | inl (i, lt, p) ↦ inl (_, stop_printing i lt (at_printing (w.cons i) p))
      | inr c_out ↦ open_step p_out c_out
    ]
  ]

-- No deadlock: with at least one consumer, and a number of messages in all that an `int` holds, in every state that
-- the processes can reach, whose steps of a wait are the passes that find a count above 0, either some
-- process can take its next step, or all are finished: every producer has put all its messages, every
-- consumer has left, no message is in the buffer and none is still to be claimed.
pub pc_no_deadlock :
    {np nc msgs : ℕ} {w : World}
    → 0 < nc
    → np * msgs ≤ int_max
    → Reach np nc msgs w
    → ((v : World) × Step np nc w v) ⊎ IsFinished np nc w
pc_no_deadlock some_consumer fits r = next (Reach-IsSound r) some_consumer
