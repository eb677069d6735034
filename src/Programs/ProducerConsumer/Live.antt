-- ===== src/Programs/ProducerConsumer/Live.antt =====
-- What the processes of ex3/q1/xv6/pc.c achieve together: mutual exclusion, no refused post, and no
-- deadlock.
use operating_systems_soluti.Base.{
  ℕ, ◌+◌, ◌*◌, ◌≤◌, ◌<◌, ◌≡◌, refl, sym, ap, subst, ◌∙◌, arith, total, total-weight_le, total-const,
  pos,
}
use operating_systems_soluti.Kernel.Sem.{sem_post}
use operating_systems_soluti.Programs.ProducerConsumer.{
  Producer, ready, writing, written, Consumer, trying, printing, printed, World, max_msg, IsInit,
  Reach, start, later,
}
use operating_systems_soluti.Programs.ProducerConsumer.Sound.{
  IsSound, Step-IsSound, p_critical, p_place, p_left, HasMessage, c_critical, c_place, c_claimed,
}

init-IsSound : {np nc msgs : ℕ} {w : World} → IsInit np nc msgs w → IsSound np nc msgs w
init-IsSound {np} {nc} {msgs} {w} h = record {
  a = max_msg;
  b = 0;
  t = np * msgs;
  m = 1;
  buffa_is = h.buffa_new;
  buffb_is = h.buffb_new;
  total_is = h.total_new.0;
  write_is = h.write_new;
  mutex = omega (arith, none_p p_critical refl, none_c c_critical refl);
  places = omega (arith, none_p p_place refl, none_c c_place refl);
  messages = omega (
    arith,
    total-const p_left msgs np w.prod (λ i lt. ap p_left (h.prod_new i)),
    none_c c_claimed refl,
  );
  late = λ i e. ground (arith, h.cons_new i);
  busy = λ i. subst HasMessage (sym (h.prod_new i)) tt;
}
  where
    none_p : (v : Producer → ℕ) → v (ready msgs) ≡ 0 → total v np w.prod ≡ 0
    none_p v e = omega (arith, total-const v 0 np w.prod (λ i lt. ap v (h.prod_new i) ∙ e))

    none_c : (v : Consumer → ℕ) → v trying ≡ 0 → total v nc w.cons ≡ 0
    none_c v e = omega (arith, total-const v 0 nc w.cons (λ i lt. ap v (h.cons_new i) ∙ e))

pub Reach-IsSound : {np nc msgs : ℕ} {w : World} → Reach np nc msgs w → IsSound np nc msgs w
Reach-IsSound (start i) = init-IsSound i
Reach-IsSound (later r st) = Step-IsSound st (Reach-IsSound r)

-- At most one process at a time, producer or consumer, is in the section that `write` guards, and the
-- buffer never holds more than `MAX_MSG` messages: the two semaphores count at most `MAX_MSG` between
-- them.
pub pc_exclusive :
    {np nc msgs : ℕ} {w : World}
    → Reach np nc msgs w
    → (total p_critical np w.prod + total c_critical nc w.cons ≤ 1)
      × ((a b : ℕ) → w.buffa.count ≡ pos a → w.buffb.count ≡ pos b → a + b ≤ max_msg)
pc_exclusive r =
    let h = Reach-IsSound r in
    (omega (arith, h.mutex), λ a b ea eb. ground (arith, h.places, h.buffa_is, h.buffb_is))

-- No `sem_post` of the program is refused: at each of its four calls the count is below the maximum,
-- so that the call returns 0.
pub pc_posts :
    {np nc msgs : ℕ} {w : World}
    → Reach np nc msgs w
    → ((i k : ℕ) → i < np → w.prod i ≡ writing k → (sem_post w.write).1 ≡ pos 0)
      × ((i k : ℕ) → i < np → w.prod i ≡ written k → (sem_post w.buffb).1 ≡ pos 0)
      × ((i : ℕ) → i < nc → w.cons i ≡ printing → (sem_post w.write).1 ≡ pos 0)
      × ((i : ℕ) → i < nc → w.cons i ≡ printed → (sem_post w.buffa).1 ≡ pos 0)
unfolding sem_post
pc_posts {np} {nc} {w} r =
    let h = Reach-IsSound r in
    (
      λ i k lt e. ground (arith, h.mutex, h.write_is, total-weight_le p_critical np w.prod i lt),
      λ i k lt e. ground (arith, h.places, h.buffb_is, total-weight_le p_place np w.prod i lt),
      λ i lt e. ground (arith, h.mutex, h.write_is, total-weight_le c_critical nc w.cons i lt),
      λ i lt e. ground (arith, h.places, h.buffa_is, total-weight_le c_place nc w.cons i lt),
    )
