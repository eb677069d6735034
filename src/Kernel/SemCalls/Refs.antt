-- ===== src/Kernel/SemCalls/Refs.antt =====
-- Reference counts of semaphores: `ref` of a slot is the number of descriptors of all processes that
-- hold it.
use operating_systems_soluti.Base.{
  total-bound, ℕ, zero, suc, ◌+◌, ◌≤◌, ◌<◌, ◌≡◌, refl, ◌≢◌, true, false, Option, none, some, arith,
  ◌==◌, if◌then◌else◌, update, total, total-update, total-weight_le, ℤ, pos, negsuc, ◌<ℤ◌,
}
use operating_systems_soluti.Kernel.Sem.{set_sem, bump_ref, semdup, sem_close}
use operating_systems_soluti.Kernel.SemCalls.{
  nosem, nproc, Descriptors, Sys, set_osem, set_table, argsd, with_sd, drop_descriptor, close_found,
  sys_sem_close, dup_descriptor, fork_sems, exit_descriptor, exit_sems,
}

abbrev pub holds : ℕ → Option ℕ → ℕ
holds i none = 0
holds i (some j) = if i == j then 1 else 0

abbrev pub held : ℕ → Descriptors → ℕ
held i o = total (holds i) nosem o

-- The descriptors of all processes that hold slot `i`.
abbrev pub holders : ℕ → (ℕ → Descriptors) → ℕ
holders i f = total (held i) nproc f

pub record IsCounted (s : Sys) : Type 0 where
  pub counted : (i : ℕ) → (s.table i).ref ≡ pos (holders i s.osem)
  pub unlinked : (i : ℕ) → (s.table i).linked ≡ false → (s.table i).ref ≡ pos 0

held-le : (i : ℕ) (o : Descriptors) → held i o ≤ 5
held-le i o = omega (arith, total-bound (holds i) 1 nosem o (λ d. ground arith))

pub holders-le : (i : ℕ) (f : ℕ → Descriptors) → holders i f ≤ 320
holders-le i f = omega (arith, total-bound (held i) 5 nproc f (λ p. held-le i (f p)))

-- What a write to one descriptor does to the number of holders.
pub holders-update :
    (i p sd : ℕ) (f : ℕ → Descriptors) (v : Option ℕ)
    → p < nproc
    → sd < nosem
    → holders i (update f p (update (f p) sd v)) + holds i (f p sd) ≡ holders i f + holds i v
holders-update i p sd f v hp hd = omega (
  arith,
  total-update (held i) nproc f p (update (f p) sd v) hp,
  total-update (holds i) nosem (f p) sd v hd,
)

module _ {s : Sys} (h : IsCounted s) (p sd : ℕ) (hp : p < nproc) (hd : sd < nosem) where
  -- A descriptor that is filled with a slot whose `ref` has been raised.
  pub share-IsCounted :
      (i : ℕ)
      → s.osem p sd ≡ none
      → (s.table i).linked ≡ true
      → IsCounted (set_osem (set_table s (set_sem s.table i (bump_ref (s.table i)))) p sd (some i))
  share-IsCounted i free linked = record {
    counted = λ j. ground (
      arith,
      h.counted j,
      h.counted i,
      holders-le i s.osem,
      holders-update j p sd s.osem (some i) hp hd,
    );
    unlinked = λ j. ground (arith, h.unlinked j);
  }

  drop-IsCounted : (i : ℕ) → s.osem p sd ≡ some i → IsCounted (drop_descriptor s p sd i).0
  unfolding sem_close
  drop-IsCounted i used = record {
    counted =
        λ j. ground (arith, h.counted j, h.counted i, holders-update j p sd s.osem none hp hd);
    unlinked =
        λ j. ground (arith, h.unlinked j, h.counted i, holders-update j p sd s.osem none hp hd);
  }

  -- A slot that a descriptor holds is linked, and has a reference.
  ref_of_held : (i : ℕ) → s.osem p sd ≡ some i → pos 0 <ℤ (s.table i).ref
  ref_of_held i used = ground (
    arith,
    h.counted i,
    total-weight_le (held i) nproc s.osem p hp,
    total-weight_le (holds i) nosem (s.osem p) sd hd,
  )

pub linked_of_ref :
    {s : Sys} → IsCounted s → (i : ℕ) → pos 0 <ℤ (s.table i).ref → (s.table i).linked ≡ true
linked_of_ref {s} h i r = ground (arith, h.unlinked i)

-- What `argsd` finds is a descriptor in range that holds the slot.
argsd-some :
    (arg : Option ℤ) (o : Descriptors) (sd i : ℕ)
    → argsd arg o ≡ some (sd, i)
    → (sd < nosem) × (o sd ≡ some i)
unfolding argsd
argsd-some none o sd i e = cc
argsd-some (some (negsuc n)) o sd i e = cc
argsd-some (some (pos m)) o sd i e = ground (arith, with_sd-some m (o m))
  where
    with_sd-some : (m : ℕ) (v : Option ℕ) → with_sd m v ≡ some (sd, i) → (m ≡ sd) × (v ≡ some i)
    with_sd-some m none e = cc
    with_sd-some m (some j) e = ground arith

-- `sem_close` by system call keeps every `ref` equal to the number of descriptors, whatever the
-- argument.
pub sys_sem_close-IsCounted :
    {s : Sys} (p : ℕ) (arg : Option ℤ)
    → IsCounted s
    → p < nproc
    → IsCounted (sys_sem_close p arg s).0
unfolding sys_sem_close
sys_sem_close-IsCounted {s} p arg h hp = go (argsd arg (s.osem p)) refl
  where
    go : (r : Option (ℕ × ℕ)) → argsd arg (s.osem p) ≡ r → IsCounted (close_found s p r).0
    go none e = h
    go (some (sd, i)) e =
        let (hd, used) = argsd-some arg (s.osem p) sd i e in drop-IsCounted h p sd hp hd i used

exit_descriptor-IsCounted :
    {s : Sys} (p sd : ℕ)
    → IsCounted s
    → p < nproc
    → sd < nosem
    → IsCounted (exit_descriptor p sd (s.osem p sd) s)
exit_descriptor-IsCounted {s} p sd h hp hd = go (s.osem p sd) refl
  where
    go : (v : Option ℕ) → s.osem p sd ≡ v → IsCounted (exit_descriptor p sd v s)
    go none e = h
    go (some i) e = drop-IsCounted h p sd hp hd i e

-- The loop of `exit` over the descriptors of a process of the table, from any descriptor on, keeps the
-- count of references of every slot equal to the number of descriptors that hold it.
pub exit_sems-IsCounted :
    (n sd p : ℕ) {s : Sys}
    → IsCounted s
    → p < nproc
    → sd + n ≤ nosem
    → IsCounted (exit_sems n sd p s)
unfolding exit_sems
exit_sems-IsCounted zero sd p h hp le = h
exit_sems-IsCounted (suc n) sd p h hp le =
    exit_sems-IsCounted n (sd + 1) p (exit_descriptor-IsCounted p sd h hp (omega arith)) hp
      (omega arith)

-- The state that `fork` may share descriptors in: `np` has none of its own from `sd` on.
pub record IsForking (p np sd : ℕ) (s : Sys) : Type 0 where
  pub apart : p ≢ np
  pub p_in : p < nproc
  pub np_in : np < nproc
  pub none_yet : (d : ℕ) → sd ≤ d → s.osem np d ≡ none

dup_descriptor-IsCounted :
    {s : Sys} (p np sd : ℕ)
    → IsCounted s
    → IsForking p np sd s
    → sd < nosem
    → IsCounted (dup_descriptor np sd (s.osem p sd) s)
      × IsForking p np (sd + 1) (dup_descriptor np sd (s.osem p sd) s)
unfolding semdup
dup_descriptor-IsCounted {s} p np sd h f hd = go (s.osem p sd) refl
  where
    go :
        (v : Option ℕ)
        → s.osem p sd ≡ v
        → IsCounted (dup_descriptor np sd v s) × IsForking p np (sd + 1) (dup_descriptor np sd v s)
    go none e = (
      h,
      record {
        apart = f.apart;
        p_in = f.p_in;
        np_in = f.np_in;
        none_yet = λ d le. f.none_yet d (omega arith);
      },
    )
    go (some i) e = (
      share-IsCounted h np sd f.np_in hd i (f.none_yet sd (omega arith))
          (linked_of_ref h i (ref_of_held h p sd f.p_in hd i e)),
      record {
        apart = f.apart;
        p_in = f.p_in;
        np_in = f.np_in;
        none_yet = λ d le. ground (arith, f.none_yet d);
      },
    )

fork_sems-IsCounted_from :
    (n sd p np : ℕ) {s : Sys}
    → IsCounted s
    → IsForking p np sd s
    → sd + n ≤ nosem
    → IsCounted (fork_sems n sd p np s)
unfolding fork_sems
fork_sems-IsCounted_from zero sd p np h f le = h
fork_sems-IsCounted_from (suc n) sd p np h f le =
    let (h', f') = dup_descriptor-IsCounted p np sd h f (omega arith) in
    fork_sems-IsCounted_from n (sd + 1) p np h' f' (omega arith)

-- The loop of `fork` keeps every `ref` equal to the number of descriptors, for a child without any: the child shares each open semaphore
-- of the parent.
pub fork_sems-IsCounted :
    {s : Sys} (p np : ℕ) → IsCounted s → IsForking p np 0 s → IsCounted (fork_sems nosem 0 p np s)
fork_sems-IsCounted p np h f = fork_sems-IsCounted_from nosem 0 p np h f (omega arith)
