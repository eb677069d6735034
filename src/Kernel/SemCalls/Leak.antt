-- ===== src/Kernel/SemCalls/Leak.antt =====
-- `sys_sem_open` of ex3/q1/xv6/syssem.c and the reference counts: kept where the caller has a free
-- descriptor, and one too many where it has none.
use operating_systems_soluti.Base.{
  ℕ, ◌+◌, ◌<◌, ◌≡◌, refl, inl, inr, Option, none, some, arith, find_from-some, pos, negsuc,
}
use operating_systems_soluti.Kernel.Sem.{
  Table, sem_open, scan, share, spot, full, Scan, fill, open_first,
}
use operating_systems_soluti.Kernel.Sem.Open.{
  spot_free, sem_open-share, sem_open-spot, sem_open-some, share-is_open_as,
}
use operating_systems_soluti.Kernel.SemCalls.{
  nosem, nproc, Descriptors, Sys, is_unused, free_descriptor, install, OpenArgs, sys_sem_open,
}
use operating_systems_soluti.Kernel.SemCalls.Refs.{
  IsCounted, holders, holders-le, holders-update, share-IsCounted, linked_of_ref,
}

free_descriptor-some :
    (o : Descriptors) (sd : ℕ) → free_descriptor o ≡ some sd → (o sd ≡ none) × (sd < nosem)
unfolding free_descriptor
free_descriptor-some o sd e = ground (arith, find_from-some (λ d. is_unused (o d)) nosem 0 sd e)

module _ {s : Sys} (h : IsCounted s) (p pid : ℕ) (a : OpenArgs) where
  abbrev result : Table × Option ℕ
  result = sem_open a.name a.init a.max_val pid s.table

  module _ (sd : ℕ) (hp : p < nproc) (free : free_descriptor (s.osem p) ≡ some sd) where
    install-share : (i : ℕ) → scan a.name s.table ≡ share i → IsCounted (install s p result).0
    install-share i e =
        let (none_there, hd) = free_descriptor-some (s.osem p) sd free in
        rw (sem_open-share a.name a.init a.max_val pid s.table i e, free)
          (share-IsCounted h p sd hp hd i none_there
            (linked_of_ref h i (share-is_open_as a.name s.table i e)))

    install-spot : (i : ℕ) → scan a.name s.table ≡ spot i → IsCounted (install s p result).0
    unfolding fill
    install-spot i e =
        let (none_there, hd) = free_descriptor-some (s.osem p) sd free in
        let (idle, lt) = spot_free a.name i pid a.init a.max_val s.table e in
        rw (sem_open-spot a.name i pid a.init a.max_val s.table e, free)
          (record {
            counted = λ j. ground (
              arith,
              h.counted j,
              h.unlinked i,
              h.counted i,
              holders-update j p sd s.osem (some i) hp hd,
            );
            unlinked = λ j. ground (arith, h.unlinked j);
          })

    install-full : scan a.name s.table ≡ full → IsCounted (install s p result).0
    unfolding sem_open
    install-full e = rw (e, open_first) h

    -- With a free descriptor, `sem_open` by system call keeps every `ref` equal to the number of
    -- descriptors that hold the slot: it shares a slot, fills a free one, or fails.
    pub sys_sem_open-IsCounted : IsCounted (sys_sem_open p pid (some a) s).0
    unfolding sys_sem_open
    sys_sem_open-IsCounted = go (scan a.name s.table) refl
      where
        go : (r : Scan) → scan a.name s.table ≡ r → IsCounted (install s p result).0
        go (share i) e = install-share i e
        go (spot i) e = install-spot i e
        go full e = install-full e

  -- With all five descriptors in use, the call fails and opens nothing, but the semaphore that it
  -- found or created keeps a reference that no descriptor holds.
  pub sys_sem_open-leak :
      (i : ℕ)
      → free_descriptor (s.osem p) ≡ none
      → result.1 ≡ some i
      → ((sys_sem_open p pid (some a) s).1 ≡ negsuc 0)
        × ((sys_sem_open p pid (some a) s).0.osem ≡ s.osem)
        × (((sys_sem_open p pid (some a) s).0.table i).ref ≡ pos (holders i s.osem + 1))
  unfolding sys_sem_open fill
  sys_sem_open-leak i busy opened =
      elim (sem_open-some a.name a.init a.max_val pid s.table i opened) [
        | inl e ↦
            rw (sem_open-share a.name a.init a.max_val pid s.table i e, busy)
              (refl, refl, ground (arith, h.counted i, holders-le i s.osem))
        | inr e ↦
            let (idle, lt) = spot_free a.name i pid a.init a.max_val s.table e in
            rw (sem_open-spot a.name i pid a.init a.max_val s.table e, busy)
              (refl, refl, ground (arith, h.counted i, h.unlinked i))
      ]
