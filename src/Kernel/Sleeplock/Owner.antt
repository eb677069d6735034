-- ===== src/Kernel/Sleeplock/Owner.antt =====
-- One holder at a time for the locks of ex3/q1/xv6/sleeplock.c.
use operating_systems_soluti.Base.{
  ℕ, suc, ◌≡◌, refl, subst, inl, inr, true, some, List, [], ◌∷◌, ◌++◌, arith, if◌then◌else◌,
  Bool-cases, length, length-append,
}
use operating_systems_soluti.Kernel.Sleeplock.{
  Sleeplock, initsleeplock, acquiresleep_round, releasesleep, holdingsleep,
}

-- The lock with the pids of the processes inside, the last to enter first.
pub record World : Type 0 where
  pub lock : Sleeplock
  pub inside : List ℕ

-- A process enters with the lock, and a process inside leaves.
pub data Step : World → World → Type 0 where
  enter :
      (w : World) (pid : ℕ) (l : Sleeplock)
      → acquiresleep_round pid w.lock ≡ some l
      → Step w (record { lock = l; inside = pid ∷ w.inside })
  leave :
      (lock : Sleeplock) (pid : ℕ) (xs ys : List ℕ)
      → Step
          (record { lock = lock; inside = xs ++ (pid ∷ ys) })
          (record { lock = releasesleep lock; inside = xs ++ ys })

pub data Reach : World → Type 0 where
  start : Reach (record { lock = initsleeplock; inside = [] })
  later : {w u : World} → Reach w → Step w u → Reach u

abbrev pub IsOwned : World → Type 0
IsOwned w = length w.inside ≡ (if holdingsleep w.lock then 1 else 0)

Step-IsOwned : {w u : World} → Step w u → IsOwned w → IsOwned u
unfolding acquiresleep_round releasesleep holdingsleep
Step-IsOwned (enter w pid l e) h = elim (Bool-cases w.lock.locked) [
  | inl busy ↦ ground arith
  | inr free ↦
      let same : record { locked = true; pid = pid } ≡ l = ground arith in
      subst (λ (k : Sleeplock). suc (length w.inside) ≡ (if k.locked then 1 else 0)) same
        (ground (arith, h, free))
]
Step-IsOwned (leave lock pid xs ys) h =
    ground (arith, h, length-append xs (pid ∷ ys), length-append xs ys)

-- However processes enter with the lock and leave, at most one is inside, and `holdingsleep` says whether one is.
pub sleeplock_exclusive : {w : World} → Reach w → IsOwned w
unfolding initsleeplock holdingsleep
sleeplock_exclusive start = refl
sleeplock_exclusive (later r s) = Step-IsOwned s (sleeplock_exclusive r)
