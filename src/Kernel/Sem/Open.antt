-- ===== src/Kernel/Sem/Open.antt =====
-- `sem_open` of ex3/q1/xv6/sem.c: which slot it returns.
use operating_systems_soluti.Base.{
  ◌<ℤ◌, ℕ, zero, suc, ◌+◌, ◌%◌, ◌≤◌, ◌<◌, ◌≡◌, refl, ap, ◌≢◌, ◌↔◌, ◌⊎◌, inl, inr, true, false,
  Option, none, some, arith, ℤ, pos,
}
use operating_systems_soluti.Kernel.Strings.{Bytes}
use operating_systems_soluti.Kernel.Strings.Compare.{IsText}
use operating_systems_soluti.Kernel.Sem.{
  Table, nsem, is_open_as, share, spot, full, next_spot, scan_from, scan, bump_ref, set_sem, fill,
  open_first, sem_open, is_share,
}
use operating_systems_soluti.Kernel.Sem.Names.{is_open_as-fill, is_open_as-fill_long}

module _ (name : Bytes) (t : Table) where
  scan_from-share :
      (n i : ℕ) (k : Option ℕ) (j : ℕ)
      → scan_from name t n i k ≡ share j
      → (is_open_as name (t j) ≡ true) × (j < i + n)
  unfolding scan_from
  scan_from-share zero i none j h = cc
  scan_from-share zero i (some k) j h = cc
  scan_from-share (suc n) i k j h =
      ground (arith, scan_from-share n (i + 1) (next_spot k (t i).linked i) j)

  pub scan_from-share_intro :
      (n i : ℕ) (k : Option ℕ) (j : ℕ)
      → i ≤ j
      → j < i + n
      → is_open_as name (t j) ≡ true
      → ((l : ℕ) → l < j → is_open_as name (t l) ≡ false)
      → scan_from name t n i k ≡ share j
  unfolding scan_from
  scan_from-share_intro zero i k j lo hi here before = absurd (omega arith)
  scan_from-share_intro (suc n) i k j lo hi here before =
      ground (arith, before i, scan_from-share_intro n (i + 1) (next_spot k (t i).linked i) j)

  -- A free slot, or none, is the outcome only where no slot has the name.
  pub scan_from-closed :
      (n i : ℕ) (k : Option ℕ) (l : ℕ)
      → is_share (scan_from name t n i k) ≡ false
      → i ≤ l
      → l < i + n
      → is_open_as name (t l) ≡ false
  unfolding scan_from
  scan_from-closed zero i k l h lo hi = absurd (omega arith)
  scan_from-closed (suc n) i k l h lo hi =
      ground (arith, scan_from-closed n (i + 1) (next_spot k (t i).linked i) l)

  pub scan_from-spot :
      (n i : ℕ) (k : Option ℕ) (j : ℕ)
      → scan_from name t n i k ≡ spot j
      → (k ≡ some j) ⊎ (((t j).linked ≡ false) × (j < i + n))
  unfolding scan_from
  scan_from-spot zero i none j h = cc
  scan_from-spot zero i (some k) j h = inl (cc)
  scan_from-spot (suc n) i none j h =
      ground (arith, scan_from-spot n (i + 1) (next_spot none (t i).linked i) j)
  scan_from-spot (suc n) i (some k) j h = ground (arith, scan_from-spot n (i + 1) (some k) j)

  scan_from-keeps : (n i k : ℕ) → scan_from name t n i (some k) ≢ full
  unfolding scan_from
  scan_from-keeps zero i k = λ e. cc
  scan_from-keeps (suc n) i k = ground (arith, scan_from-keeps n (i + 1) k)

  pub scan_from-full :
      (n i : ℕ) (l : ℕ) → scan_from name t n i none ≡ full → i ≤ l → l < i + n → (t l).linked ≡ true
  unfolding scan_from
  scan_from-full zero i l h lo hi = absurd (omega arith)
  scan_from-full (suc n) i l h lo hi =
      ground (arith, scan_from-keeps n (i + 1) i, scan_from-full n (i + 1) l)

  scan_from-full_intro :
      (n i : ℕ)
      → ((l : ℕ) → i ≤ l → l < i + n → (is_open_as name (t l) ≡ false) × ((t l).linked ≡ true))
      → scan_from name t n i none ≡ full
  unfolding scan_from
  scan_from-full_intro zero i all = refl
  scan_from-full_intro (suc n) i all =
      ground (
        arith,
        all i,
        scan_from-full_intro n (i + 1) (λ l lo hi. all l (omega arith) (omega arith)),
      )

sem_open-scan :
    (name : Bytes) (init max_val : ℤ) (pid : ℕ) (t : Table)
    → (((sem_open name init max_val pid t).1 ≡ none) ↔ (scan name t ≡ full))
unfolding sem_open
sem_open-scan name init max_val pid t = (λ h. ground arith, λ h. rw (h, open_first))

pub sem_open-some :
    (name : Bytes) (init max_val : ℤ) (pid : ℕ) (t : Table) (i : ℕ)
    → (sem_open name init max_val pid t).1 ≡ some i
    → (scan name t ≡ share i) ⊎ (scan name t ≡ spot i)
unfolding sem_open
sem_open-some name init max_val pid t i h = ground arith

-- `sem_open` fails exactly when no slot is open under the name and every slot is linked.
pub sem_open-none :
    (name : Bytes) (init max_val : ℤ) (pid : ℕ) (t : Table)
    → ((sem_open name init max_val pid t).1 ≡ none)
      ↔ ((l : ℕ) → l < nsem → (is_open_as name (t l) ≡ false) × ((t l).linked ≡ true))
unfolding scan
sem_open-none name init max_val pid t = (
  λ h l lt.
      let e : scan_from name t nsem 0 none ≡ full = (sem_open-scan name init max_val pid t).0 h in
      (
        scan_from-closed name t nsem 0 none l (rw e) (omega arith) (omega arith),
        scan_from-full name t nsem 0 l e (omega arith) (omega arith),
      ),
  λ all.
      (sem_open-scan name init max_val pid t).1
        (scan_from-full_intro name t nsem 0 (λ l lo hi. all l (omega arith))),
)

pub share-is_open_as :
    (name : Bytes) (t : Table) (i : ℕ) → scan name t ≡ share i → pos 0 <ℤ (t i).ref
unfolding scan is_open_as
share-is_open_as name t i h = ground (arith, scan_from-share name t nsem 0 none i h)

-- An open semaphore is shared: the first slot that is open under the name is returned, with one more
-- reference, and nothing else changes.
pub sem_open-share :
    (name : Bytes) (init max_val : ℤ) (pid : ℕ) (t : Table) (i : ℕ)
    → scan name t ≡ share i
    → sem_open name init max_val pid t ≡ (set_sem t i (bump_ref (t i)), some i)
unfolding sem_open
sem_open-share name init max_val pid t i h = rw (h, open_first)

module _ (name : Bytes) (i pid : ℕ) (init max_val : ℤ) (t : Table)
    (free : scan name t ≡ spot i) where
  -- The table after a first `sem_open` of the name.
  abbrev pub opened : Table
  opened = (sem_open name init max_val pid t).0

  pub sem_open-spot :
      sem_open name init max_val pid t ≡ (set_sem t i (fill name init max_val pid (t i)), some i)
  unfolding sem_open
  sem_open-spot = rw (free, open_first)

  opened-at : (l : ℕ) → opened l ≡ set_sem t i (fill name init max_val pid (t i)) l
  opened-at l = ap (λ r. r.0 l) sem_open-spot

  others : (l : ℕ) → l < nsem → is_open_as name (t l) ≡ false
  unfolding scan
  others l lt =
      let closed : is_share (scan_from name t nsem 0 none) ≡ false = rw free in
      scan_from-closed name t nsem 0 none l closed (omega arith) (omega arith)

  pub spot_free : ((t i).linked ≡ false) × (i < nsem)
  unfolding scan
  spot_free = ground (arith, scan_from-spot name t nsem 0 none i)

  scan-opened : (k : ℕ) → IsText name k → k < 8 → scan name opened ≡ share i
  unfolding scan
  scan-opened k text short =
      scan_from-share_intro name opened nsem 0 none i (omega arith) (ground (arith, spot_free))
        (rw (opened-at i)
          (ground (arith, is_open_as-fill name k init max_val pid (t i) text short)))
        (λ l lt. rw (opened-at l) (ground (arith, spot_free, others l)))

  -- A name of at most seven characters identifies its semaphore: after a `sem_open` that took a free
  -- slot, a `sem_open` of the same name by any process returns that slot with one more reference,
  -- whatever values it asks for, and changes nothing else.
  pub sem_open-reopen :
      (k pid' : ℕ) (init' max_val' : ℤ)
      → IsText name k
      → k < 8
      → sem_open name init' max_val' pid' opened ≡ (set_sem opened i (bump_ref (opened i)), some i)
  sem_open-reopen k pid' init' max_val' text short =
      sem_open-share name init' max_val' pid' opened i (scan-opened k text short)

  again_share : scan name opened ≡ share i → is_open_as name (opened i) ≡ true
  unfolding scan
  again_share h = ground (arith, scan_from-share name opened nsem 0 none i)

  again_spot : scan name opened ≡ spot i → (opened i).linked ≡ false
  unfolding scan
  again_spot h = ground (arith, scan_from-spot name opened nsem 0 none i)

  filled-linked : (fill name init max_val pid (t i)).linked ≡ true
  unfolding fill
  filled-linked = refl

  -- A name of eight or more characters does not: unless its ninth byte happens to be the low byte of the creator's pid, a
  -- second `sem_open` of the name does not return the slot that the first one created.
  pub sem_open-duplicates :
      (pid' : ℕ) (init' max_val' : ℤ)
      → ((j : ℕ) → j < 8 → name j ≢ 0)
      → name 8 ≢ pid % 256
      → (sem_open name init' max_val' pid' opened).1 ≢ some i
  sem_open-duplicates pid' init' max_val' long differ h =
      elim (sem_open-some name init' max_val' pid' opened i h) [
        | inl e ↦ ground (
          arith,
          again_share e,
          opened-at i,
          is_open_as-fill_long name init max_val pid (t i) long differ,
        )
        | inr e ↦ ground (arith, again_spot e, opened-at i, filled-linked)
      ]
