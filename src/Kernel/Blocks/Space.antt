-- ===== src/Kernel/Blocks/Space.antt =====
-- The room in the log of ex3/q1/xv6/log.c that the functions of fs.c need so that `log_write` does not panic.
use operating_systems_soluti.Base.{
  ℕ, ◌+◌, ◌-◌, ◌≤◌, ◌<◌, ◌≡◌, refl, inl, inr, Bool, true, false, ◌||◌, Option, none, some, List, [],
  ◌∷◌, arith, ◌==◌, if◌then◌else◌, ==_refl, Bool-cases, length,
}
use operating_systems_soluti.Kernel.Log.{absorb, log_size}
use operating_systems_soluti.Kernel.Log.Space.{length-absorb}
use operating_systems_soluti.Kernel.Blocks.{Disk, Inode, log_block, accepts}

-- A log that accepts `n` more blocks, in a transaction, with no panic so far.
pub record LogRoom (n : ℕ) (logged : List ℕ) (outstanding log_blocks : ℕ) (stopped : Bool)
    : Type 0 where
  pub running : stopped ≡ false
  pub in_transaction : 0 < outstanding
  pub fits : length logged + n ≤ log_size
  pub in_log : length logged + n ≤ log_blocks - 1

abbrev pub Writable : ℕ → Disk → Type 0
Writable n d = LogRoom n d.logged d.outstanding d.log_blocks d.stopped

-- What leads from one disk to another logs at most `n` blocks.
abbrev pub Fits : ℕ → Disk → Disk → Type 0
Fits n d d' = (a b : ℕ) → a + n ≤ b → Writable b d → Writable a d'

abbrev pub is_logged : ℕ → List ℕ → Bool
is_logged b [] = false
is_logged b (x ∷ xs) = x == b || is_logged b xs

-- A log that accepts `n` more blocks, besides the block `b`.
abbrev pub Steady : ℕ → ℕ → Disk → Type 0
Steady b n d =
    LogRoom (n + (if is_logged b d.logged then 0 else 1)) d.logged d.outstanding d.log_blocks
      d.stopped

-- A block takes its place in the log once.
length-absorb_once :
    (b : ℕ) (xs : List ℕ) → length (absorb b xs) ≡ length xs + (if is_logged b xs then 0 else 1)
unfolding absorb
length-absorb_once b [] = refl
length-absorb_once b (x ∷ xs) = elim (Bool-cases (x == b)) [
  | inl here ↦ rw here (omega arith)
  | inr there ↦ rw there (omega (arith, length-absorb_once b xs))
]

is_logged-absorb : (b : ℕ) (xs : List ℕ) → is_logged b (absorb b xs) ≡ true
unfolding absorb
is_logged-absorb b [] = rw (==_refl b) refl
is_logged-absorb b (x ∷ xs) = elim (Bool-cases (x == b)) [
  | inl here ↦ rw (here, ==_refl b) refl
  | inr there ↦ let h = is_logged-absorb b xs in rw there (ground (arith, h, there))
]

pub log_block-Fits : (b : ℕ) (d : Disk) → Fits 1 d (log_block b d)
unfolding log_block
log_block-Fits b d a m le w =
    let ok : accepts d ≡ true = ground (arith, le, w.fits, w.in_log, w.in_transaction) in
    rw ok (record {
      running = w.running;
      in_transaction = w.in_transaction;
      fits = omega (arith, le, w.fits, length-absorb b d.logged);
      in_log = omega (arith, le, w.in_log, length-absorb b d.logged);
    })

pub Fits-none : (d : Disk) (n : ℕ) → Fits n d d
Fits-none d n a b le w = record {
  running = w.running;
  in_transaction = w.in_transaction;
  fits = omega (arith, le, w.fits);
  in_log = omega (arith, le, w.in_log);
}

pub Fits-later : (d d1 d2 : Disk) (m n : ℕ) → Fits m d d1 → Fits n d1 d2 → Fits (m + n) d d2
Fits-later d d1 d2 m n f g a b le w = g a (a + n) (omega arith) (f (a + n) b (omega (arith, le)) w)

pub Fits-more : (d d' : Disk) (m n : ℕ) → m ≤ n → Fits m d d' → Fits n d d'
Fits-more d d' m n le f a b lb w = f a b (omega arith) w

pub Writable-Steady : (b n : ℕ) (d : Disk) → Writable (n + 1) d → Steady b n d
Writable-Steady b n d w = record {
  running = w.running;
  in_transaction = w.in_transaction;
  fits = ground (arith, w.fits);
  in_log = ground (arith, w.in_log);
}

pub Steady-Writable : (b n : ℕ) (d : Disk) → Steady b n d → Writable n d
Steady-Writable b n d w = record {
  running = w.running;
  in_transaction = w.in_transaction;
  fits = omega (arith, w.fits);
  in_log = omega (arith, w.in_log);
}

-- The block `b` may be logged again and again.
pub log_block-Steady : (b n : ℕ) (d : Disk) → 0 < n → Steady b n d → Steady b n (log_block b d)
unfolding log_block
log_block-Steady b n d some_room w =
    let ok : accepts d ≡ true = ground (arith, w.fits, w.in_log, w.in_transaction) in
    rw (ok, is_logged-absorb b d.logged)
      (record {
        running = w.running;
        in_transaction = w.in_transaction;
        fits = omega (arith, w.fits, length-absorb_once b d.logged);
        in_log = omega (arith, w.in_log, length-absorb_once b d.logged);
      })

-- The result of a function has been reached by a panic of `log_write`.
abbrev pub stops {ℓ} : {A : Type ℓ} → Option (Disk × Inode × A) → Bool
stops none = false
stops (some r) = r.0.stopped
