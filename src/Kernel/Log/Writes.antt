-- ===== src/Kernel/Log/Writes.antt =====
-- What each function of ex3/q1/xv6/log.c that writes to the disk does to it, when the machine may stop
-- after any write.
use operating_systems_soluti.Base.{
  ℕ, zero, suc, ◌+◌, ◌-◌, ◌≤◌, ◌<◌, ◌≡◌, refl, ap, ◌∙◌, ◌⊎◌, Bool, false, ◌&&◌, ◌||◌, List, [], ◌∷◌,
  arith, ltb, ◌==◌, if◌then◌else◌, length, take,
}
use operating_systems_soluti.Kernel.Log.{
  Machine, bwrite, write_head, write_log, install_trans, write_block, write_header,
}

abbrev pub mem : ℕ → List ℕ → Bool
mem a [] = false
mem a (b ∷ bs) = (b == a) || mem a bs

-- Every block of the list lies outside the header and the first `n` log blocks.
abbrev pub IsHome : ℕ → ℕ → ℕ → Type 0
IsHome start n b = (b < start) ⊎ (start + n < b)

abbrev pub AllHome : ℕ → ℕ → List ℕ → Type 0
AllHome start n [] = Unit
AllHome start n (b ∷ bs) = IsHome start n b × AllHome start n bs

pub mem-take-nil : (a k : ℕ) → mem a (take k []) ≡ false
mem-take-nil a zero = refl
mem-take-nil a (suc k) = refl

pub mem-take-cons :
    (k a b : ℕ) (bs : List ℕ)
    → mem a (take k (b ∷ bs)) ≡ (ltb 0 k && ((b == a) || mem a (take (k - 1) bs)))
mem-take-cons zero a b bs = ground arith
mem-take-cons (suc k) a b bs = let e : suc k - 1 ≡ k = omega arith in rw e (ground arith)

-- What one `bwrite` does.
pub record Bwrite {A : Type 0} (b : ℕ) (v : A) (m r : Machine A) : Type 0 where
  pub header : r.header ≡ m.header
  pub left : r.left ≡ m.left - 1
  pub block : (a : ℕ) → r.block a ≡ (if ltb 0 m.left && b == a then v else m.block a)

pub bwrite_lem : {A : Type 0} (b : ℕ) (v : A) (m : Machine A) → Bwrite b v m (bwrite b v m)
unfolding bwrite
bwrite_lem {A} b v m = record {
  header = go_header m.left;
  left = go_left m.left refl;
  block = λ a. go m.left a;
}
  where
    go_header : (k : ℕ) → (write_block k b v m).header ≡ m.header
    go_header zero = refl
    go_header (suc k) = refl

    go_left : (k : ℕ) → m.left ≡ k → (write_block k b v m).left ≡ m.left - 1
    go_left zero e = omega arith
    go_left (suc k) e = omega arith

    go : (k a : ℕ) → (write_block k b v m).block a ≡ (if ltb 0 k && b == a then v else m.block a)
    go zero a = ground arith
    go (suc k) a = ground arith

module _ {A : Type 0} (start : ℕ) (cache : ℕ → A) where
  -- The log blocks from `tail` on hold what the cache holds for the blocks of the list.
  abbrev pub Logged : ℕ → List ℕ → (ℕ → A) → Type 0
  Logged tail [] f = Unit
  Logged tail (b ∷ bs) f = (f (start + tail + 1) ≡ cache b) × Logged (tail + 1) bs f

  pub Logged-frame :
      (tail : ℕ) (bs : List ℕ) (f g : ℕ → A)
      → ((a : ℕ) → start + tail < a → a ≤ start + tail + length bs → g a ≡ f a)
      → Logged tail bs f
      → Logged tail bs g
  Logged-frame tail [] f g same h = tt
  Logged-frame tail (b ∷ bs) f g same h = (
    same (start + tail + 1) (omega arith) (omega arith) ∙ h.0,
    Logged-frame (tail + 1) bs f g (λ a lo hi. same a (omega arith) (omega arith)) h.1,
  )

  pub record WriteLog (tail : ℕ) (bs : List ℕ) (m r : Machine A) : Type 0 where
    pub header : r.header ≡ m.header
    pub left : r.left ≡ m.left - length bs
    pub kept : (a : ℕ) → (a ≤ start + tail) ⊎ (start + tail + length bs < a) → r.block a ≡ m.block a
    pub logged : length bs ≤ m.left → Logged tail bs r.block

  pub write_log-WriteLog :
      (tail : ℕ) (bs : List ℕ) (m : Machine A)
      → WriteLog tail bs m (write_log start cache tail bs m)
  unfolding write_log
  write_log-WriteLog tail [] m = record {
    header = refl;
    left = omega arith;
    kept = λ a h. refl;
    logged = λ h. tt;
  }
  write_log-WriteLog tail (b ∷ bs) m =
      let at = start + tail + 1 in
      let m' = bwrite at (cache b) m in
      let w = write_log-WriteLog (tail + 1) bs m' in
      let here = bwrite_lem at (cache b) m in
      record {
        header = w.header ∙ here.header;
        left = omega (arith, w.left, here.left);
        kept = λ a h. w.kept a (omega arith) ∙ ground (arith, here.block a);
        logged = λ h. (
          w.kept at (omega arith) ∙ ground (arith, here.block at),
          w.logged (omega (arith, here.left)),
        );
      }

  pub record Install (tail : ℕ) (bs : List ℕ) (m r : Machine A) : Type 0 where
    pub header : r.header ≡ m.header
    pub left : r.left ≡ m.left - length bs
    pub block : (a : ℕ) → r.block a ≡ (if mem a (take m.left bs) then cache a else m.block a)

  pub install_trans-Install :
      (n tail : ℕ) (bs : List ℕ) (m : Machine A)
      → AllHome start n bs
      → tail + length bs ≤ n
      → Logged tail bs m.block
      → Install tail bs m (install_trans start tail bs m)
  unfolding install_trans
  install_trans-Install n tail [] m home fits log = record {
    header = refl;
    left = omega arith;
    block = λ a. rw (mem-take-nil a m.left);
  }
  install_trans-Install n tail (b ∷ bs) m home fits log =
      let v = m.block (start + tail + 1) in
      let m' = bwrite b v m in
      let here = bwrite_lem b v m in
      let w = install_trans-Install n (tail + 1) bs m' home.1 (omega arith) (
        Logged-frame (tail + 1) bs m.block m'.block
          (λ a lo hi. ground (arith, here.block a, home.0)) log.1) in
      record {
        header = w.header ∙ here.header;
        left = omega (arith, w.left, here.left);
        block = λ a.
            w.block a
            ∙ rw (here.left, mem-take-cons m.left a b bs) (ground (arith, here.block a, log.0));
      }

  -- All of a list is within its first `k` entries.
  pub take-all : (k : ℕ) (bs : List ℕ) → length bs ≤ k → take k bs ≡ bs
  take-all zero [] h = refl
  take-all zero (b ∷ bs) h = absurd (omega arith)
  take-all (suc k) [] h = refl
  take-all (suc k) (b ∷ bs) h = ap (λ l. b ∷ l) (take-all k bs (omega arith))

pub mem-take-false : (k a : ℕ) (bs : List ℕ) → mem a bs ≡ false → mem a (take k bs) ≡ false
mem-take-false zero a bs h = refl
mem-take-false (suc k) a [] h = refl
mem-take-false (suc k) a (b ∷ bs) h = ground (arith, mem-take-false k a bs)

pub not-mem-log :
    (start n a : ℕ) (bs : List ℕ)
    → AllHome start n bs
    → start < a
    → a ≤ start + n
    → mem a bs ≡ false
not-mem-log start n a [] home lo hi = refl
not-mem-log start n a (b ∷ bs) home lo hi = ground (arith, home.0, not-mem-log start n a bs home.1)

-- What one `write_head` does.
pub record WriteHead {A : Type 0} (lh : List ℕ) (m r : Machine A) : Type 0 where
  pub header : r.header ≡ (if ltb 0 m.left then lh else m.header)
  pub left : r.left ≡ m.left - 1
  pub block : (a : ℕ) → r.block a ≡ m.block a

pub write_head_lem : {A : Type 0} (lh : List ℕ) (m : Machine A) → WriteHead lh m (write_head lh m)
unfolding write_head
write_head_lem {A} lh m = record {
  header = go_header m.left;
  left = go_left m.left refl;
  block = λ a. go m.left a;
}
  where
    go_header : (k : ℕ) → (write_header k lh m).header ≡ (if ltb 0 k then lh else m.header)
    go_header zero = ground arith
    go_header (suc k) = ground arith

    go_left : (k : ℕ) → m.left ≡ k → (write_header k lh m).left ≡ m.left - 1
    go_left zero e = omega arith
    go_left (suc k) e = omega arith

    go : (k a : ℕ) → (write_header k lh m).block a ≡ m.block a
    go zero a = refl
    go (suc k) a = refl

pub write_head-stopped :
    {A : Type 0} (lh : List ℕ) (m : Machine A) → m.left ≡ 0 → write_head lh m ≡ m
unfolding write_head
write_head-stopped lh m h = ap (λ k. write_header k lh m) h

pub bwrite-stopped : {A : Type 0} (b : ℕ) (v : A) (m : Machine A) → m.left ≡ 0 → bwrite b v m ≡ m
unfolding bwrite
bwrite-stopped b v m h = ap (λ k. write_block k b v m) h

pub install_trans-stopped :
    {A : Type 0} (start tail : ℕ) (bs : List ℕ) (m : Machine A)
    → m.left ≡ 0
    → install_trans start tail bs m ≡ m
unfolding install_trans
install_trans-stopped start tail [] m h = refl
install_trans-stopped start tail (b ∷ bs) m h =
    ap (λ r. install_trans start (tail + 1) bs r)
      (bwrite-stopped b (m.block (start + tail + 1)) m h)
    ∙ install_trans-stopped start (tail + 1) bs m h

pub mem-empty : (a : ℕ) (bs : List ℕ) → ltb 0 (length bs) ≡ false → mem a bs ≡ false
mem-empty a [] h = refl
mem-empty a (b ∷ bs) h = ground arith
