-- ===== src/Kernel/Blocks/Alloc.antt =====
-- What `balloc` and `bfree` of ex3/q1/xv6/fs.c do to the set of blocks in use and to the blocks.
use operating_systems_soluti.Base.{
  ℕ, zero, suc, ◌+◌, ◌*◌, ◌/◌, ◌≤◌, ◌<◌, ◌≡◌, refl, ◌≢◌, ◌⊎◌, inl, inr, true, false, not, ◌&&◌,
  ◌||◌, Option, none, some, arith, ltb, ◌==◌, if◌then◌else◌, Bool-cases, update, find_from,
  find_from-some, find_from-none,
}
use operating_systems_soluti.Kernel.Blocks.{
  Superblock, Disk, bitmap_block, byte_of, bit_of, is_used, clear_bit, mark, set_byte, log_block,
  bzero, bsize, balloc_from, bpb, map_length, take_found, balloc, bfree,
}
use operating_systems_soluti.Kernel.Blocks.Space.{
  Fits, Fits-later, log_block-Fits, Steady, log_block-Steady,
}
use operating_systems_soluti.Kernel.Blocks.Bits.{has_bit-set_bit, has_bit-clear_bit, bits-IsByte}
use operating_systems_soluti.Kernel.Blocks.{set_bit}

-- The blocks of the bitmap are on the disk and in use themselves, and the disk holds bytes.
pub record IsLaidOut (sb : Superblock) (d : Disk) : Type 0 where
  pub bytes : (b off : ℕ) → d.byte b off < 256
  pub inside : (b : ℕ) → b < sb.size → bitmap_block sb b < sb.size
  pub maps : (b : ℕ) → b < sb.size → is_used sb d (bitmap_block sb b) ≡ true

-- `mark`, and the same with the bit cleared, write one byte of the bitmap.
abbrev pub unmark : Superblock → ℕ → Disk → Disk
unmark sb b d = log_block (bitmap_block sb b) (
    set_byte (bitmap_block sb b) (byte_of b)
      (clear_bit (d.byte (bitmap_block sb b) (byte_of b)) (bit_of b)) d)

abbrev pub claimed : Superblock → ℕ → Disk → Disk
claimed sb r d = bzero r (mark sb r d)

-- Two blocks have the same byte and the same bit only if they are the same.
apart :
    (sb : Superblock) (b r : ℕ)
    → (bitmap_block sb b ≡ bitmap_block sb r)
    → (byte_of b ≡ byte_of r)
    → (bit_of b ≡ bit_of r)
    → b ≡ r
apart sb b r e f g = omega arith

module _ (sb : Superblock) (d : Disk) (h : IsLaidOut sb d) where
  is_used-mark : (r b : ℕ) → is_used sb (mark sb r d) b ≡ (b == r || is_used sb d b)
  unfolding is_used log_block
  is_used-mark r b =
      let v : ℕ = d.byte (bitmap_block sb r) (byte_of r) in
      let bit =
        has_bit-set_bit v (h.bytes (bitmap_block sb r) (byte_of r)) (bit_of r) (bit_of b)
          (omega arith) (omega arith) in
      ground (arith, bit, apart sb b r)

  is_used-unmark : (r b : ℕ) → is_used sb (unmark sb r d) b ≡ (not (b == r) && is_used sb d b)
  unfolding is_used log_block
  is_used-unmark r b =
      let v : ℕ = d.byte (bitmap_block sb r) (byte_of r) in
      let bit =
        has_bit-clear_bit v (h.bytes (bitmap_block sb r) (byte_of r)) (bit_of r) (bit_of b)
          (omega arith) (omega arith) in
      ground (arith, bit, apart sb b r)

  IsLaidOut-bytes-mark : (r b off : ℕ) → (mark sb r d).byte b off < 256
  unfolding log_block
  IsLaidOut-bytes-mark r b off =
      let kept =
        bits-IsByte (d.byte (bitmap_block sb r) (byte_of r)) (bit_of r)
          (h.bytes (bitmap_block sb r) (byte_of r)) (omega arith) in
      ground (arith, kept, h.bytes b off)

  IsLaidOut-bytes-unmark : (r b off : ℕ) → (unmark sb r d).byte b off < 256
  unfolding log_block
  IsLaidOut-bytes-unmark r b off =
      let kept =
        bits-IsByte (d.byte (bitmap_block sb r) (byte_of r)) (bit_of r)
          (h.bytes (bitmap_block sb r) (byte_of r)) (omega arith) in
      ground (arith, kept, h.bytes b off)

  -- A block that is not in use is no block of the bitmap.
  pub free-ne-bitmap : (r b : ℕ) → is_used sb d r ≡ false → b < sb.size → bitmap_block sb b ≢ r
  free-ne-bitmap r b free lt e = ground (arith, h.maps b lt, e)

  is_used-claimed :
      (r b : ℕ)
      → is_used sb d r ≡ false
      → b < sb.size
      → is_used sb (claimed sb r d) b ≡ (b == r || is_used sb d b)
  unfolding is_used bzero
  is_used-claimed r b free lt =
      let other : (r == bitmap_block sb b) ≡ false = ground (arith, free-ne-bitmap r b free lt) in
      rw other (is_used-mark r b)

  -- What taking the free block `r` changes: it is in use and zero, and the contents of all other blocks stay,
  -- but for the bitmap, where the other blocks are marked as before.
  pub record Claimed (r : ℕ) (d' : Disk) : Type 0 where
    pub in_range : r < sb.size
    pub was_free : is_used sb d r ≡ false
    pub used : (b : ℕ) → b < sb.size → is_used sb d' b ≡ (b == r || is_used sb d b)
    pub zeroed : (off : ℕ) → off < bsize → d'.byte r off ≡ 0
    pub kept : (b off : ℕ) → b ≢ r → b ≢ bitmap_block sb r → d'.byte b off ≡ d.byte b off
    pub laid_out : IsLaidOut sb d'
    pub logs : Fits 2 d d'

  marked-Fits : (r : ℕ) → Fits 1 d (mark sb r d)
  marked-Fits r = log_block-Fits (bitmap_block sb r) (
      set_byte (bitmap_block sb r) (byte_of r)
        (set_bit (d.byte (bitmap_block sb r) (byte_of r)) (bit_of r)) d)

  zeroed-Fits : (r : ℕ) (d' : Disk) → Fits 1 d' (bzero r d')
  unfolding bzero
  zeroed-Fits r d' =
      log_block-Fits r
        (record d' { byte = update d'.byte r (λ off. if ltb off bsize then 0 else d'.byte r off) })

  claim : (r : ℕ) → r < sb.size → is_used sb d r ≡ false → Claimed r (claimed sb r d)
  unfolding bzero log_block
  claim r lt free = record {
    in_range = lt;
    was_free = free;
    used = λ b lb. is_used-claimed r b free lb;
    zeroed = λ off lo. ground arith;
    kept = λ b off ne nb. ground arith;
    laid_out = record {
      bytes = λ b off. ground (arith, IsLaidOut-bytes-mark r b off);
      inside = h.inside;
      maps = λ b lb.
          ground (arith, is_used-claimed r (bitmap_block sb b) free (h.inside b lb), h.maps b lb);
    };
    logs =
        Fits-later d (mark sb r d) (claimed sb r d) 1 1 (marked-Fits r)
          (zeroed-Fits r (mark sb r d));
  }

  -- What `balloc` returns: a free block that it has taken, or nothing where every block is in use.
  pub data Balloc : Option (Disk × ℕ) → Type 0 where
    allocated : (d' : Disk) (r : ℕ) → Claimed r d' → Balloc (some (d', r))
    full : ((b : ℕ) → b < sb.size → is_used sb d b ≡ true) → Balloc none

  -- `n` blocks of the bitmap from `b` on, and every block before in use.
  balloc_from-Balloc :
      (n b : ℕ)
      → ((k : ℕ) → k < b → k < sb.size → is_used sb d k ≡ true)
      → sb.size ≤ b + n * bpb
      → Balloc (balloc_from sb n b d)
  unfolding balloc_from
  balloc_from-Balloc zero b before enough = full (λ k lt. before k (omega arith) lt)
  balloc_from-Balloc (suc n) b before enough = elim (Bool-cases (ltb b sb.size)) [
    | inr done ↦ rw done (full (λ k lt. before k (ground arith) lt))
    | inl more ↦
        rw (balloc_from, more)
          (go (find_from (λ k. not (is_used sb d k)) (map_length sb b) b) refl (ground arith)
            (λ all. balloc_from-Balloc n (b + bpb) all (omega arith)))
  ]
    where
      go :
          (v : Option ℕ)
          → find_from (λ k. not (is_used sb d k)) (map_length sb b) b ≡ v
          → b < sb.size
          → (((k : ℕ) → k < b + bpb → k < sb.size → is_used sb d k ≡ true)
              → Balloc (balloc_from sb n (b + bpb) d))
          → Balloc (take_found sb d v (balloc_from sb n (b + bpb) d))
      go (some r) e more_left rest =
          let hit = find_from-some (λ k. not (is_used sb d k)) (map_length sb b) b r e in
          allocated (claimed sb r d) r
            (claim r (ground (arith, hit, more_left)) (ground (arith, hit)))
      go none e more_left rest = rest (λ k lt top. elim (Bool-cases (ltb k b)) [
        | inl old ↦ before k (ground arith) top
        | inr fresh ↦
            let miss =
              find_from-none (λ k. not (is_used sb d k)) (map_length sb b) b k e (ground arith) in
            ground (arith, miss)
      ])

  -- On a laid-out disk `balloc` takes a free block, zeroes it and marks it, and leaves the marks and contents of
  -- all other blocks as they are, the bitmap apart; it panics only when every block is in use.
  pub balloc-Balloc : Balloc (balloc sb d)
  unfolding balloc
  balloc-Balloc =
      balloc_from-Balloc (sb.size / bpb + 1) 0 (λ k lt. absurd (omega arith)) (omega arith)

  -- What giving back block `r` changes: it is free, and nothing else, the bitmap apart.
  pub record Freed (r : ℕ) (d' : Disk) : Type 0 where
    pub free : (b : ℕ) → is_used sb d' b ≡ (not (b == r) && is_used sb d b)
    pub kept : (b off : ℕ) → b ≢ bitmap_block sb r → d'.byte b off ≡ d.byte b off
    pub laid_out : IsLaidOut sb d'
    pub same_inodes : d'.dinode ≡ d.dinode
    pub logs : (n : ℕ) → 0 < n → Steady (bitmap_block sb r) n d → Steady (bitmap_block sb r) n d'

  -- `bfree` of a block in use, which is no block of the bitmap, frees it and nothing else; of a free block it
  -- is a panic.
  pub bfree-Freed :
      (r : ℕ)
      → ((b : ℕ) → b < sb.size → bitmap_block sb b ≢ r)
      → ((is_used sb d r ≡ true) × (bfree sb r d ≡ some (unmark sb r d)) × Freed r (unmark sb r d))
        ⊎ ((is_used sb d r ≡ false) × (bfree sb r d ≡ none))
  unfolding bfree log_block
  bfree-Freed r no_map = elim (Bool-cases (is_used sb d r)) [
    | inr free ↦ inr (free, rw free refl)
    | inl used ↦ inl (
      used,
      rw used refl,
      record {
        free = is_used-unmark r;
        kept = λ b off ne. ground arith;
        laid_out = record {
          bytes = λ b off. IsLaidOut-bytes-unmark r b off;
          inside = h.inside;
          maps = λ b lb.
              ground (arith, is_used-unmark r (bitmap_block sb b), h.maps b lb, no_map b lb);
        };
        same_inodes = refl;
        logs = λ n some_room w.
            log_block-Steady (bitmap_block sb r) n
              (set_byte (bitmap_block sb r) (byte_of r)
                (clear_bit (d.byte (bitmap_block sb r) (byte_of r)) (bit_of r)) d)
              some_room w;
      },
    )
  ]
