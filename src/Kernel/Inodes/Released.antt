-- ===== src/Kernel/Inodes/Released.antt =====
-- The blocks of a file of ex3/q1/xv6/fs.c as `itrunc` gives them back, one after the other.
use operating_systems_soluti.Base.{
  ℕ, ◌≤◌, ◌<◌, ◌≡◌, refl, sym, ap, ◌∙◌, ◌≢◌, inl, inr, Bool, true, false, ◌||◌, some, arith, ◌==◌,
  Bool-cases,
}
use operating_systems_soluti.Kernel.Blocks.Space.{Writable, Steady, Writable-Steady}
use operating_systems_soluti.Kernel.Blocks.{bpb, Superblock, Disk, bitmap_block, is_used, bfree}
use operating_systems_soluti.Kernel.Blocks.Alloc.{IsLaidOut, Freed, bfree-Freed}
use operating_systems_soluti.Kernel.Inodes.{Inode, free_if}
use operating_systems_soluti.Kernel.Inodes.Pointers.{ptr, slots, IsFile}

-- What has changed on the disk when the blocks of the slots in `done` have been freed: they are free, and all
-- other blocks are as they were; only blocks of the bitmap have other contents.
pub record Released (sb : Superblock) (d : Disk) (ip : Inode) (done : ℕ → Bool) (d' : Disk)
    : Type 0 where
  pub laid_out : IsLaidOut sb d'
  pub gone :
      (j : ℕ) → j < slots → done j ≡ true → ptr d ip j ≢ 0 → is_used sb d' (ptr d ip j) ≡ false
  pub stays :
      (b : ℕ)
      → ((j : ℕ) → j < slots → done j ≡ true → ptr d ip j ≢ 0 → ptr d ip j ≢ b)
      → is_used sb d' b ≡ is_used sb d b
  pub kept :
      (b off : ℕ) → ((k : ℕ) → k < sb.size → bitmap_block sb k ≢ b) → d'.byte b off ≡ d.byte b off
  pub same_inodes : d'.dinode ≡ d.dinode
  pub logs : Steady sb.bmapstart 2 d'

module _ (sb : Superblock) {d : Disk} {ip : Inode} (h : IsFile sb d ip) where
  pub none-Released :
      Writable 3 d → (done : ℕ → Bool) → ((j : ℕ) → done j ≡ false) → Released sb d ip done d
  none-Released w done none_done = record {
    laid_out = h.laid_out;
    gone = λ j lj e nz. absurd (ground (arith, none_done j, e));
    stays = λ b apart. refl;
    kept = λ b off no_map. refl;
    same_inodes = refl;
    logs = Writable-Steady sb.bmapstart 2 d w;
  }

  -- The slots in `done` and slot `k`.
  abbrev pub and_slot : (ℕ → Bool) → ℕ → ℕ → Bool
  and_slot done k j = j == k || done j

  module _ (done : ℕ → Bool) {d' : Disk} (r : Released sb d ip done d') (k : ℕ) (lt : k < slots)
      (new : done k ≡ false) where
    nothing-Released : ptr d ip k ≡ 0 → Released sb d ip (and_slot done k) d'
    nothing-Released z = record {
      laid_out = r.laid_out;
      gone = λ j lj e nz. elim (Bool-cases (j == k)) [
        | inl here ↦ let s : j ≡ k = ground arith in absurd (nz (ap (ptr d ip) s ∙ z))
        | inr there ↦ r.gone j lj (ground (arith, e, there)) nz
      ];
      stays = λ b apart. r.stays b (λ j lj e nz. apart j lj (ground (arith, e)) nz);
      kept = r.kept;
      same_inodes = r.same_inodes;
      logs = r.logs;
    }

    -- The block of a slot that is not in `done` is still in use.
    still_used : ptr d ip k ≢ 0 → is_used sb d' (ptr d ip k) ≡ true
    still_used nz =
        r.stays (ptr d ip k) (λ j lj e nj s.
          let same = h.distinct j k lj lt nj s in
          let late : done j ≡ false = ap done same ∙ new in ground (arith, e, late))
        ∙ (h.blocks k lt nz).used

    Freed-Released :
        {d2 : Disk}
        → sb.size ≤ bpb
        → ptr d ip k ≢ 0
        → Freed sb d' r.laid_out (ptr d ip k) d2
        → Released sb d ip (and_slot done k) d2
    Freed-Released {d2} small nz f = record {
      laid_out = f.laid_out;
      gone = λ j lj e nj. elim (Bool-cases (j == k)) [
        | inl here ↦ let s : j ≡ k = ground arith in rw s (ground (arith, f.free (ptr d ip k)))
        | inr there ↦
            let old = r.gone j lj (ground (arith, e, there)) nj in
            ground (arith, f.free (ptr d ip j), old)
      ];
      stays = λ b apart.
          let other : (b == ptr d ip k) ≡ false =
            let ne = apart k lt (ground arith) nz in ground (arith, ne) in
          f.free b ∙ rw other (r.stays b (λ j lj e nj. apart j lj (ground (arith, e)) nj));
      kept = λ b off no_map.
          f.kept b off (λ e. no_map (ptr d ip k) (h.blocks k lt nz).in_range (sym e))
          ∙ r.kept b off no_map;
      same_inodes = f.same_inodes ∙ r.same_inodes;
      logs =
          let in_range = (h.blocks k lt nz).in_range in
          let one_map : bitmap_block sb (ptr d ip k) ≡ sb.bmapstart =
            omega (arith, in_range, small) in
          rw one_map at (f.logs 2 (omega arith) (rw one_map r.logs));
    }

    -- A round of the loops of `itrunc`: it does not panic.
    pub free_if-Released :
        sb.size ≤ bpb
        → (p : ℕ) → p ≡ ptr d ip k
        → (d2 : Disk) × (free_if sb p d' ≡ some d2) × Released sb d ip (and_slot done k) d2
    free_if-Released small p e = elim (Bool-cases (p == 0)) [
      | inl nothing ↦
          let z : p ≡ 0 = ground arith in (d', rw nothing refl, nothing-Released (sym e ∙ z))
      | inr block ↦ rw block (freed (ground (arith, e, block)))
    ]
      where
        freed :
            ptr d ip k ≢ 0
            → (d2 : Disk) × (bfree sb p d' ≡ some d2) × Released sb d ip (and_slot done k) d2
        freed nz = elim (bfree-Freed sb d' r.laid_out (ptr d ip k) (h.blocks k lt nz).no_map) [
          | inl (used, eq, f) ↦ (_, rw e eq, Freed-Released small nz f)
          | inr (free, eq) ↦ absurd (ground (arith, still_used nz, free))
        ]
