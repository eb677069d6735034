-- ===== src/Kernel/Inodes/Contents.antt =====
-- What one copy into a block of a file does to the bytes of the file, in ex3/q1/xv6/fs.c.
use operating_systems_soluti.Base.{
  ℕ, ◌+◌, ◌-◌, ◌/◌, ◌%◌, ◌≤◌, ◌<◌, ◌≡◌, refl, sym, ◌∙◌, ◌≢◌, inl, inr, false, ◌&&◌, arith, ltb, leb,
  ◌==◌, if◌then◌else◌, ==_refl, Bool-cases,
}
use operating_systems_soluti.Kernel.Blocks.{
  Superblock, Disk, bsize, is_used, bitmap_block, log_block,
}
use operating_systems_soluti.Kernel.Inodes.{Inode, copy_in}
use operating_systems_soluti.Kernel.Inodes.Pointers.{
  ptr, slots, slot, file_byte, IsData, IsFile, read_uint-kept,
}

-- The byte at an offset of the file.
abbrev pub file_at : Disk → Inode → ℕ → ℕ
file_at d ip k = file_byte d ip (k / bsize) (k % bsize)

module _ (sb : Superblock) {d : Disk} {ip : Inode} (h : IsFile sb d ip) (bn : ℕ) (lt : bn < 140)
    (block : ℕ) (held : ptr d ip (slot bn) ≡ block) (there : block ≢ 0) (o m : ℕ)
    (fits : o + m ≤ bsize) (src : ℕ → ℕ) (bytes : (k : ℕ) → src k < 256) where
  abbrev after_copy : Disk
  after_copy = copy_in block o m src d

  block-IsData : IsData sb d block
  block-IsData = rw held at (h.blocks (slot bn) (ground arith) (λ z. there (sym held ∙ z)))

  copy_in-kept : (b off : ℕ) → b ≢ block → after_copy.byte b off ≡ d.byte b off
  unfolding log_block
  copy_in-kept b off ne = let other : (block == b) ≡ false = ground (arith, ne) in rw other refl

  copy_in-ptr : (k : ℕ) → k < slots → ptr after_copy ip k ≡ ptr d ip k
  copy_in-ptr k lk = elim (Bool-cases (ltb k 13)) [
    | inl direct ↦ rw direct refl
    | inr behind ↦ elim (Bool-cases (ip.addrs 12 == 0)) [
      | inl missing ↦ rw (behind, missing) refl
      | inr ind ↦
          let ne : ip.addrs 12 ≢ block = λ e. ground (
            arith,
            h.distinct 12 (slot bn) (omega arith) (ground arith) (ground (arith, ind))
                (e ∙ sym held),
          ) in
          rw (behind, ind)
            (read_uint-kept d after_copy (ip.addrs 12) (λ off. copy_in-kept (ip.addrs 12) off ne)
              (k - 13))
    ]
  ]

  pub copy_in-used : (b : ℕ) → b < sb.size → is_used sb after_copy b ≡ is_used sb d b
  unfolding is_used
  copy_in-used b lb =
      let e = copy_in-kept (bitmap_block sb b) (b % 4096 / 8) (block-IsData.no_map b lb) in
      rw e refl

  pub copy_in-IsFile : IsFile sb after_copy ip
  unfolding log_block
  copy_in-IsFile = record {
    laid_out = record {
      bytes = λ b off.
          ground (arith, h.laid_out.bytes b off, h.laid_out.bytes block off, bytes (off - o));
      inside = h.laid_out.inside;
      maps =
          λ b lb. copy_in-used (bitmap_block sb b) (h.laid_out.inside b lb) ∙ h.laid_out.maps b lb;
    };
    word_size = h.word_size;
    boot = copy_in-used 0 (omega (arith, block-IsData.in_range)) ∙ h.boot;
    blocks = λ k lk nz.
        let e = copy_in-ptr k lk in
        let x = h.blocks k lk (λ z. nz (e ∙ z)) in
        rw e (record {
          not_boot = x.not_boot;
          in_range = x.in_range;
          used = copy_in-used (ptr d ip k) x.in_range ∙ x.used;
          no_map = x.no_map;
        });
    distinct =
        λ j k lj lk nz e. ground (arith, copy_in-ptr j lj, copy_in-ptr k lk, h.distinct j k lj lk);
  }

  pub copy_in-file_byte :
      (bn' off : ℕ)
      → bn' < 140
      → file_byte after_copy ip bn' off ≡ (
          if bn' == bn && (leb o off && ltb off (o + m))
          then src (off - o)
          else file_byte d ip bn' off)
  unfolding log_block
  copy_in-file_byte bn' off lb =
      let p = copy_in-ptr (slot bn') (ground arith) in
      elim (Bool-cases (bn' == bn)) [
        | inl same ↦
            let e : bn' ≡ bn = ground arith in
            rw (p, e, held, ==_refl bn, ==_refl block) (ground (arith, there))
        | inr other ↦
            rw (p, other)
              (ground
                (arith, h.distinct (slot bn') (slot bn) (ground arith) (ground arith), held, other))
      ]
